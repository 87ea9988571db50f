-- ===== src/Audio/Pipeline/Order.antt =====
-- In which order `AP` writes to its output.
use audio_tool_api.Prelude.{ℕ, zero, suc, ◌≡◌, Bool, true, false, List, [], ◌∷◌, ◌++◌, Bytes}
use audio_tool_api.Effects.Keeps.{Keeps, keeps_rules, Keeps-bind}
use audio_tool_api.Processor.{Answer, gives, refuses, Code}
use audio_tool_api.Processor.Media.{Phase, before, writing, ended, after_header, when_writing}
use audio_tool_api.Audio.Pipeline.{
  StreamContext, CodecContext, Resource, Call, Calls, receives_packet, writes_packet, copies_packet,
  writes_header, writes_trailer, Libav, Ap, Run, record_call, ask, require, succeed, try_alloc,
  alloc, stream_context, set_stream, for_each, nb_streams, codec_of,
}
use audio_tool_api.Audio.Pipeline.Setup.{
  init_decoder, input_opened, open_input, info_found, find_stream_info, init_input, init_encoder,
  init_stream, init_filter, init_filters,
}
use audio_tool_api.Audio.Pipeline.Process.{has_filter, free_stream}

-- The packets that the encoders gave, and those that were written of them, in order.
abbrev pub packets_given : Calls → List (ℕ × Bytes)
packets_given [] = []
packets_given (receives_packet i (gives p) ∷ h) = packets_given h ++ ((i, p) ∷ [])
packets_given (c ∷ h) = packets_given h

abbrev pub packets_out : Calls → List (ℕ × Bytes)
packets_out [] = []
packets_out (writes_packet i p code ∷ h) = packets_out h ++ ((i, p) ∷ [])
packets_out (c ∷ h) = packets_out h

-- Where the container's file is.
abbrev pub file_phase : Calls → Phase
file_phase [] = before
file_phase (writes_header code ∷ h) = after_header code (file_phase h)
file_phase (writes_packet i p code ∷ h) = when_writing (file_phase h) writing
file_phase (copies_packet i code ∷ h) = when_writing (file_phase h) writing
file_phase (writes_trailer code ∷ h) = when_writing (file_phase h) ended
file_phase (c ∷ h) = file_phase h

abbrev pub InPhase : Phase → Ap → Type 0
InPhase w s = (packets_out s.calls ≡ packets_given s.calls) × (file_phase s.calls ≡ w)

module _ {w : Phase} where
  pub Keeps-require : (b : Bool) (text : Bytes) → Keeps (InPhase w) (require b text)
  unfolding require
  Keeps-require true text = search keeps_rules
  Keeps-require false text = search keeps_rules

  pub Keeps-succeed :
      {A : Type 0} (a : Answer A) (text : Bytes) → Keeps (InPhase w) (succeed a text)
  unfolding succeed
  Keeps-succeed (gives a) text = search keeps_rules
  Keeps-succeed (refuses e) text = search keeps_rules

  pub Keeps-ask :
      {A : Type 0} (f : Calls → A) (call : A → Call)
      → ((s : Ap) → InPhase w s → InPhase w (record_call (call (f s.calls)) s))
      → Keeps (InPhase w) (ask f call)
  unfolding ask
  Keeps-ask f call k = record { at = λ s p. record { ends = k s p } }

  pub Keeps-try_alloc : (av : Libav) (r : Resource) → Keeps (InPhase w) (try_alloc av r)
  unfolding try_alloc
  Keeps-try_alloc av r = search keeps_rules

  pub Keeps-alloc : (av : Libav) (r : Resource) (text : Bytes) → Keeps (InPhase w) (alloc av r text)
  unfolding alloc
  Keeps-alloc av r text = search (keeps_rules, Keeps-try_alloc, Keeps-require)

  pub Keeps-stream_context : (i : ℕ) → Keeps (InPhase w) (stream_context i)
  unfolding stream_context
  Keeps-stream_context i = search keeps_rules

  pub Keeps-set_stream :
      (i : ℕ) (f : StreamContext → StreamContext) → Keeps (InPhase w) (set_stream i f)
  unfolding set_stream
  Keeps-set_stream i f = search (keeps_rules, Keeps-stream_context)

  pub Keeps-for_each :
      (number first : ℕ) (body : ℕ → Run (Unit {0}))
      → ((i : ℕ) → Keeps (InPhase w) (body i))
      → Keeps (InPhase w) (for_each number first body)
  unfolding for_each
  Keeps-for_each zero first body k = search keeps_rules
  Keeps-for_each (suc number) first body k =
      Keeps-bind (body first) (λ _. for_each number (suc first) body) (k first)
        (λ _. Keeps-for_each number (suc first) body k)

  pub Keeps-nb_streams : (av : Libav) → Keeps (InPhase w) (nb_streams av)
  unfolding nb_streams
  Keeps-nb_streams av = search keeps_rules

  pub Keeps-codec_of : (av : Libav) (i : ℕ) → Keeps (InPhase w) (codec_of av i)
  unfolding codec_of
  Keeps-codec_of av i = search keeps_rules

pub ruleset ap_rules = (
  keeps_rules, Keeps-require, Keeps-succeed, Keeps-ask, Keeps-try_alloc, Keeps-alloc,
  Keeps-stream_context, Keeps-set_stream, Keeps-for_each, Keeps-nb_streams, Keeps-codec_of,
)

module _ (av : Libav) {w : Phase} where
  Keeps-init_decoder : (i : ℕ) → Keeps (InPhase w) (init_decoder av i)
  unfolding init_decoder
  Keeps-init_decoder i = search ap_rules depth 40

  Keeps-input_opened : (c : Code) → Keeps (InPhase w) (input_opened av c)
  unfolding input_opened
  Keeps-input_opened (gives n) = search ap_rules
  Keeps-input_opened (refuses e) = search ap_rules

  Keeps-info_found : (c : Code) → Keeps (InPhase w) (info_found av c)
  unfolding info_found
  Keeps-info_found (gives n) = search ap_rules
  Keeps-info_found (refuses e) = search ap_rules

  pub Keeps-init_input : Keeps (InPhase w) (init_input av)
  unfolding init_input open_input find_stream_info
  Keeps-init_input =
      search (ap_rules, Keeps-init_decoder, Keeps-input_opened, Keeps-info_found) depth 40

  Keeps-init_encoder : (i : ℕ) (c : CodecContext) → Keeps (InPhase w) (init_encoder av i c)
  unfolding init_encoder
  Keeps-init_encoder i c = search ap_rules depth 40

  pub Keeps-init_stream : (i : ℕ) → Keeps (InPhase w) (init_stream av i)
  unfolding init_stream
  Keeps-init_stream i = search (ap_rules, Keeps-init_encoder) depth 40

  Keeps-init_filter : (i : ℕ) (c : StreamContext) → Keeps (InPhase w) (init_filter av i c)
  unfolding init_filter
  Keeps-init_filter i c = search ap_rules depth 60

  pub Keeps-init_filters : Keeps (InPhase w) (init_filters av)
  unfolding init_filters
  Keeps-init_filters = search (ap_rules, Keeps-init_filter) depth 40

  pub Keeps-has_filter : (i : ℕ) → Keeps (InPhase w) (has_filter av i)
  unfolding has_filter
  Keeps-has_filter i = search ap_rules

  pub Keeps-free_stream : (i : ℕ) → Keeps (InPhase w) (free_stream av i)
  unfolding free_stream
  Keeps-free_stream i = search (ap_rules, Keeps-has_filter) depth 40
