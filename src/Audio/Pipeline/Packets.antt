-- ===== src/Audio/Pipeline/Packets.antt =====
-- The loops of `AP` write every packet that the encoder gives, and nothing out of order.
use audio_tool_api.Prelude.{ap, ℕ, zero, suc, Option, none, some, [], ◌∷◌, ◌++◌, Bytes, codes}
use audio_tool_api.Effects.Rules.{Ensures, ◌$◌, bind_rule, pure_rule, leave_rule}
use audio_tool_api.Effects.Keeps.{Keeps, keeps_rules, Keeps-bind, Keeps-if_some}
use audio_tool_api.Processor.{
  eof, eagain, enomem, exit_code, other, Answer, gives, refuses, Samples,
}
use audio_tool_api.Processor.Media.{writing, when_writing}
use audio_tool_api.Audio.Pipeline.{
  message, terminates, Raised, Call, Calls, receives_packet, writes_packet, Libav, Ap, Run,
  record_call, ask, succeed, pure, if_some, ◌>>=◌,
}
use audio_tool_api.Audio.Pipeline.Process.{
  drained, spin, write_packets, encode_write, filter_frames, filter_encode_write, frame_received,
  decode_packet, copy_packet, read_packets, packet_of, flush_encoder, flush_stream,
}
use audio_tool_api.Audio.Pipeline.Order.{InPhase, ap_rules, Keeps-succeed, Keeps-has_filter}

abbrev Writes : {A : Type 0} → Run A → Type 0
Writes m = Keeps (InPhase writing) m

pub ask_rule :
    {A : Type 0} {B C : Type 0} {E : Ap → Type 0} {R : A → Ap → Type 0} (f : Calls → A)
    (call : A → Call) (s : Ap)
    → R (f s.calls) (record_call (call (f s.calls)) s)
    → Ensures {X = Raised} B C E R (ask f call s)
unfolding ask
ask_rule f call s r = record { ends = r }

Keeps-drained : {A : Type 0} (a : Answer A) (e : Raised) → Writes (drained a e)
unfolding drained
Keeps-drained (gives a) e = search keeps_rules
Keeps-drained (refuses eagain) e = search keeps_rules
Keeps-drained (refuses eof) e = search keeps_rules
Keeps-drained (refuses enomem) e = search keeps_rules
Keeps-drained (refuses exit_code) e = search keeps_rules
Keeps-drained (refuses other) e = search keeps_rules

module _ (av : Libav) where
  Keeps-spin : Writes {A = Unit {0}} spin
  unfolding spin
  Keeps-spin = record { at = λ s p. record { ends = tt } }

  -- The body of the loop over the packets, before its next round.
  received :
      (i : ℕ) (rest : Run (Unit {0})) (ret : Answer Bytes) (s : Ap)
      → Writes rest
      → InPhase writing s
      → Ensures {X = Raised}
          (Unit {0})
          (Unit {0})
          (InPhase writing)
          (λ _. InPhase writing)
          ((drained ret (message (codes "error encoding audio frame")) >>= λ packet.
              if_some packet
                (λ enc_pkt.
                  ask (λ h. av.write_frame h i enc_pkt) (writes_packet i enc_pkt) >>= λ error.
                  succeed error (codes "Error writing frame") >>= λ _. rest)
                (pure tt))
            (record_call (receives_packet i ret) s))
  unfolding drained if_some
  received i rest (gives p) s k (same, now) =
      bind_rule _ _ _
      $ pure_rule _ _
      $ bind_rule _ _ _
      $ ask_rule _ _ _
      $ (Keeps-bind _ _ (Keeps-succeed _ _) (λ _. k)).at _
          (ap (λ l. l ++ ((i, p) ∷ [])) same, ap (λ w. when_writing w writing) now)
  received i rest (refuses eagain) s k q = bind_rule _ _ _ $ pure_rule _ _ $ pure_rule _ _ q
  received i rest (refuses eof) s k q = bind_rule _ _ _ $ pure_rule _ _ $ pure_rule _ _ q
  received i rest (refuses enomem) s k q = bind_rule _ _ _ $ leave_rule _ _ q
  received i rest (refuses exit_code) s k q = bind_rule _ _ _ $ leave_rule _ _ q
  received i rest (refuses other) s k q = bind_rule _ _ _ $ leave_rule _ _ q

  Keeps-write_packets : (fuel i : ℕ) → Writes (write_packets av fuel i)
  unfolding write_packets
  Keeps-write_packets zero i = Keeps-spin
  Keeps-write_packets (suc fuel) i = record {
    at = λ s q.
        bind_rule _ _ s
        $ ask_rule _ _ _
        $ received i (write_packets av fuel i) (av.receive_packet s.calls i) s
            (Keeps-write_packets fuel i) q;
  }

  Keeps-encode_write : (fuel : ℕ) (xs : Option Samples) (i : ℕ) → Writes (encode_write av fuel xs i)
  unfolding encode_write
  Keeps-encode_write fuel xs i = search (ap_rules, Keeps-write_packets) depth 40

  Keeps-filter_frames : (rounds fuel i : ℕ) → Writes (filter_frames av rounds fuel i)
  unfolding filter_frames
  Keeps-filter_frames zero fuel i = Keeps-spin
  Keeps-filter_frames (suc rounds) fuel i = Keeps-bind _ _ (search ap_rules) $ λ _.
      Keeps-bind _ _ (search ap_rules) $ λ error.
      Keeps-bind _ _ (Keeps-drained error terminates) $ λ filt_frame.
      Keeps-if_some filt_frame _ _
        (λ xs. Keeps-bind _ _ (Keeps-encode_write fuel (some xs) i) $ λ _.
          Keeps-filter_frames rounds fuel i)
        (search ap_rules)

  Keeps-filter_encode_write :
      (rounds fuel : ℕ) (xs : Option Samples) (i : ℕ)
      → Writes (filter_encode_write av rounds fuel xs i)
  unfolding filter_encode_write
  Keeps-filter_encode_write rounds fuel xs i = search (ap_rules, Keeps-filter_frames) depth 40

  Keeps-frame_received :
      (rounds fuel i : ℕ) (a : Answer Samples) → Writes (frame_received av rounds fuel i a)
  unfolding frame_received
  Keeps-frame_received rounds fuel i (gives xs) = Keeps-filter_encode_write rounds fuel (some xs) i
  Keeps-frame_received rounds fuel i (refuses eagain) = search keeps_rules
  Keeps-frame_received rounds fuel i (refuses eof) = search keeps_rules
  Keeps-frame_received rounds fuel i (refuses enomem) = search keeps_rules
  Keeps-frame_received rounds fuel i (refuses exit_code) = search keeps_rules
  Keeps-frame_received rounds fuel i (refuses other) = search keeps_rules

  Keeps-decode_packet : (rounds fuel i : ℕ) → Writes (decode_packet av rounds fuel i)
  unfolding decode_packet
  Keeps-decode_packet rounds fuel i = search (ap_rules, Keeps-frame_received) depth 40

  Keeps-copy_packet : (i : ℕ) → Writes (copy_packet av i)
  unfolding copy_packet
  Keeps-copy_packet i =
      Keeps-bind _ _
        (record {
          at = λ s (same, now). ask_rule _ _ s (same, ap (λ w. when_writing w writing) now);
        })
        (λ error. search ap_rules)

  pub Keeps-read_packets : (packets rounds fuel : ℕ) → Writes (read_packets av packets rounds fuel)
  unfolding read_packets
  Keeps-read_packets zero rounds fuel = Keeps-spin
  Keeps-read_packets (suc packets) rounds fuel = Keeps-bind _ _ (search ap_rules) $ λ error.
      Keeps-if_some (packet_of error) _ _
        (λ i. Keeps-bind _ _ (Keeps-has_filter av i) $ λ there.
          Keeps-bind _ _ (search (ap_rules, Keeps-decode_packet, Keeps-copy_packet)) $ λ _.
          Keeps-read_packets packets rounds fuel)
        (search ap_rules)

  Keeps-flush_encoder : (flushes fuel i : ℕ) → Writes (flush_encoder av flushes fuel i)
  unfolding flush_encoder
  Keeps-flush_encoder zero fuel i = Keeps-spin
  Keeps-flush_encoder (suc flushes) fuel i =
      Keeps-bind _ _ (Keeps-encode_write fuel none i) (λ _. Keeps-flush_encoder flushes fuel i)

  pub Keeps-flush_stream :
      (rounds flushes fuel i : ℕ) → Writes (flush_stream av rounds flushes fuel i)
  unfolding flush_stream
  Keeps-flush_stream rounds flushes fuel i =
      search (ap_rules, Keeps-has_filter, Keeps-filter_encode_write, Keeps-flush_encoder) depth 40
