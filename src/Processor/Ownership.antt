-- ===== src/Processor/Ownership.antt =====
-- What `AudioProcessor` holds of ffmpeg: each of its pointers is not null exactly while the resource
-- is held, and nothing is given back twice.
use audio_tool_api.Prelude.{
  ℕ, ◌≡◌, Bool, true, false, Option, none, some, [], ◌∷◌, if◌then◌else◌, ◌==◌, get_elem?, arith,
}
use audio_tool_api.Processor.{
  CodecContext, gives, Resource, input_context, input_avio_buffer, input_avio, decoder,
  output_context, output_avio_buffer, output_avio, encoder, resampler, fifo_buffer, frame, samples,
  packet, Event, acquires, releases, History, Ffmpeg, AudioProcessor, fresh,
}
use audio_tool_api.Processor.Media.{traffic}
use audio_tool_api.Effects.Rules.{
  Ensures, ◌$◌, bind_rule, modify_rule, on_error_rule, pointed_rule, deref_rule, pure_rule, mono,
}
use audio_tool_api.Processor.Rules.{
  acquire_rule, attempt_rule, check_rule, found_rule, same_rate_rule,
}
use audio_tool_api.Processor.Opening.{
  close_input, free_output, stream_at, open_decoder, open_input_file, encoder_context, open_encoder,
  open_output_file, init_resampler, init_fifo,
}

abbrev pub number : Resource → ℕ
number input_context = 0
number input_avio_buffer = 1
number input_avio = 2
number decoder = 3
number output_context = 4
number output_avio_buffer = 5
number output_avio = 6
number encoder = 7
number resampler = 8
number fifo_buffer = 9
number frame = 10
number samples = 11
number packet = 12

-- `misused`: given back when it was not held, or taken again while it was.
pub data Holding : Type 0 where
  free taken misused : Holding

abbrev pub take_it : Holding → Holding
take_it free = taken
take_it _ = misused

abbrev pub give_back : Holding → Holding
give_back taken = free
give_back _ = misused

abbrev pub step : Resource → Event → Holding → Holding
step r (acquires r') h = if number r == number r' then take_it h else h
step r (releases r') h = if number r == number r' then give_back h else h
step r e h = h

abbrev pub holding : Resource → History → Holding
holding r [] = free
holding r (e ∷ h) = step r e (holding r h)

abbrev pub is_some : {A : Type 0} → Option A → Bool
is_some none = false
is_some (some a) = true

abbrev pub by_pointer : Bool → Holding
by_pointer true = taken
by_pointer false = free

-- Every pointer is null or its target is held; `held` says whether a frame is.
pub record IsOwner {Q : Type 0} (held : Holding) (s : AudioProcessor Q) : Type 0 where
  pub input : holding input_context s.history ≡ by_pointer s.input_format_context
  pub decoder_ : holding decoder s.history ≡ by_pointer (is_some s.input_codec_context)
  pub output : holding output_context s.history ≡ by_pointer s.output_format_context
  pub encoder_ : holding encoder s.history ≡ by_pointer (is_some s.output_codec_context)
  pub resampler_ : holding resampler s.history ≡ by_pointer s.resample_context
  pub fifo_ : holding fifo_buffer s.history ≡ by_pointer (is_some s.fifo)
  pub frame_ : holding frame s.history ≡ held

abbrev pub rate : Option CodecContext → Option ℕ
rate none = none
rate (some c) = some c.sample_rate

-- Which pointers are set, one after the other, before the first sample is read.
pub record Stage {Q : Type 0} (input dec output enc res fif : Bool) (s : AudioProcessor Q)
    : Type 0 where
  pub owner : IsOwner free s
  pub input_is : s.input_format_context ≡ input
  pub dec_is : is_some s.input_codec_context ≡ dec
  pub output_is : s.output_format_context ≡ output
  pub enc_is : is_some s.output_codec_context ≡ enc
  pub res_is : s.resample_context ≡ res
  pub fif_is : is_some s.fifo ≡ fif
  pub rates : rate s.output_codec_context ≡ (if enc then rate s.input_codec_context else none)
  pub pts_is : s.pts ≡ 0
  pub quiet : traffic s.history ≡ []

-- What is left when a part fails before the first sample.
pub record IsQuiet {Q : Type 0} (s : AudioProcessor Q) : Type 0 where
  pub owned : IsOwner free s
  pub at_zero : s.pts ≡ 0
  pub no_traffic : traffic s.history ≡ []

pub fresh-Stage : {Q : Type 0} → Stage {Q = Q} false false false false false false fresh
fresh-Stage = ground arith

module _ {Q : Type 0} (av : Ffmpeg Q) {B C : Type 0} where
  open_decoder-Stage :
      (id : ℕ) (s : AudioProcessor Q)
      → Stage true false false false false false s
      → Ensures B C
          (λ s'. IsQuiet s' × (s'.input_format_context ≡ true))
          (λ a. Stage true true false false false false)
          (open_decoder av id s)
  unfolding open_decoder
  open_decoder-Stage id s v =
      bind_rule _ _ _
      $ acquire_rule _ _ _ _ (ground (arith, v.owner))
      $ bind_rule _ _ _
      $ modify_rule _ _
      $ bind_rule _ _ _
      $ on_error_rule _ _ _
      $ bind_rule _ _ _
      $ attempt_rule _ _ (ground (arith, v.owner)) λ c p.
        bind_rule _ _ _
        $ attempt_rule _ _ (ground (arith, v.owner))
            λ n p'. pure_rule _ _ $ modify_rule _ _ (ground (arith, v.owner))

  -- A stream number that is out of range crashes.
  pub open_input_file-Stage :
      (s : AudioProcessor Q)
      → ((h : History) (n : ℕ)
          → av.find_stream_info h ≡ gives n
          → get_elem? (av.streams h) n ≡ none
          → B)
      → Stage false false false false false false s
      → Ensures B C IsQuiet (λ a. Stage true true false false false false) (open_input_file av s)
  unfolding open_input_file stream_at close_input
  open_input_file-Stage s out v =
      bind_rule _ _ _
      $ acquire_rule _ _ _ _ (ground (arith, v.owner))
      $ bind_rule _ _ _
      $ modify_rule _ _
      $ bind_rule _ _ _
      $ acquire_rule _ _ _ _ (ground (arith, v.owner))
      $ bind_rule _ _ _
      $ acquire_rule _ _ _ _ (ground (arith, v.owner))
      $ on_error_rule _ _ _
      $ bind_rule _ _ _
      $ attempt_rule _ _ (ground (arith, v.owner)) λ a p.
        bind_rule _ _ _
        $ attempt_rule _ _ (ground (arith, v.owner)) λ n p'.
          bind_rule _ _ _
          $ pointed_rule _ _ (out _ n p') λ stream p''.
            bind_rule _ _ _
            $ check_rule _ _ _ (ground (arith, v.owner)) λ t.
              mono (open_decoder-Stage stream.codec_id _ (ground (arith, v.owner)))
                (λ s' o. ground (arith, o)) (λ a s' v'. v')

  open_encoder-Stage :
      (global_header : Bool) (sample_fmt : ℕ) (s : AudioProcessor Q)
      → Stage true true true false false false s
      → Ensures B C
          (λ s'. IsQuiet s' × (s'.output_format_context ≡ true))
          (λ a. Stage true true true true false false)
          (open_encoder av global_header sample_fmt s)
  unfolding open_encoder encoder_context
  open_encoder-Stage g f s v =
      bind_rule _ _ _
      $ acquire_rule _ _ _ _ (ground (arith, v.owner))
      $ bind_rule _ _ _
      $ on_error_rule _ _ _
      $ bind_rule _ _ _
      $ deref_rule _ _ (λ e. absurd (ground (arith, v.dec_is)))
          λ c p.
            bind_rule _ _ _
            $ attempt_rule _ _ (ground (arith, v.owner)) λ n p'.
              bind_rule _ _ _
              $ attempt_rule _ _ (ground (arith, v.owner))
                  λ n' p''. pure_rule _ _ $ modify_rule _ _ (ground (arith, v.owner))

  pub open_output_file-Stage :
      (s : AudioProcessor Q)
      → Stage true true false false false false s
      → Ensures B C IsQuiet (λ a. Stage true true true true false false) (open_output_file av s)
  unfolding open_output_file free_output
  open_output_file-Stage s v =
      bind_rule _ _ _
      $ acquire_rule _ _ _ _ (ground (arith, v.owner))
      $ bind_rule _ _ _
      $ acquire_rule _ _ _ _ (ground (arith, v.owner))
      $ bind_rule _ _ _
      $ acquire_rule _ _ _ _ (ground (arith, v.owner))
      $ bind_rule _ _ _
      $ modify_rule _ _
      $ on_error_rule _ _ _
      $ bind_rule _ _ _
      $ found_rule _ _ (ground (arith, v.owner)) λ g p.
        bind_rule _ _ _
        $ found_rule _ _ (ground (arith, v.owner)) λ f p'.
          bind_rule _ _ _
          $ check_rule _ _ _ (ground (arith, v.owner)) λ t.
            mono (open_encoder-Stage g f _ (ground (arith, v.owner))) (λ s' o. ground (arith, o))
              (λ a s' v'. v')

  pub init_resampler-Stage :
      (s : AudioProcessor Q)
      → Stage true true true true false false s
      → Ensures B C IsQuiet (λ a. Stage true true true true true false) (init_resampler av s)
  unfolding init_resampler
  init_resampler-Stage s v =
      bind_rule _ _ _
      $ deref_rule _ _ (λ e. absurd (ground (arith, v.enc_is)))
          λ out p.
            bind_rule _ _ _
            $ deref_rule _ _ (λ e. absurd (ground (arith, v.dec_is)))
                λ inp p'.
                  bind_rule _ _ _
                  $ acquire_rule _ _ _ _ (ground (arith, v.owner))
                  $ bind_rule _ _ _
                  $ modify_rule _ _
                  $ bind_rule _ _ _
                  $ same_rate_rule _ _ _ (ground (arith, v.rates))
                  $ on_error_rule _ _ _
                  $ bind_rule _ _ _
                  $ attempt_rule _ _ (ground (arith, v.owner))
                      λ n p''. pure_rule _ _ (ground (arith, v.owner))

  pub init_fifo-Stage :
      (s : AudioProcessor Q)
      → Stage true true true true true false s
      → Ensures B C IsQuiet (λ a. Stage true true true true true true) (init_fifo av s)
  unfolding init_fifo
  init_fifo-Stage s v =
      bind_rule _ _ _
      $ deref_rule _ _ (λ e. absurd (ground (arith, v.enc_is)))
          λ out p.
            bind_rule _ _ _
            $ acquire_rule _ _ _ _ (ground (arith, v.owner))
            $ modify_rule _ _ (ground (arith, v.owner))
