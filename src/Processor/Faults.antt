-- ===== src/Processor/Faults.antt =====
-- audio_tool_api/audio/processor.cpp: what goes wrong in `AudioProcessor`.
use audio_tool_api.Prelude.{ℕ, ◌≡◌, refl, Bool, true, Option, none, some, [], ◌∷◌, arith, get_elem?}
use audio_tool_api.Processor.{
  AvError, gives, refuses, samples, opens_decoder, History, Samples, Ffmpeg, AudioProcessor,
  acquires, note, ◌>>=◌, acquire, cleanup, on_error, attempt,
}
use audio_tool_api.Processor.Ownership.{free, misused, holding}
use audio_tool_api.Effects.Rules.{
  Ends, ◌$◌, bind_rule, modify_rule, on_error_rule, pointed_rule, pure_rule,
}
use audio_tool_api.Processor.Rules.{acquire_rule, attempt_rule, check_rule}
use audio_tool_api.Processor.Opening.{close_input, open_input_file, open_decoder, stream_at}
use audio_tool_api.Processor.Decoding.{convert_and_store, alloc_pointers, alloc_samples}

-- The stream for which a decoder was opened last.
abbrev pub decoder_of : History → Option ℕ
decoder_of [] = none
decoder_of (opens_decoder id ∷ h) = some id
decoder_of (e ∷ h) = decoder_of h

-- The decoder is the one of the stream whose index `avformat_find_stream_info` has answered.
pub record OfAnswer {Q : Type 0} (av : Ffmpeg Q) (s : AudioProcessor Q) : Type 0 where
  pub at : History
  pub answer : ℕ
  pub codec_id : ℕ
  pub answered : av.find_stream_info at ≡ gives answer
  pub stream :
      (is_audio : Bool) × (get_elem? (av.streams at) answer
        ≡ some (record { is_audio = is_audio; codec_id = codec_id }))
  pub opened : decoder_of s.history ≡ some codec_id

module _ {Q : Type 0} (av : Ffmpeg Q) where
  -- When `open_input_file` returns 0, the decoder is that of the stream whose index is the number
  -- that `avformat_find_stream_info` has answered, whichever stream is audio.
  pub open_input_file-OfAnswer :
      (s : AudioProcessor Q)
      → Ends (Unit {0}) (Unit {0}) (λ s'. Unit {0}) (λ a. OfAnswer av) (open_input_file av s)
  unfolding open_input_file stream_at open_decoder close_input
  open_input_file-OfAnswer s =
      (bind_rule _ _ _
        $ acquire_rule _ _ _ _ tt
        $ bind_rule _ _ _
        $ modify_rule _ _
        $ bind_rule _ _ _
        $ acquire_rule _ _ _ _ tt
        $ bind_rule _ _ _
        $ acquire_rule _ _ _ _ tt
        $ on_error_rule _ _ _
        $ bind_rule _ _ _
        $ attempt_rule _ _ tt λ a p.
          bind_rule _ _ _
          $ attempt_rule _ _ tt λ n p'.
            bind_rule _ _ _
            $ pointed_rule _ _ (λ x. tt)
                λ stream p''.
                  bind_rule _ _ _
                  $ check_rule _ _ _ tt λ t.
                    bind_rule _ _ _
                    $ acquire_rule _ _ _ _ tt
                    $ bind_rule _ _ _
                    $ modify_rule _ _
                    $ bind_rule _ _ _
                    $ on_error_rule _ _ _
                    $ bind_rule _ _ _
                    $ attempt_rule _ _ tt λ c e.
                      bind_rule _ _ _
                      $ attempt_rule _ _ tt λ m e'.
                        pure_rule _ _
                        $ modify_rule _ _ (record {
                          at = _;
                          answer = n;
                          codec_id = stream.codec_id;
                          answered = p';
                          stream = (stream.is_audio, p'');
                          opened = refl;
                        })).ends

  -- When the array of the converted samples is there and the samples cannot be allocated, the array
  -- is given back twice.
  pub convert_and_store-misused :
      (xs : Samples) (s : AudioProcessor Q) (e : AvError)
      → holding samples s.history ≡ free
      → av.alloc s.history samples ≡ true
      → ((h : History) → av.samples_alloc h ≡ refuses e)
      → holding samples (convert_and_store av (some xs) s).1.history ≡ misused
  unfolding convert_and_store alloc_pointers alloc_samples ◌>>=◌ acquire cleanup on_error attempt
  convert_and_store-misused xs s e h a r = ground (arith, r (note (acquires samples) s).history)
