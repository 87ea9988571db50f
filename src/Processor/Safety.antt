-- ===== src/Processor/Safety.antt =====
-- What holds after `execute`, whatever ffmpeg answers.
use audio_tool_api.Prelude.{ℕ, zero, suc, ◌≡◌, ◌≢◌, refl, Bool, true, none, [], arith, get_elem?}
use audio_tool_api.Processor.{
  AvError, Code, gives, refuses, input_context, decoder, output_context, encoder, resampler,
  fifo_buffer, frame, History, Ffmpeg, AudioProcessor, fresh,
}
use audio_tool_api.Processor.Media.{
  IsStamped, packets_received, packets_written, ended, wrong, phase, traffic-IsSilent,
}
use audio_tool_api.Processor.Ownership.{
  free, taken, holding, is_some, Stage, IsQuiet, fresh-Stage, open_input_file-Stage,
  open_output_file-Stage, init_resampler-Stage, init_fifo-Stage,
}
use audio_tool_api.Processor.Invariants.{IsRunning, IsSafe}
use audio_tool_api.Processor.Storing.{read_decode_convert_and_store-Stored}
use audio_tool_api.Processor.Sending.{load_encode_and_write-Loaded, encode_audio_frame-Kept}
use audio_tool_api.Effects.Rules.{
  Ends, Ensures, ◌$◌, bind_rule, then_rule, cleanup_rule, deref_rule, branch_rule, pure_rule,
  leave_rule, mono,
}
use audio_tool_api.Processor.Rules.{ask_rule}
use audio_tool_api.Processor.Encoding.{
  not_refused, write_output_file_header, write_output_file_trailer,
}
use audio_tool_api.Processor.Opening.{close_input}
use audio_tool_api.Processor.Execute.{
  fill, drain, drain_rounds, flush, rounds, spin, pipeline, free_fifo, free_resampler, free_encoder,
  free_decoder, free_all, execute,
}

IsQuiet-IsSafe : {Q : Type 0} (s : AudioProcessor Q) → IsQuiet s → IsSafe s
IsQuiet-IsSafe s q = let i = traffic-IsSilent s.history q.no_traffic in ground (arith, i, q)

IsRunning-IsSafe : {Q : Type 0} (s : AudioProcessor Q) → IsRunning free s → IsSafe s
IsRunning-IsSafe s v = ground (arith, v)

-- Nothing is held of these, and nothing of them was given back twice.
pub record IsCleaned {Q : Type 0} (s : AudioProcessor Q) : Type 0 where
  pub input_free : holding input_context s.history ≡ free
  pub decoder_free : holding decoder s.history ≡ free
  pub encoder_free : holding encoder s.history ≡ free
  pub resampler_free : holding resampler s.history ≡ free
  pub fifo_free : holding fifo_buffer s.history ≡ free
  pub frame_free : holding frame s.history ≡ free

module _ {Q : Type 0} where
  free_all-IsCleaned : (s : AudioProcessor Q) → IsSafe s → IsCleaned (free_all s)
  unfolding free_all free_fifo free_resampler free_encoder free_decoder close_input
  free_all-IsCleaned s v = ground (arith, v.owner)

-- The history of a run, finished or not.
pub record IsOrderly (h : History) : Type 0 where
  pub time_stamps : IsStamped h
  pub all_written : packets_written h ≡ packets_received h
  pub file_legal : phase h ≢ wrong

-- After a run with no error the container is complete, and its context is held still.
pub record IsComplete {Q : Type 0} (s : AudioProcessor Q) : Type 0 where
  pub safe : IsSafe s
  pub closed : phase s.history ≡ ended
  pub output_held : s.output_format_context ≡ true
  pub fifo_kept : is_some s.fifo ≡ true

module _ {Q : Type 0} (av : Ffmpeg Q) {B : Type 0} where
  pub not_refused_rule :
      {C : Type 0} {E : AudioProcessor Q → Type 0} {R : Unit {0} → AudioProcessor Q → Type 0}
      (c : Code) (s : AudioProcessor Q)
      → ((x : AvError) → c ≡ refuses x → E s)
      → ((n : ℕ) → c ≡ gives n → R tt s)
      → Ensures B C E R (not_refused av c s)
  not_refused_rule (gives n) s e r = pure_rule _ _ (r n refl)
  not_refused_rule (refuses x) s e r = leave_rule _ _ (e x refl)

  fill-IsRunning :
      (fuel : ℕ) (s : AudioProcessor Q)
      → IsRunning free s
      → Ensures B (Unit {0}) (IsRunning free) (λ b. IsRunning free) (fill av fuel s)
  unfolding fill spin
  fill-IsRunning zero s v = record { ends = tt }
  fill-IsRunning (suc fuel) s v =
      bind_rule _ _ _
      $ deref_rule _ _ (λ e. absurd (ground (arith, v.has_fifo)))
          λ q e.
            branch_rule _ _ _ _
              (λ t.
                then_rule _ _ _ (read_decode_convert_and_store-Stored av (λ q. []) s v) λ b s' x.
                  branch_rule _ _ _ _ (λ t'. pure_rule _ _ x.0) (λ t'. fill-IsRunning fuel s' x.0))
              (λ t. pure_rule _ _ v)

  drain_rounds-IsRunning :
      (fuel : ℕ) (finished : Bool) (s : AudioProcessor Q)
      → IsRunning free s
      → Ensures B
          (Unit {0})
          (IsRunning free)
          (λ a. IsRunning free)
          (drain_rounds av fuel finished s)
  unfolding drain_rounds spin
  drain_rounds-IsRunning zero finished s v = record { ends = tt }
  drain_rounds-IsRunning (suc fuel) finished s v =
      bind_rule _ _ _
      $ deref_rule _ _ (λ e. absurd (ground (arith, v.has_fifo)))
          λ q e.
            branch_rule _ _ _ _
              (λ t.
                then_rule _ _ _ (load_encode_and_write-Loaded av (λ q. []) s v)
                  λ a s' x. drain_rounds-IsRunning fuel finished s' x.0)
              (λ t. pure_rule _ _ v)

  flush-IsRunning :
      (fuel : ℕ) (s : AudioProcessor Q)
      → IsRunning free s
      → Ensures B (Unit {0}) (IsRunning free) (λ a. IsRunning free) (flush av fuel s)
  unfolding flush spin
  flush-IsRunning zero s v = record { ends = tt }
  flush-IsRunning (suc fuel) s v =
      then_rule _ _ _ (encode_audio_frame-Kept av free none s v) λ b s' k.
        branch_rule _ _ _ _ (λ t. flush-IsRunning fuel s' k.running) (λ t. pure_rule _ _ k.running)

  rounds-IsRunning :
      (fuel fills flushes : ℕ) (s : AudioProcessor Q)
      → IsRunning free s
      → Ensures B (Unit {0}) (IsRunning free) (λ a. IsRunning free) (rounds av fuel fills flushes s)
  unfolding rounds spin drain
  rounds-IsRunning zero fills flushes s v = record { ends = tt }
  rounds-IsRunning (suc fuel) fills flushes s v =
      then_rule _ _ _ (fill-IsRunning fills s v) λ b s' w.
        bind_rule _ _ _
        $ bind_rule _ _ _
        $ deref_rule _ _ (λ e. absurd (ground (arith, w.has_fifo)))
            λ q e.
              mono (drain_rounds-IsRunning _ b s' w) (λ s'' x. x)
                λ a s'' x.
                  branch_rule _ _ _ _ (λ t. flush-IsRunning flushes s'' x)
                    (λ t. rounds-IsRunning fuel fills flushes s'' x)

  pub write_output_file_header-IsRunning :
      (s : AudioProcessor Q)
      → Stage true true true true true true s
      → Ensures B (Unit {0}) IsSafe (λ a. IsRunning free) (write_output_file_header av s)
  unfolding write_output_file_header
  write_output_file_header-IsRunning s v =
      let i = traffic-IsSilent s.history v.quiet in
      bind_rule _ _ _
      $ ask_rule _ _ _ λ c e.
        not_refused_rule _ _ (λ x e'. ground (arith, i, v, v.owner))
          (λ n e'. ground (arith, i, v, v.owner))

  write_output_file_trailer-IsComplete :
      (s : AudioProcessor Q)
      → IsRunning free s
      → Ensures B (Unit {0}) IsSafe (λ a. IsComplete) (write_output_file_trailer av s)
  unfolding write_output_file_trailer
  write_output_file_trailer-IsComplete s v =
      bind_rule _ _ _
      $ ask_rule _ _ _ λ c e.
        not_refused_rule _ _ (λ x e'. ground (arith, v, v.owned))
          (λ n e'. ground (arith, v, v.owned))

  pub pipeline-IsComplete :
      (fuel fills flushes : ℕ)
      → ((h : History) (n : ℕ)
          → av.find_stream_info h ≡ gives n
          → get_elem? (av.streams h) n ≡ none
          → B)
      → Ensures B (Unit {0}) IsSafe (λ a. IsComplete) (pipeline av fuel fills flushes fresh)
  unfolding pipeline
  pipeline-IsComplete fuel fills flushes out =
      then_rule _ _ _
        (mono (open_input_file-Stage av fresh out fresh-Stage) IsQuiet-IsSafe (λ a s v. v))
        λ a s v.
          then_rule _ _ _ (mono (open_output_file-Stage av s v) IsQuiet-IsSafe (λ a s v. v))
            λ a s v.
              then_rule _ _ _ (mono (init_resampler-Stage av s v) IsQuiet-IsSafe (λ a s v. v))
                λ a s v.
                  then_rule _ _ _ (mono (init_fifo-Stage av s v) IsQuiet-IsSafe (λ a s v. v))
                    λ a s v. then_rule _ _ _ (write_output_file_header-IsRunning s v) λ a s v.
                      then_rule _ _ _
                        (mono (rounds-IsRunning fuel fills flushes s v) IsRunning-IsSafe
                          (λ a s v. v))
                        λ a s v. write_output_file_trailer-IsComplete s v

module _ {Q : Type 0} where
  free_all-ended :
      (s : AudioProcessor Q)
      → IsComplete s
      → (phase (free_all s).history ≡ ended) × (holding output_context (free_all s).history ≡ taken)
  unfolding free_all free_fifo free_resampler free_encoder free_decoder close_input
  free_all-ended s v = ground (arith, v, v.safe, v.safe.owner)

module _ {Q : Type 0} (av : Ffmpeg Q) where
  -- When `execute` comes to its end for a fresh processor, with an error or without, whatever ffmpeg
  -- answers and however many rounds the loops take: of the input's context, the decoder, the encoder,
  -- the resampler, the FIFO buffer and the frames nothing is held any more, and none of them was
  -- given back twice or taken again while it was held. Without an error the output's context is
  -- held still.
  pub execute-IsCleaned :
      (fuel fills flushes : ℕ)
      → Ends
          (Unit {0})
          (Unit {0})
          IsCleaned
          (λ a s. IsCleaned s × (holding output_context s.history ≡ taken))
          (execute av fuel fills flushes fresh)
  unfolding execute
  execute-IsCleaned fuel fills flushes =
      (cleanup_rule {E = IsCleaned}
        {R = λ a s. IsCleaned s × (holding output_context s.history ≡ taken)} free_all _ fresh
        (mono (pipeline-IsComplete av {B = Unit {0}} fuel fills flushes (λ h n e e'. tt))
          free_all-IsCleaned (λ a s v. (free_all-IsCleaned s v.safe, (free_all-ended s v).1)))).ends
