-- ===== src/Processor/Again.antt =====
-- audio_tool_api/audio/processor.cpp: `execute` a second time on the same processor.
use audio_tool_api.Prelude.{ℕ, ◌≡◌, subst, true, false, arith}
use audio_tool_api.Processor.{
  done, input_context, fifo_buffer, Ffmpeg, AudioProcessor, fresh, ◌>>=◌, acquire, cleanup,
}
use audio_tool_api.Processor.Ownership.{free, misused, holding, is_some}
use audio_tool_api.Processor.Safety.{IsComplete, pipeline-IsComplete}
use audio_tool_api.Effects.Rules.{Ends, cleanup_rule, mono}
use audio_tool_api.Processor.Opening.{close_input, open_input_file}
use audio_tool_api.Processor.Execute.{
  pipeline, free_fifo, free_resampler, free_encoder, free_decoder, free_all, execute,
}

-- The pointer to the FIFO buffer is not null, and the buffer is not held.
pub record Dangles {Q : Type 0} (s : AudioProcessor Q) : Type 0 where
  pub pointer : is_some s.fifo ≡ true
  pub given_back : holding fifo_buffer s.history ≡ free

free_all-Dangles : {Q : Type 0} (s : AudioProcessor Q) → IsComplete s → Dangles (free_all s)
unfolding free_all free_fifo free_resampler free_encoder free_decoder close_input
free_all-Dangles s v = ground (arith, v, v.safe, v.safe.owner)

module _ {Q : Type 0} (av : Ffmpeg Q) where
  execute-Dangles :
      (fuel fills flushes : ℕ)
      → Ends
          (Unit {0})
          (Unit {0})
          (λ s. Unit {0})
          (λ a s. Dangles s)
          (execute av fuel fills flushes fresh)
  unfolding execute
  execute-Dangles fuel fills flushes =
      (cleanup_rule {E = λ s. Unit {0}} {R = λ a s. Dangles s} free_all _ fresh (
        mono (pipeline-IsComplete av {B = Unit {0}} fuel fills flushes (λ h n e e'. tt)) (λ s v. tt)
          (λ a s v. free_all-Dangles s v))).ends

  refused_again :
      (fuel fills flushes : ℕ) (s : AudioProcessor Q)
      → Dangles s
      → av.alloc s.history input_context ≡ false
      → holding fifo_buffer (execute av fuel fills flushes s).1.history ≡ misused
  unfolding execute pipeline open_input_file ◌>>=◌ acquire cleanup free_all free_fifo free_resampler
      free_encoder free_decoder close_input
  refused_again fuel fills flushes s d a = ground (arith, d)

  -- When `execute` has returned without an error for a fresh processor, whatever ffmpeg has answered,
  -- and is called again, and then no context for the input can be allocated, the FIFO buffer is
  -- given back a second time.
  pub execute_again :
      (fuel fills flushes fuel' fills' flushes' : ℕ) (s : AudioProcessor Q)
      → execute av fuel fills flushes fresh ≡ (done tt, s)
      → av.alloc s.history input_context ≡ false
      → holding fifo_buffer (execute av fuel' fills' flushes' s).1.history ≡ misused
  execute_again fuel fills flushes fuel' fills' flushes' s e a =
      refused_again fuel' fills' flushes' s
        (subst (λ x. Ends (Unit {0}) (Unit {0}) (λ s. Unit {0}) (λ a s. Dangles s) x) e
          (execute-Dangles fuel fills flushes))
        a
