-- ===== src/Audio/Pipeline/Faults.antt =====
-- Runs of `AP` that do not come to an end, or read a null pointer.
use audio_tool_api.Prelude.{ℕ, zero, suc, ◌≡◌, true, none, arith}
use audio_tool_api.Effects.Rules.{Ends, Ensures, ◌$◌, bind_rule, then_rule, deref_rule}
use audio_tool_api.Processor.{AvError, refuses}
use audio_tool_api.Audio.Pipeline.{
  StreamContext, Exit, done, fails, crashes, spins, Resource, Raised, Calls, Libav, Ap, new_ap, Run,
  ask, require, try_alloc, alloc, pure, gets, deref, branch, modify, ◌>>=◌,
}
use audio_tool_api.Audio.Pipeline.Setup.{
  open_input, find_stream_info, input_opened, init_input, init_filter,
}
use audio_tool_api.Audio.Pipeline.Process.{spin, flush_encoder, process}

-- The run does not return: it throws, reads a null pointer or uses up its rounds.
abbrev pub NeverReturns : {A : Type 0} → Exit Raised A × Ap → Type 0
NeverReturns x = Ends (Unit {0}) (Unit {0}) (λ _. Unit {0}) (λ _ _. ⊥) x

abbrev Unreturned : {A : Type 0} → Exit Raised A × Ap → Type 0
Unreturned x = Ensures {X = Raised} (Unit {0}) (Unit {0}) (λ _. Unit {0}) (λ _ _. ⊥) x

anything :
    {A : Type 0} (x : Exit Raised A × Ap)
    → Ensures {X = Raised} (Unit {0}) (Unit {0}) (λ _. Unit {0}) (λ _ _. Unit {0}) x
anything (done a, s) = record { ends = tt }
anything (fails e, s) = record { ends = tt }
anything (crashes, s) = record { ends = tt }
anything (spins, s) = record { ends = tt }

module _ {A A' : Type 0} where
  -- Where the rest does not return, the whole does not.
  after :
      (m : Run A) (f : A → Run A') (s : Ap)
      → ((a : A) (s' : Ap) → Unreturned (f a s'))
      → Unreturned ((m >>= f) s)
  after m f s k = then_rule m f s (anything (m s)) (λ a s' u. k a s')

module _ (av : Libav) where
  flush_encoder-Unreturned :
      (flushes fuel i : ℕ) (s : Ap) → Unreturned (flush_encoder av flushes fuel i s)
  unfolding flush_encoder spin
  flush_encoder-Unreturned zero fuel i s = record { ends = tt }
  flush_encoder-Unreturned (suc flushes) fuel i s =
      after _ _ s (λ _ s'. flush_encoder-Unreturned flushes fuel i s')

  -- If the allocations succeed and `avformat_open_input` refuses the content, `process` reads a null
  -- pointer, whatever the number of rounds.
  pub process-not_media :
      (packets rounds flushes fuel : ℕ) (e : AvError)
      → ((h : Calls) (r : Resource) → av.alloc h r ≡ true)
      → ((h : Calls) → av.open_input h ≡ refuses e)
      → (process av packets rounds flushes fuel new_ap).0 ≡ crashes
  unfolding process init_input open_input input_opened find_stream_info ◌>>=◌ try_alloc alloc gets
      branch modify pure require deref ask
  process-not_media packets rounds flushes fuel e a o = simp (a, o)

  -- For a stream without an encoder `init_filter` does not return normally, whatever ffmpeg answers.
  pub init_filter-NeverReturns :
      (i : ℕ) (c : StreamContext) (s : Ap) → c.enc_ctx ≡ none → NeverReturns (init_filter av i c s)
  unfolding init_filter
  init_filter-NeverReturns i c s e =
      (after _ _ s $ λ _ s1. after _ _ s1 $ λ _ s2. after _ _ s2 $ λ dec_ctx s3.
      after _ _ s3 $ λ _ s4. after _ _ s4 $ λ error s5. after _ _ s5 $ λ _ s6.
      bind_rule _ _ s6 $ deref_rule _ s6 (λ _. tt) $ λ enc_ctx there. ground (arith, there, e)).ends
