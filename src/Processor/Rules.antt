-- ===== src/Processor/Rules.antt =====
-- The rules for what a method of `AudioProcessor` is made of.
use audio_tool_api.Prelude.{
  ◌==◌, arith, ◌≡◌, refl, Bool, true, false, Option, none, some, if◌then◌else◌,
}
use audio_tool_api.Effects.Rules.{Ensures, pure_rule, leave_rule}
use audio_tool_api.Processor.Opening.{found, same_rate}
use audio_tool_api.Processor.{
  CodecContext, AvError, Answer, gives, refuses, Code, Resource, Event, acquires, History, Ffmpeg,
  AudioProcessor, done, fails, crashes, ask, note, attempt, answered, check, acquire,
}

module _ {Q A : Type 0} {B C : Type 0} {E : AudioProcessor Q → Type 0}
    {R : A → AudioProcessor Q → Type 0} where
  pub ask_rule :
      (call : History → A) (event : A → Event) (s : AudioProcessor Q)
      → ((a : A) → call s.history ≡ a → R a (note (event a) s))
      → Ensures {X = Code} B C E R (ask call event s)
  unfolding ask
  ask_rule call event s r = record { ends = r (call s.history) refl }

  pub answered_rule :
      (o : Answer A) (s : AudioProcessor Q)
      → ((e : AvError) → E s)
      → ((a : A) → o ≡ gives a → R a s)
      → Ensures {X = Code} B C E R (answered o s)
  answered_rule (gives a) s e r = record { ends = r a refl }
  answered_rule (refuses x) s e r = record { ends = e x }

  pub attempt_rule :
      (call : History → Answer A) (s : AudioProcessor Q)
      → E s
      → ((a : A) → call s.history ≡ gives a → R a s)
      → Ensures {X = Code} B C E R (attempt call s)
  unfolding attempt
  attempt_rule call s e r = answered_rule (call s.history) s (λ x. e) r

module _ {Q : Type 0} {B C : Type 0} {E : AudioProcessor Q → Type 0}
    {R : Unit {0} → AudioProcessor Q → Type 0} where
  pub check_rule :
      (test : History → Bool) (e : AvError) (s : AudioProcessor Q)
      → E s
      → (test s.history ≡ true → R tt s)
      → Ensures {X = Code} B C E R (check test e s)
  unfolding check
  check_rule test e s p q = of_test (test s.history) q
    where
      of_test :
          (b : Bool)
          → (b ≡ true → R tt s)
          → Ensures {X = Code} B C E R (if b then (done tt, s) else (fails (refuses e), s))
      of_test true q = record { ends = q refl }
      of_test false q = record { ends = p }

  pub acquire_rule :
      (av : Ffmpeg Q) (r : Resource) (e : AvError) (s : AudioProcessor Q)
      → E s
      → R tt (note (acquires r) s)
      → Ensures {X = Code} B C E R (acquire av r e s)
  unfolding acquire
  acquire_rule av r e s p q = of_test (av.alloc s.history r)
    where
      of_test :
          (b : Bool)
          → Ensures {X = Code} B C E R
              (if b then (done tt, note (acquires r) s) else (fails (refuses e), s))
      of_test true = record { ends = q }
      of_test false = record { ends = p }

module _ {Q : Type 0} {B C : Type 0} {E : AudioProcessor Q → Type 0} where
  pub found_rule :
      {A : Type 0} {R : A → AudioProcessor Q → Type 0} (o : Option A) (s : AudioProcessor Q)
      → E s
      → ((a : A) → o ≡ some a → R a s)
      → Ensures {X = Code} B C E R (found o s)
  unfolding found
  found_rule none s e r = leave_rule _ _ e
  found_rule (some a) s e r = pure_rule _ _ (r a refl)

  pub same_rate_rule :
      {R : Unit {0} → AudioProcessor Q → Type 0} (c d : CodecContext) (s : AudioProcessor Q)
      → c.sample_rate ≡ d.sample_rate
      → R tt s
      → Ensures {X = Code} B C E R (same_rate c d s)
  unfolding same_rate
  same_rate_rule {R = R} c d s e r = of_test (c.sample_rate == d.sample_rate) (ground arith)
    where
      of_test :
          (b : Bool)
          → b ≡ true
          → Ensures {X = Code} B C E R (if b then (done tt, s) else (crashes, s))
      of_test true p = record { ends = r }
      of_test false p = absurd (cc)
