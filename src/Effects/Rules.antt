-- ===== src/Effects/Rules.antt =====
-- What a run ensures, by the way it ends, and a rule for each way in which a run is put together.
use audio_tool_api.Prelude.{◌≡◌, refl, Bool, true, false, Option, none, some}
use audio_tool_api.Effects.{
  Exit, done, fails, crashes, spins, Exec, pure, leave, crash, gets, deref, pointed, on_error,
  cleanup, branch, if_some, modify, ◌>>=◌, continue, undone, cleaned,
}

-- Application, for a proof that has one rule after the other.
infixr 1 ◌$◌
abbrev pub ◌$◌ : {X Y : Type 0} → (X → Y) → X → Y
f $ x = f x

module _ {X S : Type 0} (B C : Type 0) (E : S → Type 0) where
  abbrev pub Ends : {A : Type 0} → (A → S → Type 0) → Exit X A × S → Type 0
  Ends R (done a, s) = R a s
  Ends R (fails c, s) = E s
  Ends R (crashes, s) = B
  Ends R (spins, s) = C

-- `B` is asked of a crash, `C` of a loop that has used up its rounds, `E` of a state behind an error,
-- `R` of a result and its state.
pub record Ensures {X S A : Type 0} (B C : Type 0) (E : S → Type 0) (R : A → S → Type 0)
    (x : Exit X A × S) : Type 0 where
  pub ends : Ends B C E R x

module _ {X S A : Type 0} {B C : Type 0} {E : S → Type 0} {R : A → S → Type 0} where
  pub mono :
      {E' : S → Type 0} {R' : A → S → Type 0} {x : Exit X A × S}
      → Ensures {X = X} B C E R x
      → ((s : S) → E s → E' s)
      → ((a : A) (s : S) → R a s → R' a s)
      → Ensures {X = X} B C E' R' x
  mono {x = (done a, s)} p f g = record { ends = g a s p.ends }
  mono {x = (fails c, s)} p f g = record { ends = f s p.ends }
  mono {x = (crashes, s)} p f g = record { ends = p.ends }
  mono {x = (spins, s)} p f g = record { ends = p.ends }

  -- Two facts about one run.
  pub both :
      {E' : S → Type 0} {R' : A → S → Type 0} {x : Exit X A × S}
      → Ensures {X = X} B C E R x
      → Ensures {X = X} (Unit {0}) (Unit {0}) E' R' x
      → Ensures {X = X} B C E (λ a s. R a s × R' a s) x
  both {x = (done a, s)} p q = record { ends = (p.ends, q.ends) }
  both {x = (fails c, s)} p q = record { ends = p.ends }
  both {x = (crashes, s)} p q = record { ends = p.ends }
  both {x = (spins, s)} p q = record { ends = p.ends }

  pub pure_rule : (a : A) (s : S) → R a s → Ensures {X = X} B C E R (pure a s)
  unfolding pure
  pure_rule a s r = record { ends = r }

  pub leave_rule : (c : X) (s : S) → E s → Ensures {X = X} B C E R (leave c s)
  unfolding leave
  leave_rule c s e = record { ends = e }

  pub crash_rule : (s : S) → B → Ensures {X = X} B C E R (crash s)
  unfolding crash
  crash_rule s b = record { ends = b }

  pub gets_rule : (f : S → A) (s : S) → R (f s) s → Ensures {X = X} B C E R (gets f s)
  unfolding gets
  gets_rule f s r = record { ends = r }

  pub pointed_rule :
      (o : Option A) (s : S)
      → (o ≡ none → B)
      → ((a : A) → o ≡ some a → R a s)
      → Ensures {X = X} B C E R (pointed o s)
  pointed_rule none s b r = record { ends = b refl }
  pointed_rule (some a) s b r = record { ends = r a refl }

  pub deref_rule :
      (f : S → Option A) (s : S)
      → (f s ≡ none → B)
      → ((a : A) → f s ≡ some a → R a s)
      → Ensures {X = X} B C E R (deref f s)
  unfolding deref
  deref_rule f s b r = pointed_rule (f s) s b r

  pub branch_rule :
      (b : Bool) (m n : Exec X S A) (s : S)
      → (b ≡ true → Ensures {X = X} B C E R (m s))
      → (b ≡ false → Ensures {X = X} B C E R (n s))
      → Ensures {X = X} B C E R (branch b m n s)
  unfolding branch
  branch_rule true m n s p q = p refl
  branch_rule false m n s p q = q refl

  pub cleanup_rule :
      (clean : S → S) (m : Exec X S A) (s : S)
      → Ensures {X = X} B C (λ s'. E (clean s')) (λ a s'. R a (clean s')) (m s)
      → Ensures {X = X} B C E R (cleanup clean m s)
  unfolding cleanup
  cleanup_rule clean m s p = of_exit (m s) p
    where
      of_exit :
          (x : Exit X A × S)
          → Ensures {X = X} B C (λ s'. E (clean s')) (λ a s'. R a (clean s')) x
          → Ensures {X = X} B C E R (cleaned clean x)
      of_exit (done a, s') p = record { ends = p.ends }
      of_exit (fails c, s') p = record { ends = p.ends }
      of_exit (crashes, s') p = record { ends = p.ends }
      of_exit (spins, s') p = record { ends = p.ends }

  pub on_error_rule :
      (clean : S → S) (m : Exec X S A) (s : S)
      → Ensures {X = X} B C (λ s'. E (clean s')) R (m s)
      → Ensures {X = X} B C E R (on_error clean m s)
  unfolding on_error
  on_error_rule clean m s p = of_exit (m s) p
    where
      of_exit :
          (x : Exit X A × S)
          → Ensures {X = X} B C (λ s'. E (clean s')) R x
          → Ensures {X = X} B C E R (undone clean x)
      of_exit (done a, s') p = record { ends = p.ends }
      of_exit (fails c, s') p = record { ends = p.ends }
      of_exit (crashes, s') p = record { ends = p.ends }
      of_exit (spins, s') p = record { ends = p.ends }

module _ {X S : Type 0} {B C : Type 0} {E : S → Type 0} {R : Unit {0} → S → Type 0} where
  pub modify_rule : (f : S → S) (s : S) → R tt (f s) → Ensures {X = X} B C E R (modify f s)
  unfolding modify
  modify_rule f s r = record { ends = r }

module _ {X S A A' : Type 0} {B C : Type 0} {E : S → Type 0} {R' : A' → S → Type 0} where
  pub bind_rule :
      (m : Exec X S A) (f : A → Exec X S A') (s : S)
      → Ensures {X = X} B C E (λ a s'. Ensures {X = X} B C E R' (f a s')) (m s)
      → Ensures {X = X} B C E R' ((m >>= f) s)
  unfolding ◌>>=◌
  bind_rule m f s p = of_exit (m s) p
    where
      of_exit :
          (x : Exit X A × S)
          → Ensures {X = X} B C E (λ a s'. Ensures {X = X} B C E R' (f a s')) x
          → Ensures {X = X} B C E R' (continue f x)
      of_exit (done a, s') p = p.ends
      of_exit (fails c, s') p = record { ends = p.ends }
      of_exit (crashes, s') p = record { ends = p.ends }
      of_exit (spins, s') p = record { ends = p.ends }

  -- A part whose own lemma is known.
  pub then_rule :
      {R : A → S → Type 0} (m : Exec X S A) (f : A → Exec X S A') (s : S)
      → Ensures {X = X} B C E R (m s)
      → ((a : A) (s' : S) → R a s' → Ensures {X = X} B C E R' (f a s'))
      → Ensures {X = X} B C E R' ((m >>= f) s)
  then_rule m f s p g = bind_rule m f s (mono p (λ s' e. e) g)

module _ {X S : Type 0} {B C : Type 0} {E : S → Type 0} where
  pub if_some_rule :
      {D A' : Type 0} {R' : A' → S → Type 0} (o : Option D) (f : D → Exec X S A') (m : Exec X S A')
      (s : S)
      → ((d : D) → o ≡ some d → Ensures {X = X} B C E R' (f d s))
      → (o ≡ none → Ensures {X = X} B C E R' (m s))
      → Ensures {X = X} B C E R' (if_some o f m s)
  unfolding if_some
  if_some_rule none f m s p q = q refl
  if_some_rule (some d) f m s p q = p d refl

pub ruleset exec_rules = (
  pure_rule, leave_rule, crash_rule, gets_rule, pointed_rule, deref_rule, branch_rule, cleanup_rule,
  on_error_rule, modify_rule, bind_rule,
)
