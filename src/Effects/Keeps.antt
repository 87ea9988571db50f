-- ===== src/Effects/Keeps.antt =====
-- A property of the state that a run keeps, however it ends.
use audio_tool_api.Prelude.{Bool, Option}
use audio_tool_api.Effects.{Exec, pure, leave, gets, deref, branch, if_some, modify, ◌>>=◌}
use audio_tool_api.Effects.Rules.{
  Ensures, pure_rule, leave_rule, gets_rule, deref_rule, branch_rule, modify_rule, then_rule,
  if_some_rule,
}

-- However `m` ends, it keeps `P`.
pub record Keeps {X S A : Type 0} (P : S → Type 0) (m : Exec X S A) : Type 0 where
  pub at : (s : S) → P s → Ensures {X = X} (Unit {0}) (Unit {0}) P (λ a. P) (m s)

module _ {X S A : Type 0} {P : S → Type 0} where
  pub Keeps-pure : (a : A) → Keeps {X = X} P (pure a)
  Keeps-pure a = record { at = λ s p. pure_rule a s p }

  pub Keeps-leave : (x : X) → Keeps {X = X} {A = A} P (leave x)
  Keeps-leave x = record { at = λ s p. leave_rule x s p }

  pub Keeps-gets : (f : S → A) → Keeps {X = X} P (gets f)
  Keeps-gets f = record { at = λ s p. gets_rule f s p }

  pub Keeps-deref : (f : S → Option A) → Keeps {X = X} P (deref f)
  Keeps-deref f = record { at = λ s p. deref_rule f s (λ e. tt) (λ a e. p) }

  pub Keeps-branch : (b : Bool) (m n : Exec X S A) → Keeps P m → Keeps P n → Keeps P (branch b m n)
  Keeps-branch b m n k l = record {
    at = λ s p. branch_rule b m n s (λ e. k.at s p) (λ e. l.at s p);
  }

module _ {X S : Type 0} {P : S → Type 0} where
  pub Keeps-modify : (f : S → S) → ((s : S) → P s → P (f s)) → Keeps {X = X} P (modify f)
  Keeps-modify f k = record { at = λ s p. modify_rule f s (k s p) }

module _ {X S A A' : Type 0} {P : S → Type 0} where
  pub Keeps-if_some :
      (o : Option A) (f : A → Exec X S A') (m : Exec X S A')
      → ((a : A) → Keeps P (f a))
      → Keeps P m
      → Keeps P (if_some o f m)
  Keeps-if_some o f m k l = record {
    at = λ s p. if_some_rule o f m s (λ a e. (k a).at s p) (λ e. l.at s p);
  }

  pub Keeps-bind :
      (m : Exec X S A) (f : A → Exec X S A')
      → Keeps P m
      → ((a : A) → Keeps P (f a))
      → Keeps P (m >>= f)
  Keeps-bind m f k l = record { at = λ s p. then_rule m f s (k.at s p) (λ a s' p'. (l a).at s' p') }

pub ruleset keeps_rules = (
  Keeps-pure, Keeps-leave, Keeps-gets, Keeps-deref, Keeps-branch, Keeps-modify, Keeps-if_some,
  Keeps-bind,
)
