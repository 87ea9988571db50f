-- ===== src/Effects.antt =====
-- Code with a state that may return early: a method of a class that calls a library, with `goto
-- cleanup` or exceptions. `X` is what it returns early with; a null pointer that is read, an
-- assertion that fails and an index out of range are the exit `crashes`, and a loop that has used up
-- its rounds is the exit `spins`.
pub mod Rules
pub mod Keeps
use audio_tool_api.Prelude.{Bool, true, false, Option, none, some}

pub data Exit (X A : Type 0) : Type 0 where
  done : A → Exit X A
  fails : X → Exit X A
  crashes spins : Exit X A

-- What was done before an error stays done.
abbrev pub Exec : Type 0 → Type 0 → Type 0 → Type 0
Exec X S A = S → Exit X A × S

module _ {X S A : Type 0} where
  unfoldable pub pure : A → Exec X S A
  pure a s = (done a, s)

  unfoldable pub leave : X → Exec X S A
  leave c s = (fails c, s)

  unfoldable pub crash : Exec X S A
  crash s = (crashes, s)

  unfoldable pub gets : (S → A) → Exec X S A
  gets f s = (done (f s), s)

  abbrev pub pointed : Option A → Exec X S A
  pointed none s = (crashes, s)
  pointed (some a) s = (done a, s)

  -- A pointer that is read.
  unfoldable pub deref : (S → Option A) → Exec X S A
  deref f s = pointed (f s) s

  -- An `if`, or the test of a loop.
  unfoldable pub branch : Bool → Exec X S A → Exec X S A → Exec X S A
  branch true m n = m
  branch false m n = n

  -- `goto cleanup`, for the code behind the label.
  abbrev pub cleaned : (S → S) → Exit X A × S → Exit X A × S
  cleaned clean (done a, s) = (done a, clean s)
  cleaned clean (fails c, s) = (fails c, clean s)
  cleaned clean (crashes, s) = (crashes, s)
  cleaned clean (spins, s) = (spins, s)

  unfoldable pub cleanup : (S → S) → Exec X S A → Exec X S A
  cleanup clean m s = cleaned clean (m s)

  -- The code behind the label when only errors go there.
  abbrev pub undone : (S → S) → Exit X A × S → Exit X A × S
  undone clean (done a, s) = (done a, s)
  undone clean (fails c, s) = (fails c, clean s)
  undone clean (crashes, s) = (crashes, s)
  undone clean (spins, s) = (spins, s)

  unfoldable pub on_error : (S → S) → Exec X S A → Exec X S A
  on_error clean m s = undone clean (m s)

module _ {X S : Type 0} where
  unfoldable pub modify : (S → S) → Exec X S (Unit {0})
  modify f s = (done tt, f s)

module _ {X S A B : Type 0} where
  -- A test whether there is a value.
  unfoldable pub if_some : Option A → (A → Exec X S B) → Exec X S B → Exec X S B
  if_some none f m = m
  if_some (some a) f m = f a

  abbrev pub continue : (A → Exec X S B) → Exit X A × S → Exit X B × S
  continue f (done a, s) = f a s
  continue f (fails c, s) = (fails c, s)
  continue f (crashes, s) = (crashes, s)
  continue f (spins, s) = (spins, s)

  infixl 5 ◌>>=◌ ◌>>◌
  unfoldable pub ◌>>=◌ : Exec X S A → (A → Exec X S B) → Exec X S B
  ◌>>=◌ m f s = continue f (m s)

  abbrev pub ◌>>◌ : Exec X S A → Exec X S B → Exec X S B
  m >> n = m >>= λ _. n
