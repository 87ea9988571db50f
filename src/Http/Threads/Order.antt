-- ===== src/Http/Threads/Order.antt =====
-- The order of the loads, which is that of fractions.
use audio_tool_api.Prelude.{ℕ, ◌*◌, ◌<◌, ◌≤◌, ◌≡◌, true, false, arith}
use native.Mathlib.Nat.{mul-le-mul_right, le_of_mul-le-mul_right}
use audio_tool_api.Http.Threads.{Load, load_lt, is_light, is_nan}

abbrev pub NotBelow : Load → Load → Type 0
NotBelow a b = load_lt a b ≡ false

abbrev pub IsDark : Load → Type 0
IsDark l = is_light l ≡ false

abbrev pub HasWorkers : Load → Type 0
HasWorkers l = 0 < l.workers

cross : (a b c p q r : ℕ) → 0 < q → a * q ≤ b * p → b * r ≤ c * q → a * r ≤ c * p
cross a b c p q r h x y =
    le_of_mul-le-mul_right {k = q} (grind (arith, mul-le-mul_right r x, mul-le-mul_right p y)) h

pub NotBelow-trans : (a b c : Load) → HasWorkers b → NotBelow a b → NotBelow b c → NotBelow a c
NotBelow-trans a b c w x y =
    ground (arith, cross c.jobs b.jobs a.jobs c.workers b.workers a.workers w)

pub load_lt-NotBelow : (a b : Load) → load_lt b a ≡ true → NotBelow a b
load_lt-NotBelow a b h = ground arith

pub NotBelow-refl : (a : Load) → NotBelow a a
NotBelow-refl a = ground arith

pub HasWorkers-is_nan : (a : Load) → HasWorkers a → is_nan a ≡ false
HasWorkers-is_nan a h = ground arith
