-- ===== src/Http/Threads/Busiest.antt =====
-- The search for the busiest thread, from which `dequeue` steals.
use audio_tool_api.Prelude.{
  ℕ, suc, ◌+◌, ◌≡◌, refl, ap, ◌∙◌, true, false, Option, some, List, [], ◌∷◌, ◌++◌, inl, inr, arith,
  length, All, Bool-cases,
}
use audio_tool_api.Http.Threads.{Load, load_lt, busiest_from, busiest}
use audio_tool_api.Http.Threads.Order.{
  NotBelow, HasWorkers, NotBelow-trans, load_lt-NotBelow, NotBelow-refl, HasWorkers-is_nan,
}

-- The load of the thread number `k` is below no other.
pub data IsBusiest (ls : List Load) (k : ℕ) : Type 0 where
  greatest :
      (front back : List Load) (l : Load)
      → ls ≡ front ++ l ∷ back
      → k ≡ length front
      → All (NotBelow l) ls
      → IsBusiest ls k

-- What the loop returns from the thread number `i` on, where `t` has the load `m`.
data Peaks (ls : List Load) (i t : ℕ) (m : Load) (r : Option ℕ) : Type 0 where
  higher :
      (front back : List Load) (l : Load)
      → ls ≡ front ++ l ∷ back
      → r ≡ some (i + length front)
      → NotBelow l m
      → All (NotBelow l) ls
      → Peaks ls i t m r
  kept : r ≡ some t → All (NotBelow m) ls → Peaks ls i t m r

Peaks-taken :
    (l : Load) (ls : List Load) (i t : ℕ) (m : Load) (r : Option ℕ)
    → HasWorkers l
    → load_lt m l ≡ true
    → Peaks ls (suc i) i l r
    → Peaks (l ∷ ls) i t m r
Peaks-taken l ls i t m r w b (higher front back l' e k x xs) =
    higher (l ∷ front) back l' (ap (◌∷◌ l) e) (k ∙ ap some (omega arith))
      (NotBelow-trans l' l m w x (load_lt-NotBelow l m b)) (x, xs)
Peaks-taken l ls i t m r w b (kept k xs) =
    higher [] ls l refl (k ∙ ap some (omega arith)) (load_lt-NotBelow l m b) (NotBelow-refl l, xs)

Peaks-passed :
    (l : Load) (ls : List Load) (i t : ℕ) (m : Load) (r : Option ℕ)
    → HasWorkers m
    → load_lt m l ≡ false
    → Peaks ls (suc i) t m r
    → Peaks (l ∷ ls) i t m r
Peaks-passed l ls i t m r w b (higher front back l' e k x xs) =
    higher (l ∷ front) back l' (ap (◌∷◌ l) e) (k ∙ ap some (omega arith)) x
      (NotBelow-trans l' m l w x b, xs)
Peaks-passed l ls i t m r w b (kept k xs) = kept k (b, xs)

busiest_from-Peaks :
    (ls : List Load) (i t : ℕ) (m : Load)
    → HasWorkers m
    → All HasWorkers ls
    → Peaks ls i t m (busiest_from ls i (some t) (some m))
unfolding busiest_from
busiest_from-Peaks [] i t m w ws = kept refl tt
busiest_from-Peaks (l ∷ ls) i t m w (wl, ws) = elim (Bool-cases (load_lt m l)) [
  | inl b ↦ rw b (Peaks-taken l ls i t m _ wl b (busiest_from-Peaks ls (suc i) i l wl ws))
  | inr b ↦ rw b (Peaks-passed l ls i t m _ w b (busiest_from-Peaks ls (suc i) t m w ws))
]

head_greatest :
    (l : Load) (ls : List Load)
    → Peaks ls 1 0 l (busiest_from ls 1 (some 0) (some l))
    → (k : ℕ) × (busiest_from ls 1 (some 0) (some l) ≡ some k) × IsBusiest (l ∷ ls) k
head_greatest l ls (higher front back l' e k x xs) = (
  suc (length front),
  k ∙ ap some (omega arith),
  greatest (l ∷ front) back l' (ap (◌∷◌ l) e) refl (x, xs),
)
head_greatest l ls (kept k xs) = (0, k, greatest [] ls l refl refl (NotBelow-refl l, xs))

-- If there are threads, and all have workers, the loop finds one whose load is below no other.
pub busiest-IsBusiest :
    (l : Load) (ls : List Load)
    → HasWorkers l
    → All HasWorkers ls
    → (k : ℕ) × (busiest (l ∷ ls) ≡ some k) × IsBusiest (l ∷ ls) k
unfolding busiest busiest_from
busiest-IsBusiest l ls w ws =
    rw (HasWorkers-is_nan l w) (head_greatest l ls (busiest_from-Peaks ls 1 0 l w ws))
