-- ===== src/Http/Threads/Choice.antt =====
-- The acceptor's loop over the threads.
use audio_tool_api.Prelude.{
  ℕ, suc, ◌+◌, ◌≡◌, refl, ap, ◌∙◌, true, false, Option, some, List, [], ◌∷◌, ◌++◌, inl, inr, arith,
  length, All, Bool-cases,
}
use audio_tool_api.Http.Threads.{Load, load_lt, is_light, choose_from, choose}
use audio_tool_api.Http.Threads.Order.{
  NotBelow, IsDark, HasWorkers, NotBelow-trans, load_lt-NotBelow, NotBelow-refl,
}

-- The thread number `k` is the first light one, or there is none and no load is below its load.
pub data IsChoice (ls : List Load) (k : ℕ) : Type 0 where
  first_light :
      (front back : List Load) (l : Load)
      → ls ≡ front ++ l ∷ back
      → k ≡ length front
      → is_light l ≡ true
      → All IsDark front
      → IsChoice ls k
  least :
      (front back : List Load) (l : Load)
      → ls ≡ front ++ l ∷ back
      → k ≡ length front
      → All IsDark ls
      → All (λ a. NotBelow a l) ls
      → IsChoice ls k

-- What the loop returns from the thread number `i` on, where `t` has the load `m`.
data Picks (ls : List Load) (i t : ℕ) (m : Load) (r : Option ℕ) : Type 0 where
  new_light :
      (front back : List Load) (l : Load)
      → ls ≡ front ++ l ∷ back
      → r ≡ some (i + length front)
      → is_light l ≡ true
      → All IsDark front
      → Picks ls i t m r
  new_least :
      (front back : List Load) (l : Load)
      → ls ≡ front ++ l ∷ back
      → r ≡ some (i + length front)
      → All IsDark ls
      → NotBelow m l
      → All (λ a. NotBelow a l) ls
      → Picks ls i t m r
  kept : r ≡ some t → All IsDark ls → All (λ a. NotBelow a m) ls → Picks ls i t m r

shift : (i k : ℕ) → some (suc i + k) ≡ some (i + suc k)
shift i k = ap some (omega arith)

-- The load `l` is taken for the new minimum.
Picks-taken :
    (l : Load) (ls : List Load) (i t : ℕ) (m : Load) (r : Option ℕ)
    → HasWorkers l
    → IsDark l
    → load_lt l m ≡ true
    → Picks ls (suc i) i l r
    → Picks (l ∷ ls) i t m r
Picks-taken l ls i t m r w d b (new_light front back l' e k h ds) =
    new_light (l ∷ front) back l' (ap (◌∷◌ l) e) (k ∙ shift i (length front)) h (d, ds)
Picks-taken l ls i t m r w d b (new_least front back l' e k ds x xs) =
    new_least (l ∷ front) back l' (ap (◌∷◌ l) e) (k ∙ shift i (length front)) (d, ds)
      (NotBelow-trans m l l' w (load_lt-NotBelow m l b) x) (x, xs)
Picks-taken l ls i t m r w d b (kept k ds xs) =
    new_least [] ls l refl (k ∙ ap some (omega arith)) (d, ds) (load_lt-NotBelow m l b)
      (NotBelow-refl l, xs)

Picks-passed :
    (l : Load) (ls : List Load) (i t : ℕ) (m : Load) (r : Option ℕ)
    → HasWorkers m
    → IsDark l
    → load_lt l m ≡ false
    → Picks ls (suc i) t m r
    → Picks (l ∷ ls) i t m r
Picks-passed l ls i t m r w d b (new_light front back l' e k h ds) =
    new_light (l ∷ front) back l' (ap (◌∷◌ l) e) (k ∙ shift i (length front)) h (d, ds)
Picks-passed l ls i t m r w d b (new_least front back l' e k ds x xs) =
    new_least (l ∷ front) back l' (ap (◌∷◌ l) e) (k ∙ shift i (length front)) (d, ds) x
      (NotBelow-trans l m l' w b x, xs)
Picks-passed l ls i t m r w d b (kept k ds xs) = kept k (d, ds) (b, xs)

choose_from-Picks :
    (ls : List Load) (i t : ℕ) (m : Load)
    → HasWorkers m
    → All HasWorkers ls
    → Picks ls i t m (choose_from ls i (some t) (some m))
unfolding choose_from
choose_from-Picks [] i t m w ws = kept refl tt tt
choose_from-Picks (l ∷ ls) i t m w (wl, ws) = elim (Bool-cases (is_light l)) [
  | inl h ↦ rw h (new_light [] ls l refl (ap some (omega arith)) h tt)
  | inr d ↦ elim (Bool-cases (load_lt l m)) [
    | inl b ↦ rw (d, b) (Picks-taken l ls i t m _ wl d b (choose_from-Picks ls (suc i) i l wl ws))
    | inr b ↦ rw (d, b) (Picks-passed l ls i t m _ w d b (choose_from-Picks ls (suc i) t m w ws))
  ]
]

head_least :
    (l : Load) (ls : List Load)
    → HasWorkers l
    → IsDark l
    → Picks ls 1 0 l (choose_from ls 1 (some 0) (some l))
    → (k : ℕ) × (choose_from ls 1 (some 0) (some l) ≡ some k) × IsChoice (l ∷ ls) k
head_least l ls w d (new_light front back l' e k h ds) = (
  suc (length front),
  k ∙ ap some (omega arith),
  first_light (l ∷ front) back l' (ap (◌∷◌ l) e) refl h (d, ds),
)
head_least l ls w d (new_least front back l' e k ds x xs) = (
  suc (length front),
  k ∙ ap some (omega arith),
  least (l ∷ front) back l' (ap (◌∷◌ l) e) refl (d, ds) (x, xs),
)
head_least l ls w d (kept k ds xs) = (0, k, least [] ls l refl refl (d, ds) (NotBelow-refl l, xs))

-- If there are threads, and all have workers, the acceptor's loop chooses one: the first whose load
-- is light, or, if no load is light, one whose load no other is below.
pub choose-IsChoice :
    (l : Load) (ls : List Load)
    → HasWorkers l
    → All HasWorkers ls
    → (k : ℕ) × (choose (l ∷ ls) ≡ some k) × IsChoice (l ∷ ls) k
unfolding choose choose_from
choose-IsChoice l ls w ws = elim (Bool-cases (is_light l)) [
  | inl h ↦ rw h (0, refl, first_light [] ls l refl refl h tt)
  | inr d ↦ rw d (head_least l ls w d (choose_from-Picks ls 1 0 l w ws))
]
