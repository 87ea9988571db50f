-- ===== src/Http/Threads/Held.antt =====
-- The connections that the threads hold, and what a change of one thread does to them.
use audio_tool_api.Prelude.{
  ℕ, zero, suc, ◌≡◌, refl, sym, ap, subst, ◌∙◌, Bool, false, ◌&&◌, ◌||◌, Option, some, none, List,
  [], ◌∷◌, ◌++◌, inl, inr, Option-cases, if◌then◌else◌, get_elem?, set, append_assoc, map,
}
use mathlib.Core.List.{Perm, perm_append_comm}
use mathlib.Core.List.Perm
use mathlib.Core.Path.{subst₂}
use audio_tool_api.Http.Worker.{Worker}
use audio_tool_api.Http.Threads.{
  WorkThread, obtain, pop_at, try_dequeue, pop_front, busiest, load_factor,
}

-- The connections that workers which have not finished serve, and all those that the threads hold.
module _ {C : Type 0} where
  abbrev pub served_by : Worker C → List C
  served_by w = if w.has_finished then [] else elim w.conn [ none ↦ [] | some c ↦ c ∷ [] ]

  abbrev pub serving : List (Worker C) → List C
  serving [] = []
  serving (w ∷ ws) = served_by w ++ serving ws

  abbrev pub held : List (WorkThread C) → List C
  held [] = []
  held (t ∷ ts) = (t.queue ++ serving t.workers) ++ held ts

  -- Some worker has finished.
  abbrev pub any_finished : List (Worker C) → Bool
  any_finished [] = false
  any_finished (w ∷ ws) = w.has_finished || any_finished ws

  -- The thread number `i` runs and has a free worker.
  abbrev pub is_ready : WorkThread C → Bool
  is_ready t = t.running && any_finished t.workers

  abbrev pub ready_at : List (WorkThread C) → ℕ → Bool
  ready_at threads i = elim (get_elem? threads i) [ none ↦ false | some t ↦ is_ready t ]

  pub swap_front : (xs cs ys : List C) → Perm (xs ++ (cs ++ ys)) (cs ++ (xs ++ ys))
  swap_front xs cs ys =
      subst (λ l. Perm l (cs ++ (xs ++ ys))) (append_assoc xs cs ys)
        (subst (Perm ((xs ++ cs) ++ ys)) (append_assoc cs xs ys)
          (Perm.append_right ys (perm_append_comm xs cs)))

  -- One thread changes, and `cs` is what it holds less.
  pub held-set :
      (ts : List (WorkThread C)) (j : ℕ) (t t' : WorkThread C) (cs : List C)
      → get_elem? ts j ≡ some t
      → Perm (t.queue ++ serving t.workers) (cs ++ (t'.queue ++ serving t'.workers))
      → Perm (held ts) (cs ++ held (set ts j t'))
  held-set [] j t t' cs e p = absurd (cc)
  held-set (u ∷ ts) zero t t' cs e p =
      let same : t ≡ u = cc in
      let q =
        subst (λ x. Perm (x.queue ++ serving x.workers) (cs ++ (t'.queue ++ serving t'.workers)))
          same p in
      subst (Perm ((u.queue ++ serving u.workers) ++ held ts)) (append_assoc cs _ (held ts))
        (Perm.append_right (held ts) q)
  held-set (u ∷ ts) (suc j) t t' cs e p =
      Perm.trans (Perm.append_left (u.queue ++ serving u.workers) (held-set ts j t t' cs e p))
        (swap_front (u.queue ++ serving u.workers) cs (held (set ts j t')))

  -- One thread changes, and holds one connection more.
  pub held-gain :
      (ts : List (WorkThread C)) (j : ℕ) (t t' : WorkThread C) (c : C)
      → get_elem? ts j ≡ some t
      → Perm (c ∷ (t.queue ++ serving t.workers)) (t'.queue ++ serving t'.workers)
      → Perm (c ∷ held ts) (held (set ts j t'))
  held-gain [] j t t' c e p = absurd (cc)
  held-gain (u ∷ ts) zero t t' c e p =
      let same : t ≡ u = cc in
      Perm.append_right (held ts) (
        subst (λ x. Perm (c ∷ (x.queue ++ serving x.workers)) (t'.queue ++ serving t'.workers)) same
          p)
  held-gain (u ∷ ts) (suc j) t t' c e p =
      Perm.trans (Perm.symm (swap_front (u.queue ++ serving u.workers) (c ∷ []) (held ts)))
        (Perm.append_left (u.queue ++ serving u.workers) (held-gain ts j t t' c e p))

  ready_at-set :
      (ts : List (WorkThread C)) (i j : ℕ) (t t' : WorkThread C)
      → get_elem? ts j ≡ some t
      → is_ready t' ≡ is_ready t
      → ready_at (set ts j t') i ≡ ready_at ts i
  ready_at-set [] i j t t' e h = refl
  ready_at-set (u ∷ ts) zero zero t t' e h = let same : t ≡ u = cc in h ∙ ap is_ready same
  ready_at-set (u ∷ ts) zero (suc j) t t' e h = refl
  ready_at-set (u ∷ ts) (suc i) zero t t' e h = refl
  ready_at-set (u ∷ ts) (suc i) (suc j) t t' e h = ready_at-set ts i j t t' e h

  -- What a connection taken off a queue leaves.
  pub record Popped (ts : List (WorkThread C)) (c : C) (left : List (WorkThread C)) : Type 0 where
    pub holds : Perm (held ts) (c ∷ held left)
    pub ready : (i : ℕ) → ready_at left i ≡ ready_at ts i

  abbrev pub put_back :
      List (WorkThread C) → ℕ → Option (C × WorkThread C) → Option (C × List (WorkThread C))
  put_back ts j none = none
  put_back ts j (some (c, t)) = some (c, set ts j t)

  pop_front-Popped :
      (ts : List (WorkThread C)) (j : ℕ) (t : WorkThread C) (q : List C) (c : C)
      (left : List (WorkThread C))
      → get_elem? ts j ≡ some t
      → t.queue ≡ q
      → put_back ts j (pop_front t q) ≡ some (c, left)
      → Popped ts c left
  unfolding pop_front
  pop_front-Popped ts j t [] c left e q h = absurd (cc)
  pop_front-Popped ts j t (x ∷ rest) c left e q h =
      let t' : WorkThread C = record t { queue = rest } in
      let same : x ≡ c = cc h in
      let is_left : set ts j t' ≡ left = cc h in
      subst (Popped ts c) is_left (record {
        holds = held-set ts j t t' (c ∷ []) e (
            subst (λ l. Perm (l ++ serving t.workers) (c ∷ (rest ++ serving t.workers)))
              (ap (λ y. y ∷ rest) (sym same) ∙ sym q) (Perm.refl _));
        ready = λ i. ready_at-set ts i j t t' e refl;
      })

  pub pop_at-Popped :
      (ts : List (WorkThread C)) (j : ℕ) (c : C) (left : List (WorkThread C))
      → pop_at ts j ≡ some (c, left)
      → Popped ts c left
  unfolding pop_at try_dequeue
  pop_at-Popped ts j c left h = elim (Option-cases (get_elem? ts j)) [
    | inl e ↦ absurd (cc (rw (e, pop_at) at h))
    | inr (t, e) ↦ pop_front-Popped ts j t t.queue c left e refl (rw (e, pop_at) at h)
  ]

  pub obtain-Popped :
      (ts : List (WorkThread C)) (i : ℕ) (c : C) (left : List (WorkThread C))
      → obtain ts i ≡ some (c, left)
      → Popped ts c left
  unfolding obtain
  obtain-Popped ts i c left h = elim (Option-cases (pop_at ts i)) [
    | inr ((c', left'), e) ↦
        let same : c' ≡ c = cc (rw (e, obtain) at h) in
        let is_left : left' ≡ left = cc (rw (e, obtain) at h) in
        subst₂ (Popped ts) same is_left (pop_at-Popped ts i c' left' e)
    | inl e ↦ elim (Option-cases (busiest (map load_factor ts))) [
      | inl b ↦ absurd (cc (rw (e, b, obtain) at h))
      | inr (j, b) ↦ pop_at-Popped ts j c left (rw (e, b, obtain) at h)
    ]
  ]
