-- ===== src/Http/Server/Workers.antt =====
-- `dequeue` keeps the workers sound.
use audio_tool_api.Prelude.{
  Option, ℕ, ◌≡◌, refl, sym, subst, ◌∙◌, true, false, none, some, Option-cases, Bool-cases, inl,
  inr, List, [], ◌∷◌, map, get_elem?, set, All, All-get, All-set,
}
use audio_tool_api.Http.Worker.{Worker, read_operation, start}
use audio_tool_api.Http.Worker.Life.{IsSound, busy}
use audio_tool_api.Http.Threads.{
  WorkThread, Found, absent, given, load_factor, obtain, dequeue, pop_at, try_dequeue, pop_front,
  hand_over, start_first, behind, busiest,
}
use audio_tool_api.Http.Threads.Held.{put_back}

module _ {R Q : Type 0} (process : Q → Option R) where
  abbrev pub WorkersSound : List (Worker ℕ) → Type 0
  WorkersSound ws = All (IsSound process) ws

  abbrev pub ThreadsSound : List (WorkThread ℕ) → Type 0
  ThreadsSound ts = All (λ t. WorkersSound t.workers) ts

  behind-given :
      (w : Worker ℕ) (ws' : List (Worker ℕ)) (x : Found ℕ)
      → behind process w x ≡ given ws'
      → (ws : List (Worker ℕ)) × (x ≡ given ws) × (w ∷ ws ≡ ws')
  behind-given w ws' absent e = absurd (cc e)
  behind-given w ws' Found.refused e = absurd (cc e)
  behind-given w ws' (given ws) e = (ws, refl, cc e)

  start_first_sound :
      (ws ws' : List (Worker ℕ)) (c : ℕ)
      → WorkersSound ws
      → start_first process ws c ≡ given ws'
      → WorkersSound ws'
  unfolding start_first start
  start_first_sound [] ws' c h e = absurd (cc e)
  start_first_sound (w ∷ ws) ws' c (p, h) e = elim (Bool-cases w.has_finished) [
    | inl f ↦
        let w' : Worker ℕ = record w {
          conn = some c;
          has_finished = false;
          has_started = true;
          response = true;
          in_flight = some read_operation;
        } in
        let same : w' ∷ ws ≡ ws' = cc (rw f at e) in
        subst WorkersSound same (busy c read_operation refl refl refl refl, h)
    | inr f ↦
        let passed : start_first process (w ∷ ws) c ≡ behind process w (start_first process ws c) =
          rw f refl in
        let (rest, g, same) = behind-given w ws' (start_first process ws c) (sym passed ∙ e) in
        subst WorkersSound same (p, start_first_sound ws rest c h g)
  ]

  hand_over_sound :
      (t t' : WorkThread ℕ) (c : ℕ)
      → WorkersSound t.workers
      → hand_over process t c ≡ some t'
      → WorkersSound t'.workers
  unfolding hand_over
  hand_over_sound t t' c h e = elim (Bool-cases t.running) [
    | inr f ↦
        let same : record t { conn = some c } ≡ t' = cc (rw f at e) in
        subst (λ x. WorkersSound x.workers) same h
    | inl f ↦ of_found (start_first process t.workers c) refl (rw f at e)
  ]
    where
      of_found :
          (x : Found ℕ)
          → start_first process t.workers c ≡ x
          → elim x [
            | given ws ↦ some (record t { workers = ws; conn = some c })
            | absent ↦ some (record t { conn = some c })
            | Found.refused ↦ none
          ]
            ≡ some t'
          → WorkersSound t'.workers
      of_found absent g e =
          let same : record t { conn = some c } ≡ t' = cc e in
          subst (λ x. WorkersSound x.workers) same h
      of_found Found.refused g e = absurd (cc e)
      of_found (given ws) g e =
          let same : record t { workers = ws; conn = some c } ≡ t' = cc e in
          subst (λ x. WorkersSound x.workers) same (start_first_sound t.workers ws c h g)

  pop_front_sound :
      (ts left : List (WorkThread ℕ)) (j : ℕ) (t : WorkThread ℕ) (q : List ℕ) (c : ℕ)
      → ThreadsSound ts
      → WorkersSound t.workers
      → put_back ts j (pop_front t q) ≡ some (c, left)
      → ThreadsSound left
  unfolding pop_front
  pop_front_sound ts left j t [] c h p e = absurd (cc e)
  pop_front_sound ts left j t (x ∷ rest) c h p e =
      let same : set ts j (record t { queue = rest }) ≡ left = cc e in
      subst ThreadsSound same (All-set (λ t. WorkersSound t.workers) ts j _ h p)

  pop_at_sound :
      (ts left : List (WorkThread ℕ)) (j c : ℕ)
      → ThreadsSound ts
      → pop_at ts j ≡ some (c, left)
      → ThreadsSound left
  unfolding pop_at try_dequeue
  pop_at_sound ts left j c h e = elim (Option-cases (get_elem? ts j)) [
    | inl g ↦ absurd (cc (rw (g, pop_at) at e))
    | inr (t, g) ↦
        pop_front_sound ts left j t t.queue c h (All-get (λ t. WorkersSound t.workers) ts j t h g)
          (rw (g, pop_at) at e)
  ]

  obtain_sound :
      (ts left : List (WorkThread ℕ)) (i c : ℕ)
      → ThreadsSound ts
      → obtain ts i ≡ some (c, left)
      → ThreadsSound left
  unfolding obtain
  obtain_sound ts left i c h e = elim (Option-cases (pop_at ts i)) [
    | inr ((c', left'), g) ↦
        let same : left' ≡ left = cc (rw (g, obtain) at e) in
        subst ThreadsSound same (pop_at_sound ts left' i c' h g)
    | inl g ↦ elim (Option-cases (busiest (map load_factor ts))) [
      | inl b ↦ absurd (cc (rw (g, b, obtain) at e))
      | inr (j, b) ↦ pop_at_sound ts left j c h (rw (g, b, obtain) at e)
    ]
  ]

  pub dequeue_sound :
      (ts after : List (WorkThread ℕ)) (i : ℕ)
      → ThreadsSound ts
      → dequeue process ts i ≡ some after
      → ThreadsSound after
  unfolding dequeue
  dequeue_sound ts after i h e = elim (Option-cases (obtain ts i)) [
    | inl g ↦ let same : ts ≡ after = cc (rw (g, dequeue) at e) in subst ThreadsSound same h
    | inr ((c, left), g) ↦
        let l = obtain_sound ts left i c h g in
        elim (Option-cases (get_elem? left i)) [
          | inl f ↦
              let same : left ≡ after = cc (rw (g, f, dequeue) at e) in subst ThreadsSound same l
          | inr (t, f) ↦ elim (Option-cases (hand_over process t c)) [
            | inl k ↦ absurd (cc (rw (g, f, k, dequeue) at e))
            | inr (t', k) ↦
                let same : set left i t' ≡ after = cc (rw (g, f, k, dequeue) at e) in
                subst ThreadsSound same (
                  All-set (λ t. WorkersSound t.workers) left i t' l
                    (hand_over_sound t t' c (All-get (λ t. WorkersSound t.workers) left i t l f) k))
          ]
        ]
  ]
