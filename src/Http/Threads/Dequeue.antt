-- ===== src/Http/Threads/Dequeue.antt =====
-- What `dequeue` does with the connections that the threads hold.
use audio_tool_api.Prelude.{
  Option, ℕ, ◌≡◌, refl, ◌∙◌, true, false, some, List, [], ◌∷◌, ◌++◌, inl, inr, Bool-cases,
  Option-cases, get_elem?, set, arith,
}
use mathlib.Core.List.{Perm}
use mathlib.Core.List.Perm
use audio_tool_api.Http.Worker.{Worker, start, read_operation}
use audio_tool_api.Http.Threads.{WorkThread, absent, given, start_first, hand_over, dequeue, obtain}
use audio_tool_api.Http.Threads.Held.{
  served_by, serving, held, any_finished, is_ready, ready_at, swap_front, held-set, held-gain,
  obtain-Popped,
}

module _ {C R Q : Type 0} (process : Q → Option R) where
  start_first-absent :
      (ws : List (Worker C)) (c : C) → any_finished ws ≡ false → start_first process ws c ≡ absent
  unfolding start_first
  start_first-absent [] c h = refl
  start_first-absent (w ∷ ws) c h = elim (Bool-cases w.has_finished) [
    | inl f ↦ absurd (cc (rw f at h))
    | inr f ↦ rw (f, start_first-absent ws c (rw f at h)) refl
  ]

  start_first-given :
      (ws : List (Worker C)) (c : C)
      → any_finished ws ≡ true
      → (ws' : List (Worker C)) × (start_first process ws c ≡ given ws')
        × Perm (c ∷ serving ws) (serving ws')
  unfolding start_first start
  start_first-given [] c h = absurd (cc)
  start_first-given (w ∷ ws) c h = elim (Bool-cases w.has_finished) [
    | inl f ↦
        let w' : Worker C = record w {
          conn = some c;
          has_finished = false;
          has_started = true;
          response = true;
          in_flight = some read_operation;
        } in
        (w' ∷ ws, rw f refl, rw f (Perm.refl (c ∷ serving ws)))
    | inr f ↦
        let (ws', e, p) = start_first-given ws c (rw f at h) in
        (
          w ∷ ws',
          rw (f, e) refl,
          Perm.trans (Perm.symm (swap_front (served_by w) (c ∷ []) (serving ws)))
              (Perm.append_left (served_by w) p),
        )
  ]

  -- A ready thread gives the connection to a worker; another keeps it in its slot only.
  hand_over-ready :
      (t : WorkThread C) (c : C)
      → is_ready t ≡ true
      → (t' : WorkThread C) × (hand_over process t c ≡ some t')
        × Perm (c ∷ (t.queue ++ serving t.workers)) (t'.queue ++ serving t'.workers)
  unfolding hand_over
  hand_over-ready t c h =
      let run : t.running ≡ true = ground arith in
      let free : any_finished t.workers ≡ true = ground arith in
      let (ws', e, p) = start_first-given t.workers c free in
      (
        record t { workers = ws'; conn = some c },
        ground (arith, e, run),
        Perm.trans (Perm.symm (swap_front t.queue (c ∷ []) (serving t.workers)))
            (Perm.append_left t.queue p),
      )

  hand_over-not_ready :
      (t : WorkThread C) (c : C)
      → is_ready t ≡ false
      → hand_over process t c ≡ some (record t { conn = some c })
  unfolding hand_over
  hand_over-not_ready t c h = elim (Bool-cases t.running) [
    | inl run ↦
        let none_free : any_finished t.workers ≡ false = ground arith in
        ground (arith, run, start_first-absent t.workers c none_free)
    | inr stopped ↦ ground arith
  ]

  -- If the thread runs and one of its workers has finished, `dequeue` succeeds, and every connection
  -- that a queue or a worker that has not finished held is held by one afterwards, whether one was
  -- found or not.
  pub dequeue-keeps :
      (threads : List (WorkThread C)) (i : ℕ)
      → ready_at threads i ≡ true
      → (after : List (WorkThread C)) × (dequeue process threads i ≡ some after)
        × Perm (held threads) (held after)
  unfolding dequeue
  dequeue-keeps threads i h = elim (Option-cases (obtain threads i)) [
    | inl e ↦ (threads, rw (e, dequeue) refl, Perm.refl (held threads))
    | inr ((c, left), e) ↦
        let v = obtain-Popped threads i c left e in
        let r : ready_at left i ≡ true = v.ready i ∙ h in
        elim (Option-cases (get_elem? left i)) [
          | inl g ↦ absurd (cc (rw (g, ready_at) at r))
          | inr (t, g) ↦
              let (t', f, p) = hand_over-ready t c (rw (g, ready_at) at r) in
              (
                set left i t',
                rw (e, g, f, dequeue) refl,
                Perm.trans v.holds (held-gain left i t t' c g p),
              )
        ]
  ]

  -- If the thread is stopped or none of its workers has finished, a connection that `dequeue` finds
  -- is lost: it succeeds, and the queues and the workers that have not finished hold that connection
  -- once less.
  pub dequeue_loses :
      (threads : List (WorkThread C)) (i : ℕ) (c : C) (left : List (WorkThread C))
      → ready_at threads i ≡ false
      → obtain threads i ≡ some (c, left)
      → (after : List (WorkThread C)) × (dequeue process threads i ≡ some after)
        × Perm (held threads) (c ∷ held after)
  unfolding dequeue
  dequeue_loses threads i c left h e =
      let v = obtain-Popped threads i c left e in
      let r : ready_at left i ≡ false = v.ready i ∙ h in
      elim (Option-cases (get_elem? left i)) [
        | inl g ↦ (left, rw (e, g, dequeue) refl, v.holds)
        | inr (t, g) ↦
            let t' : WorkThread C = record t { conn = some c } in
            let f = hand_over-not_ready t c (rw (g, ready_at) at r) in
            (
              set left i t',
              rw (e, g, f, dequeue) refl,
              Perm.trans v.holds (Perm.cons c (held-set left i t t' [] g (Perm.refl _))),
            )
      ]
