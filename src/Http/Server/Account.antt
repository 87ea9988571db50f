-- ===== src/Http/Server/Account.antt =====
-- What becomes of the connections that the server accepts, and how many exist.
use audio_tool_api.Prelude.{
  ℕ, zero, suc, ◌≡◌, refl, sym, ap, subst, ◌∙◌, true, false, none, some, Option-cases, Bool-cases,
  inl, inr, Option, List, [], ◌∷◌, ◌++◌, append_assoc, append-nil, get_elem?, set, replicate, All,
  All-get, arith,
}
use mathlib.Core.List.{Perm, perm_middle}
use mathlib.Core.List.Perm
use audio_tool_api.Http.Worker.{
  Worker, write_operation, Effect, Result, next, fresh, read_handler, write_handler,
}
use audio_tool_api.Http.Worker.Life.{IsSound, idle, busy, closed}
use audio_tool_api.Http.Threads.{WorkThread, enqueue, obtain, dequeue}
use audio_tool_api.Http.Threads.Held.{
  ready_at, held, held-set, held-gain, serving, served_by, swap_front,
}
use audio_tool_api.Http.Threads.Dequeue.{dequeue-keeps, dequeue_loses}
use mathlib.Core.Path.{subst₂}
use audio_tool_api.Http.Server.Rounds.{accept_round_rule}
use audio_tool_api.Http.Server.{
  System, with_threads, thread_runner, join, set_worker, missed, Completion, read_done, write_done,
  Step, accepts, shuts_down, begins, joins, ticks, completes, Reach, starts, followed,
}
use audio_tool_api.Http.Server.Soundness.{Reach-ThreadsSound}

-- The numbers of the connections that were accepted, the last one first.
abbrev pub upto : ℕ → List ℕ
upto zero = []
upto (suc n) = n ∷ upto n

held-same :
    (ts : List (WorkThread ℕ)) (i : ℕ) (t t' : WorkThread ℕ)
    → get_elem? ts i ≡ some t
    → t.queue ++ serving t.workers ≡ t'.queue ++ serving t'.workers
    → Perm (held ts) (held (set ts i t'))
held-same ts i t t' g e =
    held-set ts i t t' [] g (subst (Perm (t.queue ++ serving t.workers)) e (Perm.refl _))

held-replicate :
    (n : ℕ)
    → held {C = ℕ} (
        replicate n
          (record { queue = []; workers = []; running = false; num_workers = 4; conn = none }))
      ≡ []
held-replicate zero = refl
held-replicate (suc n) = held-replicate n

serving-fresh : (ws : List (Worker ℕ)) (n : ℕ) → serving (ws ++ replicate n fresh) ≡ serving ws
serving-fresh [] zero = refl
serving-fresh [] (suc n) = serving-fresh [] n
serving-fresh (w ∷ ws) n = ap (◌++◌ (served_by w)) (serving-fresh ws n)

serving-set :
    (ws : List (Worker ℕ)) (k : ℕ) (w w' : Worker ℕ) (cs : List ℕ)
    → get_elem? ws k ≡ some w
    → served_by w ≡ cs ++ served_by w'
    → Perm (serving ws) (cs ++ serving (set ws k w'))
serving-set [] k w w' cs g e = absurd (cc g)
serving-set (x ∷ ws) zero w w' cs g e =
    let same : x ≡ w = cc g in
    subst (Perm (served_by x ++ serving ws))
      (ap (λ l. l ++ serving ws) (ap served_by same ∙ e)
        ∙ append_assoc cs (served_by w') (serving ws))
      (Perm.refl _)
serving-set (x ∷ ws) (suc k) w w' cs g e =
    Perm.trans (Perm.append_left (served_by x) (serving-set ws k w w' cs g e))
      (swap_front (served_by x) cs (serving (set ws k w')))

held-enqueue :
    (ts : List (WorkThread ℕ)) (i c : ℕ) (t : WorkThread ℕ)
    → get_elem? ts i ≡ some t
    → Perm (c ∷ held ts) (held (set ts i (enqueue t c)))
unfolding enqueue
held-enqueue ts i c t g = held-gain ts i t _ c g (
    subst (Perm (c ∷ (t.queue ++ serving t.workers)))
      (sym (append_assoc t.queue (c ∷ []) (serving t.workers)))
      (Perm.symm (perm_middle t.queue (serving t.workers))))

-- The lists of what was closed and lost grow by what the threads hold less.
settle :
    (h h' more less closes loses : List ℕ)
    → Perm h (more ++ (less ++ h'))
    → Perm (h ++ (closes ++ loses)) (h' ++ ((more ++ closes) ++ (less ++ loses)))
settle h h' more less closes loses p =
    let rest = closes ++ loses in
    let target : h' ++ (more ++ (closes ++ (less ++ loses)))
        ≡ h' ++ ((more ++ closes) ++ (less ++ loses)) =
      ap (◌++◌ h') (sym (append_assoc more closes (less ++ loses))) in
    let source : (more ++ (less ++ h')) ++ rest ≡ more ++ (less ++ (h' ++ rest)) =
      append_assoc more (less ++ h') rest ∙ ap (◌++◌ more) (append_assoc less h' rest) in
    subst (Perm (h ++ rest)) target (
      Perm.trans (Perm.append_right rest p) (
        Perm.trans (subst (Perm ((more ++ (less ++ h')) ++ rest)) source (Perm.refl _)) (
          Perm.trans (Perm.append_left more (swap_front less h' rest)) (
            Perm.trans (Perm.append_left more (Perm.append_left h' (swap_front less closes loses)))
              (swap_front more h' (closes ++ (less ++ loses)))))))

module _ {R Q : Type 0} (process : Q → Option R) where
  ticked :
      (ts after : List (WorkThread ℕ)) (i : ℕ)
      → dequeue process ts i ≡ some after
      → Perm (held ts) (missed ts i ++ held after)
  unfolding dequeue
  ticked ts after i e = elim (Bool-cases (ready_at ts i)) [
    | inl r ↦
        let (after', e', p) = dequeue-keeps process ts i r in
        let same : after' ≡ after = cc (e, e') in
        rw (r) (subst (λ l. Perm (held ts) (held l)) same p)
    | inr r ↦ elim (Option-cases (obtain ts i)) [
      | inl g ↦
          let same : ts ≡ after = cc (rw (g, dequeue) at e) in
          rw (r, g) (subst (λ l. Perm (held ts) (held l)) same (Perm.refl _))
      | inr ((c, left), g) ↦
          let (after', e', p) = dequeue_loses process ts i c left r g in
          let same : after' ≡ after = cc (e, e') in
          rw (r, g) (subst (λ l. Perm (held ts) (c ∷ held l)) same p)
    ]
  ]

  carry :
      (w a : Worker ℕ) {w' : Worker ℕ} {r : Result ℕ R} (l : List (Effect ℕ R))
      {log : List (Effect ℕ R)}
      → r ≡ next a l
      → r ≡ next w' log
      → served_by w ≡ closed process l ++ served_by a
      → served_by w ≡ closed process log ++ served_by w'
  carry w a {w'} l {log} computed given e =
      let same : a ≡ w' = cc (computed, given) in
      let logs : l ≡ log = cc (computed, given) in
      subst₂ (λ es x. served_by w ≡ closed process es ++ served_by x) logs same e

  -- The end of an operation closes what the worker serves no longer.
  closes_only :
      {w w' : Worker ℕ} {r : Result ℕ R} {log : List (Effect ℕ R)}
      → IsSound process w
      → Completion process w r
      → r ≡ next w' log
      → served_by w ≡ closed process log ++ served_by w'
  unfolding read_handler write_handler
  closes_only (idle e f o) (read_done q h) p = absurd (cc)
  closes_only (idle e f o) (write_done b h) p = absurd (cc)
  closes_only {w} (busy c o e f s g) (read_done none h) p =
      carry w (record w { response = false; has_finished = true; conn = none; in_flight = none })
        (Effect.closes c ∷ []) (ground arith) p (rw (e, f) refl)
  closes_only {w} (busy c o e f s g) (read_done (some q) h) p = elim (Option-cases (process q)) [
    | inl n ↦ absurd (cc (rw (n, read_handler) at p))
    | inr (x, a) ↦
        carry w (record w { in_flight = some write_operation }) (Effect.writes c x ∷ [])
          (rw (a, read_handler) (ground (arith, e))) p (rw (e, f) refl)
  ]
  closes_only {w} (busy c o e f s g) (write_done b h) p =
      carry w (record w { response = false; has_finished = true; conn = none; in_flight = none })
        (Effect.closes c ∷ []) (ground arith) p (rw (e, f) refl)

  -- Each accepted connection is held, closed or lost, and only once.
  abbrev pub Accounted : System → List ℕ → Type 0
  Accounted s log = Perm (upto s.accepted_number) (held s.threads ++ log)

  settled :
      (s : System) (ts : List (WorkThread ℕ)) (more less closes loses : List ℕ)
      → Perm (held s.threads) (more ++ (less ++ held ts))
      → Accounted s (closes ++ loses)
      → Accounted (with_threads ts s) ((more ++ closes) ++ (less ++ loses))
  settled s ts more less closes loses p h =
      Perm.trans h (settle (held s.threads) (held ts) more less closes loses p)

  Step-Accounted :
      {s s' : System} {more less : List ℕ} (closes loses : List ℕ)
      → All (λ t. All (IsSound process) t.workers) s.threads
      → Step process s s' more less
      → Accounted s (closes ++ loses)
      → Accounted s' ((more ++ closes) ++ (less ++ loses))
  Step-Accounted {s} closes loses sound (accepts answer) h =
      accept_round_rule (λ x. Accounted x (closes ++ loses)) s (λ n. h)
        (λ i t g few.
          Perm.trans (Perm.cons s.accepted_number h)
            (Perm.append_right (closes ++ loses) (held-enqueue s.threads i s.accepted_number t g)))
        answer
  Step-Accounted closes loses sound shuts_down h = h
  Step-Accounted {s} closes loses sound (begins i n t g) h =
      settled s (set s.threads i (thread_runner n t)) [] [] closes loses
        (held-same s.threads i t (thread_runner n t) g
          (ap (◌++◌ t.queue) (sym (serving-fresh t.workers n))))
        h
  Step-Accounted {s} closes loses sound (joins i t g) h =
      settled s (set s.threads i (join t)) [] [] closes loses
        (held-same s.threads i t (join t) g refl) h
  Step-Accounted {s} closes loses sound (ticks i after run e) h =
      settled s after [] (missed s.threads i) closes loses (ticked s.threads after i e) h
  Step-Accounted {s} closes loses sound (completes i k t w w' r log g f c e) h =
      let all = All-get (λ u. All (IsSound process) u.workers) s.threads i t sound g in
      let served = closes_only (All-get (IsSound process) t.workers k w all f) c e in
      settled s (set s.threads i (set_worker t k w')) (closed process log) [] closes loses
        (held-set s.threads i t (set_worker t k w') (closed process log) g (
          Perm.trans
            (Perm.append_left t.queue (serving-set t.workers k w w' (closed process log) f served))
            (swap_front t.queue (closed process log) _)))
        h

  -- In every state that the server reaches, by any steps in any order, the connections that it
  -- accepted are those that a queue or a worker that has not finished holds, those that it closed
  -- and those that a thread took without a worker for them: each accepted connection is in one of
  -- these places, and in it once.
  pub Reach-Accounted :
      {s : System} {closes loses : List ℕ}
      → Reach process s closes loses
      → Accounted s (closes ++ loses)
  Reach-Accounted (starts n) =
      subst (Perm []) (sym (append-nil _ ∙ held-replicate n)) (Perm.refl [])
  Reach-Accounted (followed {s} {s'} {closes} {loses} r step) =
      Step-Accounted closes loses (Reach-ThreadsSound process r) step (Reach-Accounted r)
