-- ===== src/Http/Server/Soundness.antt =====
-- No step of the server calls through a null connection, or throws other than what left `process`.
-- An exception of the completion handler leaves `io_context::run` and its thread, which ends the
-- program: no step of the server follows it.
use audio_tool_api.Prelude.{
  Option, ℕ, ◌≡◌, refl, subst, some, Option-cases, Bool-cases, inl, inr, ◌⊎◌, List, get_elem?,
  replicate, All-get, All-set, All-replicate, All-append,
}
use audio_tool_api.Http.Worker.{Worker, Result, fresh}
use audio_tool_api.Http.Worker.Life.{
  IsSound, idle, busy, Event, Event-Ends, Event-Runs, Runs, Escapes,
}
use audio_tool_api.Http.Worker.Life
use audio_tool_api.Http.Threads.{WorkThread, enqueue, obtain, dequeue}
use audio_tool_api.Http.Threads.Held.{ready_at}
use audio_tool_api.Http.Threads.Dequeue.{dequeue-keeps, dequeue_loses}
use audio_tool_api.Http.Server.Rounds.{accept_round_rule}
use audio_tool_api.Http.Server.{
  System, accept_round, AcceptAnswer, Completion, read_done, write_done, Step, accepts, shuts_down,
  begins, joins, ticks, completes, Reach, starts, followed,
}
use audio_tool_api.Http.Server.Workers.{ThreadsSound, WorkersSound, dequeue_sound}

module _ {R Q : Type 0} (process : Q → Option R) where
  accept_round_sound :
      (answer : AcceptAnswer) (s : System)
      → ThreadsSound process s.threads
      → ThreadsSound process (accept_round answer s).1.threads
  unfolding enqueue
  accept_round_sound answer s h =
      accept_round_rule (λ x. ThreadsSound process x.threads) s (λ n. h)
        (λ i t g few.
          All-set (λ u. WorkersSound process u.workers) s.threads i (enqueue t s.accepted_number) h
            (All-get (λ u. WorkersSound process u.workers) s.threads i t h g))
        answer

  pub Completion-Event :
      {w : Worker ℕ} {r : Result ℕ R} → Completion process w r → Event process w r
  Completion-Event (read_done q e) = Life.read_done q e
  Completion-Event (write_done failed e) = Life.write_done failed e

  Step-ThreadsSound :
      {s s' : System} {closes loses : List ℕ}
      → Step process s s' closes loses
      → ThreadsSound process s.threads
      → ThreadsSound process s'.threads
  Step-ThreadsSound {s} (accepts answer) h = accept_round_sound answer s h
  Step-ThreadsSound shuts_down h = h
  Step-ThreadsSound {s} (begins i n t g) h =
      All-set (λ t. WorkersSound process t.workers) s.threads i _ h
        (All-append (IsSound process) t.workers (replicate n fresh)
          (All-get (λ t. WorkersSound process t.workers) s.threads i t h g)
          (All-replicate (IsSound process) n fresh (idle refl refl refl)))
  Step-ThreadsSound {s} (joins i t g) h =
      All-set (λ t. WorkersSound process t.workers) s.threads i _ h
        (All-get (λ t. WorkersSound process t.workers) s.threads i t h g)
  Step-ThreadsSound {s} (ticks i after run e) h = dequeue_sound process s.threads after i h e
  Step-ThreadsSound {s} (completes i k t w w' r log g f c e) h =
      let ws = All-get (λ t. WorkersSound process t.workers) s.threads i t h g in
      let v =
        Event-Runs process (All-get (IsSound process) t.workers k w ws f) (Completion-Event c) e in
      let same : v.after ≡ w' = cc (v.result_is, e) in
      All-set (λ t. WorkersSound process t.workers) s.threads i _ h
        (All-set (IsSound process) t.workers k w' ws (subst (IsSound process) same v.sound))

  -- Every worker of a server that is reached is idle, or has a connection and one operation in
  -- flight.
  pub Reach-ThreadsSound :
      {s : System} {closes loses : List ℕ}
      → Reach process s closes loses
      → ThreadsSound process s.threads
  Reach-ThreadsSound (starts n) = All-replicate (λ t. WorkersSound process t.workers) n _ tt
  Reach-ThreadsSound (followed r step) = Step-ThreadsSound step (Reach-ThreadsSound r)

  -- A thread's `dequeue` never throws.
  dequeue-succeeds :
      (ts : List (WorkThread ℕ)) (i : ℕ)
      → (after : List (WorkThread ℕ)) × (dequeue process ts i ≡ some after)
  unfolding dequeue
  dequeue-succeeds ts i = elim (Bool-cases (ready_at ts i)) [
    | inl r ↦ let (after, e, p) = dequeue-keeps process ts i r in (after, e)
    | inr r ↦ elim (Option-cases (obtain ts i)) [
      | inl g ↦ (ts, rw (g, dequeue) refl)
      | inr ((c, left), g) ↦ let (after, e, p) = dequeue_loses process ts i c left r g in (after, e)
    ]
  ]

  -- What a server can do next: every operation in flight ends without a call through a null
  -- connection, and with an exception only if that exception left `process` on the request that was
  -- read; every thread's `dequeue` succeeds.
  pub record Goes (s : System) : Type 0 where
    pub ends :
        (i k : ℕ) (t : WorkThread ℕ) (w : Worker ℕ) (r : Result ℕ R)
        → get_elem? s.threads i ≡ some t
        → get_elem? t.workers k ≡ some w
        → Completion process w r
        → Runs process w r ⊎ Escapes process w r
    pub dequeues :
        (i : ℕ) → (after : List (WorkThread ℕ)) × (dequeue process s.threads i ≡ some after)

  -- In every state that the server reaches, by any steps in any order, every operation of a worker
  -- that is in flight ends without a call through a null connection, and with an exception only if
  -- that exception left `process` on the request that was read; and every thread's `dequeue`
  -- succeeds. The errors of the sockets themselves are left out.
  pub Reach-Goes : {s : System} {closes loses : List ℕ} → Reach process s closes loses → Goes s
  Reach-Goes {s} h = record {
    ends = λ i k t w r g f c.
        Event-Ends process
          (All-get (IsSound process) t.workers k w
            (All-get (λ t. WorkersSound process t.workers) s.threads i t (Reach-ThreadsSound h) g)
            f)
          (Completion-Event c);
    dequeues = λ i. dequeue-succeeds s.threads i;
  }
