-- ===== src/Http/Server.antt =====
-- audio_tool_api/http/http_server.cpp and http_work_thread.cpp: the acceptor, the work threads and
-- their workers together. A connection is known by its number, in the order of the accepts; it is an
-- object as long as a queue, a thread's slot or a worker refers to it. A step is one round of the
-- acceptor, one call of a thread's timer, or the end of one operation of a worker; the steps come in
-- any order.
pub mod Rounds
pub mod Workers
pub mod Soundness
pub mod Account
pub mod Capacity
use audio_tool_api.Prelude.{
  ℕ, zero, suc, ◌+◌, ◌≡◌, Bool, true, false, not, ◌||◌, Option, none, some, List, [], ◌∷◌, ◌++◌,
  map, if◌then◌else◌, ltb, ◌==◌, length, get_elem?, set, replicate,
}
use audio_tool_api.Http.Worker.{
  Worker, Operation, read_operation, write_operation, Effect, Result, next, fresh, read_handler,
  write_handler,
}
use audio_tool_api.Http.Worker.Life.{closed}
use audio_tool_api.Http.Threads.{WorkThread, load_factor, choose, enqueue, obtain, dequeue}
use audio_tool_api.Http.Threads.Held.{ready_at}

-- How `raw_accept` begins: it goes on to its loop, or returns, or calls `exit(1)`.
pub data Startup : Type 0 where
  listening returns exits : Startup

-- `none` is the descriptor -1. The code tests for 0 in its place.
unfoldable pub prepare :
    Option ℕ → (Option ℕ → Bool) → (Option ℕ → Bool) → (Option ℕ → Bool) → Startup
prepare (some zero) setsockopt bind listen = returns
prepare fd setsockopt bind listen =
    if not (setsockopt fd)
    then exits
    else if not (bind fd)
    then returns
    else if not (listen fd)
    then returns
    else listening

-- The answer of `accept`; `too_many_files` is EMFILE or ENFILE.
pub data AcceptAnswer : Type 0 where
  accepted too_many_files refused : AcceptAnswer

-- `objects` are the connections that exist, whose number is `open_connections`.
pub record System : Type 0 where
  pub threads : List (WorkThread ℕ)
  pub accepted_number : ℕ
  pub objects : List ℕ
  pub retries : ℕ
  pub is_running : Bool

abbrev pub open_connections : System → ℕ
open_connections s = length s.objects

-- An accepted connection goes to the thread that is chosen; with no thread the acceptor returns: the
-- socket is left open then, with no connection made for it, and it is not among those counted here.
unfoldable pub enqueue_accepted : System → Bool × System
unfolding choose enqueue
enqueue_accepted s = elim (choose (map load_factor s.threads)) [
  | none ↦ (false, s)
  | some i ↦ elim (get_elem? s.threads i) [
    | none ↦ (false, s)
    | some t ↦ (
      true,
      record s {
        threads = set s.threads i (enqueue t s.accepted_number);
        accepted_number = suc s.accepted_number;
        objects = s.accepted_number ∷ s.objects;
      },
    )
  ]
]

abbrev pub answered : AcceptAnswer → System → Bool × System
answered accepted s = enqueue_accepted s
answered too_many_files s = (true, s)
answered refused s = (false, s)

-- One round of the loop of `raw_accept`, and whether the loop goes on.
unfoldable pub accept_round : AcceptAnswer → System → Bool × System
unfolding enqueue_accepted
accept_round answer s =
    if not s.is_running
    then (false, s)
    else if ltb 800 (open_connections s)
    then (true, record s { retries = s.retries + 1 })
    else answered answer (record s { retries = 0 })

-- What refers to a connection.
abbrev pub slot : Option ℕ → List ℕ
slot none = []
slot (some c) = c ∷ []

abbrev pub of_workers : List (Worker ℕ) → List ℕ
of_workers [] = []
of_workers (w ∷ ws) = slot w.conn ++ of_workers ws

abbrev pub references : List (WorkThread ℕ) → List ℕ
references [] = []
references (t ∷ ts) = (t.queue ++ slot t.conn ++ of_workers t.workers) ++ references ts

abbrev pub contains : List ℕ → ℕ → Bool
contains [] c = false
contains (x ∷ xs) c = x == c || contains xs c

abbrev pub keep_referenced : List ℕ → List ℕ → List ℕ
keep_referenced refs [] = []
keep_referenced refs (c ∷ cs) =
    let rest = keep_referenced refs cs in if contains refs c then c ∷ rest else rest

-- The threads change, and the connections that nothing refers to any more are destroyed.
abbrev pub with_threads : List (WorkThread ℕ) → System → System
with_threads ts s = record s { threads = ts; objects = keep_referenced (references ts) s.objects }

-- `thread_runner`, up to the call of `accept_loop`, with the configured number of workers.
abbrev pub thread_runner : ℕ → WorkThread ℕ → WorkThread ℕ
thread_runner num_workers t = record t {
  running = true;
  num_workers = num_workers;
  workers = t.workers ++ replicate num_workers fresh;
}

abbrev pub join : WorkThread ℕ → WorkThread ℕ
join t = record t { running = false }

abbrev pub is_running_at : List (WorkThread ℕ) → ℕ → Bool
is_running_at ts i = elim (get_elem? ts i) [ none ↦ false | some t ↦ t.running ]

-- The connection that a thread takes although it has no worker for it.
abbrev pub missed : List (WorkThread ℕ) → ℕ → List ℕ
missed ts i =
    if ready_at ts i then [] else elim (obtain ts i) [ none ↦ [] | some (c, left) ↦ c ∷ [] ]

abbrev pub set_worker : WorkThread ℕ → ℕ → Worker ℕ → WorkThread ℕ
set_worker t k w = record t { workers = set t.workers k w }

module _ {R Q : Type 0} (process : Q → Option R) where
  -- The operation of a worker that is in flight ends.
  pub data Completion (w : Worker ℕ) : Result ℕ R → Type 0 where
    read_done :
        (q : Option Q) → w.in_flight ≡ some read_operation → Completion w (read_handler process q w)
    write_done :
        (failed : Bool)
        → w.in_flight ≡ some write_operation
        → Completion w (write_handler process failed w)

  -- A step, with the connections that it closes and those that it loses.
  pub data Step (s : System) : System → List ℕ → List ℕ → Type 0 where
    accepts : (answer : AcceptAnswer) → Step s (accept_round answer s).1 [] []
    shuts_down : Step s (record s { is_running = false }) [] []
    begins :
        (i num_workers : ℕ) (t : WorkThread ℕ)
        → get_elem? s.threads i ≡ some t
        → Step s (with_threads (set s.threads i (thread_runner num_workers t)) s) [] []
    joins :
        (i : ℕ) (t : WorkThread ℕ)
        → get_elem? s.threads i ≡ some t
        → Step s (with_threads (set s.threads i (join t)) s) [] []
    -- `accept_loop`.
    ticks :
        (i : ℕ) (after : List (WorkThread ℕ))
        → is_running_at s.threads i ≡ true
        → dequeue process s.threads i ≡ some after
        → Step s (with_threads after s) [] (missed s.threads i)
    completes :
        (i k : ℕ) (t : WorkThread ℕ) (w w' : Worker ℕ) (r : Result ℕ R) (log : List (Effect ℕ R))
        → get_elem? s.threads i ≡ some t
        → get_elem? t.workers k ≡ some w
        → Completion w r
        → r ≡ next w' log
        → Step s (with_threads (set s.threads i (set_worker t k w')) s) (closed process log) []

  -- Where the steps lead to from a server whose threads have not begun.
  pub data Reach : System → List ℕ → List ℕ → Type 0 where
    starts :
        (number : ℕ)
        → Reach
            (record {
              threads = replicate number (record {
                queue = [];
                workers = [];
                running = false;
                num_workers = 4;
                conn = none;
              });
              accepted_number = 0;
              objects = [];
              retries = 0;
              is_running = true;
            })
            []
            []
    followed :
        {s s' : System} {closes loses more less : List ℕ}
        → Reach s closes loses
        → Step s s' more less
        → Reach s' (more ++ closes) (less ++ loses)
