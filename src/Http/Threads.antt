-- ===== src/Http/Threads.antt =====
-- audio_tool_api/http/http_work_thread.{h,cpp} and the choice of a thread in http_server.cpp.
-- A load is kept as the fraction that the code divides out in `double`: two fractions of small
-- numbers compare as their quotients do, also where the divisor is zero. `size_approx` is the
-- queue's length, as it is with no other thread at work; the queue is first in, first out.
pub mod Order
pub mod Choice
pub mod Busiest
pub mod Held
pub mod Dequeue
use audio_tool_api.Prelude.{
  ℕ, suc, ◌+◌, ◌*◌, Bool, true, not, ◌&&◌, Option, none, some, List, [], ◌∷◌, ◌++◌, ltb, ◌==◌,
  if◌then◌else◌, length, get_elem?, set, map,
}
use audio_tool_api.Http.Worker.{Worker, Result, next, throws, fault, start, is_running}

pub record Load : Type 0 where
  pub jobs : ℕ
  pub workers : ℕ

abbrev pub load_lt : Load → Load → Bool
load_lt a b = ltb (a.jobs * b.workers) (b.jobs * a.workers)

-- 0.0 / 0.0.
abbrev pub is_nan : Load → Bool
is_nan a = a.jobs == 0 && a.workers == 0

-- `load < 0.2`.
abbrev pub is_light : Load → Bool
is_light a = ltb (a.jobs * 5) a.workers

-- `conn` is the slot that `try_dequeue` fills.
pub record WorkThread (C : Type 0) : Type 0 where
  pub queue : List C
  pub workers : List (Worker C)
  pub running : Bool
  pub num_workers : ℕ
  pub conn : Option C

-- The loop over the threads in `raw_accept`: `tt` is `none` for `end()`, `min_load` for -1.0.
abbrev pub takes : Load → Option Load → Bool
takes l none = true
takes l (some least) = load_lt l least

pub choose_from : List Load → ℕ → Option ℕ → Option Load → Option ℕ
choose_from [] i tt min_load = tt
choose_from (l ∷ ls) i tt min_load =
    let taken = choose_from ls (suc i) (some i) (some l) in
    let passed = choose_from ls (suc i) (some (elim tt [ none ↦ i | some k ↦ k ])) min_load in
    if is_light l then some i else if takes l min_load then taken else passed

unfoldable pub choose : List Load → Option ℕ
unfolding choose_from
choose ls = choose_from ls 0 none none

-- The loop over the threads in `dequeue`: `max_load` is `none` for -1.0.
abbrev pub exceeds : Load → Option Load → Bool
exceeds l none = not (is_nan l)
exceeds l (some most) = load_lt most l

pub busiest_from : List Load → ℕ → Option ℕ → Option Load → Option ℕ
busiest_from [] i tt max_load = tt
busiest_from (l ∷ ls) i tt max_load =
    let taken = busiest_from ls (suc i) (some i) (some l) in
    let passed = busiest_from ls (suc i) tt max_load in if exceeds l max_load then taken else passed

unfoldable pub busiest : List Load → Option ℕ
unfolding busiest_from
busiest ls = busiest_from ls 0 none none

-- `start_first` ends at the end of the workers, or with a worker started, or with its exception.
pub data Found (C : Type 0) : Type 0 where
  absent refused : Found C
  given : List (Worker C) → Found C

module _ {C : Type 0} where
  abbrev pub count_running : List (Worker C) → ℕ
  count_running [] = 0
  count_running (w ∷ ws) = (if is_running w then 1 else 0) + count_running ws

  unfoldable pub load_factor : WorkThread C → Load
  load_factor t = record {
    jobs = length t.queue + count_running t.workers;
    workers = t.num_workers;
  }

  unfoldable pub enqueue : WorkThread C → C → WorkThread C
  enqueue t c = record t { queue = t.queue ++ c ∷ [] }

  unfoldable pub pop_front : WorkThread C → List C → Option (C × WorkThread C)
  pop_front t [] = none
  pop_front t (c ∷ rest) = some (c, record t { queue = rest })

  unfoldable pub try_dequeue : WorkThread C → Option (C × WorkThread C)
  unfolding pop_front
  try_dequeue t = pop_front t t.queue

  -- `try_dequeue` on the thread number `j`.
  unfoldable pub pop_at : List (WorkThread C) → ℕ → Option (C × List (WorkThread C))
  pop_at threads j = elim (get_elem? threads j) [
    | none ↦ none
    | some t ↦ elim (try_dequeue t) [ none ↦ none | some (c, t') ↦ some (c, set threads j t') ]
  ]

  -- The thread's own queue, or the queue of the thread with the highest load.
  unfoldable pub obtain : List (WorkThread C) → ℕ → Option (C × List (WorkThread C))
  obtain threads i = elim (pop_at threads i) [
    | some taken ↦ some taken
    | none ↦ elim (busiest (map load_factor threads)) [ none ↦ none | some j ↦ pop_at threads j ]
  ]

module _ {C R Q : Type 0} (process : Q → Option R) where
  abbrev pub started : List (Worker C) → Result C R → Found C
  started ws (next w log) = given (w ∷ ws)
  started ws throws = refused
  started ws fault = refused

  abbrev pub behind : Worker C → Found C → Found C
  behind w absent = absent
  behind w refused = refused
  behind w (given ws) = given (w ∷ ws)

  -- The first worker that has finished is started on the connection.
  unfoldable pub start_first : List (Worker C) → C → Found C
  start_first [] c = absent
  start_first (w ∷ ws) c =
      if w.has_finished then started ws (start process w c) else behind w (start_first ws c)

  -- What `dequeue` does with the connection in the slot; `none` is the exception of `start`.
  unfoldable pub hand_over : WorkThread C → C → Option (WorkThread C)
  hand_over t c =
      if t.running
      then elim (start_first t.workers c) [
        | given ws ↦ some (record t { workers = ws; conn = some c })
        | absent ↦ some (record t { conn = some c })
        | refused ↦ none
      ]
      else some (record t { conn = some c })

  -- `dequeue` of the thread number `i`.
  unfoldable pub dequeue : List (WorkThread C) → ℕ → Option (List (WorkThread C))
  dequeue threads i = elim (obtain threads i) [
    | none ↦ some threads
    | some (c, left) ↦ elim (get_elem? left i) [
      | none ↦ some left
      | some t ↦ elim (hand_over t c) [ none ↦ none | some t' ↦ some (set left i t') ]
    ]
  ]
