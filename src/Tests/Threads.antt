-- ===== src/Tests/Threads.antt =====
-- Two threads: the choice of the acceptor, and `dequeue`.
use audio_tool_api.Prelude.{
  Option, ℕ, suc, ◌≡◌, refl, true, false, none, some, List, [], ◌∷◌, arith,
}
use mathlib.Core.List.{Perm}
use audio_tool_api.Http.Worker.{Worker, fresh, read_operation}
use audio_tool_api.Http.Threads.{Load, WorkThread, choose, dequeue}
use audio_tool_api.Http.Threads.Choice.{IsChoice, choose-IsChoice}
use audio_tool_api.Http.Threads.Held.{held}
use audio_tool_api.Http.Threads.Dequeue.{dequeue-keeps}

-- The handlers of these runs answer a number with the next one.
abbrev answers : ℕ → Option ℕ
answers n = some (suc n)

abbrev busy_load : Load
busy_load = record { jobs = 3; workers = 4 }

abbrev full_load : Load
full_load = record { jobs = 5; workers = 4 }

choose-IsChoice_example :
    (k : ℕ) × (choose (full_load ∷ busy_load ∷ []) ≡ some k)
    × IsChoice (full_load ∷ busy_load ∷ []) k
choose-IsChoice_example = choose-IsChoice full_load (busy_load ∷ []) (omega arith) (omega arith, tt)

abbrev serving_seven : Worker ℕ
serving_seven = record {
  conn = some 7;
  has_started = true;
  has_finished = false;
  response = true;
  in_flight = some read_operation;
}

-- The first thread has a free worker and an empty queue; the second has neither.
abbrev free : WorkThread ℕ
free = record {
  queue = [];
  workers = serving_seven ∷ fresh ∷ [];
  running = true;
  num_workers = 2;
  conn = none;
}

abbrev loaded : WorkThread ℕ
loaded = record {
  queue = 8 ∷ 9 ∷ [];
  workers = serving_seven ∷ [];
  running = true;
  num_workers = 1;
  conn = none;
}

abbrev pool : List (WorkThread ℕ)
pool = free ∷ loaded ∷ []

dequeue-keeps_example :
    (after : List (WorkThread ℕ)) × (dequeue {Q = ℕ} answers pool 0 ≡ some after)
    × Perm (held pool) (held after)
dequeue-keeps_example = dequeue-keeps answers pool 0 refl

abbrev robbed : List (WorkThread ℕ)
robbed = free ∷ record loaded { queue = 9 ∷ [] } ∷ []
