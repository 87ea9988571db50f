-- ===== src/Tests/Server.antt =====
-- One work thread with one worker: a connection is served and closed, and another is lost.
use audio_tool_api.Prelude.{Option, ℕ, suc, ◌≤◌, refl, true, false, none, some, [], ◌∷◌}
use audio_tool_api.Http.Worker.{
  Worker, read_operation, write_operation, fresh, start, read_handler, write_handler, close_socket,
  write,
}
use audio_tool_api.Http.Threads.{
  WorkThread, choose, enqueue, load_factor, dequeue, obtain, pop_at, try_dequeue, pop_front,
  hand_over, start_first,
}
use audio_tool_api.Http.Server.{
  System, Reach, starts, followed, accepts, begins, ticks, completes, accepted, accept_round,
  enqueue_accepted, open_connections, read_done, write_done,
}
use audio_tool_api.Http.Server.Soundness.{Goes, Reach-Goes}
use audio_tool_api.Http.Server.Account.{Accounted, Reach-Accounted}
use audio_tool_api.Http.Server.Capacity.{Reach-open_connections}

-- The handlers of these runs answer a number with the next one.
abbrev answers : ℕ → Option ℕ
answers n = some (suc n)

abbrev worker : Worker ℕ
worker = record {
  conn = some 0;
  has_started = true;
  has_finished = false;
  response = true;
  in_flight = some read_operation;
}

abbrev thread : WorkThread ℕ
thread = record { queue = []; workers = fresh ∷ []; running = true; num_workers = 1; conn = none }

abbrev begun : System
begun = record {
  threads = thread ∷ [];
  accepted_number = 0;
  objects = [];
  retries = 0;
  is_running = true;
}

begun-Reach : Reach {Q = ℕ} answers begun [] []
begun-Reach = followed (starts 1) (begins 0 1 _ refl)

abbrev waiting : System
waiting = record begun {
  threads = record thread { queue = 0 ∷ [] } ∷ [];
  accepted_number = 1;
  objects = 0 ∷ [];
}

waiting-Reach : Reach {Q = ℕ} answers waiting [] []
unfolding accept_round enqueue_accepted choose load_factor enqueue
waiting-Reach = followed begun-Reach (accepts accepted)

abbrev reading : System
reading = record waiting { threads = record thread { workers = worker ∷ []; conn = some 0 } ∷ [] }

reading-Reach : Reach {Q = ℕ} answers reading [] []
unfolding dequeue obtain pop_at try_dequeue pop_front hand_over start_first start
reading-Reach = followed waiting-Reach (ticks 0 reading.threads refl refl)

abbrev crowded : System
crowded = record reading {
  threads = record thread { workers = worker ∷ []; queue = 1 ∷ []; conn = some 0 } ∷ [];
  accepted_number = 2;
  objects = 1 ∷ 0 ∷ [];
}

crowded-Reach : Reach {Q = ℕ} answers crowded [] []
unfolding accept_round enqueue_accepted choose load_factor enqueue
crowded-Reach = followed reading-Reach (accepts accepted)

abbrev robbed : System
robbed = record crowded { threads = record thread { workers = worker ∷ []; conn = some 1 } ∷ [] }

robbed-Reach : Reach {Q = ℕ} answers robbed [] (1 ∷ [])
unfolding dequeue obtain pop_at try_dequeue pop_front hand_over start_first start
robbed-Reach = followed crowded-Reach (ticks 0 robbed.threads refl refl)

abbrev writing : System
writing = record robbed {
  threads =
      record thread {
        workers = record worker { in_flight = some write_operation } ∷ [];
        conn = some 1;
      }
      ∷ [];
}

writing-Reach : Reach {Q = ℕ} answers writing [] (1 ∷ [])
unfolding read_handler write
writing-Reach =
    followed robbed-Reach (completes 0 0 _ worker _ _ _ refl refl (read_done (some 4) refl) refl)

abbrev served : System
served = record writing {
  threads =
      record thread {
        workers =
            record worker { conn = none; has_finished = true; response = false; in_flight = none }
            ∷ [];
        conn = some 1;
      }
      ∷ [];
  objects = 1 ∷ [];
}

served-Reach : Reach {Q = ℕ} answers served (0 ∷ []) (1 ∷ [])
unfolding write_handler close_socket
served-Reach =
    followed writing-Reach (completes 0 0 _ _ _ _ _ refl refl (write_done false refl) refl)

Reach-Goes_example : Goes {Q = ℕ} answers robbed
Reach-Goes_example = Reach-Goes answers robbed-Reach

Reach-Accounted_example : Accounted {Q = ℕ} answers served (0 ∷ 1 ∷ [])
Reach-Accounted_example = Reach-Accounted answers served-Reach

Reach-open_connections_example : open_connections served ≤ 801
Reach-open_connections_example = Reach-open_connections answers served-Reach
