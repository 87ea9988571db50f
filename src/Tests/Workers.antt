-- ===== src/Tests/Workers.antt =====
-- A worker that serves one connection.
use audio_tool_api.Prelude.{Option, ℕ, suc, ◌≡◌, refl, true, false, none, some, List, [], ◌∷◌, ◌++◌}
use audio_tool_api.Http.Worker.{
  Worker, Effect, reads, writes, closes, fault, start, read_handler, write_handler, destroy,
  read_operation, write_operation,
}
use audio_tool_api.Http.Worker.Life.{
  History, begin, step, gives, read_done, write_done, IsSound, opened, closed, current,
  History-balance, destroy_after_finish,
}

-- The handlers of these runs answer a number with the next one.
abbrev answers : ℕ → Option ℕ
answers n = some (suc n)

-- Requests and responses are numbers here.
abbrev reading : Worker ℕ
reading = record {
  conn = some 7;
  has_started = true;
  has_finished = false;
  response = true;
  in_flight = some read_operation;
}

abbrev writing : Worker ℕ
writing = record reading { in_flight = some write_operation }

abbrev served : Worker ℕ
served = record reading { conn = none; has_finished = true; response = false; in_flight = none }

abbrev reading_log : List (Effect ℕ ℕ)
reading_log = reads 7 ∷ []

reading-History : History {Q = ℕ} answers reading reading_log
unfolding start
reading-History = step begin (gives 7 refl) refl

writing-History : History {Q = ℕ} answers writing (reads 7 ∷ writes 7 5 ∷ [])
unfolding read_handler
writing-History = step reading-History (read_done (some 4) refl) refl

served-History : History {Q = ℕ} answers served (reads 7 ∷ writes 7 5 ∷ closes 7 ∷ [])
unfolding write_handler
served-History = step writing-History (write_done false refl) refl

History-balance_example :
    IsSound {C = ℕ} {R = ℕ} {Q = ℕ} answers served
    × (opened {Q = ℕ} answers (reads 7 ∷ writes 7 5 ∷ closes 7 ∷ [])
        ≡ closed {Q = ℕ} answers (reads 7 ∷ writes 7 5 ∷ closes 7 ∷ [])
          ++ current {Q = ℕ} answers served.conn)
History-balance_example = History-balance answers served-History

destroy_after_finish_example : destroy {C = ℕ} {Q = ℕ} answers served ≡ fault
destroy_after_finish_example = destroy_after_finish answers served-History refl refl
