-- ===== src/Tests/Models.antt =====
-- Users and sessions on a small store, and a loop over three rows.
use audio_tool_api.Prelude.{
  Bytes, ℕ, ◌+◌, ◌≡◌, refl, true, false, none, some, List, [], ◌∷◌, codes, replicate,
}
use audio_tool_api.Database.{range_for, prepared, done}
use audio_tool_api.Database.Connection.{
  Pool, connects, refuses, blocks, constructs, queries, new_connection, step_pool, run_pool,
  raw_query, open_connection, run_pool_blocks,
}
use audio_tool_api.Database.Rows.{range_for-rows}
use audio_tool_api.Models.{
  Store, Session, User, UserRow, Memory, first, session_length, create_session, fill_by_token,
  authenticate,
}
use audio_tool_api.Models.Sessions.{row_of, outcome, store_after, create_session-fill_by_token}
use audio_tool_api.Models.Passwords.{authenticate_up_to_zero}

abbrev three : List ℕ
three = 3 ∷ 1 ∷ 2 ∷ []

range_for-rows_example : range_for (prepared three) ≡ done three
range_for-rows_example = range_for-rows three

abbrev no_session : Session
no_session = record { token = []; expires = 0; created = 0; user_id = 0 }

abbrev nobody : User
nobody = record { id = 5; email_address = []; current_session = no_session }

-- A hash with a zero byte, and one without.
abbrev ann : UserRow
ann = record { id = 5; email = codes "ann"; hash = 9 ∷ 0 ∷ replicate 126 7; nacl = [] }

abbrev bob : UserRow
bob = record { id = 6; email = codes "bob"; hash = replicate 128 7; nacl = [] }

abbrev store : Store
store = record { users = ann ∷ bob ∷ []; sessions = []; now = 1000 }

create_session-fill_by_token_example :
    ((create_session (codes "t") (store, nobody)).1 ≡ none)
    × (fill_by_token (store_after (codes "t") store nobody 4599) (codes "t") nobody
        ≡ outcome (codes "t") (row_of (codes "t") 5 1000 (1000 + session_length)) ann 4599 nobody)
unfolding first
create_session-fill_by_token_example =
    create_session-fill_by_token store nobody nobody (codes "t") ann 4599 refl refl

abbrev memory : Memory
memory = record {
  stale_hash = [];
  stale_salt = replicate 128 0;
  behind_hash = 1 ∷ 0 ∷ [];
  behind_test = 0 ∷ [];
}

-- Another password's hash, which agrees with the stored one up to its zero byte.
authenticate_up_to_zero_example :
    let tried =
      authenticate
        (λ pass salt. some (9 ∷ 0 ∷ replicate 126 8))
        memory
        (codes "t")
        (codes "ann")
        (codes "guess")
        (store, nobody) in
    (tried.0.0 ≡ true) × (tried.1 ≡ none) × (tried.0.1.0.users ≡ store.users)
unfolding first
authenticate_up_to_zero_example =
    authenticate_up_to_zero (λ pass salt. some (9 ∷ 0 ∷ replicate 126 8)) memory (codes "t")
      (codes "ann") (codes "guess") store nobody ann (9 ∷ []) (replicate 126 7) (replicate 126 8)
      refl refl refl (refl, tt) refl refl

abbrev carl_hash : Bytes
carl_hash = 3 ∷ 0 ∷ replicate 126 4

abbrev empty_pool : Pool
empty_pool = record { locked = false; connections = [] }

-- One handler's connection is refused; another handler makes its own afterwards.
run_pool_blocks_example :
    (step_pool
      (queries 1 connects)
      (run_pool
        (constructs ∷ [])
        (run_pool (constructs ∷ queries 0 refuses ∷ []) empty_pool).1).1).0
    ≡ blocks
unfolding run_pool step_pool raw_query open_connection
run_pool_blocks_example =
    run_pool_blocks (constructs ∷ queries 0 refuses ∷ []) (constructs ∷ []) empty_pool 1 connects
      new_connection refl refl refl
