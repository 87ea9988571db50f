-- ===== src/Http/Worker.antt =====
-- audio_tool_api/http/http_worker.{h,cpp}: the life of a worker. A worker serves one connection at
-- a time: it reads a request, processes it, writes the response and closes the connection, each
-- step driven by the completion of the asynchronous operation that is in flight. What the sockets
-- do is recorded as a list of effects. `process` is `http_worker::process` up to its call of `write`:
-- the reply that it writes, or none when an exception leaves it before `write`, which the completion
-- handler does not catch. The exceptions of the sockets themselves (`build_socket` and `assign`, which
-- `start` calls on the accepted descriptor) are left out with the sockets.
pub mod Life
use audio_tool_api.Prelude.{
  ℕ, Bool, true, false, not, ◌&&◌, Option, none, some, List, [], ◌∷◌, ◌++◌, if◌then◌else◌,
}

pub data Operation : Type 0 where
  read_operation write_operation : Operation

-- `response` tells whether the optional response holds a value.
pub record Worker (C : Type 0) : Type 0 where
  pub conn : Option C
  pub has_started : Bool
  pub has_finished : Bool
  pub response : Bool
  pub in_flight : Option Operation

pub data Effect (C R : Type 0) : Type 0 where
  reads : C → Effect C R
  writes : C → R → Effect C R
  closes : C → Effect C R

-- `throws` is an exception that leaves the operation, that of `start` or one that leaves `process`;
-- `fault` is a call through a null `conn`.
pub data Result (C R : Type 0) : Type 0 where
  next : Worker C → List (Effect C R) → Result C R
  throws fault : Result C R

-- The constructor's state.
abbrev pub fresh : {C : Type 0} → Worker C
fresh = record {
  conn = none;
  has_started = false;
  has_finished = true;
  response = false;
  in_flight = none;
}

abbrev pub is_running : {C : Type 0} → Worker C → Bool
is_running w = w.has_started && not w.has_finished

module _ {C R Q : Type 0} (process : Q → Option R) where
  -- The read of the request begins. A connection that was accepted as a descriptor gets its socket
  -- first (`build_socket`), whose exception is left out with the sockets.
  unfoldable pub start : Worker C → C → Result C R
  start w c =
      if not w.has_finished
      then throws
      else next
          (record w {
            conn = some c;
            has_finished = false;
            has_started = true;
            response = true;
            in_flight = some read_operation;
          })
          (reads c ∷ [])

  unfoldable pub close_socket : Worker C → Result C R
  close_socket w = elim w.conn [
    | none ↦ fault
    | some c ↦
        next (record w { response = false; has_finished = true; conn = none; in_flight = none })
          (closes c ∷ [])
  ]

  -- `build_response` and `write`.
  unfoldable pub write : R → Worker C → Result C R
  write r w = elim w.conn [
    | none ↦ fault
    | some c ↦ next (record w { in_flight = some write_operation }) (writes c r ∷ [])
  ]

  -- `none` is an error of the read. A request whose `process` is left by an exception is not written.
  unfoldable pub read_handler : Option Q → Worker C → Result C R
  unfolding close_socket write
  read_handler none w = close_socket w
  read_handler (some q) w = elim (process q) [ none ↦ throws | some r ↦ write r w ]

  -- The flag tells of an error of the write, which is only logged.
  unfoldable pub write_handler : Bool → Worker C → Result C R
  unfolding close_socket
  write_handler failed w = close_socket w

  -- The destructor.
  unfoldable pub destroy : Worker C → Result C R
  unfolding close_socket
  destroy w = if w.has_started then close_socket w else next w []
