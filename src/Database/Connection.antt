-- ===== src/Database/Connection.antt =====
-- audio_tool_api/utilities/database.cpp: `Connection`, and the mutex `m` that all connections share.
-- What the MySQL library answers to a connection is a parameter of each call that may make one.
use audio_tool_api.Prelude.{
  ℕ, ◌≡◌, refl, Bool, true, false, ◌||◌, none, some, Option-cases, inl, inr, List, [], ◌∷◌, ◌++◌,
  if◌then◌else◌, get_elem?, set, arith,
}

-- `driver->connect` throws, or `setSchema` does.
pub data ServerAnswer : Type 0 where
  connects refuses lacks_schema : ServerAnswer

-- The members that change; `sql` says whether the pointer is not null.
pub record Connection : Type 0 where
  pub is_open : Bool
  pub sql : Bool

-- `locked` is the state of `m`.
pub record Pool : Type 0 where
  pub locked : Bool
  pub connections : List Connection

-- A call that waits for the mutex never ends where the mutex is not unlocked.
pub data CallOutcome : Type 0 where
  returns throws blocks : CallOutcome

abbrev pub new_connection : Connection
new_connection = record { is_open = false; sql = false }

-- An exception leaves between `lock` and `unlock`.
unfoldable pub open_connection :
    ServerAnswer → Bool → Connection → CallOutcome × (Bool × Connection)
open_connection answer true c = (blocks, (true, c))
open_connection connects false c = (returns, (false, record { is_open = true; sql = true }))
open_connection refuses false c = (throws, (true, c))
open_connection lacks_schema false c = (throws, (true, record c { sql = true }))

unfoldable pub close_connection : Connection → Connection
close_connection c = if c.is_open then record { is_open = false; sql = false } else c

-- `raw_query` and `query`, up to the statement.
unfoldable pub raw_query : ServerAnswer → Bool → Connection → CallOutcome × (Bool × Connection)
unfolding open_connection
raw_query answer locked c =
    let opened = open_connection answer locked c in
    if c.is_open then (returns, (locked, c)) else opened

-- A handler makes a connection, queries it, and closes it.
pub data Event : Type 0 where
  constructs : Event
  queries : ℕ → ServerAnswer → Event
  closes : ℕ → Event

abbrev pub stored : ℕ → Pool → CallOutcome × (Bool × Connection) → CallOutcome × Pool
stored i pool (outcome, (locked, c)) =
    (outcome, record { locked = locked; connections = set pool.connections i c })

unfoldable pub step_pool : Event → Pool → CallOutcome × Pool
unfolding raw_query close_connection
step_pool constructs pool =
    (returns, record pool { connections = pool.connections ++ new_connection ∷ [] })
step_pool (queries i answer) pool = elim (get_elem? pool.connections i) [
  | none ↦ (returns, pool)
  | some c ↦ stored i pool (raw_query answer pool.locked c)
]
step_pool (closes i) pool = elim (get_elem? pool.connections i) [
  | none ↦ (returns, pool)
  | some c ↦ (returns, record pool { connections = set pool.connections i (close_connection c) })
]

unfoldable pub run_pool : List Event → Pool → List CallOutcome × Pool
unfolding step_pool
run_pool [] pool = ([], pool)
run_pool (e ∷ events) pool =
    let stepped = step_pool e pool in
    let rest = run_pool events stepped.1 in (stepped.0 ∷ rest.0, rest.1)

abbrev pub is_throw : CallOutcome → Bool
is_throw throws = true
is_throw returns = false
is_throw blocks = false

abbrev pub any_throws : List CallOutcome → Bool
any_throws [] = false
any_throws (o ∷ os) = is_throw o || any_throws os

raw_query-locked :
    (answer : ServerAnswer) (locked : Bool) (c : Connection)
    → (raw_query answer locked c).1.0 ≡ (locked || is_throw (raw_query answer locked c).0)
unfolding raw_query open_connection
raw_query-locked connects true c = ground arith
raw_query-locked refuses true c = ground arith
raw_query-locked lacks_schema true c = ground arith
raw_query-locked connects false c = ground arith
raw_query-locked refuses false c = ground arith
raw_query-locked lacks_schema false c = ground arith

step_pool-locked :
    (e : Event) (pool : Pool)
    → (step_pool e pool).1.locked ≡ (pool.locked || is_throw (step_pool e pool).0)
unfolding step_pool
step_pool-locked constructs pool = ground arith
step_pool-locked (queries i answer) pool = elim (Option-cases (get_elem? pool.connections i)) [
  | inl e ↦ rw (e, step_pool) (ground arith)
  | inr (c, e) ↦ rw (e, step_pool) (raw_query-locked answer pool.locked c)
]
step_pool-locked (closes i) pool = elim (Option-cases (get_elem? pool.connections i)) [
  | inl e ↦ rw (e, step_pool) (ground arith)
  | inr (c, e) ↦ rw (e, step_pool) (ground arith)
]

-- After any events the mutex is locked exactly if it was before, or a query has thrown.
pub run_pool-locked :
    (events : List Event) (pool : Pool)
    → (run_pool events pool).1.locked ≡ (pool.locked || any_throws (run_pool events pool).0)
unfolding run_pool
run_pool-locked [] pool = ground arith
run_pool-locked (e ∷ events) pool =
    ground (arith, run_pool-locked events (step_pool e pool).1, step_pool-locked e pool)

-- Once a query has thrown for want of a connection, then whatever happens afterwards, every query on
-- a connection that is not open, of any handler, blocks.
pub run_pool_blocks :
    (before after : List Event) (pool : Pool) (i : ℕ) (answer : ServerAnswer) (c : Connection)
    → any_throws (run_pool before pool).0 ≡ true
    → get_elem? (run_pool after (run_pool before pool).1).1.connections i ≡ some c
    → c.is_open ≡ false
    → (step_pool (queries i answer) (run_pool after (run_pool before pool).1).1).0 ≡ blocks
unfolding step_pool raw_query
run_pool_blocks before after pool i answer c t g o =
    let middle = (run_pool before pool).1 in
    let locked : (run_pool after middle).1.locked ≡ true =
      ground (arith, run_pool-locked before pool, run_pool-locked after middle, t) in
    rw (g, step_pool) (rw (locked, raw_query) (rw (o) refl))
