-- ===== src/Database.antt =====
-- audio_tool_api/utilities/database.{h,cpp}: a query and the iterator over its rows. `answer` is
-- what the server's `executeQuery` returns; a row is what its fields are read from while the
-- cursor stands on it, and `passed` counts the rows that the cursor has reached.
pub mod Rows
pub mod Connection
use audio_tool_api.Prelude.{
  ℕ, zero, suc, ◌+◌, Bool, true, false, not, ◌&&◌, ◌||◌, Option, none, some, List, [], ◌∷◌, ltb,
  leb, ◌==◌, if◌then◌else◌, length, get_elem?,
}

pub record Query (R : Type 0) : Type 0 where
  pub answer : List R
  pub did_execute : Bool
  pub passed : ℕ

pub record QueryIterator : Type 0 where
  pub row_idx : ℕ
  pub at_end : Bool

-- `threw` is the exception of `row`; `spinning` says that the rounds granted did not suffice.
pub data Collected (R : Type 0) : Type 0 where
  done : List R → Collected R
  threw spinning : Collected R

abbrev pub same_bool : Bool → Bool → Bool
same_bool a b = if a then b else not b

-- `operator !=`, on iterators of one query.
abbrev pub differs : QueryIterator → QueryIterator → Bool
differs a b = not (a.row_idx == b.row_idx) || not (same_bool a.at_end b.at_end)

module _ {R : Type 0} where
  -- `Connection::query`, before the statement is executed.
  abbrev pub prepared : List R → Query R
  prepared answer = record { answer = answer; did_execute = false; passed = 0 }

  abbrev pub execute : Query R → Query R
  execute q = record q { did_execute = true }

  abbrev pub row_count : Query R → ℕ × Query R
  row_count q = (length q.answer, execute q)

  -- `none` is the exception of a call behind the last row.
  unfoldable pub row : Query R → Option R × Query R
  row q = (get_elem? q.answer q.passed, record (execute q) { passed = q.passed + 1 })

  -- The constructor, for `begin` and for `end`.
  unfoldable pub query_iterator : Bool → Query R → QueryIterator
  query_iterator at_end q =
      if at_end
      then record { row_idx = length q.answer; at_end = true }
      else record { row_idx = 0; at_end = length q.answer == 0 }

  -- `operator ++`.
  unfoldable pub increment : Query R → QueryIterator → QueryIterator
  increment q it =
      let moved = if not it.at_end then it.row_idx + 1 else it.row_idx in
      record { row_idx = moved; at_end = leb (length q.answer) moved || it.at_end }

  abbrev pub prepend : R → Collected R → Collected R
  prepend r (done rs) = done (r ∷ rs)
  prepend r threw = threw
  prepend r spinning = spinning

  -- The rows that a range-based `for` visits.
  unfoldable pub collect : ℕ → QueryIterator → QueryIterator → Query R → Collected R
  collect zero it stop q = spinning
  collect (suc fuel) it stop q = elim (differs it stop) [
    | false ↦ done []
    | true ↦ elim (row q).0 [
      | none ↦ threw
      | some r ↦ prepend r (collect fuel (increment (row q).1 it) stop (row q).1)
    ]
  ]

  -- One round more than there are rows is granted.
  unfoldable pub range_for : Query R → Collected R
  unfolding collect row query_iterator increment
  range_for q =
      collect (suc (length q.answer)) (query_iterator false q) (query_iterator true q) (execute q)
