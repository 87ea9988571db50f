-- ===== src/Multipart/Bounds.antt =====
-- The parser stays inside its two arrays, whatever the callbacks do.
use audio_tool_api.Prelude.{
  ℕ, zero, suc, Option, some, none, ◌+◌, ◌≤◌, ◌<◌, ◌≡◌, refl, Bool, [], ◌∷◌, arith, length,
  length-set, Bool-cases, ◌==◌, get_or, set, take, inl, inr, is_nil, Bytes,
}
use audio_tool_api.Multipart.{
  State, start, start_boundary, header_field_start, header_field, header_value_start, header_value,
  part_data_start, part_data, part_data_almost_boundary, part_data_boundary, Parser,
  boundary_length, Settings, Run, Step, proceed, return_at, return_zero, step_in, step_part_data,
  step_header_field, step_header_value, step_start_boundary, step_almost_boundary, step_boundary,
  step, matched_boundary, flush, Step-cases, cr, lf, set_index, mark_here, multipart_parser_init,
  goto, advance,
}

-- Where the boundary is compared, the index is inside it, or on the two bytes behind it at the
-- start; where a byte is held back, there is room for it.
abbrev pub IndexFits : State → Parser → Type 0
IndexFits start_boundary p = p.index ≤ boundary_length p + 1
IndexFits part_data_boundary p = (p.index < boundary_length p) × (2 + p.index < length p.lookbehind)
IndexFits _ p = Unit {0}

pub record IsSafe (p : Parser) : Type 0 where
  pub boundary_pos : 0 < boundary_length p
  pub room : boundary_length p + 2 ≤ length p.lookbehind
  pub index_fits : IndexFits p.state p

module _ {ℓ} {S : Type ℓ} where
  -- What holds if the loop goes on.
  abbrev After {κ} : (Run S → Type κ) → Step S → Type κ
  After P (proceed r) = P r
  After P (return_at r) = Unit
  After P (return_zero r) = Unit

  module _ (settings : Settings S) (is_last : Bool) (c : ℕ) where
    abbrev Keeps : Run S → Step S → Type 0
    Keeps r = After λ r'. IsSafe r'.parser

    step_part_data-IsSafe :
        (r : Run S)
        → r.state ≡ part_data
        → IsSafe r.parser
        → Keeps r (step_part_data settings is_last c r)
    unfolding step_part_data
    step_part_data-IsSafe r e v = ground (arith, length-set {0} r.lookbehind 0 cr)

    step_header_field-IsSafe :
        (r : Run S)
        → r.state ≡ header_field
        → IsSafe r.parser
        → Keeps r (step_header_field settings is_last c r)
    unfolding step_header_field
    step_header_field-IsSafe r e v = ground arith

    step_header_value-IsSafe :
        (r : Run S)
        → r.state ≡ header_value
        → IsSafe r.parser
        → Keeps r (step_header_value settings is_last c r)
    unfolding step_header_value
    step_header_value-IsSafe r e v = ground arith

    step_start_boundary-IsSafe :
        (r : Run S)
        → r.state ≡ start_boundary
        → IsSafe r.parser
        → Keeps r (step_start_boundary settings is_last c r)
    unfolding step_start_boundary
    step_start_boundary-IsSafe r e v = ground arith

    step_almost_boundary-IsSafe :
        (r : Run S)
        → r.state ≡ part_data_almost_boundary
        → IsSafe r.parser
        → Keeps r (step_almost_boundary settings is_last c r)
    unfolding step_almost_boundary step_part_data
    step_almost_boundary-IsSafe r e v =
        ground (arith, length-set {0} r.lookbehind 0 cr, length-set {0} r.lookbehind 1 lf)

    flush-IsSafe :
        (held : Bytes) (r : Run S) → IsSafe r.parser → Keeps r (flush settings is_last c held r)
    unfolding step_part_data
    flush-IsSafe held r v = ground (arith, length-set {0} r.lookbehind 0 cr)

    matched-IsSafe :
        (r : Run S) (stored : Bytes)
        → length stored ≡ length r.lookbehind
        → r.state ≡ part_data_boundary
        → IsSafe r.parser
        → Keeps r (
            matched_boundary settings is_last c
              (record r { parser = record r.parser { lookbehind = stored } }))
    unfolding matched_boundary
    matched-IsSafe r stored l e v = ground arith

    step_boundary-IsSafe :
        (r : Run S)
        → r.state ≡ part_data_boundary
        → IsSafe r.parser
        → Keeps r (step_boundary settings is_last c r)
    unfolding step_boundary
    step_boundary-IsSafe r e v = elim (Bool-cases (get_or r.multipart_boundary r.index 0 == c)) [
      | inl same ↦ rw same (
          matched-IsSafe r (set r.lookbehind (2 + r.index) c)
            (length-set r.lookbehind (2 + r.index) c) e v)
      | inr other ↦ rw other (flush-IsSafe (take (2 + r.index) r.lookbehind) r v)
    ]

    step_in-IsSafe :
        (s : State) (r : Run S)
        → r.state ≡ s
        → IsSafe r.parser
        → Keeps r (step_in settings is_last c s r)
    unfolding step_in
    step_in-IsSafe start r e v =
        step_start_boundary-IsSafe (goto start_boundary (set_index 0 r)) refl (ground arith)
    step_in-IsSafe start_boundary r e v = step_start_boundary-IsSafe r e v
    step_in-IsSafe header_field_start r e v =
        step_header_field-IsSafe (goto header_field (mark_here r)) refl (ground arith)
    step_in-IsSafe header_field r e v = step_header_field-IsSafe r e v
    step_in-IsSafe header_value_start r e v =
        ground (arith, step_header_value-IsSafe (goto header_value (mark_here r)) refl)
    step_in-IsSafe header_value r e v = step_header_value-IsSafe r e v
    step_in-IsSafe part_data_start r e v = ground (arith, length-set {0} r.lookbehind 0 cr)
    step_in-IsSafe part_data r e v = step_part_data-IsSafe r e v
    step_in-IsSafe part_data_almost_boundary r e v = step_almost_boundary-IsSafe r e v
    step_in-IsSafe part_data_boundary r e v = step_boundary-IsSafe r e v
    step_in-IsSafe _ r e v = ground arith

  -- The run at the beginning of the round number `n` of the loop, if the loop gets there.
  unfoldable pub reached : Settings S → ℕ → Run S → Bytes → Option (Run S)
  reached settings zero r buf = some r
  reached settings (suc n) r [] = none
  reached settings (suc n) r (c ∷ rest) = elim (step settings rest c r) [
    | proceed r' ↦ reached settings n (advance c r') rest
    | return_at r' ↦ none
    | return_zero r' ↦ none
  ]

  reached-IsSafe :
      (settings : Settings S) (n : ℕ) (r : Run S) (buf : Bytes) (at : Run S)
      → IsSafe r.parser
      → reached settings n r buf ≡ some at
      → IsSafe at.parser
  unfolding reached
  reached-IsSafe settings zero r buf at v e = ground arith
  reached-IsSafe settings (suc n) r [] at v e = absurd (cc)
  reached-IsSafe settings (suc n) r (c ∷ rest) at v e = elim (Step-cases (step settings rest c r)) [
    | inl (r', p) ↦
        reached-IsSafe settings n (advance c r') rest at (rw p at kept) (rw (p, reached) at e)
    | inr (inl (r', p)) ↦ absurd (cc (rw (p, reached) at e))
    | inr (inr (r', p)) ↦ absurd (cc (rw (p, reached) at e))
  ]
    where
      kept : After (λ r'. IsSafe r'.parser) (step settings rest c r)
      kept = step_in-IsSafe settings (is_nil rest) c r.state r refl v

  -- Whatever the body holds and the callbacks do: in every round of a parser that was set up for a
  -- boundary that is not empty, with the store that `malloc` leaves behind it, the boundary is
  -- compared inside its array, and a byte that is held back has room in the look-behind buffer.
  pub multipart_parser_execute-IsSafe :
      (settings : Settings S) (boundary memory body : Bytes) (user : S) (n : ℕ) (at : Run S)
      → 0 < length boundary
      → length boundary + 9 ≤ length memory
      → reached settings n
          (record { parser = multipart_parser_init boundary memory; user = user; slice = [] })
          body
        ≡ some at
      → IsSafe at.parser
  unfolding multipart_parser_init
  multipart_parser_execute-IsSafe settings boundary memory body user n at b m =
      reached-IsSafe settings n _ body at
        (record { boundary_pos = b; room = omega arith; index_fits = tt })
