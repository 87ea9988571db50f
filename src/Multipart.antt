-- ===== src/Multipart.antt =====
-- audio_tool_api/http/multipart_parser.c: the state machine that reads a multipart body.
-- The local variable `mark` is kept as the bytes `buf[mark..i)` of the slice that it opens. A
-- callback is a function on the data behind `multipart_parser_set_data`; its code is compared
-- with 0 only. An array write out of range would change nothing here; Multipart/Bounds shows
-- that there is none.
pub mod Bounds
use audio_tool_api.Prelude.{
  ◌≡◌, ◌⊎◌, inl, inr, refl, ℕ, suc, ◌+◌, Bool, not, ◌&&◌, ◌||◌, Option, none, some, [], ◌∷◌, ◌++◌,
  leb, ◌==◌, if◌then◌else◌, length, get_or, take, set, is_nil, Bytes,
}

pub data State : Type 0 where
  uninitialized start start_boundary header_field_start header_field : State
  headers_almost_done header_value_start header_value header_value_almost_done : State
  part_data_start part_data part_data_almost_boundary part_data_boundary : State
  part_data_almost_end part_data_end part_data_final_hyphen finished : State

pub record Parser : Type 0 where
  pub index : ℕ
  pub state : State
  pub lookbehind : Bytes
  pub multipart_boundary : Bytes

abbrev pub boundary_length : Parser → ℕ
boundary_length p = length p.multipart_boundary

-- The seven callbacks; an empty slot is a null pointer.
pub record Settings {ℓ} (S : Type ℓ) : Type ℓ where
  pub on_header_field : Option (Bytes → S → S × ℕ)
  pub on_header_value : Option (Bytes → S → S × ℕ)
  pub on_part_data : Option (Bytes → S → S × ℕ)
  pub on_part_data_begin : Option (S → S × ℕ)
  pub on_headers_complete : Option (S → S × ℕ)
  pub on_part_data_end : Option (S → S × ℕ)
  pub on_body_end : Option (S → S × ℕ)

-- The parser, the callbacks' data, and buf[mark..i).
pub record Run {ℓ} (S : Type ℓ) : Type ℓ where
  pub parser : Parser
  pub open parser use *
  pub user : S
  pub slice : Bytes

-- `lookbehind` is what malloc leaves behind the copied boundary.
unfoldable pub multipart_parser_init : Bytes → Bytes → Parser
multipart_parser_init boundary memory = record {
  index = 0;
  state = start;
  lookbehind = memory;
  multipart_boundary = boundary;
}

-- What one round of the loop does: go on to `++ i`, or leave by `return i`, or by `return 0`.
pub data Step {ℓ} (S : Type ℓ) : Type ℓ where
  proceed : Run S → Step S
  return_at : Run S → Step S
  return_zero : Run S → Step S

abbrev pub cr : ℕ
cr = 13

abbrev pub lf : ℕ
lf = 10

-- `c != '-' && (cl < 'a' || cl > 'z')`, with `cl = tolower(c)`, is refused.
abbrev pub is_header_char : ℕ → Bool
is_header_char c = c == b'-' || (leb b'a' c && leb c b'z') || (leb b'A' c && leb c b'Z')

module _ {ℓ} {S : Type ℓ} where
  infixl 5 ◌>>=◌
  abbrev pub ◌>>=◌ : Step S → (Run S → Step S) → Step S
  proceed r >>= f = f r
  return_at r >>= f = return_at r
  return_zero r >>= f = return_zero r

  abbrev pub goto : State → Run S → Run S
  goto s r = record r { parser = record r.parser { state = s } }

  abbrev pub set_index : ℕ → Run S → Run S
  set_index k r = record r { parser = record r.parser { index = k } }

  abbrev pub set_lookbehind : ℕ → ℕ → Run S → Run S
  set_lookbehind k c r = record r {
    parser = record r.parser { lookbehind = set r.parser.lookbehind k c };
  }

  -- `mark = i`.
  abbrev pub mark_here : Run S → Run S
  mark_here r = record r { slice = [] }

  abbrev pub returned : Run S → S × ℕ → Step S
  returned r (u, code) =
      if code == 0 then proceed (record r { user = u }) else return_at (record r { user = u })

  -- NOTIFY_CB.
  abbrev pub notify : Option (S → S × ℕ) → Run S → Step S
  notify none r = proceed r
  notify (some f) r = returned r (f r.user)

  -- EMIT_DATA_CB, on the bytes that the pointer and the length name.
  abbrev pub emit : Option (Bytes → S → S × ℕ) → Bytes → Run S → Step S
  emit none bytes r = proceed r
  emit (some f) bytes r = returned r (f bytes r.user)

  module _ (settings : Settings S) (is_last : Bool) (c : ℕ) where
    open settings use {
      on_header_field, on_header_value, on_part_data, on_part_data_begin, on_headers_complete,
      on_part_data_end, on_body_end,
    }

    abbrev pub emit_last : Option (Bytes → S → S × ℕ) → Run S → Step S
    emit_last on r = if is_last then emit on (r.slice ++ c ∷ []) r else proceed r

    unfoldable pub step_start_boundary : Run S → Step S
    step_start_boundary r =
        if r.index == boundary_length r.parser
        then (if not (c == cr) then return_at r else proceed (set_index (r.index + 1) r))
        else if r.index == boundary_length r.parser + 1
        then (if not (c == lf) then return_at r else do
          r' ← notify on_part_data_begin (set_index 0 r)
          proceed (goto header_field_start r'))
        else if not (c == get_or r.multipart_boundary r.index 0)
        then return_at r
        else proceed (set_index (r.index + 1) r)

    unfoldable pub step_header_field : Run S → Step S
    step_header_field r =
        if c == cr
        then proceed (goto headers_almost_done r)
        else if c == b' ' || c == b'\t'
        then proceed (goto header_value_start r)
        else if c == b':'
        then (do r' ← emit on_header_field r.slice r; proceed (goto header_value_start r'))
        else if not (is_header_char c)
        then return_at r
        else emit_last on_header_field r

    unfoldable pub step_header_value : Run S → Step S
    step_header_value r =
        if c == cr
        then (do r' ← emit on_header_value r.slice r; proceed (goto header_value_almost_done r'))
        else emit_last on_header_value r

    unfoldable pub step_part_data : Run S → Step S
    step_part_data r =
        if c == cr
        then (do
          r' ← emit on_part_data r.slice r
          proceed (set_lookbehind 0 cr (goto part_data_almost_boundary (mark_here r'))))
        else emit_last on_part_data r

    -- After `mark = i --` the next round reads the same byte in the state `part_data`.
    abbrev pub flush : Bytes → Run S → Step S
    flush held r = do r' ← emit on_part_data held r; step_part_data (mark_here (goto part_data r'))

    unfoldable pub step_almost_boundary : Run S → Step S
    step_almost_boundary r =
        if c == lf
        then proceed (set_index 0 (set_lookbehind 1 lf (goto part_data_boundary r)))
        else flush (take 1 r.lookbehind) r

    -- `++ p->index` and what hangs on it, once the byte is held back.
    unfoldable pub matched_boundary : Run S → Step S
    matched_boundary r =
        let matched = set_index (r.index + 1) r in
        if matched.index == boundary_length r.parser
        then (do r' ← notify on_part_data_end matched; proceed (goto part_data_almost_end r'))
        else proceed matched

    unfoldable pub step_boundary : Run S → Step S
    unfolding matched_boundary
    step_boundary r =
        if not (get_or r.multipart_boundary r.index 0 == c)
        then flush (take (2 + r.index) r.lookbehind) r
        else matched_boundary (set_lookbehind (2 + r.index) c r)

    unfoldable pub step_in : State → Run S → Step S
    unfolding step_start_boundary step_header_field step_header_value step_part_data
        step_almost_boundary step_boundary
    step_in start r = step_start_boundary (goto start_boundary (set_index 0 r))
    step_in start_boundary r = step_start_boundary r
    step_in header_field_start r = step_header_field (goto header_field (mark_here r))
    step_in header_field r = step_header_field r
    step_in headers_almost_done r =
        if not (c == lf) then return_at r else proceed (goto part_data_start r)
    step_in header_value_start r =
        if c == b' ' || c == b'\t'
        then proceed r
        else step_header_value (goto header_value (mark_here r))
    step_in header_value r = step_header_value r
    step_in header_value_almost_done r =
        if not (c == lf) then return_at r else proceed (goto header_field_start r)
    step_in part_data_start r = do
      r' ← notify on_headers_complete r
      step_part_data (goto part_data (mark_here r'))
    step_in part_data r = step_part_data r
    step_in part_data_almost_boundary r = step_almost_boundary r
    step_in part_data_boundary r = step_boundary r
    step_in part_data_almost_end r =
        if c == b'-'
        then proceed (goto part_data_final_hyphen r)
        else if c == cr
        then proceed (goto part_data_end r)
        else return_at r
    step_in part_data_final_hyphen r =
        if c == b'-'
        then (do r' ← notify on_body_end r; proceed (goto finished r'))
        else return_at r
    step_in part_data_end r =
        if c == lf then notify on_part_data_begin (goto header_field_start r) else return_at r
    step_in finished r = proceed r
    step_in uninitialized r = return_zero r

  abbrev pub advance : ℕ → Run S → Run S
  advance c r = record r { slice = r.slice ++ c ∷ [] }

  -- One round, on the byte `c` with `rest` behind it.
  abbrev pub step : Settings S → Bytes → ℕ → Run S → Step S
  step settings rest c r = step_in settings (is_nil rest) c r.state r

  -- The loop, from the byte number `i`, with the value that the function returns.
  unfoldable pub loop : Settings S → ℕ → Run S → Bytes → Run S × ℕ
  loop settings i r [] = (r, i)
  loop settings i r (c ∷ rest) = elim (step settings rest c r) [
    | proceed r' ↦ loop settings (suc i) (advance c r') rest
    | return_at r' ↦ (r', i)
    | return_zero r' ↦ (r', 0)
  ]

  unfoldable pub multipart_parser_execute : Settings S → Parser → S → Bytes → Run S × ℕ
  unfolding loop step_in
  multipart_parser_execute settings p user buf =
      loop settings 0 (record { parser = p; user = user; slice = [] }) buf

  pub Step-cases :
      (s : Step S)
      → ((r : Run S) × (s ≡ proceed r))
        ⊎ ((r : Run S) × (s ≡ return_at r))
        ⊎ ((r : Run S) × (s ≡ return_zero r))
  Step-cases (proceed r) = inl (r, refl)
  Step-cases (return_at r) = inr (inl (r, refl))
  Step-cases (return_zero r) = inr (inr (r, refl))
