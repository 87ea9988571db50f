-- ===== src/Request/Headers.antt =====
-- The bytes around a part's data: the parser leaves the files alone there.
use audio_tool_api.Prelude.{
  ℕ, ◌+◌, ◌≡◌, ◌≢◌, ap, true, ◌⊎◌, List, [], ◌∷◌, ◌++◌, append-nil, append_assoc, arith, length,
  length-append, get_or, get_or-append, Bytes,
}
use audio_tool_api.Multipart.{
  State, start_boundary, header_field_start, header_field, headers_almost_done, header_value_start,
  header_value, header_value_almost_done, part_data_start, part_data_almost_end, part_data_end,
  part_data_final_hyphen, finished, Run, is_header_char, proceed, step_in, step, cr, lf, goto,
}
use audio_tool_api.Request.{Upload, m_callbacks}
use audio_tool_api.Request.Matching.{Goes, Common}

-- In the state `s`, with nothing collected for the next file.
pub record In (b : Bytes) (files : List Bytes) (s : State) (r : Run Upload) : Type 0 where
  pub common : Common b files r
  pub state_is : r.state ≡ s
  pub empty : r.user.current_file_data ≡ []

module _ (b : Bytes) (files : List Bytes) where
  -- Before or inside a header's name, before or inside its value.
  abbrev pub InName : Run Upload → Type 0
  InName r = In b files header_field_start r ⊎ In b files header_field r

  abbrev pub InValue : Run Upload → Type 0
  InValue r = In b files header_value_start r ⊎ In b files header_value r

  module _ (c : ℕ) (r : Run Upload) where
    pub start_name :
        In b files header_field_start r
        → is_header_char c ≡ true
        → Goes header_field_start c r InName
    unfolding step_in
    start_name v h = ground arith

    pub in_name : In b files header_field r → is_header_char c ≡ true → Goes header_field c r InName
    unfolding step_in
    in_name v h = ground arith

    pub start_value : In b files header_value_start r → c ≢ cr → Goes header_value_start c r InValue
    unfolding step_in
    start_value v h = ground arith

    pub in_value : In b files header_value r → c ≢ cr → Goes header_value c r InValue
    unfolding step_in
    in_value v h = ground arith

  module _ (r : Run Upload) where
    pub start_name_colon :
        In b files header_field_start r
        → Goes header_field_start b':' r (In b files header_value_start)
    unfolding step_in
    start_name_colon v = ground arith

    pub name_colon :
        In b files header_field r → Goes header_field b':' r (In b files header_value_start)
    unfolding step_in
    name_colon v = ground arith

    pub start_value_end :
        In b files header_value_start r
        → Goes header_value_start cr r (In b files header_value_almost_done)
    unfolding step_in
    start_value_end v = ground arith

    pub value_end :
        In b files header_value r → Goes header_value cr r (In b files header_value_almost_done)
    unfolding step_in
    value_end v = ground arith

    pub next_header :
        In b files header_value_almost_done r
        → Goes header_value_almost_done lf r (In b files header_field_start)
    unfolding step_in
    next_header v = ground arith

    pub headers_end :
        In b files header_field_start r
        → Goes header_field_start cr r (In b files headers_almost_done)
    unfolding step_in
    headers_end v = ground arith

    pub headers_done :
        In b files headers_almost_done r
        → Goes headers_almost_done lf r (In b files part_data_start)
    unfolding step_in
    headers_done v = ground arith

    pub part_end :
        In b files part_data_almost_end r
        → Goes part_data_almost_end cr r (In b files part_data_end)
    unfolding step_in
    part_end v = ground arith

    pub part_begin :
        In b files part_data_end r → Goes part_data_end lf r (In b files header_field_start)
    unfolding step_in
    part_begin v = ground arith

    pub hyphen :
        In b files part_data_almost_end r
        → Goes part_data_almost_end b'-' r (In b files part_data_final_hyphen)
    unfolding step_in
    hyphen v = ground arith

  -- The part of the boundary at the start of the body that is read.
  pub record Starting (pre post : Bytes) (r : Run Upload) : Type 0 where
    pub common : Common b files r
    pub state_is : r.state ≡ start_boundary
    pub empty : r.user.current_file_data ≡ []
    pub splits : b ≡ pre ++ post
    pub index_is : r.index ≡ length pre

  -- The whole boundary is read, and CR behind it.
  pub record StartingLf (r : Run Upload) : Type 0 where
    pub common : Common b files r
    pub state_is : r.state ≡ start_boundary
    pub empty : r.user.current_file_data ≡ []
    pub index_is : r.index ≡ length b + 1

  pub start_byte :
      (pre post : Bytes) (c : ℕ) (r : Run Upload)
      → Starting pre (c ∷ post) r
      → Goes start_boundary c r (Starting (pre ++ c ∷ []) post)
  unfolding step_in
  start_byte pre post c r v = ground (
    arith,
    read,
    ap length v.common.boundary,
    ap length v.splits,
    length-append {0} pre (c ∷ post),
    length-append {0} pre (c ∷ []),
    append_assoc pre (c ∷ []) post,
  )
    where
      read : get_or r.multipart_boundary r.index 0 ≡ c
      read = rw (v.common.boundary, v.splits, v.index_is) (get_or-append pre post c 0)

  pub start_cr :
      (pre : Bytes) (r : Run Upload) → Starting pre [] r → Goes start_boundary cr r StartingLf
  unfolding step_in
  start_cr pre r v = ground (arith, ap length v.common.boundary, ap length v.splits, append-nil pre)

  pub start_lf :
      (r : Run Upload) → StartingLf r → Goes start_boundary lf r (In b files header_field_start)
  unfolding step_in
  start_lf r v = ground (arith, ap length v.common.boundary)

  -- The epilogue.
  pub final_hyphen :
      (rest : Bytes) (r : Run Upload)
      → In b files part_data_final_hyphen r
      → step m_callbacks rest b'-' r ≡ proceed (goto finished r)
  unfolding step_in
  final_hyphen rest r v = ground arith
