-- ===== src/Request/Matching.antt =====
-- The parser inside a part's data, with the callbacks of http_request: how one byte moves the
-- match of the delimiter CR LF boundary, and which bytes are collected.
use audio_tool_api.Prelude.{
  ℕ, suc, ◌+◌, ◌≤◌, ◌≡◌, ◌≢◌, refl, ap, ◌∙◌, false, Bool-cases, inl, inr, ◌==◌, ==_iff, List, [],
  ◌∷◌, ◌++◌, append-nil, append_assoc, arith, length, length-append, get_or, take, get_or-append,
  take-set, length-set, Bytes,
}
use audio_tool_api.Multipart.{
  State, part_data, part_data_almost_boundary, part_data_boundary, part_data_almost_end, Run, Step,
  proceed, return_at, return_zero, step_in, advance, cr, lf, step_part_data, matched_boundary,
  flush, set_lookbehind,
}
use audio_tool_api.Request.{Upload, m_callbacks}

abbrev pub after : Step Upload → Run Upload
after (proceed r) = r
after (return_at r) = r
after (return_zero r) = r

abbrev pub Proceeds : Step Upload → (Run Upload → Type 0) → Type 0
Proceeds s P = (s ≡ proceed (after s)) × P (after s)

-- The round on the byte `c` of a part's data, which is not the body's last byte, goes on.
abbrev pub Goes : State → ℕ → Run Upload → (Run Upload → Type 0) → Type 0
Goes s c r P = Proceeds (step_in m_callbacks false c s r) (λ r'. P (advance c r'))

module _ (b : Bytes) (files : List Bytes) where
  pub record Common (r : Run Upload) : Type 0 where
    pub boundary : r.multipart_boundary ≡ b
    pub stored : r.user.files ≡ files
    pub room : length b + 2 ≤ length r.lookbehind

  -- Outside a match: nothing is held back, the collected bytes are those appended and the slice.
  pub record Idle (acc : Bytes) (r : Run Upload) : Type 0 where
    pub common : Common r
    pub state_is : r.state ≡ part_data
    pub collected : r.user.current_file_data ++ r.slice ≡ acc

  -- The byte CR is held back.
  pub record SeenCr (acc : Bytes) (r : Run Upload) : Type 0 where
    pub common : Common r
    pub state_is : r.state ≡ part_data_almost_boundary
    pub collected : r.user.current_file_data ≡ acc
    pub held : take 1 r.lookbehind ≡ cr ∷ []

  -- CR, LF and the beginning `pre` of the boundary are held back.
  pub record Seen (acc pre post : Bytes) (r : Run Upload) : Type 0 where
    pub common : Common r
    pub state_is : r.state ≡ part_data_boundary
    pub collected : r.user.current_file_data ≡ acc
    pub splits : b ≡ pre ++ post
    pub index_is : r.index ≡ length pre
    pub held : take (2 + length pre) r.lookbehind ≡ cr ∷ lf ∷ pre

  -- The delimiter is complete: the part's data is a file.
  pub record Done (r : Run Upload) : Type 0 where
    pub common : Common r
    pub state_is : r.state ≡ part_data_almost_end
    pub empty : r.user.current_file_data ≡ []

  pub Idle-other :
      (acc : Bytes) (c : ℕ) (r : Run Upload)
      → c ≢ cr
      → Idle acc r
      → Goes part_data c r (Idle (acc ++ c ∷ []))
  unfolding step_in
  Idle-other acc c r ne v = ground (arith, append_assoc r.user.current_file_data r.slice (c ∷ []))

  pub Idle-cr : (acc : Bytes) (r : Run Upload) → Idle acc r → Goes part_data cr r (SeenCr acc)
  unfolding step_in
  Idle-cr acc r v = ground (arith, length-set {0} r.lookbehind 0 cr, take-set {0} r.lookbehind 0 cr)

  flush-other :
      (acc held : Bytes) (c : ℕ) (r : Run Upload)
      → c ≢ cr
      → Common r
      → r.user.current_file_data ≡ acc
      → Proceeds
          (flush m_callbacks false c held r)
          (λ r'. Idle (acc ++ (held ++ c ∷ [])) (advance c r'))
  unfolding step_part_data
  flush-other acc held c r ne v e =
      ground (arith, append_assoc r.user.current_file_data held (c ∷ []))

  flush-cr :
      (acc held : Bytes) (r : Run Upload)
      → Common r
      → r.user.current_file_data ≡ acc
      → Proceeds (flush m_callbacks false cr held r) (λ r'. SeenCr (acc ++ held) (advance cr r'))
  unfolding step_part_data
  flush-cr acc held r v e = ground (
    arith,
    length-set {0} r.lookbehind 0 cr,
    take-set {0} r.lookbehind 0 cr,
    append-nil {0} (r.user.current_file_data ++ held),
  )

  pub SeenCr-lf :
      (acc : Bytes) (r : Run Upload)
      → SeenCr acc r
      → Goes part_data_almost_boundary lf r (Seen acc [] b)
  unfolding step_in
  SeenCr-lf acc r v =
      ground (arith, length-set {0} r.lookbehind 1 lf, take-set {0} r.lookbehind 1 lf)

  pub SeenCr-cr :
      (acc : Bytes) (r : Run Upload)
      → SeenCr acc r
      → Goes part_data_almost_boundary cr r (SeenCr (acc ++ cr ∷ []))
  unfolding step_in
  SeenCr-cr acc r v = rw v.held (flush-cr acc (cr ∷ []) r v.common v.collected)

  pub SeenCr-other :
      (acc : Bytes) (c : ℕ) (r : Run Upload)
      → c ≢ cr
      → c ≢ lf
      → SeenCr acc r
      → Goes part_data_almost_boundary c r (Idle (acc ++ cr ∷ c ∷ []))
  unfolding step_in
  SeenCr-other acc c r ne ne' v = elim (Bool-cases (c == lf)) [
    | inl e ↦ absurd (ground arith)
    | inr e ↦ rw (e, v.held) (flush-other acc (cr ∷ []) c r ne v.common v.collected)
  ]

  Seen-current :
      {acc pre post : Bytes} {x : ℕ} (r : Run Upload)
      → Seen acc pre (x ∷ post) r
      → get_or r.multipart_boundary r.index 0 ≡ x
  Seen-current {pre} {post} {x} r v =
      rw (v.common.boundary, v.splits, v.index_is) (get_or-append pre post x 0)

  Seen-held :
      {acc pre post : Bytes} (r : Run Upload)
      → Seen acc pre post r
      → take (2 + r.index) r.lookbehind ≡ cr ∷ lf ∷ pre
  Seen-held r v = rw v.index_is v.held

  -- The run once the matching byte is held back.
  record Matched (acc pre post : Bytes) (c : ℕ) (r : Run Upload) : Type 0 where
    common : Common r
    state_is : r.state ≡ part_data_boundary
    collected : r.user.current_file_data ≡ acc
    splits : b ≡ pre ++ c ∷ post
    index_is : r.index ≡ length pre
    held : take (suc (2 + r.index)) r.lookbehind ≡ cr ∷ lf ∷ (pre ++ c ∷ [])

  Seen-Matched :
      (acc pre post : Bytes) (c : ℕ) (r : Run Upload)
      → Seen acc pre (c ∷ post) r
      → Matched acc pre post c (set_lookbehind (2 + r.index) c r)
  Seen-Matched acc pre post c r v = record {
    common = record {
      boundary = v.common.boundary;
      stored = v.common.stored;
      room = omega (arith, v.common.room, length-set {0} r.lookbehind (2 + r.index) c);
    };
    state_is = v.state_is;
    collected = v.collected;
    splits = v.splits;
    index_is = v.index_is;
    held =
        take-set r.lookbehind (2 + r.index) c (
          omega (
            arith,
            v.common.room,
            ap length v.splits,
            v.index_is,
            length-append {0} pre (c ∷ post),
          ))
        ∙ ap (λ bs. bs ++ c ∷ []) (Seen-held r v);
  }

  -- The next byte of the boundary.
  Matched-next :
      (acc pre post : Bytes) (c d : ℕ) (r : Run Upload)
      → Matched acc pre (d ∷ post) c r
      → Proceeds
          (matched_boundary m_callbacks false c r)
          (λ r'. Seen acc (pre ++ c ∷ []) (d ∷ post) (advance c r'))
  unfolding matched_boundary
  Matched-next acc pre post c d r v = ground (
    arith,
    ap length v.common.boundary,
    ap length v.splits,
    length-append {0} pre (c ∷ d ∷ post),
    length-append {0} pre (c ∷ []),
    append_assoc pre (c ∷ []) (d ∷ post),
  )

  pub Seen-next :
      (acc pre post : Bytes) (c d : ℕ) (r : Run Upload)
      → Seen acc pre (c ∷ d ∷ post) r
      → Goes part_data_boundary c r (Seen acc (pre ++ c ∷ []) (d ∷ post))
  unfolding step_in
  Seen-next acc pre post c d r v =
      rw (Seen-current r v, (==_iff c c).1 refl)
        (Matched-next acc pre post c d _ (Seen-Matched acc pre (d ∷ post) c r v))

  -- A byte that breaks the match.
  pub Seen-cr :
      (acc pre post : Bytes) (x : ℕ) (r : Run Upload)
      → x ≢ cr
      → Seen acc pre (x ∷ post) r
      → Goes part_data_boundary cr r (SeenCr (acc ++ (cr ∷ lf ∷ pre)))
  unfolding step_in
  Seen-cr acc pre post x r ne v = elim (Bool-cases (x == cr)) [
    | inl e ↦ absurd (ground arith)
    | inr e ↦
        rw (Seen-current r v, e, Seen-held r v)
          (flush-cr acc (cr ∷ lf ∷ pre) r v.common v.collected)
  ]

  pub Seen-other :
      (acc pre post : Bytes) (c x : ℕ) (r : Run Upload)
      → c ≢ cr
      → c ≢ x
      → Seen acc pre (x ∷ post) r
      → Goes part_data_boundary c r (Idle (acc ++ (cr ∷ lf ∷ (pre ++ c ∷ []))))
  unfolding step_in
  Seen-other acc pre post c x r ne ne' v = elim (Bool-cases (x == c)) [
    | inl e ↦ absurd (ground arith)
    | inr e ↦
        rw (Seen-current r v, e, Seen-held r v)
          (flush-other acc (cr ∷ lf ∷ pre) c r ne v.common v.collected)
  ]

module _ (b : Bytes) (files : List Bytes) where
  -- The last byte of the boundary.
  Matched-last :
      (acc pre : Bytes) (c : ℕ) (r : Run Upload)
      → Matched b files acc pre [] c r
      → Proceeds
          (matched_boundary m_callbacks false c r)
          (λ r'. Done b (files ++ acc ∷ []) (advance c r'))
  unfolding matched_boundary
  Matched-last acc pre c r v =
      ground
        (arith, ap length v.common.boundary, ap length v.splits, length-append {0} pre (c ∷ []))

  pub Seen-last :
      (acc pre : Bytes) (c : ℕ) (r : Run Upload)
      → Seen b files acc pre (c ∷ []) r
      → Goes part_data_boundary c r (Done b (files ++ acc ∷ []))
  unfolding step_in
  Seen-last acc pre c r v =
      rw (Seen-current b files r v, (==_iff c c).1 refl)
        (Matched-last acc pre c _ (Seen-Matched b files acc pre [] c r v))
