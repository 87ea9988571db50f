-- ===== src/Request/Runs.antt =====
-- The parser over whole pieces of a body: the opening boundary, a header, a part, the end.
use audio_tool_api.Prelude.{
  ℕ, ◌≡◌, refl, ap, ◌∙◌, true, false, inl, inr, List, [], ◌∷◌, ◌++◌, map, append-nil, append_assoc,
  arith, is_nil, All, Bytes,
}
use audio_tool_api.Multipart.{
  start_boundary, header_field_start, header_field, headers_almost_done, header_value_start,
  header_value, header_value_almost_done, part_data_start, part_data, part_data_almost_end,
  part_data_end, finished, Run, is_header_char, proceed, step_in, step, advance, cr, lf, goto,
  mark_here,
}
use audio_tool_api.Request.{Upload, m_callbacks}
use audio_tool_api.Request.Matching.{after}
use audio_tool_api.Request.Data.{
  files_of, files_of-nil, files_of-step, files_of-proceed, files_of-same, is_nil-append_cons, NoCr,
  Free, Idle-file,
}
use audio_tool_api.Request.Headers.{
  In, InName, InValue, Starting, start_name, in_name, start_value, in_value, start_name_colon,
  name_colon, start_value_end, value_end, next_header, headers_end, headers_done, part_end,
  part_begin, hyphen, start_byte, start_cr, start_lf, final_hyphen,
}

-- A header line, and a part: what a client writes.
pub record Header : Type 0 where
  pub name : Bytes
  pub value : Bytes

pub record Part : Type 0 where
  pub headers : List Header
  pub content : Bytes

abbrev pub render_headers : List Header → Bytes → Bytes
render_headers [] rest = cr ∷ lf ∷ rest
render_headers (h ∷ hs) rest = h.name ++ b':' ∷ b' ' ∷ (h.value ++ cr ∷ lf ∷ render_headers hs rest)

-- The parts, each behind CR LF and in front of the delimiter; the two hyphens; the epilogue.
abbrev pub render_parts : Bytes → List Part → Bytes → Bytes
render_parts b [] epilogue = b'-' ∷ b'-' ∷ epilogue
render_parts b (p ∷ ps) epilogue =
    cr ∷ lf ∷ render_headers p.headers (p.content ++ ((cr ∷ lf ∷ b) ++ render_parts b ps epilogue))

pub render_headers-ne_nil :
    (hs : List Header) (rest : Bytes) → is_nil (render_headers hs rest) ≡ false
render_headers-ne_nil [] rest = refl
render_headers-ne_nil (h ∷ hs) rest = is_nil-append_cons h.name _ b':'

abbrev pub IsHeader : Header → Type 0
IsHeader h = All (λ c. is_header_char c ≡ true) h.name × NoCr h.value

abbrev pub IsPart : Bytes → Part → Type 0
IsPart b p = All IsHeader p.headers × Free (cr ∷ lf ∷ b) p.content

-- Runs over whole pieces, with `rest` behind them, as `answer` tells of the files.
module _ (b : Bytes) (files : List Bytes) (answer : List Bytes) where
  pub start-run :
      (post pre : Bytes) (rest : Bytes) (r : Run Upload)
      → Starting b files pre post r
      → is_nil rest ≡ false
      → ((r' : Run Upload) → In b files header_field_start r' → files_of r' rest ≡ answer)
      → files_of r (post ++ cr ∷ lf ∷ rest) ≡ answer
  start-run [] pre rest r v n k =
      let g = start_cr b files pre r v in
      let h =
        start_lf b files (advance cr (after (step_in m_callbacks false cr start_boundary r))) g.1 in
      files_of-step start_boundary cr _ r v.state_is refl g.0
      ∙ files_of-step start_boundary lf rest _ g.1.state_is n h.0
      ∙ k _ h.1
  start-run (c ∷ post) pre rest r v n k =
      let g = start_byte b files pre post c r v in
      files_of-step start_boundary c _ r v.state_is (is_nil-append_cons post (lf ∷ rest) cr) g.0
      ∙ start-run post (pre ++ c ∷ []) rest _ g.1 n k

  value-run :
      (value rest : Bytes) (r : Run Upload)
      → InValue b files r
      → NoCr value
      → is_nil rest ≡ false
      → ((r' : Run Upload) → In b files header_field_start r' → files_of r' rest ≡ answer)
      → files_of r (value ++ cr ∷ lf ∷ rest) ≡ answer
  value-run [] rest r (inl v) ok n k =
      let g = start_value_end b files r v in
      let h =
        next_header b files (advance cr (after (step_in m_callbacks false cr header_value_start r)))
          g.1 in
      files_of-step header_value_start cr _ r v.state_is refl g.0
      ∙ files_of-step header_value_almost_done lf rest _ g.1.state_is n h.0
      ∙ k _ h.1
  value-run [] rest r (inr v) ok n k =
      let g = value_end b files r v in
      let h =
        next_header b files (advance cr (after (step_in m_callbacks false cr header_value r)))
          g.1 in
      files_of-step header_value cr _ r v.state_is refl g.0
      ∙ files_of-step header_value_almost_done lf rest _ g.1.state_is n h.0
      ∙ k _ h.1
  value-run (c ∷ value) rest r (inl v) ok n k =
      let g = start_value b files c r v ok.0 in
      files_of-step header_value_start c _ r v.state_is (is_nil-append_cons value (lf ∷ rest) cr)
        g.0
      ∙ value-run value rest _ g.1 ok.1 n k
  value-run (c ∷ value) rest r (inr v) ok n k =
      let g = in_value b files c r v ok.0 in
      files_of-step header_value c _ r v.state_is (is_nil-append_cons value (lf ∷ rest) cr) g.0
      ∙ value-run value rest _ g.1 ok.1 n k

  name-run :
      (name rest : Bytes) (r : Run Upload)
      → InName b files r
      → All (λ c. is_header_char c ≡ true) name
      → is_nil rest ≡ false
      → ((r' : Run Upload) → InValue b files r' → files_of r' rest ≡ answer)
      → files_of r (name ++ b':' ∷ rest) ≡ answer
  name-run [] rest r (inl v) ok n k =
      let g = start_name_colon b files r v in
      files_of-step header_field_start b':' rest r v.state_is n g.0 ∙ k _ (inl g.1)
  name-run [] rest r (inr v) ok n k =
      let g = name_colon b files r v in
      files_of-step header_field b':' rest r v.state_is n g.0 ∙ k _ (inl g.1)
  name-run (c ∷ name) rest r (inl v) ok n k =
      let g = start_name b files c r v ok.0 in
      files_of-step header_field_start c _ r v.state_is (is_nil-append_cons name rest b':') g.0
      ∙ name-run name rest _ g.1 ok.1 n k
  name-run (c ∷ name) rest r (inr v) ok n k =
      let g = in_name b files c r v ok.0 in
      files_of-step header_field c _ r v.state_is (is_nil-append_cons name rest b':') g.0
      ∙ name-run name rest _ g.1 ok.1 n k

  pub headers-run :
      (hs : List Header) (rest : Bytes) (r : Run Upload)
      → In b files header_field_start r
      → All IsHeader hs
      → is_nil rest ≡ false
      → ((r' : Run Upload) → In b files part_data_start r' → files_of r' rest ≡ answer)
      → files_of r (render_headers hs rest) ≡ answer
  headers-run [] rest r v ok n k =
      let g = headers_end b files r v in
      let h =
        headers_done b files
          (advance cr (after (step_in m_callbacks false cr header_field_start r))) g.1 in
      files_of-step header_field_start cr _ r v.state_is refl g.0
      ∙ files_of-step headers_almost_done lf rest _ g.1.state_is n h.0
      ∙ k _ h.1
  headers-run (x ∷ hs) rest r v ok n k = name-run x.name _ r (inl v) ok.0.0 refl λ r' v'.
      value-run (b' ' ∷ x.value) (render_headers hs rest) r' v'
        ((λ e. absurd (omega arith)), ok.0.1) (render_headers-ne_nil hs rest)
        λ q w. headers-run hs rest q w ok.1 n k

finished-proceeds :
    (rest : Bytes) (c : ℕ) (r : Run Upload)
    → r.state ≡ finished
    → step m_callbacks rest c r ≡ proceed r
unfolding step_in
finished-proceeds rest c r e = ap (λ s. step_in m_callbacks (is_nil rest) c s r) e

-- The first byte of the data is read by the case of the data.
data-start :
    (rest : Bytes) (r : Run Upload)
    → r.state ≡ part_data_start
    → is_nil rest ≡ false
    → files_of r rest ≡ files_of (goto part_data (mark_here r)) rest
unfolding step_in
data-start [] r e n = absurd (cc)
data-start (c ∷ rest) r e n =
    files_of-same c r (goto part_data (mark_here r)) rest
      (ap (λ s. step_in m_callbacks (is_nil rest) c s r) e)

module _ (x₀ : ℕ) (b' : Bytes) (no_cr : NoCr (x₀ ∷ b')) (epilogue : Bytes) where
  abbrev b : Bytes
  b = x₀ ∷ b'

  abbrev d : Bytes
  d = cr ∷ lf ∷ b

  finished-run :
      (rest : Bytes) (r : Run Upload) → r.state ≡ finished → files_of r rest ≡ r.user.files
  finished-run [] r e = files_of-nil r
  finished-run (c ∷ rest) r e =
      files_of-proceed c r r rest (finished-proceeds rest c r e) ∙ finished-run rest (advance c r) e

  end-run :
      (files : List Bytes) (r : Run Upload)
      → In b files part_data_almost_end r
      → files_of r (b'-' ∷ b'-' ∷ epilogue) ≡ files
  end-run files r v =
      let g = hyphen b files r v in
      let q = advance b'-' (after (step_in m_callbacks false b'-' part_data_almost_end r)) in
      files_of-step part_data_almost_end b'-' _ r v.state_is refl g.0
      ∙ files_of-proceed b'-' q (goto finished q) epilogue (final_hyphen b files epilogue q g.1)
      ∙ finished-run epilogue _ refl
      ∙ g.1.common.stored

  -- A part from its headers on, with the delimiter and `y ∷ t` behind its data.
  part-run :
      (p : Part) (y : ℕ) (t : Bytes) (files answer : List Bytes) (r : Run Upload)
      → In b files header_field_start r
      → IsPart b p
      → ((r' : Run Upload)
          → In b (files ++ p.content ∷ []) part_data_almost_end r'
          → files_of r' (y ∷ t) ≡ answer)
      → files_of r (render_headers p.headers (p.content ++ (d ++ y ∷ t))) ≡ answer
  part-run p y t files answer r v ok k =
      headers-run b files answer p.headers _ r v ok.0 (is_nil-append_cons p.content _ cr) λ q w.
        data-start (p.content ++ (d ++ y ∷ t)) q w.state_is (is_nil-append_cons p.content _ cr)
        ∙ Idle-file x₀ b' files y t p.content answer no_cr
            (λ r' v'.
              k r' (record { common = v'.common; state_is = v'.state_is; empty = v'.empty }))
            p.content [] (goto part_data (mark_here q))
            (record {
              common = record {
                boundary = w.common.boundary;
                stored = w.common.stored;
                room = w.common.room;
              };
              state_is = refl;
              collected = append-nil q.user.current_file_data ∙ w.empty;
            })
            ok.1 refl

  next_part :
      (files answer : List Bytes) (rest : Bytes) (r : Run Upload)
      → In b files part_data_almost_end r
      → is_nil rest ≡ false
      → ((r' : Run Upload) → In b files header_field_start r' → files_of r' rest ≡ answer)
      → files_of r (cr ∷ lf ∷ rest) ≡ answer
  next_part files answer rest r v n k =
      let g = part_end b files r v in
      let h =
        part_begin b files
          (advance cr (after (step_in m_callbacks false cr part_data_almost_end r))) g.1 in
      files_of-step part_data_almost_end cr _ r v.state_is refl g.0
      ∙ files_of-step part_data_end lf rest _ g.1.state_is n h.0
      ∙ k _ h.1

  pub parts-run :
      (p : Part) (ps : List Part) (files : List Bytes) (r : Run Upload)
      → In b files header_field_start r
      → IsPart b p
      → All (IsPart b) ps
      → files_of r (render_headers p.headers (p.content ++ (d ++ render_parts b ps epilogue)))
        ≡ files ++ p.content ∷ map (λ (q : Part). q.content) ps
  parts-run p [] files r v ok oks =
      part-run p b'-' (b'-' ∷ epilogue) files _ r v ok (λ r' v'. end-run _ r' v')
  parts-run p (q ∷ ps) files r v ok oks = part-run p cr _ files _ r v ok λ r' v'.
      next_part (files ++ p.content ∷ []) _ _ r' v' (render_headers-ne_nil q.headers _) λ r'' v''.
        parts-run q ps (files ++ p.content ∷ []) r'' v'' oks.0 oks.1
        ∙ append_assoc files (p.content ∷ []) (q.content ∷ map (λ (q : Part). q.content) ps)
