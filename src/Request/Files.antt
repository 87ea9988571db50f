-- ===== src/Request/Files.antt =====
-- What http_request makes of a well-formed multipart body: the parts' data, in order.
use audio_tool_api.Prelude.{
  ℕ, ◌+◌, ◌≤◌, ◌<◌, ◌≡◌, ◌≢◌, refl, ap, ◌∙◌, List, [], ◌∷◌, ◌++◌, map, some, arith, length, is_nil,
  All, Bytes, codes, ◌==◌, Bool-cases, ==_iff, inl, inr,
}
use audio_tool_api.Prelude.Dict.{find_bytes}
use audio_tool_api.Multipart.{
  Run, start, start_boundary, step_in, goto, set_index, cr, multipart_parser_init,
  multipart_parser_execute,
}
use audio_tool_api.Request.{
  Upload, BeastRequest, m_callbacks, c_str, read_files, multipart_boundary, content_type_of,
  http_request, request_files,
}
use audio_tool_api.Request.Data.{files_of, files_of-same, NoCr}
use audio_tool_api.Request.Headers.{Starting}
use audio_tool_api.Request.Runs.{
  Part, IsPart, render_headers-ne_nil, render_parts, start-run, parts-run,
}

-- A body: the boundary, the parts, and what stands behind the last delimiter.
abbrev pub render_body : Bytes → Part → List Part → Bytes → Bytes
render_body b p ps epilogue = b ++ render_parts b (p ∷ ps) epilogue

abbrev pub contents : List Part → List Bytes
contents = map λ p. p.content

-- No CR and no zero, as in any boundary that a client sends.
abbrev pub IsBoundary : Bytes → Type 0
IsBoundary = All λ c. (c ≢ cr) × (c ≢ 0)

IsBoundary-NoCr : (b : Bytes) → IsBoundary b → NoCr b
IsBoundary-NoCr [] h = tt
IsBoundary-NoCr (c ∷ b) h = (h.0.0, IsBoundary-NoCr b h.1)

IsBoundary-c_str : (b : Bytes) → IsBoundary b → c_str b ≡ b
IsBoundary-c_str [] h = refl
IsBoundary-c_str (c ∷ b) h = elim (Bool-cases (c == 0)) [
  | inl e ↦ absurd (h.0.1 ((==_iff c 0).0 e))
  | inr e ↦ rw e (ap (◌∷◌ c) (IsBoundary-c_str b h.1))
]

fresh-run :
    (x₀ : ℕ) (b' rest : Bytes) (r : Run Upload)
    → r.state ≡ start
    → files_of r (x₀ ∷ (b' ++ cr ∷ rest))
      ≡ files_of (goto start_boundary (set_index 0 r)) (x₀ ∷ (b' ++ cr ∷ rest))
unfolding step_in
fresh-run x₀ b' rest r e =
    files_of-same x₀ r (goto start_boundary (set_index 0 r)) (b' ++ cr ∷ rest)
      (ap (λ s. step_in m_callbacks (is_nil (b' ++ cr ∷ rest)) x₀ s r) e)

abbrev fresh : Bytes → Bytes → Run Upload
fresh memory b = record {
  parser = record { index = 0; state = start; lookbehind = memory; multipart_boundary = b };
  user = record { files = []; current_file_data = [] };
  slice = [];
}

read_files-files_of :
    (memory b body : Bytes)
    → IsBoundary b
    → read_files memory b body ≡ files_of (fresh memory b) body
unfolding read_files files_of multipart_parser_init multipart_parser_execute
read_files-files_of memory b body h =
    ap
      (λ s.
        (multipart_parser_execute m_callbacks (multipart_parser_init s memory)
          (record { files = []; current_file_data = [] }) body).0.user.files)
      (IsBoundary-c_str b h)

fresh-Starting :
    (memory b : Bytes)
    → length b + 2 ≤ length memory
    → Starting b [] [] b (goto start_boundary (set_index 0 (fresh memory b)))
fresh-Starting memory b m = record {
  common = record { boundary = refl; stored = refl; room = m };
  state_is = refl;
  empty = refl;
  splits = refl;
  index_is = refl;
}

-- For a boundary of bytes other than CR and zero that is not empty, with two bytes of store more
-- than the boundary has, and parts whose data does not hold CR LF and the boundary, the parser and
-- the two callbacks give the parts' data, in order and unchanged.
pub read_files-render_body :
    (memory b : Bytes) (p : Part) (ps : List Part) (epilogue : Bytes)
    → 0 < length b
    → IsBoundary b
    → length b + 2 ≤ length memory
    → IsPart b p
    → All (IsPart b) ps
    → read_files memory b (render_body b p ps epilogue) ≡ contents (p ∷ ps)
read_files-render_body memory [] p ps epilogue l h m ok oks = absurd (omega arith)
read_files-render_body memory (x₀ ∷ b') p ps epilogue l h m ok oks =
    let b : Bytes = x₀ ∷ b' in
    read_files-files_of memory b _ h
    ∙ fresh-run x₀ b' _ (fresh memory b) refl
    ∙ start-run b [] (contents (p ∷ ps)) b [] _ _ (fresh-Starting memory b m)
        (render_headers-ne_nil p.headers _)
        λ r v. parts-run x₀ b' (IsBoundary-NoCr b h) epilogue p ps [] r v ok oks

abbrev pub form_data : Bytes → Bytes
form_data token = codes "multipart/form-data; boundary=" ++ token

multipart_boundary-form_data :
    (token : Bytes) → multipart_boundary (form_data token) ≡ codes "--" ++ token
unfolding multipart_boundary find_bytes
multipart_boundary-form_data token = refl

request_files-form_data :
    (memory token : Bytes) (req : BeastRequest)
    → req.content_type ≡ some (form_data token)
    → request_files memory req ≡ read_files memory (codes "--" ++ token) req.body
unfolding request_files content_type_of find_bytes
request_files-form_data memory token req c =
    rw c (ap (λ b. read_files memory b req.body) (multipart_boundary-form_data token))

-- The whole constructor, on an upload as a browser writes it: if the content type is form data
-- with a boundary of bytes other than CR and zero, and the body is written in the usual form, with
-- enough store and parts whose data does not hold CR LF and the boundary line, then `files` holds
-- the data of the parts, in order and unchanged.
pub http_request-files :
    (memory token epilogue : Bytes) (req : BeastRequest) (p : Part) (ps : List Part)
    → req.content_type ≡ some (form_data token)
    → req.body ≡ render_body (codes "--" ++ token) p ps epilogue
    → IsBoundary token
    → length token + 11 ≤ length memory
    → IsPart (codes "--" ++ token) p
    → All (IsPart (codes "--" ++ token)) ps
    → (http_request memory req).files ≡ contents (p ∷ ps)
unfolding http_request
http_request-files memory token epilogue req p ps c e h m ok oks =
    request_files-form_data memory token req c
    ∙ ap (read_files memory (codes "--" ++ token)) e
    ∙ read_files-render_body memory (codes "--" ++ token) p ps epilogue (omega arith)
        (((λ z. omega arith), (λ z. omega arith)), (((λ z. omega arith), (λ z. omega arith)), h))
        (omega arith) ok oks
