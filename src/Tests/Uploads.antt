-- ===== src/Tests/Uploads.antt =====
-- The multipart parser and the request constructor at concrete inputs.
use audio_tool_api.Prelude.{
  ◌≡◌, ◌<◌, refl, ap, some, none, [], ◌∷◌, ◌++◌, Bytes, codes, replicate, length, length-append,
  arith,
}
use audio_tool_api.Prelude.Dict.{lookup}
use audio_tool_api.Multipart.{Run, multipart_parser_init, step_in, cr, lf, part_data_boundary}
use audio_tool_api.Multipart.Bounds.{IsSafe, reached, multipart_parser_execute-IsSafe}
use audio_tool_api.Request.{
  BeastRequest, Upload, m_callbacks, http_request, request_files, parse_target,
}
use audio_tool_api.Request.Data.{Free}
use audio_tool_api.Request.Runs.{Part, IsPart}
use audio_tool_api.Request.Files.{http_request-files}
use audio_tool_api.Request.Target.{Params, parse_target-lookup}

abbrev body : Bytes
body = codes "--XY\r\nContent-Disposition: form-data\r\n\r\nab\r\n--X\r\n--XY\r\n\r\n\r\n--XY--\r\n"

abbrev upload : BeastRequest
upload = record {
  target = codes "/file?name=a=b&x=1";
  fields = [];
  content_type = some (codes "multipart/form-data; boundary=XY");
  body = body;
}

upload_files : (http_request (replicate 20 0) upload).files ≡ codes "ab\r\n--X" ∷ [] ∷ []
unfolding http_request request_files
upload_files = refl

upload_params :
    (http_request (replicate 20 0) upload).url_params
    ≡ (codes "name", codes "a=b") ∷ (codes "x", codes "1") ∷ []
unfolding http_request
upload_params = refl

abbrev first : Part
first = record {
  headers = record { name = codes "A"; value = codes "1" } ∷ [];
  content = codes "a\r\nb";
}

abbrev second : Part
second = record { headers = []; content = [] }

abbrev form : Bytes
form = codes "--XY\r\nA: 1\r\n\r\na\r\nb\r\n--XY\r\n\r\n\r\n--XY--"

abbrev boundary : Bytes
boundary = codes "--XY"

-- A text is too short to hold a longer one.
short_Free : (d s : Bytes) → length s < length d → Free d s
short_Free d s h before behind e =
    let l = ap length e in
    let m = length-append before (d ++ behind) in
    let n = length-append d behind in omega (arith, l, m, n)

first-IsPart : IsPart boundary first
first-IsPart = (
  ((((refl, tt)), ((λ z. omega arith), tt)), tt),
  short_Free (cr ∷ lf ∷ boundary) (codes "a\r\nb") (omega arith),
)

second-IsPart : IsPart boundary second
second-IsPart = (tt, short_Free (cr ∷ lf ∷ boundary) [] (omega arith))

abbrev form_request : BeastRequest
form_request = record {
  target = codes "/files";
  fields = [];
  content_type = some (codes "multipart/form-data; boundary=XY");
  body = form;
}

http_request-files_example :
    (http_request (replicate 13 0) form_request).files ≡ codes "a\r\nb" ∷ [] ∷ []
http_request-files_example =
    http_request-files (replicate 13 0) (codes "XY") [] form_request first (second ∷ []) refl refl
      (((λ z. omega arith), (λ z. omega arith)), (((λ z. omega arith), (λ z. omega arith)), tt))
      (omega arith) first-IsPart (second-IsPart, tt)

abbrev begun : Run Upload
begun = record {
  parser = multipart_parser_init boundary (replicate 13 0);
  user = record { files = []; current_file_data = [] };
  slice = [];
}

-- The run after the first seventeen bytes of the form, where the boundary is compared.
abbrev midway : Run Upload
midway = elim (reached m_callbacks 17 begun form) [ some at ↦ at | none ↦ begun ]

midway_index : (midway.parser.index ≡ 0) × (midway.parser.state ≡ part_data_boundary)
unfolding reached multipart_parser_init step_in
midway_index = (refl, refl)

multipart_parser_execute-IsSafe_example : IsSafe midway.parser
unfolding reached multipart_parser_init step_in
multipart_parser_execute-IsSafe_example =
    multipart_parser_execute-IsSafe m_callbacks boundary (replicate 13 0) form begun.user 17 midway
      (omega arith) (omega arith) refl

abbrev query : Params
query = (codes "b", codes "x=2") ∷ []

parse_target-lookup_example :
    ((parse_target (codes "/f?a=1&b=x=2")).path ≡ codes "/f")
    × (lookup (codes "b") (parse_target (codes "/f?a=1&b=x=2")).url_params
        ≡ lookup (codes "b") ((codes "a", codes "1") ∷ query))
unfolding lookup
parse_target-lookup_example =
    parse_target-lookup (codes "/f") (codes "a", codes "1") query (codes "b") (refl, (refl, tt))
      ((λ e. absurd (omega (arith, ap length e))), ((refl, refl), tt), ((refl, refl), tt))
      (
        (
          (λ e. absurd (omega (arith, ap length e))),
          ((refl, refl), tt),
          ((refl, refl), ((refl, refl), ((refl, refl), tt))),
        ),
        tt,
      )
      (refl, (refl, tt))
