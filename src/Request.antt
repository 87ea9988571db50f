-- ===== src/Request.antt =====
-- audio_tool_api/http/http_request.cpp: what the constructor reads out of a request. The target
-- is read byte by byte into the path and the parameters; the files of a multipart body come from
-- the parser of Multipart, through two callbacks.
mod Matching
pub mod Runs
pub mod Files
pub mod Target
pub mod Marks
mod Headers
pub mod Data
use audio_tool_api.Prelude.{
  ℕ, ◌+◌, Bool, true, false, not, ◌&&◌, ◌||◌, Option, none, some, List, [], ◌∷◌, ◌++◌, ltb, ◌==◌,
  if◌then◌else◌, length, drop, Bytes, codes,
}
use audio_tool_api.Prelude.Dict.{find_bytes, lookup, assign, emplace}
use audio_tool_api.Multipart.{Settings, multipart_parser_init, multipart_parser_execute}

-- The part of boost::beast's request that the code reads: `content_type` is what `find` and `at`
-- give for "content-type", in any case of the letters.
pub record BeastRequest : Type 0 where
  pub target : Bytes
  pub fields : List (Bytes × Bytes)
  pub content_type : Option Bytes
  pub body : Bytes

-- The local variables of the loop over the target, and the two members that it fills.
pub record UrlState : Type 0 where
  pub path : Bytes
  pub url_params : List (Bytes × Bytes)
  pub current_param_name : Bytes
  pub current_param_value : Bytes
  pub in_params : Bool
  pub in_value : Bool

unfoldable pub url_step : ℕ → UrlState → UrlState
url_step c u =
    if c == b'?' || c == b'#'
    then record u { path = u.current_param_name; current_param_name = []; in_params = true }
    else if c == b'=' && u.in_params && not u.in_value
    then record u { in_value = true }
    else if c == b'&' && u.in_params
    then record u {
      url_params = assign u.current_param_name u.current_param_value u.url_params;
      current_param_name = [];
      current_param_value = [];
      in_value = false;
    }
    else if u.in_params && u.in_value
    then record u { current_param_value = u.current_param_value ++ c ∷ [] }
    else record u { current_param_name = u.current_param_name ++ c ∷ [] }

unfoldable pub url_loop : UrlState → Bytes → UrlState
unfolding url_step
url_loop u [] = u
url_loop u (c ∷ cs) = url_loop (url_step c u) cs

-- The last piece, behind the loop.
unfoldable pub url_finish : UrlState → UrlState
url_finish u =
    if ltb 0 (length u.current_param_name)
    then (if u.in_params
        then record u {
          url_params = emplace u.current_param_name u.current_param_value u.url_params;
        }
        else record u { path = u.current_param_name })
    else u

abbrev pub url_start : UrlState
url_start = record {
  path = [];
  url_params = [];
  current_param_name = [];
  current_param_value = [];
  in_params = false;
  in_value = false;
}

unfoldable pub parse_target : Bytes → UrlState
unfolding url_loop url_finish lookup assign emplace
parse_target target = url_finish (url_loop url_start target)

unfoldable pub store_headers : List (Bytes × Bytes) → List (Bytes × Bytes) → List (Bytes × Bytes)
store_headers headers [] = headers
store_headers headers ((name, value) ∷ fields) = store_headers (emplace name value headers) fields

-- The members that the callbacks write.
pub record Upload : Type 0 where
  pub files : List Bytes
  pub current_file_data : Bytes

abbrev pub m_callbacks : Settings Upload
m_callbacks = record {
  on_header_field = none;
  on_header_value = none;
  on_part_data =
      some (λ at self. (record self { current_file_data = self.current_file_data ++ at }, 0));
  on_part_data_begin = none;
  on_headers_complete = none;
  on_part_data_end = some (λ self.
      (record { files = self.files ++ self.current_file_data ∷ []; current_file_data = [] }, 0));
  on_body_end = none;
}

-- `c_str()`: the bytes before the first zero.
abbrev pub c_str : Bytes → Bytes
c_str [] = []
c_str (c ∷ s) = let rest = c_str s in if c == 0 then [] else c ∷ rest

-- The boundary is what follows "boundary=", or else the whole value.
unfoldable pub multipart_boundary : Bytes → Bytes
multipart_boundary content_type = elim (find_bytes (codes "boundary=") content_type) [
  | some index ↦ codes "--" ++ drop (index + 9) content_type
  | none ↦ content_type
]

-- `memory` is the fresh store of the parser's look-behind buffer.
unfoldable pub read_files : Bytes → Bytes → Bytes → List Bytes
unfolding multipart_parser_execute multipart_parser_init
read_files memory boundary body =
    (multipart_parser_execute m_callbacks (multipart_parser_init (c_str boundary) memory)
      (record { files = []; current_file_data = [] }) body).0.user.files

unfoldable pub content_type_of : BeastRequest → Bytes
content_type_of req = elim req.content_type [ some value ↦ value | none ↦ codes "application/json" ]

-- The members that a multipart request fills.
unfoldable pub request_files : Bytes → BeastRequest → List Bytes
request_files memory req = elim (find_bytes (codes "multipart") (content_type_of req)) [
  | some _ ↦
      read_files memory
        (elim req.content_type [ some value ↦ multipart_boundary value | none ↦ [] ]) req.body
  | none ↦ []
]

pub record HttpRequest : Type 0 where
  pub path : Bytes
  pub content_type : Bytes
  pub url_params : List (Bytes × Bytes)
  pub headers : List (Bytes × Bytes)
  pub files : List Bytes

unfoldable pub http_request : Bytes → BeastRequest → HttpRequest
unfolding lookup assign emplace parse_target store_headers multipart_boundary read_files find_bytes
    content_type_of
http_request memory req = record {
  path = (parse_target req.target).path;
  content_type = content_type_of req;
  url_params = (parse_target req.target).url_params;
  headers = store_headers [] req.fields;
  files = request_files memory req;
}

unfoldable pub has_header : HttpRequest → Bytes → Bool
unfolding lookup
has_header r name = elim (lookup name r.headers) [ some _ ↦ true | none ↦ false ]

unfoldable pub has_param : HttpRequest → Bytes → Bool
unfolding lookup
has_param r name = elim (lookup name r.url_params) [ some _ ↦ true | none ↦ false ]
