-- ===== src/Http/Response.antt =====
-- audio_tool_api/http/http_response.{h,cpp}: the response that a handler fills. `J` is the type of
-- JSON values; `dump` is the library's, which throws on a text that is not UTF-8.
use audio_tool_api.Prelude.{ℕ, Bool, true, false, List, Bytes, if◌then◌else◌}

-- `fails` holds the exception's text.
pub data Dumped : Type 0 where
  text fails : Bytes → Dumped

pub record HttpResponse (J : Type 0) : Type 0 where
  pub headers : List (Bytes × Bytes)
  pub status : ℕ
  pub content_type : Bytes
  pub use_json_body : Bool
  pub json_content : J
  pub body_content : Bytes

module _ {J : Type 0} where
  abbrev pub get_content : (J → Dumped) → HttpResponse J → Dumped
  get_content dump r = if r.use_json_body then dump r.json_content else text r.body_content

  abbrev pub set_json : J → HttpResponse J → HttpResponse J
  set_json j r = record r { use_json_body = true; json_content = j }

  abbrev pub set_text : Bytes → HttpResponse J → HttpResponse J
  set_text content r = record r { use_json_body = false; body_content = content }
