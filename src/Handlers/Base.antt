-- ===== src/Handlers/Base.antt =====
-- audio_tool_api/handlers/base_handler.{h,cpp}: the methods of the base class, which a handler has where
-- it does not override them, with those of audio_tool_api/handlers/auth.h; and
-- audio_tool_api/handlers/decode_file.cpp.
pub mod Dispatching
use audio_tool_api.Prelude.{ℕ, Bool, true, false, Option, none, some, List, [], ◌∷◌, Bytes, codes}
use audio_tool_api.Request.{HttpRequest}
use audio_tool_api.Http.Response.{HttpResponse, set_text}
use audio_tool_api.Http.Process.{http_exception, unknown, Exit, Handler}
use audio_tool_api.Models.{Store, User, Session, Memory, fill_by_token, session_refresh}
use audio_tool_api.Handlers.{Json}
use audio_tool_api.Handlers.Login.{Login, Web, auth_get, auth_post, auth_put}

abbrev pub not_found_response : Bytes
not_found_response = codes "404 Route not found"

module _ {J : Type 0} where
  -- The response as the constructor leaves it, on the JSON library's null.
  abbrev pub base_response : J → HttpResponse J
  base_response null = record {
    headers = (codes "Access-Control-Allow-Origin", codes "*") ∷ [];
    status = 200;
    content_type = codes "application/json";
    use_json_body = false;
    json_content = null;
    body_content = [];
  }

  -- `get`, `post`, `put`, `options`, `delete_` and `head`.
  abbrev pub not_found : HttpRequest → Login J → Exit (Login J)
  not_found req s = (
    record s { response = record (set_text not_found_response s.response) { status = 404 } },
    none,
  )

  abbrev pub user_filled : Exit User → Login J → Exit (Login J)
  user_filled (user, thrown) s = (record s { user = user }, thrown)

  abbrev pub base_methods : Handler (Login J) J
  base_methods = record {
    requires_authentication = true;
    fill_by_token = λ token s. user_filled (fill_by_token s.db token s.user) s;
    refresh_session = λ s. (record s { db = session_refresh s.user.current_session s.db }, none);
    setup = λ req s. (s, none);
    on_head = not_found;
    on_options = not_found;
    on_get = not_found;
    on_post = not_found;
    on_put = not_found;
    on_delete = not_found;
    finish = λ req s. (s, none);
    response = λ s. s.response;
  }

  -- `transcode` is `AP` from the uploaded bytes to the output, or nothing if it throws a text.
  unfoldable pub decode_post : (Bytes → Option Bytes) → HttpRequest → Login J → Exit (Login J)
  decode_post transcode req s = elim req.files [
    | [] ↦ (s, some (http_exception 400 (codes "Must send at least one file to use this endpoint")))
    | file ∷ more ↦ elim (transcode file) [
      | none ↦ (s, some unknown)
      | some output ↦ (record s { response = set_text output s.response }, none)
    ]
  ]

-- What the methods of `auth_handler` are given besides the request.
pub record Chance (J : Type 0) : Type 0 where
  pub parse_json : HttpRequest → J
  pub memory : Memory
  pub token : Bytes
  pub new_token : Bytes
  pub new_id : ℕ
  pub salt : Bytes

module _ {J : Type 0} (json : Json J) (web : Web J) (pbkdf2 : Bytes → Bytes → Option Bytes) where
  abbrev pub auth_methods : Chance J → Handler (Login J) J
  auth_methods c = record base_methods {
    requires_authentication = false;
    on_get = auth_get json web c.new_token;
    on_post = λ req s. auth_post json pbkdf2 c.memory c.token c.new_token (c.parse_json req) s;
    on_put = λ req s.
        auth_put json pbkdf2 c.memory c.token c.new_token c.new_id c.salt (c.parse_json req) s;
  }
