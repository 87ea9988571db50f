-- ===== src/Tests/Login.antt =====
-- Logins of audio_tool_api/handlers/auth.cpp, with texts for JSON values.
use audio_tool_api.Prelude.{
  ◌+◌, ◌≡◌, refl, true, false, none, some, [], ◌∷◌, ◌++◌, Bytes, bytes_eq, codes, Option, replicate,
  if◌then◌else◌,
}
use audio_tool_api.Prelude.Dict.{lookup}
use audio_tool_api.Request.{HttpRequest, has_param}
use audio_tool_api.Http.Process.{Exit}
use audio_tool_api.Models.{
  User, UserRow, Memory, first, session_length, create_session, session_create, fill_by_token,
  fill_by_id, authenticate, user_create,
}
use audio_tool_api.Models.Sessions.{outcome, row_of}
use audio_tool_api.Handlers.{Json}
use audio_tool_api.Escaping.{escape_token}
use audio_tool_api.Handlers.Login.{
  Web, Login, get_token, get_email, first_email, auth_get, auth_post, auth_put, success_location,
}
use audio_tool_api.Handlers.Login.Forwarding.{
  IsForwarded, location, auth_get-IsForwarded, auth_get-fill_by_token,
}
use audio_tool_api.Handlers.Login.Admission.{
  Accepted, Answered, auth_post-Accepted, auth_put-auth_post,
}

-- An object in which every key but one has itself for its value.
abbrev texts_without : Bytes → Json Bytes
texts_without absent = record {
  field = λ object key. if bytes_eq key absent then none else some key;
  as_string = λ value. some value;
  as_int = λ value. some 5;
  of_file = λ f. f.guid;
  of_files = λ fs. [];
  of_project = λ p. p.name;
  of_projects = λ ps. [];
  of_user = λ u. u.email_address;
  output_and_status = λ output status. output;
}

abbrev pub texts : Json Bytes
texts = texts_without []

abbrev pub google : Web Bytes
google = record {
  has_token_handle = true;
  has_email_handle = true;
  unescape = λ code. code;
  request_token = λ fields. codes "{}";
  request_people = λ header. codes "{}";
  google_auth_client_id = codes "id";
  google_auth_secret = codes "secret";
  parse = λ text. some text;
  items = λ value. codes "0" ∷ [];
}

abbrev with_code : HttpRequest
with_code = record {
  path = codes "/auth";
  content_type = [];
  url_params = (codes "code", codes "4/x") ∷ [];
  headers = [];
  files = [];
}

abbrev nobody : User
nobody = record {
  id = 0;
  email_address = [];
  current_session = record { token = []; expires = 0; created = 0; user_id = 0 };
}

abbrev dora : UserRow
dora = record { id = 8; email = codes "value"; hash = []; nacl = [] }

abbrev pub login : Login Bytes
login = record {
  db = record { users = dora ∷ []; sessions = []; now = 1000 };
  user = nobody;
  response = record {
    headers = (codes "Access-Control-Allow-Origin", codes "*") ∷ [];
    status = 200;
    content_type = codes "application/json";
    use_json_body = false;
    json_content = [];
    body_content = [];
  };
}

auth_get-IsForwarded_example : IsForwarded (auth_get texts google (codes "a+b=") with_code login)
unfolding lookup
auth_get-IsForwarded_example = auth_get-IsForwarded texts google (codes "a+b=") with_code login refl

auth_get-fill_by_token_example :
    let got = auth_get texts google (codes "a+b=") with_code login in
    (got.1 ≡ none)
    × (location got.0 ≡ some (success_location ++ escape_token (codes "a+b=")))
    × (fill_by_token (record got.0.db { now = 4599 }) (codes "a+b=") nobody
        ≡ outcome
            (codes "a+b=")
            (row_of (codes "a+b=") 8 1000 (1000 + session_length))
            dora
            4599
            nobody)
unfolding lookup has_param get_token get_email first_email first
auth_get-fill_by_token_example =
    auth_get-fill_by_token texts google (codes "a+b=") (codes "4/x") (codes "access_token")
      with_code login dora 4599 nobody refl refl refl refl refl refl refl refl

abbrev pub memory : Memory
memory = record {
  stale_hash = [];
  stale_salt = replicate 128 0;
  behind_hash = 1 ∷ 0 ∷ [];
  behind_test = 0 ∷ [];
}

abbrev pub hashed : Bytes → Bytes → Option Bytes
hashed pass salt = some (3 ∷ 0 ∷ replicate 126 4)

-- The store has a user with this email.
abbrev known : Login Bytes
known = record login {
  db = record login.db {
    users = record { id = 8; email = codes "email"; hash = 3 ∷ 0 ∷ []; nacl = [] } ∷ [];
  };
}

auth_post-Accepted_example :
    Accepted texts hashed memory (codes "t") [] known
    × Answered texts hashed (auth_post texts hashed memory (codes "t") (codes "t2") [] known).0
unfolding lookup first auth_post authenticate fill_by_id create_session session_create
auth_post-Accepted_example =
    auth_post-Accepted texts hashed memory (codes "t") (codes "t2") [] known refl refl

abbrev registered : Exit (Login Bytes)
registered = auth_put texts hashed memory (codes "t") (codes "t2") 9 (replicate 128 1) [] login

abbrev later : Login Bytes
later = record login { db = record registered.0.db { sessions = [] } }

auth_put-auth_post_example :
    (registered.1 ≡ none)
    × ((auth_post texts hashed memory (codes "t3") (codes "t4") [] later).1 ≡ none)
unfolding lookup first auth_put auth_post authenticate user_create fill_by_id create_session
    session_create
auth_put-auth_post_example =
    auth_put-auth_post texts hashed memory memory (codes "t") (codes "t2") (codes "t3") (codes "t4")
      9 (replicate 128 1) (codes "email") (codes "password") [] login later [] (3 ∷ [])
      (replicate 126 4) refl refl refl refl refl refl refl (refl, tt) refl refl refl refl refl
