-- ===== src/Tests/Service.antt =====
-- The whole service: an upload and a download, a login and its token, with texts for JSON values.
use audio_tool_api.Prelude.{
  Bool, ◌≡◌, refl, false, none, some, [], ◌∷◌, ◌++◌, Bytes, codes, Option, replicate,
}
use audio_tool_api.Prelude.Dict.{assign, emplace, lookup, find_bytes}
use audio_tool_api.Request.{http_request, request_files, content_type_of, parse_target}
use audio_tool_api.Http.Response.{text}
use audio_tool_api.Http.Process.{
  process, authorize, run_handler, dispatch, Exit, Method, get, post, put, Incoming, find_route,
}
use audio_tool_api.Models.{
  Store, authenticate, create_session, session_create, session_refresh, user_create, User, first,
  fill_by_token, fill_by_id,
}
use audio_tool_api.Models.Sessions.{row_of}
use audio_tool_api.Content.{file_create}
use audio_tool_api.Handlers.{file_post}
use audio_tool_api.Handlers.Login.{auth_put}
use audio_tool_api.Tests.Login.{texts, google, memory, hashed, login}
use audio_tool_api.Service.{Tables, World, Turn, parse_json, serve, serve_all, at_time}
use audio_tool_api.Service.Downloads.{IsUpload, IsDownload, octets, serve_upload-download}
use audio_tool_api.Service.Logins.{
  IsLogin, AsksUser, logged_in, brings, token_response, user_response, serve_login-user,
}
use audio_tool_api.Service.Growth.{Grown}
use audio_tool_api.Service.Growth.Turns.{serve_all-Grown}
use audio_tool_api.Service.Strangers.{SameContent, serve-SameContent}

abbrev world : World Bytes
world = record {
  dump = text;
  message_json = λ body status. body;
  int_to_status = λ code. code;
  prefix = codes "/api";
  library = texts;
  parse = λ body. some body;
  null = [];
  named = λ key value. value;
  web = google;
  pbkdf2 = hashed;
  transcode = λ input. some (input ++ input, 44100);
  memory = replicate 20 0;
  arrays = memory;
  user = login.user;
  project = record {
    id = 0;
    guid = [];
    creator_id = 0;
    name = [];
    project_data = [];
    is_deleted = false;
  };
  model = λ name. [];
  token = codes "t";
  new_token = codes "t2";
  new_id = 9;
  salt = replicate 128 1;
  random = 1 ∷ 2 ∷ [];
  fresh = record { id = 9; guid = codes "g9"; is_deleted = false };
}

abbrev incoming : Bytes → Option Bytes → Bytes → Method → Option Bytes → Incoming
incoming target content_type body method token = record {
  request = record { target = target; fields = []; content_type = content_type; body = body };
  method = method;
  method_string = [];
  session_token = token;
}

abbrev up : Incoming
up =
    incoming (codes "/api/file?name=song") (some (codes "multipart/form-data; boundary=XY"))
      (codes "--XY\r\n\r\nab\r\n--XY--\r\n") post (some (codes "tk"))

abbrev down : Incoming
down = incoming (codes "/api/file_data?guid=g9") none [] get (some (codes "tk"))

abbrev tables : Tables
tables = record {
  store = record login.db { sessions = row_of (codes "tk") 8 1000 4600 ∷ [] };
  files = [];
  projects = [];
}

abbrev dora : User
dora = record {
  id = 8;
  email_address = codes "value";
  current_session = record { token = codes "tk"; expires = 4600; created = 1000; user_id = 8 };
}

up-IsUpload : IsUpload world up tables dora (codes "abab")
unfolding http_request request_files lookup find_route find_bytes parse_target content_type_of
    fill_by_token first fill_by_id
up-IsUpload = record {
  token = codes "tk";
  name = codes "song";
  file = codes "ab";
  more = [];
  rate = 44100;
  routed = refl;
  posts = refl;
  has_token = refl;
  finds_user = refl;
  not_json = refl;
  has_name = refl;
  has_file = refl;
  accepted = refl;
}

-- In between, somebody registers.
abbrev registration : Turn Bytes
registration = record {
  world = world;
  request = incoming (codes "/api/auth") none [] put none;
  now = 1500;
}

abbrev left : Tables
left = at_time 2000 (serve_all (registration ∷ []) (serve world up tables).1)

down-IsDownload : IsDownload world down left.store (codes "g9")
unfolding http_request request_files lookup find_route find_bytes parse_target content_type_of
    fill_by_token first fill_by_id serve serve_all process authorize run_handler dispatch auth_put
    user_create authenticate create_session session_create session_refresh file_post file_create
    parse_json assign emplace
down-IsDownload = record {
  token = codes "tk";
  user = record dora { current_session = record dora.current_session { expires = 4600 } };
  routed = refl;
  gets = refl;
  has_token = refl;
  finds_user = refl;
  has_guid = refl;
}

serve_upload-download_example : (serve world down left).0 ≡ octets world (codes "abab")
unfolding first
serve_upload-download_example =
    serve_upload-download world world up down tables dora (codes "abab") (registration ∷ []) 2000
      up-IsUpload refl refl down-IsDownload

serve_all-Grown_example : Grown tables (serve_all (registration ∷ []) tables)
serve_all-Grown_example = serve_all-Grown (registration ∷ []) tables

-- A stranger's upload.
serve-SameContent_example :
    SameContent tables (serve world (record up { session_token = some (codes "none") }) tables).1
unfolding fill_by_token first
serve-SameContent_example =
    serve-SameContent world tables (record up { session_token = some (codes "none") }) refl

abbrev known : Tables
known = record tables {
  store = record tables.store {
    users = record { id = 8; email = codes "email"; hash = 3 ∷ 0 ∷ []; nacl = [] } ∷ [];
  };
}

abbrev log_in : Incoming
log_in = incoming (codes "/api/auth") none [] post none

abbrev me : Incoming
me = incoming (codes "/api/user") none [] get (some (codes "t2"))

abbrev authenticated : Exit (Bool × (Store × User))
authenticated =
    authenticate hashed memory (codes "t") (codes "email") (codes "password")
      (known.store, login.user)

log_in-IsLogin : IsLogin world log_in known authenticated.0.1.0 authenticated.0.1.1
unfolding http_request request_files lookup find_route find_bytes parse_target content_type_of first
    fill_by_id authenticate create_session session_create parse_json
log_in-IsLogin = record {
  value = [];
  email = codes "email";
  pass = codes "password";
  routed = refl;
  posts = refl;
  parses = refl;
  has_email = refl;
  has_pass = refl;
  accepted = refl;
}

me-AsksUser : AsksUser world me
unfolding http_request request_files lookup find_route find_bytes parse_target content_type_of
me-AsksUser = record { routed = refl; gets = refl; has_token = refl; no_body = refl }

serve_login-user_example :
    let posted = serve world log_in known in
    let signed_in = logged_in world authenticated.0.1.0 authenticated.0.1.1 in
    (posted.0
      ≡ brings world
          (token_response world authenticated.0.1.0 authenticated.0.1.1)
          (texts.of_user signed_in))
    × ((serve world me (at_time 4599 posted.1)).0
        ≡ brings world (user_response world (record signed_in { email_address = codes "email" })) (
            texts.output_and_status
              (texts.of_user (record signed_in { email_address = codes "email" }))
              200))
unfolding first fill_by_id authenticate create_session session_create
serve_login-user_example =
    serve_login-user world log_in me known authenticated.0.1.0 authenticated.0.1.1
      (record { id = 8; email = codes "email"; hash = 3 ∷ 0 ∷ []; nacl = [] }) 4599 _ _ _
      log_in-IsLogin me-AsksUser refl refl refl refl refl
