-- ===== src/Tests/Dispatching.antt =====
-- From a request to the reply of audio_tool_api/handlers/base_handler.cpp and auth.cpp.
use audio_tool_api.Prelude.{arith, ◌≡◌, refl, none, some, [], ◌∷◌, Bytes, codes, Option, replicate}
use audio_tool_api.Prelude.Dict.{lookup}
use audio_tool_api.Request.{http_request, parse_target, url_loop}
use audio_tool_api.Http.Process.{
  Method, delete_, Incoming, HandlerName, auth_handler, Handler, process, find_route,
}
use audio_tool_api.Http.Response.{text}
use audio_tool_api.Handlers.Base.{Chance, auth_methods, base_methods, base_response}
use audio_tool_api.Handlers.Base.Dispatching.{not_found_reply, process-not_found}
use audio_tool_api.Models.{first, fill_by_token, fill_by_id}
use audio_tool_api.Models.Sessions.{row_of}
use audio_tool_api.Handlers.Login.{Login}
use audio_tool_api.Tests.Login.{texts, google, login, memory, hashed}

abbrev incoming : Bytes → Method → Option Bytes → Incoming
incoming target method token = record {
  request = record { target = target; fields = []; content_type = none; body = [] };
  method = method;
  method_string = [];
  session_token = token;
}

abbrev chance : Chance Bytes
chance = record {
  parse_json = λ req. [];
  memory = memory;
  token = codes "t";
  new_token = codes "t2";
  new_id = 9;
  salt = replicate 128 1;
}

abbrev methods : HandlerName → Handler (Login Bytes) Bytes
methods auth_handler = auth_methods texts google hashed chance
methods _ = base_methods

abbrev welcome : Login Bytes
welcome = record login {
  db = record login.db { sessions = row_of (codes "tk") 8 1000 4600 ∷ [] };
  response = base_response [];
}

process-not_found_example :
    (process text
      (λ body status. body)
      (λ code. code)
      (codes "/api")
      methods
      (λ name. some welcome)
      []
      (incoming (codes "/api/?x=1") delete_ (some (codes "tk")))).0
    ≡ not_found_reply {J = Bytes} (base_response [])
unfolding find_route lookup http_request parse_target url_loop fill_by_token first fill_by_id
process-not_found_example =
    process-not_found text (λ body status. body) (λ code. code) (codes "/api") methods
      (λ name. some welcome) [] (codes "tk")
      (incoming (codes "/api/?x=1") delete_ (some (codes "tk"))) welcome refl refl refl refl refl
      (ground arith)
