-- ===== src/Http/Process.antt =====
-- audio_tool_api/http/http_worker.cpp: from a request to the reply, `process`, `find_route` and
-- both forms of `build_response`; the routes are those of audio_tool_api/http/routes.h. A handler
-- is a table of its operations on its own state `S`. A reply keeps the calls of boost's `set` in
-- order. Metrics, logs and timers are left out.
pub mod Utf8
pub mod Answers
pub mod Replies
pub mod Guard
pub mod Routing
pub mod Frame
use audio_tool_api.Prelude.{
  ℕ, Bool, true, false, Option, none, some, List, [], ◌∷◌, ◌++◌, ◌&&◌, ltb, if◌then◌else◌, length,
  drop, Bytes, codes,
}
use audio_tool_api.Prelude.Dict.{lookup, starts_with}
use audio_tool_api.Request.{BeastRequest, HttpRequest, http_request}
use audio_tool_api.Http.Response.{HttpResponse, Dumped, text, fails, get_content}

pub data Method : Type 0 where
  head options get post put delete_ other : Method

-- The part of the request that `process` reads besides what http_request does.
pub record Incoming : Type 0 where
  pub request : BeastRequest
  pub method : Method
  pub method_string : Bytes
  pub session_token : Option Bytes

-- What is thrown, by the first `catch` that takes it.
pub data Thrown : Type 0 where
  http_exception : ℕ → Bytes → Thrown
  runtime_error std_exception : Bytes → Thrown
  unknown : Thrown

pub data HandlerName : Type 0 where
  base_handler test_handler auth_handler user_handler file_handler : HandlerName
  file_data_handler file_list_handler project_handler project_list_handler : HandlerName

abbrev pub application_routes : List (Bytes × HandlerName)
application_routes =
    (codes "/", base_handler)
    ∷ (codes "/test", test_handler)
    ∷ (codes "/auth", auth_handler)
    ∷ (codes "/user", user_handler)
    ∷ (codes "/file", file_handler)
    ∷ (codes "/file_data", file_data_handler)
    ∷ (codes "/files", file_list_handler)
    ∷ (codes "/project", project_handler)
    ∷ (codes "/projects", project_list_handler)
    ∷ []

-- The first argument is the configured prefix.
unfoldable pub find_route : Bytes → Bytes → Option HandlerName
unfolding lookup
find_route prefix path =
    lookup
      (if ltb 0 (length prefix) && starts_with prefix path then drop (length prefix) path else path)
      application_routes

-- An operation ends with its state, and what it has thrown.
abbrev pub Exit : Type 0 → Type 0
Exit S = S × Option Thrown

-- The handler's methods, in the order in which `process` may call them.
pub record Handler (S J : Type 0) : Type 0 where
  pub requires_authentication : Bool
  pub fill_by_token : Bytes → S → Exit S
  pub refresh_session : S → Exit S
  pub setup : HttpRequest → S → Exit S
  pub on_head : HttpRequest → S → Exit S
  pub on_options : HttpRequest → S → Exit S
  pub on_get : HttpRequest → S → Exit S
  pub on_post : HttpRequest → S → Exit S
  pub on_put : HttpRequest → S → Exit S
  pub on_delete : HttpRequest → S → Exit S
  pub finish : HttpRequest → S → Exit S
  pub response : S → HttpResponse J

pub record Reply : Type 0 where
  pub status : ℕ
  pub fields : List (Bytes × Bytes)
  pub keep_alive : Bool
  pub body : Bytes

-- `escapes` is an exception that leaves `process`.
pub data Processed : Type 0 where
  replies : Reply → Processed
  escapes : Processed

abbrev pub server_field : Bytes × Bytes
server_field = (codes "Server", codes "Audio Tool API")

abbrev pub reply_with : ℕ → List (Bytes × Bytes) → Dumped → (Bytes → Processed) → Processed
reply_with status fields (text body) caught =
    replies (record { status = status; fields = fields; keep_alive = false; body = body })
reply_with status fields (fails what) caught = caught what

abbrev pub uncaught : Bytes → Processed
uncaught what = escapes

abbrev pub dash : Bytes
dash = 0xe2 ∷ 0x80 ∷ 0x93 ∷ []

abbrev pub please_wait : Bytes
please_wait =
    codes "There was an error processing your request "
    ++ dash
    ++ codes " Please wait and try again: "

abbrev pub unhandled : Bytes
unhandled =
    codes "Unhandled exception caught by the server " ++ dash ++ codes " Please wait and try again"

module _ {J : Type 0} (dump : J → Dumped) (message_json : Bytes → ℕ → J)
    (int_to_status : ℕ → ℕ) where
  -- `build_response` on a status and a text. `caught` is the `catch` around the call, if any.
  abbrev pub build_message : ℕ → Bytes → (Bytes → Processed) → Processed
  build_message status body =
      reply_with status (server_field ∷ (codes "Content-Type", codes "application/json") ∷ [])
        (dump (message_json body status))

  -- `build_response` on what the handler has filled.
  abbrev pub build_response : HttpResponse J → Processed
  build_response r =
      reply_with r.status (server_field ∷ (codes "Content-Type", r.content_type) ∷ r.headers)
        (get_content dump r) (λ what. escapes)

  -- The three `catch` clauses around the handler.
  unfoldable pub catch_clauses : Thrown → Processed
  catch_clauses (http_exception code what) = build_message (int_to_status code) what uncaught
  catch_clauses (runtime_error what) = build_message 500 (please_wait ++ what) uncaught
  catch_clauses (std_exception what) = build_message 500 (please_wait ++ what) uncaught
  catch_clauses unknown = build_message 500 unhandled uncaught

-- The reply, and the handler's state behind it.
abbrev pub Served : Type 0 → Type 0
Served S = Processed × S

abbrev pub with_state : {S : Type 0} → Served S → Served (Option S)
with_state (p, s) = (p, some s)

module _ {S J : Type 0} (dump : J → Dumped) (message_json : Bytes → ℕ → J)
    (int_to_status : ℕ → ℕ) where
  -- In the `try` block: go on, or what was thrown is caught.
  abbrev pub attempt : Exit S → (S → Served S) → Served S
  attempt (s, none) more = more s
  attempt (s, some thrown) more = (catch_clauses dump message_json int_to_status thrown, s)

  module _ (h : Handler S J) (req : Incoming) (req_data : HttpRequest) where
    abbrev pub finished : S → Served S
    finished s =
        attempt (h.finish req_data s)
          (λ s'. (build_response dump message_json int_to_status (h.response s'), s'))

    -- The `switch` on the method.
    unfoldable pub dispatch : Method → S → Served S
    unfolding catch_clauses
    dispatch head s = attempt (h.on_head req_data s) finished
    dispatch options s = attempt (h.on_options req_data s) finished
    dispatch get s = attempt (h.on_get req_data s) finished
    dispatch post s = attempt (h.on_post req_data s) finished
    dispatch put s = attempt (h.on_put req_data s) finished
    dispatch delete_ s = attempt (h.on_delete req_data s) finished
    dispatch other s = (
      build_message dump message_json int_to_status 400
          (codes "Invalid request-method '" ++ req.method_string ++ codes "'\r\n")
          (λ what. catch_clauses dump message_json int_to_status (std_exception what)),
      s,
    )

    unfoldable pub run_handler : S → Served S
    unfolding dispatch
    run_handler s = attempt (h.setup req_data s) (dispatch req.method)

    -- The exceptions that `catch (runtime_error e)` takes are those with a text here.
    abbrev pub as_runtime_error : Thrown → Option Bytes
    as_runtime_error (http_exception code what) = some what
    as_runtime_error (runtime_error what) = some what
    as_runtime_error (std_exception what) = none
    as_runtime_error unknown = none

    abbrev pub refreshed : Exit S → Served S
    refreshed (s, none) = run_handler s
    refreshed (s, some thrown) = elim (as_runtime_error thrown) [
      | some what ↦ run_handler s
      | none ↦ (escapes, s)
    ]

    abbrev pub filled : Exit S → Served S
    filled (s, none) = refreshed (h.refresh_session s)
    filled (s, some thrown) = elim (as_runtime_error thrown) [
      | some what ↦ (
        build_message dump message_json int_to_status 401 (codes "Unauthorized: " ++ what) uncaught,
        s,
      )
      | none ↦ (escapes, s)
    ]

    unfoldable pub authorize : S → Served S
    authorize s =
        if h.requires_authentication
        then elim req.session_token [
          | none ↦
              (build_message dump message_json int_to_status 401 (codes "Unauthorized") uncaught, s)
          | some token ↦ filled (h.fill_by_token token s)
        ]
        else run_handler s

  -- The request's path chooses the handler. `handlers` gives each handler's operations, and
  -- `construct` its constructor's state, or nothing if the constructor throws. What is left of the
  -- state stands behind the reply.
  unfoldable pub process :
      Bytes
      → (HandlerName → Handler S J)
      → (HandlerName → Option S)
      → Bytes
      → Incoming
      → Processed × Option S
  unfolding authorize run_handler find_route http_request
  process prefix handlers construct memory req =
      let req_data = http_request memory req.request in
      elim (find_route prefix req_data.path) [
        | none ↦ (
          build_message dump message_json int_to_status (int_to_status 404)
              (codes "Route not found") uncaught,
          none,
        )
        | some name ↦ elim (construct name) [
          | none ↦ (escapes, none)
          | some s ↦ with_state (authorize (handlers name) req req_data s)
        ]
      ]
