-- ===== src/Handlers/Login.antt =====
-- audio_tool_api/handlers/auth.{h,cpp}: `auth_handler`, which logs a user in with a password or by
-- way of Google, and registers a user. What curl does, and the parser of the JSON library, are
-- parameters.
pub mod Forwarding
pub mod Admission
pub mod Keeping
use audio_tool_api.Prelude.{
  ℕ, Bool, true, false, Option, none, some, List, [], ◌∷◌, ◌++◌, if◌then◌else◌, Bytes, codes,
}
use audio_tool_api.Prelude.Dict.{lookup, emplace}
use audio_tool_api.Request.{HttpRequest, has_param}
use audio_tool_api.Http.Response.{HttpResponse, set_json}
use audio_tool_api.Http.Process.{
  Thrown, http_exception, runtime_error, std_exception, unknown, Exit,
}
use audio_tool_api.Models.{
  Store, User, Memory, fill_by_email, create_session, authenticate, user_create,
}
use audio_tool_api.Escaping.{url_encode, escape_token}
use audio_tool_api.Handlers.{Json}

-- A function that returns a value or throws.
pub data Outcome (A : Type 0) : Type 0 where
  returns : A → Outcome A
  throws : Thrown → Outcome A

-- curl, the configuration, and what `json::parse` makes of a text. The two requests give the body
-- that was received, which is empty where the request failed.
pub record Web (J : Type 0) : Type 0 where
  pub has_token_handle : Bool
  pub has_email_handle : Bool
  pub unescape : Bytes → Bytes
  -- `https://www.googleapis.com/oauth2/v4/token`, with the fields to send.
  pub request_token : Bytes → Bytes
  -- `https://people.googleapis.com/v1/people/me`, with the header to send.
  pub request_people : Bytes → Bytes
  pub google_auth_client_id : Bytes
  pub google_auth_secret : Bytes
  pub parse : Bytes → Option J
  -- The values of an array or an object.
  pub items : J → List J

-- The members of the handler, and the tables.
pub record Login (J : Type 0) : Type 0 where
  pub db : Store
  pub user : User
  pub response : HttpResponse J

abbrev pub location_key : Bytes
location_key = codes "Location"

abbrev pub session_key : Bytes
session_key = codes "session-token"

abbrev pub success_location : Bytes
success_location = codes "https://audiotool.v3x.pw/login/success/"

abbrev pub error_location : Bytes
error_location = codes "https://audiotool.v3x.pw/login/error/badAuth"

module _ {J : Type 0} where
  abbrev pub emplace_header : Bytes → Bytes → Login J → Login J
  emplace_header key value s = record s {
    response = record s.response { headers = emplace key value s.response.headers };
  }

  abbrev pub bad_auth : Login J → Login J
  bad_auth s = emplace_header location_key error_location s

  -- `catch (std::runtime_error e)`, which takes an `http_exception` too.
  abbrev pub caught : Exit (Login J) → Exit (Login J)
  caught (s, none) = (s, none)
  caught (s, some (runtime_error text)) = (bad_auth s, none)
  caught (s, some (http_exception code text)) = (bad_auth s, none)
  caught (s, some (std_exception text)) = (s, some (std_exception text))
  caught (s, some unknown) = (s, some unknown)

  abbrev pub with_status : ℕ → Login J → Login J
  with_status status s = record s { response = record s.response { status = status } }

  abbrev pub forward : Exit (Store × User) → Login J → Exit (Login J)
  forward ((db, user), some thrown) s = (record s { db = db; user = user }, some thrown)
  forward ((db, user), none) s = (
    emplace_header location_key (success_location ++ escape_token user.current_session.token)
        (record s { db = db; user = user }),
    none,
  )

  -- `new_token` is what `create_token` gives.
  abbrev pub log_in : Bytes → Exit User → Login J → Exit (Login J)
  log_in new_token (user, some thrown) s = (record s { user = user }, some thrown)
  log_in new_token (user, none) s = forward (create_session new_token (s.db, user)) s

-- `return nullptr` makes a `std::string` of a null pointer, which is a logic error.
abbrev pub no_email : Outcome Bytes
no_email = throws (std_exception (codes "basic_string: construction from null is not valid"))

module _ {J : Type 0} (json : Json J) (web : Web J) where
  abbrev pub as_string_or_thrown : J → Outcome Bytes
  as_string_or_thrown value = elim (json.as_string value) [
    | none ↦ throws (std_exception (codes "type_error"))
    | some text ↦ returns text
  ]

  abbrev pub parsed : Bytes → (J → Outcome Bytes) → Outcome Bytes
  parsed body more = elim (web.parse body) [
    | none ↦ throws (std_exception (codes "parse_error"))
    | some value ↦ more value
  ]

  abbrev pub token_fields : Bytes → Bytes
  token_fields code =
      codes "code="
      ++ url_encode (web.unescape code)
      ++ codes "&client_id="
      ++ url_encode web.google_auth_client_id
      ++ codes "&client_secret="
      ++ url_encode web.google_auth_secret
      ++ codes "&redirect_uri=https://audiotool.v3x.pw/api/auth"
      ++ codes "&grant_type=authorization_code"

  abbrev pub token_of : J → Outcome Bytes
  token_of j = elim (json.field j (codes "access_token")) [
    | none ↦ throws (runtime_error (codes "Did not receive access token during Google OAuth flow"))
    | some value ↦ as_string_or_thrown value
  ]

  unfoldable pub get_token : Bytes → Outcome Bytes
  get_token code =
      parsed (if web.has_token_handle then web.request_token (token_fields code) else []) token_of

  -- The loop over the addresses.
  unfoldable pub first_email : List J → Outcome Bytes
  first_email [] = no_email
  first_email (el ∷ els) =
      let later = first_email els in
      elim (json.field el (codes "value")) [ none ↦ later | some value ↦ as_string_or_thrown value ]

  abbrev pub email_of : J → Outcome Bytes
  email_of people = elim (json.field people (codes "emailAddresses")) [
    | none ↦ no_email
    | some addresses ↦ first_email (web.items addresses)
  ]

  unfoldable pub get_email : Bytes → Outcome Bytes
  get_email token =
      parsed
        (if web.has_email_handle
          then web.request_people (codes "Authorization: Bearer " ++ token)
          else [])
        email_of

  abbrev pub with_email : Bytes → Outcome Bytes → Login J → Exit (Login J)
  with_email new_token (throws thrown) s = (s, some thrown)
  with_email new_token (returns email) s = log_in new_token (fill_by_email s.db email s.user) s

  abbrev pub with_token : Bytes → Outcome Bytes → Login J → Exit (Login J)
  with_token new_token (throws thrown) s = (s, some thrown)
  with_token new_token (returns token) s = with_email new_token (get_email token) s

  unfoldable pub auth_get : Bytes → HttpRequest → Login J → Exit (Login J)
  unfolding has_param
  auth_get new_token req s =
      let s' = with_status 302 s in
      if has_param req (codes "error")
      then (bad_auth s', none)
      else elim (lookup (codes "code") req.url_params) [
        | none ↦ (bad_auth s', none)
        | some code ↦ caught (with_token new_token (get_token code) s')
      ]

module _ {J : Type 0} (json : Json J) where
  abbrev pub text_field : J → Bytes → Outcome Bytes
  text_field body key = elim (json.field body key) [
    | none ↦ throws (std_exception (codes "type_error"))
    | some value ↦ elim (json.as_string value) [
      | none ↦ throws (std_exception (codes "type_error"))
      | some text ↦ returns text
    ]
  ]

  abbrev pub with_text : Outcome Bytes → Login J → (Bytes → Exit (Login J)) → Exit (Login J)
  with_text (throws thrown) s more = (s, some thrown)
  with_text (returns text) s more = more text

  -- A session is created, and its token and the user are answered.
  abbrev pub answer_session : Exit (Store × User) → Login J → Exit (Login J)
  answer_session ((db, user), some thrown) s = (record s { db = db; user = user }, some thrown)
  answer_session ((db, user), none) s =
      let s' =
        emplace_header session_key user.current_session.token (record s { db = db; user = user }) in
      (record s' { response = set_json (json.of_user user) s'.response }, none)

  abbrev pub admit : Bytes → Exit (Bool × (Store × User)) → Login J → Exit (Login J)
  admit new_token ((b, (db, user)), some thrown) s =
      (record s { db = db; user = user }, some thrown)
  admit new_token ((true, (db, user)), none) s =
      answer_session (create_session new_token (db, user)) s
  admit new_token ((false, (db, user)), none) s =
      (record s { db = db; user = user }, some (http_exception 403 (codes "Authentication Failed")))

  abbrev pub register : Bytes → Exit (Store × User) → Login J → Exit (Login J)
  register new_token ((db, user), some thrown) s = (record s { db = db; user = user }, some thrown)
  register new_token ((db, user), none) s = answer_session (create_session new_token (db, user)) s

  -- `pbkdf2` gives the hash of a password and a salt, or nothing if it fails.
  module _ (pbkdf2 : Bytes → Bytes → Option Bytes) where
    -- `authenticate` makes a session, with the first token, and `post` another, with the second.
    unfoldable pub auth_post : Memory → Bytes → Bytes → J → Login J → Exit (Login J)
    auth_post m token new_token body s = with_text (text_field body (codes "email")) s λ email.
        with_text (text_field body (codes "password")) s
          λ pass. admit new_token (authenticate pbkdf2 m token email pass (s.db, s.user)) s

    unfoldable pub auth_put : Memory → Bytes → Bytes → ℕ → Bytes → J → Login J → Exit (Login J)
    auth_put m token new_token new_id salt body s =
        with_text (text_field body (codes "email")) s λ email.
          with_text (text_field body (codes "password")) s λ pass.
            register new_token (user_create pbkdf2 m token new_id salt email pass (s.db, s.user)) s
