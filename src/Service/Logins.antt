-- ===== src/Service/Logins.antt =====
-- From the request of a login to the replies for its token.
use audio_tool_api.Prelude.{
  ℕ, ◌+◌, ◌≡◌, refl, ap, ◌∙◌, Bool, true, false, ◌&&◌, none, some, [], ◌∷◌, ◌++◌, length, ltb,
  if◌then◌else◌, Bytes, codes, ◌==◌,
}
use audio_tool_api.Prelude.Dict.{find_bytes, lookup, assign, emplace}
use audio_tool_api.Request.{http_request}
use audio_tool_api.Http.Response.{HttpResponse, text, set_json}
use audio_tool_api.Http.Process.{
  get, post, Incoming, runtime_error, std_exception, auth_handler, user_handler, find_route, Exit,
  Processed, replies, server_field, with_state, build_response, build_message, uncaught,
}
use audio_tool_api.Models.{
  Store, Session, User, UserRow, first, has_token, session_length, fill_by_token, create_session,
  authenticate, fails_with,
}
use audio_tool_api.Models.Sessions.{session_create-row, create_session-fill_by_token}
use audio_tool_api.Handlers.{user_get}
use audio_tool_api.Handlers.Base.{base_response}
use audio_tool_api.Handlers.Login.{
  Login, returns, session_key, text_field, answer_session, auth_post,
}
use audio_tool_api.Service.{
  Tables, Page, World, at_time, handlers, page, serve, parse_json, with_json, login, from_login,
  tables_left,
}
use audio_tool_api.Service.Entry.{
  entered, serve-ran, run_handler-get, run_handler-post, serve-open, serve-refused,
}

module _ {J : Type 0} (w : World J) where
  -- A post to `/auth` with an email and a password that `authenticate` accepts; it leaves `db` and
  -- `u`.
  pub record IsLogin (req : Incoming) (t : Tables) (db : Store) (u : User) : Type 0 where
    pub value : J
    pub email : Bytes
    pub pass : Bytes
    pub routed : find_route w.prefix (http_request w.memory req.request).path ≡ some auth_handler
    pub posts : req.method ≡ post
    pub parses :
        parse_json w (http_request w.memory req.request) (page w req t auth_handler)
        ≡ (record (page w req t auth_handler) { json = value }, none)
    pub has_email : text_field w.library value (codes "email") ≡ returns email
    pub has_pass : text_field w.library value (codes "password") ≡ returns pass
    pub accepted :
        authenticate w.pbkdf2 w.arrays w.token email pass (t.store, w.user)
        ≡ ((true, (db, u)), none)

  -- The user when the session has been made.
  abbrev pub logged_in : Store → User → User
  logged_in db u = record u {
    current_session = record {
      token = w.new_token;
      expires = db.now + session_length;
      created = db.now;
      user_id = u.id;
    };
  }

  -- What is written for a response with that body.
  abbrev pub brings : HttpResponse J → Bytes → Processed
  brings r body = replies (record {
    status = r.status;
    fields = server_field ∷ (codes "Content-Type", r.content_type) ∷ r.headers;
    keep_alive = false;
    body = body;
  })

  -- The response that brings the token, and the one that brings the user.
  abbrev pub token_response : Store → User → HttpResponse J
  token_response db u =
      set_json (w.library.of_user (logged_in db u)) (record (base_response w.null) {
        headers = (base_response w.null).headers ++ (session_key, w.new_token) ∷ [];
      })

  abbrev pub user_response : User → HttpResponse J
  user_response u =
      set_json (w.library.output_and_status (w.library.of_user u) 200) (base_response w.null)

  abbrev pub token_reply : Store → User → Processed
  token_reply db u = build_response w.dump w.message_json w.int_to_status (token_response db u)

  abbrev pub user_reply : User → Processed
  user_reply u = build_response w.dump w.message_json w.int_to_status (user_response u)

  abbrev pub no_user : Bytes
  no_user = codes "Unauthorized: No user by that token"

  -- What is written for a token that finds no user.
  abbrev pub refuses : Bytes → Processed
  refuses body = replies (record {
    status = 401;
    fields = server_field ∷ (codes "Content-Type", codes "application/json") ∷ [];
    keep_alive = false;
    body = body;
  })

  auth_post-answers :
      (value : J) (email pass : Bytes) (s : Login J) (db : Store) (u : User)
      → text_field w.library value (codes "email") ≡ returns email
      → text_field w.library value (codes "password") ≡ returns pass
      → authenticate w.pbkdf2 w.arrays w.token email pass (s.db, s.user) ≡ ((true, (db, u)), none)
      → auth_post w.library w.pbkdf2 w.arrays w.token w.new_token value s
        ≡ answer_session w.library (create_session w.new_token (db, u)) s
  unfolding auth_post
  auth_post-answers value email pass s db u x y a = rw (x, y, a, auth_post) refl

  serve-login :
      (req : Incoming) (t : Tables) (db : Store) (u : User)
      → IsLogin req t db u
      → first (has_token w.new_token) db.sessions ≡ none
      → serve w req t
        ≡ (token_reply db u, record t { store = (create_session w.new_token (db, u)).0.0 })
  unfolding create_session emplace lookup assign
  serve-login req t db u h n =
      let p : Page J = page w req t auth_handler in
      let p' : Page J = record p { json = h.value } in
      let row = session_create-row db u.current_session w.new_token u.id n in
      let made : create_session w.new_token (db, u)
          ≡ (((create_session w.new_token (db, u)).0.0, logged_in db u), none) =
        ap
          (λ (x : Exit (Store × Session)).
            (((create_session w.new_token (db, u)).0.0, record u { current_session = x.0.1 }), x.1))
          row in
      let posted : with_json w (auth_post w.library w.pbkdf2 w.arrays w.token w.new_token)
            (parse_json w (http_request w.memory req.request) p)
          ≡ from_login p' (
              answer_session w.library
                (((create_session w.new_token (db, u)).0.0, logged_in db u), none) (login p')) =
        ap (with_json w (auth_post w.library w.pbkdf2 w.arrays w.token w.new_token)) h.parses
        ∙ ap (from_login p') (
            auth_post-answers h.value h.email h.pass (login p') db u h.has_email h.has_pass
              h.accepted
            ∙ ap (λ x. answer_session w.library x (login p')) made) in
      serve-open w auth_handler req t h.routed refl
      ∙ ap (λ x. tables_left t (with_state x))
          (run_handler-post w.dump w.message_json w.int_to_status (handlers w auth_handler) req
            (http_request w.memory req.request) p p _ refl h.posts posted)

  -- A request for `/user` with that token.
  pub record AsksUser (req : Incoming) : Type 0 where
    pub routed : find_route w.prefix (http_request w.memory req.request).path ≡ some user_handler
    pub gets : req.method ≡ get
    pub has_token : req.session_token ≡ some w.new_token
    pub no_body : req.request.body ≡ []

  serve-user :
      (req : Incoming) (t : Tables) (u : User)
      → AsksUser req
      → fill_by_token t.store w.new_token w.user ≡ (u, none)
      → (serve w req t).0 ≡ user_reply u
  unfolding user_get parse_json
  serve-user req t u a f =
      let p : Page J = entered w (page w req t user_handler) u in
      let ready : parse_json w (http_request w.memory req.request) p ≡ (p, none) =
        ap
          (λ body.
            if ltb 0 (length body)
              && elim (find_bytes (codes "json") (http_request w.memory req.request).content_type) [
                | none ↦ false
                | some _ ↦ true
              ]
            then elim (w.parse p.request.body) [
              | none ↦ (p, some (std_exception (codes "parse_error")))
              | some value ↦ (record p { json = value }, none)
            ]
            else (p, none))
          a.no_body in
      ap (λ x. x.0)
        (serve-ran w user_handler req t u w.new_token a.routed refl refl refl a.has_token f)
      ∙ ap (λ x. x.0)
          (run_handler-get w.dump w.message_json w.int_to_status (handlers w user_handler) req
            (http_request w.memory req.request) p p
            (record p { response_data = w.library.of_user u }) ready a.gets refl)

  serve_user_refused :
      (req : Incoming) (t : Tables) (u : User) (what : Bytes)
      → AsksUser req
      → fill_by_token t.store w.new_token w.user ≡ (u, some (runtime_error what))
      → (serve w req t).0
        ≡ build_message w.dump w.message_json w.int_to_status 401
            (codes "Unauthorized: " ++ what)
            uncaught
  serve_user_refused req t u what a f =
      serve-refused w user_handler req t u w.new_token what a.routed refl refl a.has_token f

  -- The user, or the refusal, when the JSON library writes both.
  serve_user_if :
      (b : Bool) (req : Incoming) (t : Tables) (u v : User) (shown refusal : Bytes)
      → AsksUser req
      → fill_by_token t.store w.new_token w.user
        ≡ (if b then (u, none) else fails_with "No user by that token" v)
      → w.dump (w.library.output_and_status (w.library.of_user u) 200) ≡ text shown
      → w.dump (w.message_json no_user 401) ≡ text refusal
      → (serve w req t).0 ≡ (if b then brings (user_response u) shown else refuses refusal)
  serve_user_if true req t u v shown refusal a f x y = serve-user req t u a f ∙ rw x refl
  serve_user_if false req t u v shown refusal a f x y =
      serve_user_refused req t v (codes "No user by that token") a f ∙ rw y refl

  -- If a post to `/auth` has an email and a password that `authenticate` accepts, with a new token
  -- that no session has and a user of the table, and the JSON library writes the user, then the post
  -- is replied to with the status 200, the token in the header `session-token` and the user; and if
  -- it also writes the user that is answered and the text of the refusal, the next request, for
  -- `/user` with that token and without a body, is replied to with that user if it comes within an
  -- hour after the login, and with 401 if it comes later.
  pub serve_login-user :
      (req next : Incoming) (t : Tables) (db : Store) (u : User) (owner : UserRow) (now : ℕ)
      (made shown refusal : Bytes)
      → IsLogin req t db u
      → AsksUser next
      → first (has_token w.new_token) db.sessions ≡ none
      → first (λ r. r.id == u.id) db.users ≡ some owner
      → let found : User = record (logged_in db u) { email_address = owner.email } in
        w.dump (w.library.of_user (logged_in db u)) ≡ text made
        → w.dump (w.library.output_and_status (w.library.of_user found) 200) ≡ text shown
        → w.dump (w.message_json no_user 401) ≡ text refusal
        → let posted = serve w req t in
          (posted.0 ≡ brings (token_response db u) made)
          × ((serve w next (at_time now posted.1)).0 ≡ (
              if ltb now (db.now + session_length)
              then brings (user_response found) shown
              else refuses refusal))
  serve_login-user req next t db u owner now made shown refusal h a n o x y z =
      let posted = serve-login req t db u h n in
      let found = create_session-fill_by_token db u w.user w.new_token owner now n o in
      let later : Tables = record t {
        store = record (create_session w.new_token (db, u)).0.0 { now = now };
      } in
      let answered =
        serve_user_if (ltb now (db.now + session_length)) next later
          (record (logged_in db u) { email_address = owner.email }) w.user shown refusal a found.1 y
          z in
      (
        ap (λ r. r.0) posted ∙ rw x refl,
        ap (λ r. (serve w next (at_time now r.1)).0) posted ∙ answered,
      )
