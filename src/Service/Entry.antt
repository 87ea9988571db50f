-- ===== src/Service/Entry.antt =====
-- A request that `process` lets in.
use audio_tool_api.Prelude.{
  ℕ, ◌≡◌, refl, ap, ◌∙◌, ◌++◌, codes, Bool, true, false, if◌then◌else◌, Option, none, some, Bytes,
}
use audio_tool_api.Request.{HttpRequest, http_request}
use audio_tool_api.Http.Response.{Dumped}
use audio_tool_api.Http.Process.{
  Served, Method, Incoming, HandlerName, find_route, Exit, Handler, Processed, with_state,
  build_message, uncaught, runtime_error, run_handler, get, post, attempt, dispatch, finished,
  refreshed, filled, authorize, process,
}
use audio_tool_api.Models.{User, fill_by_token, session_refresh}
use audio_tool_api.Service.{Tables, Page, World, base_page, handlers, page, serve, tables_left}

with_token :
    {A : Type 0} (b : Bool) (o : Option Bytes) (token : Bytes) (refused open_to_all : A)
    (let_in : Bytes → A)
    → b ≡ true
    → o ≡ some token
    → (if b then elim o [ none ↦ refused | some t ↦ let_in t ] else open_to_all) ≡ let_in token
with_token b o token refused open_to_all let_in e k = rw (e, k) refl

without_token :
    {A : Type 0} (b : Bool) (guarded open_to_all : A)
    → b ≡ false
    → (if b then guarded else open_to_all) ≡ open_to_all
without_token b guarded open_to_all e = rw e refl

module _ {S J : Type 0} (dump : J → Dumped) (message_json : Bytes → ℕ → J)
    (int_to_status : ℕ → ℕ) where
  -- A token finds a user and its session can be refreshed, so the handler runs.
  pub authorize-run_handler :
      (h : Handler S J) (req : Incoming) (req_data : HttpRequest) (token : Bytes) (s s' s'' : S)
      → h.requires_authentication ≡ true
      → req.session_token ≡ some token
      → h.fill_by_token token s ≡ (s', none)
      → h.refresh_session s' ≡ (s'', none)
      → authorize dump message_json int_to_status h req req_data s
        ≡ run_handler dump message_json int_to_status h req req_data s''
  unfolding authorize
  authorize-run_handler h req req_data token s s' s'' a t f r =
      with_token h.requires_authentication req.session_token token _ _ _ a t
      ∙ ap (filled dump message_json int_to_status h req req_data) f
      ∙ ap (refreshed dump message_json int_to_status h req req_data) r

  module _ (h : Handler S J) (req : Incoming) (req_data : HttpRequest) (s s' s'' : S)
      (ready : h.setup req_data s ≡ (s', none)) where
    at_method :
        (m : Method)
        → req.method ≡ m
        → run_handler dump message_json int_to_status h req req_data s
          ≡ dispatch dump message_json int_to_status h req req_data m s'
    unfolding run_handler
    at_method m e =
        ap
          (λ x.
            attempt dump message_json int_to_status x
              (dispatch dump message_json int_to_status h req req_data req.method))
          ready
        ∙ ap (λ x. dispatch dump message_json int_to_status h req req_data x s') e

    abbrev then_finished : Exit S → Served S
    then_finished x =
        attempt dump message_json int_to_status x
          (finished dump message_json int_to_status h req req_data)

    -- The method runs without an exception, so the handler finishes.
    pub run_handler-get :
        req.method ≡ get
        → h.on_get req_data s' ≡ (s'', none)
        → run_handler dump message_json int_to_status h req req_data s
          ≡ finished dump message_json int_to_status h req req_data s''
    unfolding dispatch
    run_handler-get m e = at_method get m ∙ ap then_finished e

    pub run_handler-post :
        req.method ≡ post
        → h.on_post req_data s' ≡ (s'', none)
        → run_handler dump message_json int_to_status h req req_data s
          ≡ finished dump message_json int_to_status h req req_data s''
    unfolding dispatch
    run_handler-post m e = at_method post m ∙ ap then_finished e

module _ {J : Type 0} (w : World J) where
  -- The page when the user of the token is there and the session has been refreshed.
  abbrev pub entered : Page J → User → Page J
  entered p u = record p {
    tables = record p.tables { store = session_refresh u.current_session p.tables.store };
    user = u;
  }

  -- What a request that is let in leaves.
  abbrev pub ran : Handler (Page J) J → Incoming → Tables → Page J → Processed × Tables
  ran h req t p = tables_left t (
      with_state (
        run_handler w.dump w.message_json w.int_to_status h req (http_request w.memory req.request)
          p))

  -- A request whose handler asks for a user, with a token that finds one: the session is refreshed
  -- and the handler runs.
  pub serve-ran :
      (name : HandlerName) (req : Incoming) (t : Tables) (u : User) (token : Bytes)
      → find_route w.prefix (http_request w.memory req.request).path ≡ some name
      → (handlers w name).requires_authentication ≡ true
      → (handlers w name).fill_by_token token (page w req t name)
        ≡ base_page.fill_by_token token (page w req t name)
      → (handlers w name).refresh_session (record (page w req t name) { user = u })
        ≡ base_page.refresh_session (record (page w req t name) { user = u })
      → req.session_token ≡ some token
      → fill_by_token t.store token w.user ≡ (u, none)
      → serve w req t ≡ ran (handlers w name) req t (entered (page w req t name) u)
  unfolding serve process
  serve-ran name req t u token r a b c k f =
      let opened : Page J = page w req t name in
      let parsed : HttpRequest = http_request w.memory req.request in
      let whole : process w.dump w.message_json w.int_to_status w.prefix (handlers w)
            (λ n. some (page w req t n)) w.memory req
          ≡ with_state (
              run_handler w.dump w.message_json w.int_to_status (handlers w name) req parsed
                (entered opened u)) =
        rw (r, process)
          (ap with_state (
            authorize-run_handler w.dump w.message_json w.int_to_status (handlers w name) req parsed
              token opened (record opened { user = u }) (entered opened u) a k
              (b ∙ ap (λ (x : Exit User). (record opened { user = x.0 }, x.1)) f) c)) in
      ap (tables_left t) whole

  -- A request whose handler asks for nobody.
  pub serve-open :
      (name : HandlerName) (req : Incoming) (t : Tables)
      → find_route w.prefix (http_request w.memory req.request).path ≡ some name
      → (handlers w name).requires_authentication ≡ false
      → serve w req t ≡ ran (handlers w name) req t (page w req t name)
  unfolding serve process authorize
  serve-open name req t r a =
      let whole : process w.dump w.message_json w.int_to_status w.prefix (handlers w)
            (λ n. some (page w req t n)) w.memory req
          ≡ with_state (
              run_handler w.dump w.message_json w.int_to_status (handlers w name) req
                (http_request w.memory req.request) (page w req t name)) =
        rw (r, process)
          (ap with_state (without_token (handlers w name).requires_authentication _ _ a)) in
      ap (tables_left t) whole

  -- A request whose handler asks for a user, with a token that finds none.
  pub serve-refused :
      (name : HandlerName) (req : Incoming) (t : Tables) (u : User) (token what : Bytes)
      → find_route w.prefix (http_request w.memory req.request).path ≡ some name
      → (handlers w name).requires_authentication ≡ true
      → (handlers w name).fill_by_token token (page w req t name)
        ≡ base_page.fill_by_token token (page w req t name)
      → req.session_token ≡ some token
      → fill_by_token t.store token w.user ≡ (u, some (runtime_error what))
      → (serve w req t).0
        ≡ build_message w.dump w.message_json w.int_to_status 401
            (codes "Unauthorized: " ++ what)
            uncaught
  unfolding serve process authorize
  serve-refused name req t u token what r a b k f =
      let opened : Page J = page w req t name in
      let parsed : HttpRequest = http_request w.memory req.request in
      let whole : process w.dump w.message_json w.int_to_status w.prefix (handlers w)
            (λ n. some (page w req t n)) w.memory req
          ≡ with_state (
              filled w.dump w.message_json w.int_to_status (handlers w name) req parsed
                (record opened { user = u }, some (runtime_error what))) =
        rw (r, process)
          (ap with_state (
            with_token (handlers w name).requires_authentication req.session_token token _ _ _ a k
            ∙ ap (filled w.dump w.message_json w.int_to_status (handlers w name) req parsed)
                (b ∙ ap (λ (x : Exit User). (record opened { user = x.0 }, x.1)) f))) in
      ap (λ x. (tables_left t x).0) whole
