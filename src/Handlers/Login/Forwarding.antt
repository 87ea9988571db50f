-- ===== src/Handlers/Login/Forwarding.antt =====
-- Where `auth_handler::get` forwards to.
use audio_tool_api.Prelude.{
  ℕ, ◌+◌, ◌≡◌, refl, sym, ap, ◌∙◌, true, false, Option, none, some, Option-cases, Bool-cases, inl,
  inr, ◌⊎◌, ◌++◌, Bytes, codes, bytes_eq, ◌==◌, arith,
}
use audio_tool_api.Prelude.Dict.{lookup, lookup-emplace_new}
use audio_tool_api.Request.{HttpRequest, has_param}
use audio_tool_api.Http.Process.{
  Thrown, http_exception, runtime_error, std_exception, unknown, Exit,
}
use audio_tool_api.Models.{
  Store, Session, User, UserRow, first, has_token, fill_by_email, fill_by_token, create_session,
  session_length,
}
use audio_tool_api.Models.Sessions.{
  outcome, row_of, create_session-fill_by_token, session_create-row,
}
use audio_tool_api.Escaping.{escape_token}
use audio_tool_api.Handlers.{Json}
use audio_tool_api.Handlers.Login.{
  Outcome, returns, throws, Web, Login, location_key, success_location, error_location, caught,
  emplace_header, get_token, get_email, forward, log_in, with_email, with_token, with_status,
  auth_get, no_email,
}

-- What no `catch` of `get` takes.
abbrev pub IsUncaught : Thrown → Type 0
IsUncaught (std_exception text) = Unit
IsUncaught unknown = Unit
IsUncaught thrown = ⊥

module _ {J : Type 0} where
  abbrev pub location : Login J → Option Bytes
  location s = lookup location_key s.response.headers

  abbrev IsSuccess : Login J → Type 0
  IsSuccess s = location s ≡ some (success_location ++ escape_token s.user.current_session.token)

  -- The status is 302, and there is a location: that of a login that failed, or that of one that
  -- succeeded with the token of the user's session. Otherwise an exception leaves the handler that is
  -- no runtime error, and there is no location.
  abbrev pub IsForwarded : Exit (Login J) → Type 0
  IsForwarded (s, none) =
      (s.response.status ≡ 302) × ((location s ≡ some error_location) ⊎ IsSuccess s)
  IsForwarded (s, some thrown) = IsUncaught thrown × (location s ≡ none)

  -- The state before `catch`.
  abbrev IsReady : Exit (Login J) → Type 0
  IsReady (s, none) = (s.response.status ≡ 302) × IsSuccess s
  IsReady (s, some thrown) = (s.response.status ≡ 302) × (location s ≡ none)

  location-emplace :
      (value : Bytes) (s : Login J)
      → location s ≡ none
      → location (emplace_header location_key value s) ≡ some value
  location-emplace value s n =
      lookup-emplace_new location_key location_key value s.response.headers n

  caught-IsForwarded : (x : Exit (Login J)) → IsReady x → IsForwarded (caught x)
  caught-IsForwarded (s, none) (now, there) = (now, inr there)
  caught-IsForwarded (s, some (runtime_error text)) (now, bare) =
      (now, inl (location-emplace error_location s bare))
  caught-IsForwarded (s, some (http_exception code text)) (now, bare) =
      (now, inl (location-emplace error_location s bare))
  caught-IsForwarded (s, some (std_exception text)) (now, bare) = (tt, bare)
  caught-IsForwarded (s, some unknown) (now, bare) = (tt, bare)

  abbrev Fresh : Login J → Type 0
  Fresh s = (s.response.status ≡ 302) × (location s ≡ none)

  forward-IsReady : (x : Exit (Store × User)) (s : Login J) → Fresh s → IsReady (forward x s)
  forward-IsReady ((db, user), some thrown) s p = p
  forward-IsReady ((db, user), none) s (now, bare) =
      (now, location-emplace (success_location ++ escape_token user.current_session.token) s bare)

  log_in-IsReady :
      (token : Bytes) (x : Exit User) (s : Login J) → Fresh s → IsReady (log_in token x s)
  log_in-IsReady token (user, some thrown) s p = p
  log_in-IsReady token (user, none) s p = forward-IsReady (create_session token (s.db, user)) s p

  module _ (json : Json J) (web : Web J) where
    with_email-IsReady :
        (token : Bytes) (o : Outcome Bytes) (s : Login J)
        → Fresh s
        → IsReady (with_email json web token o s)
    with_email-IsReady token (throws thrown) s p = p
    with_email-IsReady token (returns email) s p =
        log_in-IsReady token (fill_by_email s.db email s.user) s p

    with_token-IsReady :
        (token : Bytes) (o : Outcome Bytes) (s : Login J)
        → Fresh s
        → IsReady (with_token json web token o s)
    with_token-IsReady token (throws thrown) s p = p
    with_token-IsReady token (returns t) s p = with_email-IsReady token (get_email json web t) s p

    -- If the response has no location, then `get` leaves it with the status 302 and the location of a
    -- login that failed, or the location of one that succeeded with the token of the user's session;
    -- or an exception leaves the handler, which is no runtime error, and there is no location.
    pub auth_get-IsForwarded :
        (new_token : Bytes) (req : HttpRequest) (s : Login J)
        → location s ≡ none
        → IsForwarded (auth_get json web new_token req s)
    unfolding auth_get
    auth_get-IsForwarded new_token req s bare = elim (Bool-cases (has_param req (codes "error"))) [
      | inl e ↦ rw (e, auth_get) (refl, inl (location-emplace error_location s bare))
      | inr e ↦ elim (Option-cases (lookup (codes "code") req.url_params)) [
        | inl c ↦ rw (e, c, auth_get) (refl, inl (location-emplace error_location s bare))
        | inr (code, c) ↦
            rw (e, c, auth_get)
              (caught-IsForwarded
                (with_token json web new_token (get_token json web code) (with_status 302 s))
                (with_token-IsReady new_token (get_token json web code) (with_status 302 s)
                  (refl, bare)))
      ]
    ]

    get_caught :
        (new_token code : Bytes) (req : HttpRequest) (s : Login J)
        → has_param req (codes "error") ≡ false
        → lookup (codes "code") req.url_params ≡ some code
        → auth_get json web new_token req s
          ≡ caught (with_token json web new_token (get_token json web code) (with_status 302 s))
    unfolding auth_get
    get_caught new_token code req s e c = rw (e, c, auth_get) refl

    -- If a request brings a code for which Google gives a token, and for the token the email of a row
    -- of the table, and if no session has the new token and the response has no location, then `get`
    -- ends without an exception, the location is that of a success with the new token escaped, and
    -- at any time the token finds the row's user until an hour later, and from then on no user.
    pub auth_get-fill_by_token :
        (new_token code token : Bytes) (req : HttpRequest) (s : Login J) (owner : UserRow) (now : ℕ)
        (v : User)
        → has_param req (codes "error") ≡ false
        → lookup (codes "code") req.url_params ≡ some code
        → get_token json web code ≡ returns token
        → get_email json web token ≡ returns owner.email
        → first (λ r. bytes_eq r.email owner.email) s.db.users ≡ some owner
        → first (λ r. r.id == owner.id) s.db.users ≡ some owner
        → first (has_token new_token) s.db.sessions ≡ none
        → location s ≡ none
        → let got = auth_get json web new_token req s in
          (got.1 ≡ none)
          × (location got.0 ≡ some (success_location ++ escape_token new_token))
          × (fill_by_token (record got.0.db { now = now }) new_token v
              ≡ outcome new_token
                  (row_of new_token owner.id s.db.now (s.db.now + session_length))
                  owner
                  now
                  v)
    unfolding create_session fill_by_email
    auth_get-fill_by_token new_token code token req s owner now v e c t m by_email by_id n bare =
        let u : User = record s.user { id = owner.id; email_address = owner.email } in
        let s' : Login J = with_status 302 s in
        let created : Exit (Store × Session) → Exit (Store × User) =
          λ x. ((x.0.0, record u { current_session = x.0.1 }), x.1) in
        let row = session_create-row s.db u.current_session new_token owner.id n in
        let found = create_session-fill_by_token s.db u v new_token owner now n by_id in
        let got : auth_get json web new_token req s
            ≡ caught (forward (create_session new_token (s.db, u)) s') =
          get_caught new_token code req s e c
          ∙ rw (t, m, with_token, with_email, fill_by_email, by_email) refl in
        let ended = got ∙ ap (λ x. caught (forward (created x) s')) row in
        (
          ap (λ x. x.1) ended,
          ap (λ x. location x.0) ended
              ∙ location-emplace (success_location ++ escape_token new_token) s' bare,
          ap (λ x. fill_by_token (record x.0.db { now = now }) new_token v) ended
              ∙ sym (ap (λ x. fill_by_token (record x.0.0 { now = now }) new_token v) row)
              ∙ found.1,
        )

    -- If Google gives a token, and for the token an object without addresses, then `get` is left by an
    -- exception that is no runtime error, and answers no location.
    pub auth_get_no_email :
        (new_token code token : Bytes) (req : HttpRequest) (s : Login J) (people : J)
        → has_param req (codes "error") ≡ false
        → lookup (codes "code") req.url_params ≡ some code
        → get_token json web code ≡ returns token
        → web.has_email_handle ≡ true
        → web.parse (web.request_people (codes "Authorization: Bearer " ++ token)) ≡ some people
        → json.field people (codes "emailAddresses") ≡ none
        → auth_get json web new_token req s ≡ (
          with_status 302 s,
          some (std_exception (codes "basic_string: construction from null is not valid")),
        )
    unfolding get_email
    auth_get_no_email new_token code token req s people e c t h p f =
        let failed : get_email json web token ≡ no_email = ground (arith, h, p, f) in
        get_caught new_token code req s e c ∙ rw (t, failed, with_token) refl
