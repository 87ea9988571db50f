-- ===== src/Handlers/Login/Keeping.antt =====
-- What logins and registrations keep of the table of the users.
use audio_tool_api.Prelude.{
  inl, inr, Bool-cases, Option-cases, arith, ℕ, ◌≡◌, refl, sym, ◌∙◌, subst, Bool, true, false,
  Option, none, some, Bytes, codes, bytes_eq,
}
use audio_tool_api.Prelude.Dict.{lookup}
use audio_tool_api.Request.{HttpRequest, has_param}
use audio_tool_api.Http.Process.{http_exception, runtime_error, std_exception, unknown, Exit}
use audio_tool_api.Models.{
  Store, User, Memory, first, session_create, create_session, admitted, authenticate, user_create,
  fill_by_id, fill_by_email, read_array, strcmp_equal,
}
use audio_tool_api.Handlers.{Json}
use audio_tool_api.Handlers.Keeping.{Extends, Extends-refl}
use audio_tool_api.Handlers.Login.{
  Outcome, returns, throws, Login, Web, caught, forward, log_in, with_email, with_token, get_token,
  get_email, with_status, auth_get, text_field, with_text, answer_session, admit, register,
  auth_post, auth_put,
}

create_session-users :
    (token : Bytes) (db : Store) (u : User) → (create_session token (db, u)).0.0.users ≡ db.users
unfolding create_session session_create
create_session-users token db u = ground arith

module _ (pbkdf2 : Bytes → Bytes → Option Bytes) where
  admitted-users :
      (token : Bytes) (db : Store) (x : Exit User)
      → (admitted pbkdf2 token db x).0.1.0.users ≡ db.users
  admitted-users token db (u, none) = create_session-users token db u
  admitted-users token db (u, some thrown) = refl

  authenticate-users :
      (m : Memory) (token email pass : Bytes) (db : Store) (u : User)
      → (authenticate pbkdf2 m token email pass (db, u)).0.1.0.users ≡ db.users
  unfolding authenticate
  authenticate-users m token email pass db u =
      elim (Option-cases (first (λ r. bytes_eq r.email email) db.users)) [
        | inl e ↦ rw (e, authenticate) refl
        | inr (r, e) ↦ elim (Option-cases (pbkdf2 pass (read_array m.stale_salt r.nacl))) [
          | inl k ↦ rw (e, k, authenticate) refl
          | inr (test_hash, k) ↦
              elim (Bool-cases (
                strcmp_equal (read_array m.stale_hash r.hash) m.behind_hash test_hash
                  m.behind_test)) [
                    | inl b ↦
                        rw (e, k, b, authenticate) (admitted-users token db (fill_by_id db r.id u))
                    | inr b ↦ rw (e, k, b, authenticate) refl
                  ]
        ]
      ]

  user_create-users :
      (m : Memory) (token : Bytes) (new_id : ℕ) (salt email pass : Bytes) (db : Store) (u : User)
      → Extends db.users (user_create pbkdf2 m token new_id salt email pass (db, u)).0.0.users
  unfolding user_create
  user_create-users m token new_id salt email pass db u = elim (Option-cases (pbkdf2 pass salt)) [
    | inl e ↦ rw (e, user_create) (Extends-refl db.users)
    | inr (hash, e) ↦ rw (e, user_create) (_, authenticate-users m token email pass _ u)
  ]

module _ {J : Type 0} (json : Json J) where
  -- The session that is made for a user leaves the users.
  forward-users : (x : Exit (Store × User)) (s : Login J) → (forward x s).0.db.users ≡ x.0.0.users
  forward-users ((db, u), none) s = refl
  forward-users ((db, u), some thrown) s = refl

  log_in-users :
      (token : Bytes) (x : Exit User) (s : Login J) → (log_in token x s).0.db.users ≡ s.db.users
  log_in-users token (u, none) s =
      forward-users (create_session token (s.db, u)) s ∙ create_session-users token s.db u
  log_in-users token (u, some thrown) s = refl

  caught-users : (x : Exit (Login J)) → (caught x).0.db.users ≡ x.0.db.users
  caught-users (s, none) = refl
  caught-users (s, some (runtime_error what)) = refl
  caught-users (s, some (http_exception code what)) = refl
  caught-users (s, some (std_exception what)) = refl
  caught-users (s, some unknown) = refl

  answer_session-users :
      (x : Exit (Store × User)) (s : Login J) → (answer_session json x s).0.db.users ≡ x.0.0.users
  answer_session-users ((db, u), none) s = refl
  answer_session-users ((db, u), some thrown) s = refl

  admit-users :
      (token : Bytes) (x : Exit (Bool × (Store × User))) (s : Login J)
      → (admit json token x s).0.db.users ≡ x.0.1.0.users
  admit-users token ((b, (db, u)), some thrown) s = refl
  admit-users token ((true, (db, u)), none) s =
      answer_session-users (create_session token (db, u)) s ∙ create_session-users token db u
  admit-users token ((false, (db, u)), none) s = refl

  register-users :
      (token : Bytes) (x : Exit (Store × User)) (s : Login J)
      → (register json token x s).0.db.users ≡ x.0.0.users
  register-users token ((db, u), none) s =
      answer_session-users (create_session token (db, u)) s ∙ create_session-users token db u
  register-users token ((db, u), some thrown) s = refl

  -- A text that is missing leaves the tables.
  with_text_keeps {κ} :
      (P : Login J → Type κ) (o : Outcome Bytes) (s : Login J) (more : Bytes → Exit (Login J))
      → P s
      → ((text : Bytes) → P (more text).0)
      → P (with_text json o s more).0
  with_text_keeps P (throws thrown) s more p h = p
  with_text_keeps P (returns text) s more p h = h text

  module _ (pbkdf2 : Bytes → Bytes → Option Bytes) (m : Memory) (token new_token : Bytes)
      (s : Login J) where
    pub auth_post-users :
        (body : J) → (auth_post json pbkdf2 m token new_token body s).0.db.users ≡ s.db.users
    unfolding auth_post
    auth_post-users body =
        with_text_keeps (λ x. x.db.users ≡ s.db.users) (text_field json body (codes "email")) s _
          refl
          λ email.
            with_text_keeps (λ x. x.db.users ≡ s.db.users) (text_field json body (codes "password"))
              s _ refl
              λ pass.
                admit-users new_token (authenticate pbkdf2 m token email pass (s.db, s.user)) s
                ∙ authenticate-users pbkdf2 m token email pass s.db s.user

    pub auth_put-Extends :
        (new_id : ℕ) (salt : Bytes) (body : J)
        → Extends s.db.users (auth_put json pbkdf2 m token new_token new_id salt body s).0.db.users
    unfolding auth_put
    auth_put-Extends new_id salt body =
        let P : Login J → Type 0 = λ x. Extends s.db.users x.db.users in
        let same = Extends-refl s.db.users in
        with_text_keeps P (text_field json body (codes "email")) s _ same λ email.
          with_text_keeps P (text_field json body (codes "password")) s _ same λ pass.
            let made = user_create pbkdf2 m token new_id salt email pass (s.db, s.user) in
            subst (Extends s.db.users) (sym (register-users new_token made s))
              (user_create-users pbkdf2 m token new_id salt email pass s.db s.user)

  module _ (web : Web J) (new_token : Bytes) where
    with_email-users :
        (o : Outcome Bytes) (s : Login J)
        → (with_email json web new_token o s).0.db.users ≡ s.db.users
    with_email-users (throws thrown) s = refl
    with_email-users (returns email) s = log_in-users new_token (fill_by_email s.db email s.user) s

    with_token-users :
        (o : Outcome Bytes) (s : Login J)
        → (with_token json web new_token o s).0.db.users ≡ s.db.users
    with_token-users (throws thrown) s = refl
    with_token-users (returns token) s = with_email-users (get_email json web token) s

    pub auth_get-users :
        (req : HttpRequest) (s : Login J)
        → (auth_get json web new_token req s).0.db.users ≡ s.db.users
    unfolding auth_get
    auth_get-users req s = elim (Bool-cases (has_param req (codes "error"))) [
      | inl e ↦ rw (e, auth_get) refl
      | inr e ↦ elim (Option-cases (lookup (codes "code") req.url_params)) [
        | inl k ↦ rw (e, k, auth_get) refl
        | inr (code, k) ↦
            rw (e, k, auth_get)
              (caught-users
                  (with_token json web new_token (get_token json web code) (with_status 302 s))
                ∙ with_token-users (get_token json web code) (with_status 302 s))
      ]
    ]
