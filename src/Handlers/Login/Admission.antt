-- ===== src/Handlers/Login/Admission.antt =====
-- Whom `auth_handler::post` and `put` of it let in.
use audio_tool_api.Prelude.{
  ℕ, ◌≡◌, refl, sym, ap, subst, ◌∙◌, Bool, true, false, Option, none, some, List, [], ◌∷◌, ◌++◌,
  ◌==◌, length, Bytes, codes, bytes_eq, arith,
}
use audio_tool_api.Prelude.Dict.{lookup, lookup-emplace_new}
use audio_tool_api.Http.Process.{Exit}
use audio_tool_api.Models.{
  Store, Session, SessionRow, User, Memory, first, has_token, create_session, authenticate,
  user_create,
}
use audio_tool_api.Models.Passwords.{NoZero}
use audio_tool_api.Models.Sessions.{session_create-row}
use audio_tool_api.Models.Registration.{user_create-authenticate}
use audio_tool_api.Handlers.{Json}
use audio_tool_api.Handlers.Login.{
  Outcome, returns, throws, Login, session_key, text_field, with_text, answer_session, admit,
  register, auth_post, auth_put,
}

module _ {J : Type 0} (json : Json J) (pbkdf2 : Bytes → Bytes → Option Bytes) where
  -- The body has an email and a password that `authenticate` accepts.
  pub record Accepted (m : Memory) (token : Bytes) (body : J) (s : Login J) : Type 0 where
    pub email : Bytes
    pub pass : Bytes
    pub has_email : text_field json body (codes "email") ≡ returns email
    pub has_pass : text_field json body (codes "password") ≡ returns pass
    pub accepts : (authenticate pbkdf2 m token email pass (s.db, s.user)).0.0 ≡ true

  -- The header is the token of the user's session.
  abbrev pub Answered : Login J → Type 0
  Answered s = lookup session_key s.response.headers ≡ some s.user.current_session.token

  answer_session-Answered :
      (x : Exit (Store × User)) (s : Login J)
      → lookup session_key s.response.headers ≡ none
      → (answer_session json x s).1 ≡ none
      → Answered (answer_session json x s).0
  answer_session-Answered ((db, user), some thrown) s bare e = ground (arith, e)
  answer_session-Answered ((db, user), none) s bare e =
      lookup-emplace_new session_key session_key user.current_session.token s.response.headers bare

  admit-Answered :
      (new_token : Bytes) (x : Exit (Bool × (Store × User))) (s : Login J)
      → lookup session_key s.response.headers ≡ none
      → (admit json new_token x s).1 ≡ none
      → (x.0.0 ≡ true) × Answered (admit json new_token x s).0
  admit-Answered new_token ((b, (db, user)), some thrown) s bare e = ground (arith, e)
  admit-Answered new_token ((true, (db, user)), none) s bare e =
      (refl, answer_session-Answered (create_session new_token (db, user)) s bare e)
  admit-Answered new_token ((false, (db, user)), none) s bare e = ground (arith, e)

  -- If `post` ends without an exception, the body has an email and a password that `authenticate`
  -- accepts, and if there was no such header before, the header `session-token` is the token of the
  -- user's session.
  pub auth_post-Accepted :
      (m : Memory) (token new_token : Bytes) (body : J) (s : Login J)
      → lookup session_key s.response.headers ≡ none
      → (auth_post json pbkdf2 m token new_token body s).1 ≡ none
      → Accepted m token body s × Answered (auth_post json pbkdf2 m token new_token body s).0
  unfolding auth_post
  auth_post-Accepted m token new_token body s bare e =
      of_texts (text_field json body (codes "email")) (text_field json body (codes "password")) refl
        refl e
    where
      answer : Outcome Bytes → Outcome Bytes → Exit (Login J)
      answer o o' = with_text json o s λ email.
          with_text json o' s
            λ pass. admit json new_token (authenticate pbkdf2 m token email pass (s.db, s.user)) s

      of_texts :
          (o o' : Outcome Bytes)
          → text_field json body (codes "email") ≡ o
          → text_field json body (codes "password") ≡ o'
          → (answer o o').1 ≡ none
          → Accepted m token body s × Answered (answer o o').0
      of_texts (throws t) o' x y e = ground (arith, e)
      of_texts (returns email) (throws t) x y e = ground (arith, e)
      of_texts (returns email) (returns pass) x y e =
          let tried = authenticate pbkdf2 m token email pass (s.db, s.user) in
          let admitted = admit-Answered new_token tried s bare e in
          (
            record {
              email = email;
              pass = pass;
              has_email = x;
              has_pass = y;
              accepts = admitted.0;
            },
            admitted.1,
          )

  -- The session is made, and only the table of the sessions changes.
  answer_session-ends :
      (token : Bytes) (db : Store) (u : User) (s : Login J) (sessions : List SessionRow)
      → first (has_token token) db.sessions ≡ none
      → let answered = answer_session json (create_session token (db, u)) s in
        (answered.1 ≡ none)
        × (record answered.0.db { sessions = sessions } ≡ record db { sessions = sessions })
  unfolding create_session
  answer_session-ends token db u s sessions n =
      let answered : Exit (Store × Session) → Exit (Login J) =
        λ x. answer_session json ((x.0.0, record u { current_session = x.0.1 }), x.1) s in
      let row = session_create-row db u.current_session token u.id n in
      (ap (λ x. (answered x).1) row, ap (λ x. record (answered x).0.db { sessions = sessions }) row)

  register-ends :
      (token : Bytes) (x : Exit (Store × User)) (s : Login J) (sessions : List SessionRow)
      → x.1 ≡ none
      → first (has_token token) x.0.0.sessions ≡ none
      → let registered = register json token x s in
        (registered.1 ≡ none)
        × (record registered.0.db { sessions = sessions } ≡ record x.0.0 { sessions = sessions })
  register-ends token ((db, user), some thrown) s sessions e n = ground (arith, e)
  register-ends token ((db, user), none) s sessions e n =
      answer_session-ends token db user s sessions n

  admit-ends :
      (token : Bytes) (x : Exit (Bool × (Store × User))) (s : Login J)
      → x.0.0 ≡ true
      → x.1 ≡ none
      → first (has_token token) x.0.1.0.sessions ≡ none
      → (admit json token x s).1 ≡ none
  admit-ends token ((b, (db, user)), some thrown) s t e n = ground (arith, e)
  admit-ends token ((true, (db, user)), none) s t e n = (answer_session-ends token db user s [] n).0
  admit-ends token ((false, (db, user)), none) s t e n = ground (arith, t)

  -- A user registers with `put`, with an email and a password for which `create` succeeds as in
  -- `user_create-authenticate`, where the tokens that are made are new. Then `put` ends without an
  -- exception, and whoever sends the same email and password to `post` afterwards, with any sessions
  -- in the table that do not have the next tokens, is let in.
  pub auth_put-auth_post :
      (m m' : Memory) (token new_token token' new_token' : Bytes) (id : ℕ) (salt email pass : Bytes)
      (body : J) (s s' : Login J) (sessions : List SessionRow) (same rest : Bytes)
      → text_field json body (codes "email") ≡ returns email
      → text_field json body (codes "password") ≡ returns pass
      → first (λ x. bytes_eq x.email email) s.db.users ≡ none
      → first (λ x. x.id == id) s.db.users ≡ none
      → first (has_token token) s.db.sessions ≡ none
      → first (has_token token') sessions ≡ none
      → pbkdf2 pass salt ≡ some (same ++ 0 ∷ rest)
      → NoZero same
      → length (same ++ 0 ∷ rest) ≡ 128
      → length salt ≡ 128
      → first
          (has_token new_token)
          (user_create pbkdf2 m token id salt email pass (s.db, s.user)).0.0.sessions
        ≡ none
      → let put = auth_put json pbkdf2 m token new_token id salt body s in
        s'.db ≡ record put.0.db { sessions = sessions }
        → first
            (has_token new_token')
            (authenticate pbkdf2 m' token' email pass (s'.db, s'.user)).0.1.0.sessions
          ≡ none
        → (put.1 ≡ none) × ((auth_post json pbkdf2 m' token' new_token' body s').1 ≡ none)
  unfolding auth_put auth_post
  auth_put-auth_post m m' token new_token token' new_token' id salt email pass body s s' sessions
        same rest x y e i n n' h z l k fresh after fresh' =
      let created = user_create pbkdf2 m token id salt email pass (s.db, s.user) in
      let known =
        user_create-authenticate pbkdf2 m m' token token' id salt email pass s.db s.user s'.user
          sessions same rest e i n n' h z l k in
      let ended = register-ends new_token created s sessions known.0 fresh in
      let put : auth_put json pbkdf2 m token new_token id salt body s
          ≡ register json new_token created s =
        rw (x, y, auth_put) refl in
      let there : record created.0.0 { sessions = sessions } ≡ s'.db =
        sym (after ∙ ap (λ r. record r.0.db { sessions = sessions }) put ∙ ended.1) in
      let tried = authenticate pbkdf2 m' token' email pass (s'.db, s'.user) in
      let accepted : tried.0.0 ≡ true =
        subst (λ db. (authenticate pbkdf2 m' token' email pass (db, s'.user)).0.0 ≡ true) there
          known.1 in
      let ends : tried.1 ≡ none =
        subst (λ db. (authenticate pbkdf2 m' token' email pass (db, s'.user)).1 ≡ none) there
          known.2 in
      let posted : auth_post json pbkdf2 m' token' new_token' body s'
          ≡ admit json new_token' tried s' =
        rw (x, y, auth_post) refl in
      (
        ap (λ r. r.1) put ∙ ended.0,
        ap (λ r. r.1) posted ∙ admit-ends new_token' tried s' accepted ends fresh',
      )
