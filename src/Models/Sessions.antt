-- ===== src/Models/Sessions.antt =====
-- The life of a session.
use audio_tool_api.Prelude.{
  Option-cases, inl, inr, ℕ, ◌+◌, ◌≡◌, refl, ap, ◌∙◌, Bool, false, none, some, List, [], ◌∷◌, ◌++◌,
  map, ltb, ◌==◌, if◌then◌else◌, Bytes, arith,
}
use mathlib.Core.List.{map-append}
use audio_tool_api.Prelude.Dict.{bytes_eq_refl}
use audio_tool_api.Http.Process.{Exit}
use audio_tool_api.Models.Rows.{first-append_last}
use audio_tool_api.Models.{
  Store, Session, SessionRow, User, UserRow, first, has_token, is_live, session_length,
  session_create, session_refresh, session_lookup, refresh_row, fill_by_id, fill_by_token,
  create_session, fails_with,
}

abbrev pub row_of : Bytes → ℕ → ℕ → ℕ → SessionRow
row_of token user_id created expires = record {
  token = token;
  user_id = user_id;
  created = created;
  expires = expires;
}

first-none_imp :
    (p q : SessionRow → Bool) (rows : List SessionRow)
    → ((r : SessionRow) → p r ≡ false → q r ≡ false)
    → first p rows ≡ none
    → first q rows ≡ none
unfolding first
first-none_imp p q [] f h = refl
first-none_imp p q (x ∷ rows) f h = ground (arith, first-none_imp p q rows f, f x)

-- The rows with another token stay without it.
refresh_row-first :
    (now : ℕ) (s : Session) (token : Bytes) (rows : List SessionRow)
    → first (has_token token) rows ≡ none
    → first (has_token token) (map (refresh_row now s) rows) ≡ none
unfolding first
refresh_row-first now s token [] h = refl
refresh_row-first now s token (x ∷ rows) h = ground (arith, refresh_row-first now s token rows)

-- What a lookup of a token finds, if one row at the end has it.
abbrev pub outcome : Bytes → SessionRow → UserRow → ℕ → User → Exit User
outcome token r owner now v =
    if ltb now r.expires
    then (
      record {
        id = r.user_id;
        email_address = owner.email;
        current_session = record {
          token = token;
          expires = r.expires;
          created = r.created;
          user_id = r.user_id;
        };
      },
      none,
    )
    else fails_with "No user by that token" v

fill_by_token-last :
    (users : List UserRow) (rows : List SessionRow) (r : SessionRow) (owner : UserRow) (now : ℕ)
    (v : User)
    → first (has_token r.token) rows ≡ none
    → first (λ x. x.id == r.user_id) users ≡ some owner
    → fill_by_token (record { users = users; sessions = rows ++ r ∷ []; now = now }) r.token v
      ≡ outcome r.token r owner now v
unfolding fill_by_token fill_by_id
fill_by_token-last users rows r owner now v n o =
    let before : first (is_live now r.token) rows ≡ none =
      first-none_imp (has_token r.token) (is_live now r.token) rows (λ x e. ground (arith, e)) n in
    let last = first-append_last (is_live now r.token) rows r before in
    ground (arith, last, bytes_eq_refl r.token, o)

pub session_create-row :
    (db : Store) (s : Session) (token : Bytes) (user_id : ℕ)
    → first (has_token token) db.sessions ≡ none
    → session_create token user_id (db, s) ≡ (
      (
        record db {
          sessions = db.sessions ++ row_of token user_id db.now (db.now + session_length) ∷ [];
        },
        record {
          token = token;
          expires = db.now + session_length;
          created = db.now;
          user_id = user_id;
        },
      ),
      none,
    )
unfolding session_create
session_create-row db s token user_id n =
    let r : SessionRow = row_of token user_id db.now (db.now + session_length) in
    ground (arith, first-append_last (has_token token) db.sessions r n, bytes_eq_refl token)

-- The store when a session of `u` has been created and the clock shows `now`.
abbrev pub store_after : Bytes → Store → User → ℕ → Store
store_after token db u now = record (create_session token (db, u)).0.0 { now = now }

abbrev pub session_after : Bytes → Store → User → Session
session_after token db u = (create_session token (db, u)).0.1.current_session

-- A session that is created for a user of the table, with a token that no session has: the creation
-- succeeds, and at any time the token finds that user and session, until an hour after the
-- creation, and from then on no user.
pub create_session-fill_by_token :
    (db : Store) (u v : User) (token : Bytes) (owner : UserRow) (now : ℕ)
    → first (has_token token) db.sessions ≡ none
    → first (λ r. r.id == u.id) db.users ≡ some owner
    → ((create_session token (db, u)).1 ≡ none)
      × (fill_by_token (store_after token db u now) token v
          ≡ outcome token (row_of token u.id db.now (db.now + session_length)) owner now v)
unfolding create_session
create_session-fill_by_token db u v token owner now n o =
    let made = session_create-row db u.current_session token u.id n in
    (
      ap (λ p. p.1) made,
      ap (λ p. fill_by_token (record p.0.0 { now = now }) token v) made
          ∙ fill_by_token-last db.users db.sessions
              (row_of token u.id db.now (db.now + session_length)) owner now v n o,
    )

-- If such a session is refreshed, at any time, its token finds the user until an hour after the
-- refresh, and from then on no user; the time of its creation stays.
pub session_refresh-fill_by_token :
    (db : Store) (u v : User) (token : Bytes) (owner : UserRow) (refreshed now : ℕ)
    → first (has_token token) db.sessions ≡ none
    → first (λ r. r.id == u.id) db.users ≡ some owner
    → fill_by_token
        (record (session_refresh (session_after token db u) (store_after token db u refreshed)) {
          now = now;
        })
        token
        v
      ≡ outcome token (row_of token u.id db.now (refreshed + session_length)) owner now v
unfolding create_session session_refresh
session_refresh-fill_by_token db u v token owner refreshed now n o =
    let s : Session = record {
      token = token;
      expires = db.now + session_length;
      created = db.now;
      user_id = u.id;
    } in
    let f : SessionRow → SessionRow = refresh_row refreshed s in
    let r : SessionRow = row_of token u.id db.now (db.now + session_length) in
    let r' : SessionRow = row_of token u.id db.now (refreshed + session_length) in
    let renewed : f r ≡ r' = ground (arith, bytes_eq_refl token) in
    let found : List SessionRow → Exit User =
      λ rows. fill_by_token (record { users = db.users; sessions = rows; now = now }) token v in
    ap
      (λ p.
        fill_by_token
          (record {
            users = p.0.0.users;
            sessions = map (refresh_row refreshed p.0.1) p.0.0.sessions;
            now = now;
          })
          token v)
      (session_create-row db u.current_session token u.id n)
    ∙ ap found (map-append f db.sessions (r ∷ []))
    ∙ ap (λ x. found (map f db.sessions ++ x ∷ [])) renewed
    ∙ fill_by_token-last db.users (map f db.sessions) r' owner now v
        (refresh_row-first refreshed s token db.sessions n) o

-- Whether `session::lookup` finds a session does not depend on the token that it is asked for.
pub session_lookup_ignores :
    (db : Store) (a b : Bytes) (s : Session) → (session_lookup db a s).1 ≡ (session_lookup db b s).1
unfolding session_lookup
session_lookup_ignores db a b s = elim (Option-cases (first (is_live db.now s.token) db.sessions)) [
  | inl e ↦ rw (e, session_lookup) refl
  | inr (r, e) ↦ rw (e, session_lookup) refl
]
