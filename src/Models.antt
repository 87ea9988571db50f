-- ===== src/Models.antt =====
-- audio_tool_api/models/session.{h,cpp} and user.{h,cpp}: users and sessions on the two tables that
-- their SQL statements name. A statement is read as SQL means it; without ORDER BY the rows come in
-- the table's order, and an insertion adds a row at its end. `now` is UNIX_TIMESTAMP(). The
-- operations throw runtime errors only.
pub mod Rows
pub mod Sessions
pub mod Passwords
pub mod Registration
use audio_tool_api.Prelude.{
  ℕ, ◌+◌, ◌*◌, Bool, true, false, ◌&&◌, Option, none, some, List, [], ◌∷◌, ◌++◌, map, ltb, ◌==◌,
  if◌then◌else◌, length, take, Bytes, bytes_eq, codes,
}
use Prim.Native.String.{String}
use audio_tool_api.Base64.{base64_encode}
use audio_tool_api.Request.{c_str}
use audio_tool_api.Http.Process.{Thrown, runtime_error, Exit}

pub record SessionRow : Type 0 where
  pub token : Bytes
  pub user_id : ℕ
  pub created : ℕ
  pub expires : ℕ

pub record UserRow : Type 0 where
  pub id : ℕ
  pub email : Bytes
  pub hash : Bytes
  pub nacl : Bytes

pub record Store : Type 0 where
  pub users : List UserRow
  pub sessions : List SessionRow
  pub now : ℕ

-- The members of `session` and of `user_model`.
pub record Session : Type 0 where
  pub token : Bytes
  pub expires : ℕ
  pub created : ℕ
  pub user_id : ℕ

pub record User : Type 0 where
  pub id : ℕ
  pub email_address : Bytes
  pub current_session : Session

-- The first row of a SELECT, if there is any.
unfoldable pub first {ℓ} : {A : Type ℓ} → (A → Bool) → List A → Option A
first p [] = none
first p (x ∷ xs) = let later = first p xs in if p x then some x else later

abbrev pub session_length : ℕ
session_length = 60 * 60

-- `now` is the value of `time(nullptr)`.
abbrev pub is_valid : ℕ → Session → Bool
is_valid now s = ltb s.created now && ltb now s.expires && ltb 0 (length s.token)

-- On the bytes that `RAND_bytes` gives.
abbrev pub create_token : Bytes → Bytes
create_token random = base64_encode random

abbrev pub has_token : Bytes → SessionRow → Bool
has_token token r = bytes_eq r.token token

-- `token=? AND expires > UNIX_TIMESTAMP()`.
abbrev pub is_live : ℕ → Bytes → SessionRow → Bool
is_live now token r = bytes_eq r.token token && ltb now r.expires

abbrev pub fails_with : {A : Type 0} → String → A → Exit A
fails_with text a = (a, some (runtime_error (codes text)))

-- `session::create`, with the token that `create_token` gave.
unfoldable pub session_create : Bytes → ℕ → Store × Session → Exit (Store × Session)
unfolding first
session_create new_token user_id (db, s) =
    let row : SessionRow = record {
      token = new_token;
      user_id = user_id;
      created = db.now;
      expires = db.now + session_length;
    } in
    let db' : Store = record db { sessions = db.sessions ++ row ∷ [] } in
    elim (first (has_token new_token) db'.sessions) [
      | none ↦ fails_with "Session did not insert properly into the database" (db', s)
      | some r ↦ (
        (
          db',
          record { token = new_token; expires = r.expires; created = r.created; user_id = user_id },
        ),
        none,
      )
    ]

abbrev pub refresh_row : ℕ → Session → SessionRow → SessionRow
refresh_row now s r =
    if bytes_eq r.token s.token && r.user_id == s.user_id
    then record r { expires = now + session_length }
    else r

-- `session::refresh`.
unfoldable pub session_refresh : Session → Store → Store
session_refresh s db = record db { sessions = map (refresh_row db.now s) db.sessions }

-- `session::lookup`: the statement's parameter is the member `token`, not the argument.
unfoldable pub session_lookup : Store → Bytes → Session → Exit Session
unfolding first
session_lookup db _token s = elim (first (is_live db.now s.token) db.sessions) [
  | none ↦ fails_with "No sessions found for this token" s
  | some r ↦ (
    record { token = _token; expires = r.expires; created = r.created; user_id = r.user_id },
    none,
  )
]

unfoldable pub fill_by_id : Store → ℕ → User → Exit User
unfolding first
fill_by_id db _id u = elim (first (λ r. r.id == _id) db.users) [
  | none ↦ fails_with "No user found for ID provided" u
  | some r ↦ (record u { id = _id; email_address = r.email }, none)
]

unfoldable pub fill_by_email : Store → Bytes → User → Exit User
unfolding first
fill_by_email db _email_address u = elim (first (λ r. bytes_eq r.email _email_address) db.users) [
  | none ↦ fails_with "No user found for ID provided" u
  | some r ↦ (record u { id = r.id; email_address = _email_address }, none)
]

-- What `fill_by_token` does behind its call of `fill_by_id`.
abbrev pub with_session : Bytes → SessionRow → Exit User → Exit User
with_session token r (u, some thrown) = (u, some thrown)
with_session token r (u, none) = (
  record u {
    current_session = record {
      token = token;
      expires = r.expires;
      created = r.created;
      user_id = r.user_id;
    };
  },
  none,
)

unfoldable pub fill_by_token : Store → Bytes → User → Exit User
unfolding first fill_by_id
fill_by_token db token u = elim (first (is_live db.now token) db.sessions) [
  | none ↦ fails_with "No user by that token" u
  | some r ↦ with_session token r (fill_by_id db r.user_id (record u { id = r.user_id }))
]

unfoldable pub create_session : Bytes → Store × User → Exit (Store × User)
unfolding session_create
create_session new_token (db, u) =
    let made = session_create new_token u.id (db, u.current_session) in
    ((made.0.0, record u { current_session = made.0.1 }), made.1)

-- `strcmp(...) == 0` on two arrays, with what stands in memory behind each.
abbrev pub strcmp_equal : Bytes → Bytes → Bytes → Bytes → Bool
strcmp_equal a behind_a b behind_b = bytes_eq (c_str (a ++ behind_a)) (c_str (b ++ behind_b))

-- The arrays of `authenticate`: what stands in each before the column is read into it, and behind
-- the stored hash and the computed one.
pub record Memory : Type 0 where
  pub stale_hash : Bytes
  pub stale_salt : Bytes
  pub behind_hash : Bytes
  pub behind_test : Bytes

-- A column of bytes, read into an array of 128.
abbrev pub read_array : Bytes → Bytes → Bytes
read_array stale column = take 128 (column ++ stale)

-- `pbkdf2` gives the hash of a password and a salt, or nothing if it fails.
module _ (pbkdf2 : Bytes → Bytes → Option Bytes) where
  -- What `authenticate` does once the passwords agree.
  abbrev pub admitted : Bytes → Store → Exit User → Exit (Bool × (Store × User))
  admitted new_token db (u, some thrown) = ((false, (db, u)), some thrown)
  admitted new_token db (u, none) =
      let made = create_session new_token (db, u) in ((true, made.0), made.1)

  unfoldable pub authenticate :
      Memory → Bytes → Bytes → Bytes → Store × User → Exit (Bool × (Store × User))
  unfolding first fill_by_id create_session
  authenticate m new_token email pass (db, u) =
      elim (first (λ r. bytes_eq r.email email) db.users) [
        | none ↦ fails_with "Query::row call exceeded row count" (false, (db, u))
        | some r ↦ elim (pbkdf2 pass (read_array m.stale_salt r.nacl)) [
          | none ↦ fails_with "Could not generate hash on authentication" (false, (db, u))
          | some test_hash ↦
              if strcmp_equal (read_array m.stale_hash r.hash) m.behind_hash test_hash m.behind_test
              then admitted new_token db (fill_by_id db r.id u)
              else ((false, (db, u)), none)
        ]
      ]

  -- `create`, with the row number and the salt that the server and `RAND_bytes` give.
  unfoldable pub user_create :
      Memory → Bytes → ℕ → Bytes → Bytes → Bytes → Store × User → Exit (Store × User)
  unfolding authenticate
  user_create m new_token new_id salt email password (db, u) = elim (pbkdf2 password salt) [
    | none ↦ fails_with "Could not generate hash on user creation" (db, u)
    | some hash ↦
        let row : UserRow = record { id = new_id; email = email; hash = hash; nacl = salt } in
        let db' : Store = record db { users = db.users ++ row ∷ [] } in
        let tried = authenticate m new_token email password (db', u) in (tried.0.1, tried.1)
  ]
