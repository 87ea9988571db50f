-- ===== src/Models/Registration.antt =====
-- A user who was created can log in.
use audio_tool_api.Prelude.{
  ℕ, ◌≡◌, refl, sym, ap, subst, ◌∙◌, true, none, some, Option, List, [], ◌∷◌, ◌++◌, ◌==◌, length,
  take, take-append, Bytes, bytes_eq, arith,
}
use audio_tool_api.Prelude.Dict.{bytes_eq_refl}
use audio_tool_api.Models.{
  Store, User, UserRow, SessionRow, Memory, first, has_token, read_array, authenticate, user_create,
}
use audio_tool_api.Models.Rows.{first-append_last}
use audio_tool_api.Models.Passwords.{NoZero, authenticate_up_to_zero}

read_array-full : (stale column : Bytes) → length column ≡ 128 → read_array stale column ≡ column
read_array-full stale column l =
    ap (λ n. take n (column ++ stale)) (sym l) ∙ take-append column stale

abbrev row_of : ℕ → Bytes → Bytes → Bytes → UserRow
row_of id email hash salt = record { id = id; email = email; hash = hash; nacl = salt }

email_first :
    (users : List UserRow) (r : UserRow)
    → first (λ x. bytes_eq x.email r.email) users ≡ none
    → first (λ x. bytes_eq x.email r.email) (users ++ r ∷ []) ≡ some r
email_first users r n =
    ground
      (arith, first-append_last (λ x. bytes_eq x.email r.email) users r n, bytes_eq_refl r.email)

id_first :
    (users : List UserRow) (r : UserRow)
    → first (λ x. x.id == r.id) users ≡ none
    → first (λ x. x.id == r.id) (users ++ r ∷ []) ≡ some r
id_first users r n = ground (arith, first-append_last (λ x. x.id == r.id) users r n)

module _ (pbkdf2 : Bytes → Bytes → Option Bytes) where
  -- A user who is created with a new email and a new number, where the hash of the password has 128
  -- bytes and a zero byte among them, and the token is new: the creation succeeds, and afterwards,
  -- with any sessions in the table that do not have the next token, the email and the password are
  -- accepted without an exception.
  pub user_create-authenticate :
      (m m' : Memory) (token token' : Bytes) (id : ℕ) (salt email pass : Bytes) (db : Store)
      (u v : User) (sessions : List SessionRow) (same rest : Bytes)
      → first (λ x. bytes_eq x.email email) db.users ≡ none
      → first (λ x. x.id == id) db.users ≡ none
      → first (has_token token) db.sessions ≡ none
      → first (has_token token') sessions ≡ none
      → pbkdf2 pass salt ≡ some (same ++ 0 ∷ rest)
      → NoZero same
      → length (same ++ 0 ∷ rest) ≡ 128
      → length salt ≡ 128
      → let registered = user_create pbkdf2 m token id salt email pass (db, u) in
        (registered.1 ≡ none)
        × ((authenticate pbkdf2 m' token' email pass
              (record registered.0.0 { sessions = sessions }, v)).0.0
            ≡ true)
        × ((authenticate pbkdf2 m' token' email pass
              (record registered.0.0 { sessions = sessions }, v)).1
            ≡ none)
  unfolding user_create
  user_create-authenticate m m' token token' id salt email pass db u v sessions same rest e i n n' h
        z l k =
      let hash : Bytes = same ++ 0 ∷ rest in
      let r : UserRow = row_of id email hash salt in
      let db' : Store = record db { users = db.users ++ r ∷ [] } in
      let by_email = email_first db.users r e in
      let by_id = id_first db.users r i in
      let tried =
        authenticate_up_to_zero pbkdf2 m token email pass db' u r same rest rest by_email by_id n z
          (read_array-full m.stale_hash hash l)
          (ap (pbkdf2 pass) (read_array-full m.stale_salt salt k) ∙ h) in
      let first_try = authenticate pbkdf2 m token email pass (db', u) in
      let created : user_create pbkdf2 m token id salt email pass (db, u)
          ≡ (first_try.0.1, first_try.1) =
        rw (h, user_create) refl in
      let after : Store = record first_try.0.1.0 { sessions = sessions } in
      let same_users : db'.users ≡ after.users = sym tried.2 in
      let again =
        authenticate_up_to_zero pbkdf2 m' token' email pass after v r same rest rest
          (subst (λ us. first (λ x. bytes_eq x.email email) us ≡ some r) same_users by_email)
          (subst (λ us. first (λ x. x.id == id) us ≡ some r) same_users by_id) n' z
          (read_array-full m'.stale_hash hash l)
          (ap (pbkdf2 pass) (read_array-full m'.stale_salt salt k) ∙ h) in
      (
        ap (λ x. x.1) created ∙ tried.1,
        subst
            (λ x.
              (authenticate pbkdf2 m' token' email pass
                (record x.0.0 { sessions = sessions }, v)).0.0
              ≡ true)
            (sym created) again.0,
        subst
            (λ x.
              (authenticate pbkdf2 m' token' email pass (record x.0.0 { sessions = sessions }, v)).1
              ≡ none)
            (sym created) again.1,
      )
