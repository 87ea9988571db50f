-- ===== src/Models/Passwords.antt =====
-- The comparison of passwords, which is made with `strcmp` on arrays of bytes.
use audio_tool_api.Prelude.{
  ◌≡◌, ◌≢◌, refl, sym, ap, ◌∙◌, Bool-cases, inl, inr, true, false, Option, none, some, [], ◌∷◌,
  ◌++◌, ◌==◌, All, Bytes, bytes_eq,
}
use audio_tool_api.Prelude.Dict.{bytes_eq_iff}
use audio_tool_api.Request.{c_str}
use audio_tool_api.Models.Sessions.{session_create-row}
use audio_tool_api.Models.{
  Store, User, UserRow, Memory, first, has_token, fill_by_id, create_session, authenticate,
  read_array, strcmp_equal, admitted,
}

-- No zero byte.
abbrev pub NoZero : Bytes → Type 0
NoZero = All λ c. (c == 0) ≡ false

c_str-append : (a b : Bytes) → NoZero a → c_str (a ++ b) ≡ a ++ c_str b
c_str-append [] b h = refl
c_str-append (x ∷ a) b (h, hs) = rw h (ap (◌∷◌ x) (c_str-append a b hs))

c_str-append_zero : (a b c : Bytes) → NoZero a → c_str ((a ++ 0 ∷ b) ++ c) ≡ a
c_str-append_zero [] b c h = refl
c_str-append_zero (x ∷ a) b c (h, hs) = rw h (ap (◌∷◌ x) (c_str-append_zero a b c hs))

append-cancel : (a b c : Bytes) → a ++ b ≡ a ++ c → b ≡ c
append-cancel [] b c e = e
append-cancel (x ∷ a) b c e = append-cancel a b c (cc e)

found_user :
    (db : Store) (u : User) (r : UserRow)
    → first (λ x. x.id == r.id) db.users ≡ some r
    → fill_by_id db r.id u ≡ (record u { id = r.id; email_address = r.email }, none)
unfolding fill_by_id
found_user db u r i = rw (i, fill_by_id) refl

module _ (pbkdf2 : Bytes → Bytes → Option Bytes) where
  -- If the stored hash and the hash of the password that is given agree up to a zero byte, then
  -- the password is accepted and a session is made, while the users stay, whatever the rest of the two hashes and the memory behind them; in
  -- particular if both begin with a zero byte.
  pub authenticate_up_to_zero :
      (m : Memory) (new_token email pass : Bytes) (db : Store) (u : User) (r : UserRow)
      (same rest rest' : Bytes)
      → first (λ x. bytes_eq x.email email) db.users ≡ some r
      → first (λ x. x.id == r.id) db.users ≡ some r
      → first (has_token new_token) db.sessions ≡ none
      → NoZero same
      → read_array m.stale_hash r.hash ≡ same ++ 0 ∷ rest
      → pbkdf2 pass (read_array m.stale_salt r.nacl) ≡ some (same ++ 0 ∷ rest')
      → ((authenticate pbkdf2 m new_token email pass (db, u)).0.0 ≡ true)
        × ((authenticate pbkdf2 m new_token email pass (db, u)).1 ≡ none)
        × ((authenticate pbkdf2 m new_token email pass (db, u)).0.1.0.users ≡ db.users)
  unfolding authenticate create_session
  authenticate_up_to_zero m new_token email pass db u r same rest rest' e i n z a t =
      let equal : strcmp_equal (read_array m.stale_hash r.hash) m.behind_hash (same ++ 0 ∷ rest')
            m.behind_test
          ≡ true =
        (bytes_eq_iff _ _).1 (
          ap (λ x. c_str (x ++ m.behind_hash)) a
          ∙ c_str-append_zero same rest m.behind_hash z
          ∙ sym (c_str-append_zero same rest' m.behind_test z)) in
      let u' : User = record u { id = r.id; email_address = r.email } in
      let made = session_create-row db u.current_session new_token r.id n in
      let accepted : authenticate pbkdf2 m new_token email pass (db, u)
          ≡ admitted pbkdf2 new_token db (u', none) =
        rw (e, t, equal, authenticate) (ap (admitted pbkdf2 new_token db) (found_user db u r i)) in
      (
        ap (λ x. x.0.0) accepted,
        ap (λ x. x.1) accepted ∙ ap (λ x. x.1) made,
        ap (λ x. x.0.1.0.users) accepted ∙ ap (λ x. x.0.0.users) made,
      )

  -- If the stored hash holds no zero byte, the comparison goes on behind the arrays: where the
  -- bytes there differ, the password that the hash was made from is refused.
  pub authenticate_overruns :
      (m : Memory) (new_token email pass : Bytes) (db : Store) (u : User) (r : UserRow)
      (hash : Bytes)
      → first (λ x. bytes_eq x.email email) db.users ≡ some r
      → NoZero hash
      → read_array m.stale_hash r.hash ≡ hash
      → pbkdf2 pass (read_array m.stale_salt r.nacl) ≡ some hash
      → c_str m.behind_hash ≢ c_str m.behind_test
      → authenticate pbkdf2 m new_token email pass (db, u) ≡ ((false, (db, u)), none)
  unfolding authenticate
  authenticate_overruns m new_token email pass db u r hash e z a t d =
      let unequal : strcmp_equal (read_array m.stale_hash r.hash) m.behind_hash hash m.behind_test
          ≡ false =
        elim (Bool-cases
          (strcmp_equal (read_array m.stale_hash r.hash) m.behind_hash hash m.behind_test)) [
            | inr f ↦ f
            | inl f ↦ absurd (
                d (
                  append-cancel hash _ _ (
                    sym (c_str-append hash m.behind_hash z)
                    ∙ ap (λ x. c_str (x ++ m.behind_hash)) (sym a)
                    ∙ (bytes_eq_iff _ _).0 f
                    ∙ c_str-append hash m.behind_test z)))
          ] in
      rw (e, t, unequal, authenticate) refl
