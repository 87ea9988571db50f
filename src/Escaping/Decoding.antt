-- ===== src/Escaping/Decoding.antt =====
-- What was escaped, decoded as a client decodes it.
use audio_tool_api.Prelude.{
  ℕ, ◌+◌, ◌-◌, ◌*◌, ◌/◌, ◌%◌, ◌<◌, ◌≡◌, refl, ap, ◌∙◌, true, false, [], ◌∷◌, ltb, ◌==◌,
  if◌then◌else◌, inl, inr, Bool-cases, All, All-imp, Bytes, IsByte, arith,
}
use audio_tool_api.Base64.{base64_encode, stops, is_base64}
use audio_tool_api.Base64.Encoding.{IsEncoded, base64_encode-IsEncoded}
use audio_tool_api.Escaping.{is_kept, hex_digit, url_encode, escape_token}

-- A decoder of percent escapes: between escapes, behind the sign, behind the first digit.
pub data Reading : Type 0 where
  plain behind_sign : Reading
  behind_digit : ℕ → Reading

abbrev pub digit_value : ℕ → ℕ
digit_value c = if ltb c b'A' then c - b'0' else c - b'A' + 10

unfoldable pub decode_from : Reading → Bytes → Bytes
decode_from r [] = []
decode_from plain (c ∷ s) =
    let escape = decode_from behind_sign s in
    let rest = decode_from plain s in if c == b'%' then escape else c ∷ rest
decode_from behind_sign (c ∷ s) = decode_from (behind_digit (digit_value c)) s
decode_from (behind_digit h) (c ∷ s) = (h * 16 + digit_value c) ∷ decode_from plain s

abbrev pub percent_decode : Bytes → Bytes
percent_decode = decode_from plain

hex_digit-lt : (n : ℕ) → n < 16 → digit_value (hex_digit n) ≡ n
hex_digit-lt n h = ground arith

kept_plain : (c : ℕ) → is_kept c ≡ true → (c == b'%') ≡ false
kept_plain c h = ground arith

both_digits :
    (c : ℕ) → c < 256 → digit_value (hex_digit (c / 16)) * 16 + digit_value (hex_digit (c % 16)) ≡ c
both_digits c h =
    omega (arith, hex_digit-lt (c / 16) (omega arith), hex_digit-lt (c % 16) (omega arith))

-- Decoding what `url_encode` made of any bytes gives them back.
pub percent_decode-url_encode : (s : Bytes) → All IsByte s → percent_decode (url_encode s) ≡ s
unfolding decode_from url_encode
percent_decode-url_encode [] h = refl
percent_decode-url_encode (c ∷ s) (b, h) = elim (Bool-cases (is_kept c)) [
  | inl k ↦ rw k (rw (kept_plain c k) (ap (◌∷◌ c) (percent_decode-url_encode s h)))
  | inr k ↦ rw k (
      ap (λ x. x ∷ percent_decode (url_encode s)) (both_digits c b)
      ∙ ap (◌∷◌ c) (percent_decode-url_encode s h))
]

abbrev IsPlain : ℕ → Type 0
IsPlain c = (c == b'%') ≡ false

IsEncoded-IsPlain : (c : ℕ) → IsEncoded c → IsPlain c
unfolding stops is_base64
IsEncoded-IsPlain c (inl e) = ground arith
IsEncoded-IsPlain c (inr e) = ground arith

percent_decode-escape_token : (s : Bytes) → All IsPlain s → percent_decode (escape_token s) ≡ s
unfolding decode_from escape_token
percent_decode-escape_token [] h = refl
percent_decode-escape_token (c ∷ s) (p, h) = ground (arith, percent_decode-escape_token s h)

-- Decoding the escaped token of any session, which is made of random bytes, gives the token back.
pub percent_decode-escape_token_of_session :
    (random : Bytes)
    → All IsByte random
    → percent_decode (escape_token (base64_encode random)) ≡ base64_encode random
percent_decode-escape_token_of_session random h =
    percent_decode-escape_token (base64_encode random) (
      All-imp IsEncoded IsPlain (base64_encode random) IsEncoded-IsPlain
        (base64_encode-IsEncoded random h))
