-- ===== src/Http/Process/Utf8.antt =====
-- The texts that are UTF-8 (RFC 3629): those that the JSON library writes, as `dump` of
-- `http_worker::build_response` in audio_tool_api/http/http_worker.cpp needs them.
use audio_tool_api.Prelude.{
  ℕ, ◌≡◌, refl, Bool, true, ◌&&◌, ◌==◌, leb, ltb, if◌then◌else◌, [], ◌∷◌, ◌++◌, Bytes, codes, arith,
}
use audio_tool_api.Http.Process.{dash, please_wait, unhandled}

abbrev pub in_range : ℕ → ℕ → ℕ → Bool
in_range low high b = leb low b && leb b high

-- The first two bytes of three, without the overlong forms and the surrogates.
abbrev pub starts_three : ℕ → ℕ → Bool
starts_three b c =
    if b == 0xe0
    then in_range 0xa0 0xbf c
    else if b == 0xed
    then in_range 0x80 0x9f c
    else in_range 0xe1 0xef b && in_range 0x80 0xbf c

-- The first two bytes of four, up to the last code point.
abbrev pub starts_four : ℕ → ℕ → Bool
starts_four b c =
    if b == 0xf0
    then in_range 0x90 0xbf c
    else if b == 0xf4
    then in_range 0x80 0x8f c
    else in_range 0xf1 0xf3 b && in_range 0x80 0xbf c

pub data Utf8 : Bytes → Type 0 where
  no_bytes : Utf8 []
  one_byte : (b : ℕ) (rest : Bytes) → ltb b 0x80 ≡ true → Utf8 rest → Utf8 (b ∷ rest)
  two_bytes :
      (b c : ℕ) (rest : Bytes)
      → in_range 0xc2 0xdf b ≡ true
      → in_range 0x80 0xbf c ≡ true
      → Utf8 rest
      → Utf8 (b ∷ c ∷ rest)
  three_bytes :
      (b c d : ℕ) (rest : Bytes)
      → starts_three b c ≡ true
      → in_range 0x80 0xbf d ≡ true
      → Utf8 rest
      → Utf8 (b ∷ c ∷ d ∷ rest)
  four_bytes :
      (b c d e : ℕ) (rest : Bytes)
      → starts_four b c ≡ true
      → in_range 0x80 0xbf d ≡ true
      → in_range 0x80 0xbf e ≡ true
      → Utf8 rest
      → Utf8 (b ∷ c ∷ d ∷ e ∷ rest)

pub append-Utf8 : {xs ys : Bytes} → Utf8 xs → Utf8 ys → Utf8 (xs ++ ys)
append-Utf8 no_bytes u = u
append-Utf8 (one_byte b rest h t) u = one_byte b _ h (append-Utf8 t u)
append-Utf8 (two_bytes b c rest h k t) u = two_bytes b c _ h k (append-Utf8 t u)
append-Utf8 (three_bytes b c d rest h k t) u = three_bytes b c d _ h k (append-Utf8 t u)
append-Utf8 (four_bytes b c d e rest h k l t) u = four_bytes b c d e _ h k l (append-Utf8 t u)

abbrev pub is_ascii : Bytes → Bool
is_ascii [] = true
is_ascii (b ∷ bs) = ltb b 0x80 && is_ascii bs

pub ascii-Utf8 : (t : Bytes) → is_ascii t ≡ true → Utf8 t
ascii-Utf8 [] h = no_bytes
ascii-Utf8 (b ∷ bs) h = one_byte b bs (ground arith) (ascii-Utf8 bs (ground arith))

dash-Utf8 : Utf8 dash
dash-Utf8 = three_bytes 0xe2 0x80 0x93 [] refl refl no_bytes

pub please_wait-Utf8 : Utf8 please_wait
please_wait-Utf8 =
    append-Utf8 (ascii-Utf8 (codes "There was an error processing your request ") refl)
      (append-Utf8 dash-Utf8 (ascii-Utf8 (codes " Please wait and try again: ") refl))

pub unhandled-Utf8 : Utf8 unhandled
unhandled-Utf8 =
    append-Utf8 (ascii-Utf8 (codes "Unhandled exception caught by the server ") refl)
      (append-Utf8 dash-Utf8 (ascii-Utf8 (codes " Please wait and try again") refl))
