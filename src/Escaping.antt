-- ===== src/Escaping.antt =====
-- audio_tool_api/utilities/requests.h, `url_encode`, and the loop in audio_tool_api/handlers/auth.cpp
-- that escapes a session's token for the address that the login forwards to.
pub mod Decoding
use audio_tool_api.Prelude.{
  ℕ, ◌+◌, ◌-◌, ◌/◌, ◌%◌, Bool, ◌||◌, List, [], ◌∷◌, ◌++◌, ltb, ◌==◌, if◌then◌else◌, Bytes, codes,
}
use audio_tool_api.Base64.{isalnum}

-- "Alphanumeric and other accepted characters".
abbrev pub is_kept : ℕ → Bool
is_kept c = isalnum c || c == b'-' || c == b'_' || c == b'.' || c == b'~'

-- A digit that `hex` and `uppercase` print.
abbrev pub hex_digit : ℕ → ℕ
hex_digit n = if ltb n 10 then n + b'0' else n - 10 + b'A'

unfoldable pub url_encode : Bytes → Bytes
url_encode [] = []
url_encode (c ∷ value) =
    let escaped = url_encode value in
    if is_kept c then c ∷ escaped else b'%' ∷ hex_digit (c / 16) ∷ hex_digit (c % 16) ∷ escaped

unfoldable pub escape_token : Bytes → Bytes
escape_token [] = []
escape_token (c ∷ token) =
    let escaped = escape_token token in
    if c == b'/'
    then codes "%2F" ++ escaped
    else if c == b'+'
    then codes "%2B" ++ escaped
    else if c == b'='
    then codes "%3D" ++ escaped
    else c ∷ escaped
