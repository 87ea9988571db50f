-- ===== src/Base64.antt =====
-- audio_tool_api/utilities/base64.cpp: the encoder and the decoder.
-- `char_array_3[0..i)` and `char_array_4[0..i)` are kept as the list `pending` of their `i` bytes;
-- what stands behind them in the array is the argument `stale`.
mod Sextets
pub mod Encoding
pub mod RoundTrip
pub mod Stops
use audio_tool_api.Prelude.{
  ℕ, ◌+◌, ◌-◌, ◌*◌, ◌/◌, ◌%◌, ◌^◌, bit_and, Bool, not, ◌&&◌, ◌||◌, [], ◌∷◌, ◌++◌, map, leb, ◌==◌,
  if◌then◌else◌, length, get_or, take, replicate, Bytes, codes,
}

abbrev pub base64_chars : Bytes
base64_chars = codes "ABCDEFGHIJKLMNOPQRSTUVWXYZabcdefghijklmnopqrstuvwxyz0123456789+/"

-- `isalnum` of the C locale.
abbrev pub isalnum : ℕ → Bool
isalnum c = (leb b'a' c && leb c b'z') || (leb b'A' c && leb c b'Z') || (leb b'0' c && leb c b'9')

unfoldable pub is_base64 : ℕ → Bool
is_base64 c = isalnum c || c == b'+' || c == b'/'

-- The three or two sextets that both encoder blocks compute, and the fourth.
abbrev pub char_array_4 : ℕ → ℕ → ℕ → Bytes
char_array_4 a b c =
    (bit_and a 0xfc / 2 ^ 2)
    ∷ (bit_and a 0x03 * 2 ^ 4 + bit_and b 0xf0 / 2 ^ 4)
    ∷ (bit_and b 0x0f * 2 ^ 2 + bit_and c 0xc0 / 2 ^ 6)
    ∷ bit_and c 0x3f
    ∷ []

-- `base64_chars[n]`; the index one past the end reads the terminating zero.
pub char_at : ℕ → ℕ
char_at n = get_or base64_chars n 0

pub encode_group : ℕ → ℕ → ℕ → Bytes
encode_group a b c = map char_at (char_array_4 a b c)

-- The block after the loop: the missing bytes are zero, `i + 1` characters are written and then
-- `3 - i` times the sign `=`.
pub encode_tail : Bytes → Bytes
encode_tail [] = []
encode_tail (a ∷ more) =
    let i = length (a ∷ more) in
    let b = get_or more 0 0 in
    let c = get_or more 1 0 in
    map char_at (take (i + 1) (take 3 (char_array_4 a b c))) ++ replicate (3 - i) b'='

-- The loop `while (in_len--)`, from `pending` and the output so far.
pub encode_loop : Bytes → Bytes → Bytes → Bytes
encode_loop ret pending [] = ret ++ encode_tail pending
encode_loop ret (a ∷ b ∷ pending) (c ∷ input) = encode_loop (ret ++ encode_group a b c) [] input
encode_loop ret (a ∷ []) (c ∷ input) = encode_loop ret (a ∷ c ∷ []) input
encode_loop ret [] (c ∷ input) = encode_loop ret (c ∷ []) input

unfoldable pub base64_encode : Bytes → Bytes
unfolding encode_loop encode_tail encode_group char_at
base64_encode input = encode_loop [] [] input

-- `base64_chars.find(c)` stored in an `unsigned char`; `npos` becomes 255.
pub find_from : Bytes → ℕ → ℕ → ℕ
find_from [] c i = 255
find_from (x ∷ xs) c i = if x == c then i else find_from xs c (i + 1)

abbrev pub find : ℕ → ℕ
find c = find_from base64_chars c 0

abbrev pub char_array_3 : ℕ → ℕ → ℕ → ℕ → Bytes
char_array_3 a b c d =
    ((a * 2 ^ 2 + bit_and b 0x30 / 2 ^ 4) % 256)
    ∷ ((bit_and b 0xf * 2 ^ 4 + bit_and c 0x3c / 2 ^ 2) % 256)
    ∷ ((bit_and c 0x3 * 2 ^ 6 + d) % 256)
    ∷ []

pub decode_group : ℕ → ℕ → ℕ → ℕ → Bytes
decode_group a b c d = char_array_3 (find a) (find b) (find c) (find d)

-- The block after the loop. It computes two bytes, from stale sextets too, and appends `i - 1`.
pub decode_tail : Bytes → Bytes → Bytes
decode_tail stale [] = []
decode_tail stale (a ∷ more) =
    let i = length (a ∷ more) in
    let sextets = map find (a ∷ more) ++ stale in
    take (i - 1)
      (take 2 (char_array_3 (get_or sextets 0 0) (get_or sextets 1 0) (get_or sextets 2 0) 0))

-- The test of the loop: `=` and any foreign character end the input.
unfoldable pub stops : ℕ → Bool
unfolding is_base64
stops x = not (not (x == b'=') && is_base64 x)

-- The loop `while (in_len-- && ...)`.
pub decode_loop : Bytes → Bytes → Bytes → Bytes → Bytes
decode_loop stale ret pending [] = ret ++ decode_tail stale pending
decode_loop stale ret (a ∷ b ∷ c ∷ pending) (x ∷ input) =
    let rest = decode_loop stale (ret ++ decode_group a b c x) [] input in
    if stops x then ret ++ decode_tail stale (a ∷ b ∷ c ∷ pending) else rest
decode_loop stale ret (a ∷ b ∷ []) (x ∷ input) =
    let rest = decode_loop stale ret (a ∷ b ∷ x ∷ []) input in
    if stops x then ret ++ decode_tail stale (a ∷ b ∷ []) else rest
decode_loop stale ret (a ∷ []) (x ∷ input) =
    let rest = decode_loop stale ret (a ∷ x ∷ []) input in
    if stops x then ret ++ decode_tail stale (a ∷ []) else rest
decode_loop stale ret [] (x ∷ input) =
    let rest = decode_loop stale ret (x ∷ []) input in
    if stops x then ret ++ decode_tail stale [] else rest

unfoldable pub base64_decode : Bytes → Bytes → Bytes
unfolding decode_loop decode_tail decode_group find_from stops
base64_decode stale input = decode_loop stale [] [] input
