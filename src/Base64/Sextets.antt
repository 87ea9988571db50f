-- ===== src/Base64/Sextets.antt =====
-- The shifts and masks of base64.cpp as arithmetic, and the alphabet as a bijection with 0..63.
use audio_tool_api.Prelude.{
  ℕ, ◌/◌, ◌%◌, ◌^◌, ◌<◌, ◌≡◌, refl, bit_and, Bool, true, false, ◌&&◌, not, ◌==◌, arith,
}
use audio_tool_api.Prelude.Tables.{table, table_lem}
use audio_tool_api.Base64.{char_at, find, find_from, stops}

masks : ℕ → Bool
masks a =
    bit_and a 0xfc / 2 ^ 2 == a / 4
    && bit_and a 0x03 == a % 4
    && bit_and a 0xf0 / 2 ^ 4 == a / 16
    && bit_and a 0x0f == a % 16
    && bit_and a 0xc0 / 2 ^ 6 == a / 64
    && bit_and a 0x3f == a % 64
    && bit_and a 0x30 / 2 ^ 4 == (a / 16) % 4
    && bit_and a 0x3c / 2 ^ 2 == (a / 4) % 16

masks-table : table masks 256 ≡ true
unfolding table masks
masks-table = refl

pub masks_lem :
    (a : ℕ)
    → a < 256
    → (bit_and a 0xfc / 4 ≡ a / 4)
      × (bit_and a 0x03 ≡ a % 4)
      × (bit_and a 0xf0 / 16 ≡ a / 16)
      × (bit_and a 0x0f ≡ a % 16)
      × (bit_and a 0xc0 / 64 ≡ a / 64)
      × (bit_and a 0x3f ≡ a % 64)
      × (bit_and a 0x30 / 16 ≡ (a / 16) % 4)
      × (bit_and a 0x3c / 4 ≡ (a / 4) % 16)
unfolding masks
masks_lem a h = ground (arith, table_lem masks 256 a masks-table h)

listed : ℕ → Bool
listed n = not (stops (char_at n)) && find (char_at n) == n

listed-table : table listed 64 ≡ true
unfolding table listed find_from stops char_at
listed-table = refl

split : (s : Bool) (x y : ℕ) → (not s && x == y) ≡ true → (s ≡ false) × (x ≡ y)
split s x y h = ground arith

pub char_at-listed : (n : ℕ) → n < 64 → (stops (char_at n) ≡ false) × (find (char_at n) ≡ n)
unfolding listed
char_at-listed n h = split _ _ _ (table_lem listed 64 n listed-table h)
