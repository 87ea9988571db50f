-- ===== src/Base64/Encoding.antt =====
-- The shape of the encoder's output: its length and its alphabet.
use audio_tool_api.Prelude.{
  ℕ, ◌+◌, ◌*◌, ◌/◌, ◌<◌, ◌≡◌, ◌⊎◌, inl, inr, refl, false, [], ◌∷◌, ◌++◌, arith, length,
  length-append, All, All-append, Bytes, IsByte,
}
use audio_tool_api.Base64.Sextets.{masks_lem, char_at-listed}
use audio_tool_api.Base64.{
  char_at, char_array_4, encode_group, encode_tail, encode_loop, base64_encode, stops,
}

-- The bytes of `pending` and `input` together, in whole groups of three.
encode_loop-length :
    (ret pending input : Bytes)
    → length pending < 3
    → length (encode_loop ret pending input)
      ≡ length ret + 4 * ((length pending + length input + 2) / 3)
unfolding encode_loop encode_tail encode_group
encode_loop-length ret [] [] h = omega (arith, length-append {0} ret [])
encode_loop-length ret (a ∷ []) [] h = omega (arith, length-append {0} ret (encode_tail (a ∷ [])))
encode_loop-length ret (a ∷ b ∷ []) [] h =
    omega (arith, length-append {0} ret (encode_tail (a ∷ b ∷ [])))
encode_loop-length ret (a ∷ b ∷ c ∷ more) [] h = absurd (omega arith)
encode_loop-length ret (a ∷ b ∷ []) (c ∷ input) h = omega (
  arith,
  encode_loop-length (ret ++ encode_group a b c) [] input (omega arith),
  length-append {0} ret (encode_group a b c),
)
encode_loop-length ret (a ∷ b ∷ c ∷ more) (d ∷ input) h = absurd (omega arith)
encode_loop-length ret (a ∷ []) (c ∷ input) h =
    omega (arith, encode_loop-length ret (a ∷ c ∷ []) input (omega arith))
encode_loop-length ret [] (c ∷ input) h =
    omega (arith, encode_loop-length ret (c ∷ []) input (omega arith))

-- The encoding of n bytes has four characters for every group of three bytes begun.
pub length-base64_encode :
    (input : Bytes) → length (base64_encode input) ≡ 4 * ((length input + 2) / 3)
unfolding base64_encode
length-base64_encode input = omega (arith, encode_loop-length [] [] input (omega arith))

-- A character of the alphabet, or padding.
abbrev pub IsEncoded : ℕ → Type 0
IsEncoded c = (stops c ≡ false) ⊎ (c ≡ b'=')

char_at-IsEncoded : (n : ℕ) → n < 64 → IsEncoded (char_at n)
char_at-IsEncoded n h = inl (char_at-listed n h).0

pub char_array_4-lt :
    (a b c : ℕ) → a < 256 → b < 256 → c < 256 → All (λ x. x < 64) (char_array_4 a b c)
char_array_4-lt a b c ha hb hc = omega (arith, masks_lem a ha, masks_lem b hb, masks_lem c hc)

encode_group-IsEncoded :
    (a b c : ℕ) → a < 256 → b < 256 → c < 256 → All IsEncoded (encode_group a b c)
unfolding encode_group
encode_group-IsEncoded a b c ha hb hc =
    let h = char_array_4-lt a b c ha hb hc in
    (
      char_at-IsEncoded _ h.0,
      (
        char_at-IsEncoded _ h.1.0,
        (char_at-IsEncoded _ h.1.1.0, (char_at-IsEncoded _ h.1.1.1.0, tt)),
      ),
    )

encode_tail-IsEncoded :
    (pending : Bytes)
    → length pending < 3
    → All IsByte pending
    → All IsEncoded (encode_tail pending)
unfolding encode_tail
encode_tail-IsEncoded [] l h = tt
encode_tail-IsEncoded (a ∷ []) l h =
    let e = char_array_4-lt a 0 0 h.0 (omega arith) (omega arith) in
    (char_at-IsEncoded _ e.0, (char_at-IsEncoded _ e.1.0, (inr refl, (inr refl, tt))))
encode_tail-IsEncoded (a ∷ b ∷ []) l h =
    let e = char_array_4-lt a b 0 h.0 h.1.0 (omega arith) in
    (
      char_at-IsEncoded _ e.0,
      (char_at-IsEncoded _ e.1.0, (char_at-IsEncoded _ e.1.1.0, (inr refl, tt))),
    )
encode_tail-IsEncoded (a ∷ b ∷ c ∷ more) l h = absurd (omega arith)

encode_loop-IsEncoded :
    (ret pending input : Bytes)
    → length pending < 3
    → All IsEncoded ret
    → All IsByte pending
    → All IsByte input
    → All IsEncoded (encode_loop ret pending input)
unfolding encode_loop
encode_loop-IsEncoded ret pending [] l r p i =
    All-append IsEncoded ret (encode_tail pending) r (encode_tail-IsEncoded pending l p)
encode_loop-IsEncoded ret (a ∷ b ∷ []) (c ∷ input) l r p i =
    encode_loop-IsEncoded (ret ++ encode_group a b c) [] input (omega arith)
      (All-append IsEncoded ret _ r (encode_group-IsEncoded a b c p.0 p.1.0 i.0)) tt i.1
encode_loop-IsEncoded ret (a ∷ b ∷ c ∷ more) (d ∷ input) l r p i = absurd (omega arith)
encode_loop-IsEncoded ret (a ∷ []) (c ∷ input) l r p i =
    encode_loop-IsEncoded ret (a ∷ c ∷ []) input (omega arith) r (p.0, (i.0, tt)) i.1
encode_loop-IsEncoded ret [] (c ∷ input) l r p i =
    encode_loop-IsEncoded ret (c ∷ []) input (omega arith) r (i.0, tt) i.1

-- Whatever bytes are encoded, the text is made of the alphabet and of padding.
pub base64_encode-IsEncoded :
    (input : Bytes) → All IsByte input → All IsEncoded (base64_encode input)
unfolding base64_encode
base64_encode-IsEncoded input h = encode_loop-IsEncoded [] [] input (omega arith) tt tt h
