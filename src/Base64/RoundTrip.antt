-- ===== src/Base64/RoundTrip.antt =====
-- Decoding what was encoded.
use audio_tool_api.Prelude.{
  ℕ, ◌+◌, ◌*◌, ◌/◌, ◌<◌, ◌≡◌, refl, ap, sym, ◌∙◌, [], ◌∷◌, ◌++◌, append_assoc, append-nil, arith,
  ◌^◌, bit_and, Bytes, IsByte, All, length, take, get_or, true,
}
use audio_tool_api.Base64.Sextets.{masks_lem, char_at-listed}
use audio_tool_api.Base64.Encoding.{char_array_4-lt}
use audio_tool_api.Base64.{
  char_array_3, char_at, encode_group, encode_loop, encode_tail, base64_encode, stops, decode_loop,
  decode_tail, decode_group, base64_decode,
}

padding_stops : stops b'=' ≡ true
unfolding stops
padding_stops = refl

encode_loop-append :
    (ret pending input : Bytes)
    → encode_loop ret pending input ≡ ret ++ encode_loop [] pending input
unfolding encode_loop
encode_loop-append ret pending [] = refl
encode_loop-append ret (a ∷ b ∷ more) (c ∷ input) =
    encode_loop-append (ret ++ encode_group a b c) [] input
    ∙ append_assoc ret (encode_group a b c) (encode_loop [] [] input)
    ∙ ap (◌++◌ ret) (sym (encode_loop-append (encode_group a b c) [] input))
encode_loop-append ret (a ∷ []) (c ∷ input) = encode_loop-append ret (a ∷ c ∷ []) input
encode_loop-append ret [] (c ∷ input) = encode_loop-append ret (c ∷ []) input

-- The decoder's shifts undo the encoder's.
char_array_3-char_array_4 :
    (a b c : ℕ)
    → a < 256
    → b < 256
    → c < 256
    → char_array_3
        (bit_and a 0xfc / 2 ^ 2)
        (bit_and a 0x03 * 2 ^ 4 + bit_and b 0xf0 / 2 ^ 4)
        (bit_and b 0x0f * 2 ^ 2 + bit_and c 0xc0 / 2 ^ 6)
        (bit_and c 0x3f)
      ≡ a ∷ b ∷ c ∷ []
char_array_3-char_array_4 a b c ha hb hc = ground (
  arith,
  masks_lem a ha,
  masks_lem b hb,
  masks_lem c hc,
  char_array_4-lt a b c ha hb hc,
  masks_lem (bit_and a 0x03 * 2 ^ 4 + bit_and b 0xf0 / 2 ^ 4),
  masks_lem (bit_and b 0x0f * 2 ^ 2 + bit_and c 0xc0 / 2 ^ 6),
)

decode_loop-group :
    (stale out rest : Bytes) (x y z w : ℕ)
    → x < 64
    → y < 64
    → z < 64
    → w < 64
    → decode_loop stale out [] (char_at x ∷ char_at y ∷ char_at z ∷ char_at w ∷ rest)
      ≡ decode_loop stale (out ++ char_array_3 x y z w) [] rest
unfolding decode_loop decode_group
decode_loop-group stale out rest x y z w hx hy hz hw = rw (
  (char_at-listed x hx).0,
  (char_at-listed y hy).0,
  (char_at-listed z hz).0,
  (char_at-listed w hw).0,
  (char_at-listed x hx).1,
  (char_at-listed y hy).1,
  (char_at-listed z hz).1,
  (char_at-listed w hw).1,
)

decode_loop-encode_group :
    (stale out rest : Bytes) (a b c : ℕ)
    → a < 256
    → b < 256
    → c < 256
    → decode_loop stale out [] (encode_group a b c ++ rest)
      ≡ decode_loop stale (out ++ (a ∷ b ∷ c ∷ [])) [] rest
unfolding encode_group
decode_loop-encode_group stale out rest a b c ha hb hc =
    let h = char_array_4-lt a b c ha hb hc in
    decode_loop-group stale out rest _ _ _ _ h.0 h.1.0 h.1.1.0 h.1.1.1.0
    ∙ ap (λ bs. decode_loop stale (out ++ bs) [] rest) (char_array_3-char_array_4 a b c ha hb hc)

decode_loop-pad_two :
    (stale out : Bytes) (x y : ℕ)
    → x < 64
    → y < 64
    → decode_loop stale out [] (char_at x ∷ char_at y ∷ b'=' ∷ b'=' ∷ [])
      ≡ out ++ take 1 (char_array_3 x y (get_or stale 0 0) 0)
unfolding decode_loop decode_tail
decode_loop-pad_two stale out x y hx hy = rw (
  (char_at-listed x hx).0,
  (char_at-listed y hy).0,
  padding_stops,
  (char_at-listed x hx).1,
  (char_at-listed y hy).1,
)

decode_loop-pad_one :
    (stale out : Bytes) (x y z : ℕ)
    → x < 64
    → y < 64
    → z < 64
    → decode_loop stale out [] (char_at x ∷ char_at y ∷ char_at z ∷ b'=' ∷ [])
      ≡ out ++ take 2 (char_array_3 x y z 0)
unfolding decode_loop decode_tail
decode_loop-pad_one stale out x y z hx hy hz = rw (
  (char_at-listed x hx).0,
  (char_at-listed y hy).0,
  (char_at-listed z hz).0,
  padding_stops,
  (char_at-listed x hx).1,
  (char_at-listed y hy).1,
  (char_at-listed z hz).1,
)

decode_loop-encode_tail :
    (stale out pending : Bytes)
    → length pending < 3
    → All IsByte pending
    → decode_loop stale out [] (encode_tail pending) ≡ out ++ pending
unfolding encode_tail
decode_loop-encode_tail stale out [] l h = unfold decode_loop decode_tail in refl
decode_loop-encode_tail stale out (a ∷ []) l h =
    let e = char_array_4-lt a 0 0 h.0 (omega arith) (omega arith) in
    decode_loop-pad_two stale out _ _ e.0 e.1.0
    ∙ ap (λ bs. out ++ take 1 bs) (char_array_3-char_array_4 a 0 0 h.0 (omega arith) (omega arith))
decode_loop-encode_tail stale out (a ∷ b ∷ []) l h =
    let e = char_array_4-lt a b 0 h.0 h.1.0 (omega arith) in
    decode_loop-pad_one stale out _ _ _ e.0 e.1.0 e.1.1.0
    ∙ ap (λ bs. out ++ take 2 bs) (char_array_3-char_array_4 a b 0 h.0 h.1.0 (omega arith))
decode_loop-encode_tail stale out (a ∷ b ∷ c ∷ more) l h = absurd (omega arith)

decode_loop-encode_loop :
    (stale out pending input : Bytes)
    → length pending < 3
    → All IsByte pending
    → All IsByte input
    → decode_loop stale out [] (encode_loop [] pending input) ≡ out ++ (pending ++ input)
unfolding encode_loop
decode_loop-encode_loop stale out pending [] l p i =
    decode_loop-encode_tail stale out pending l p ∙ ap (◌++◌ out) (sym (append-nil pending))
decode_loop-encode_loop stale out (a ∷ b ∷ []) (c ∷ input) l p i =
    ap (decode_loop stale out []) (encode_loop-append (encode_group a b c) [] input)
    ∙ decode_loop-encode_group stale out (encode_loop [] [] input) a b c p.0 p.1.0 i.0
    ∙ decode_loop-encode_loop stale (out ++ (a ∷ b ∷ c ∷ [])) [] input (omega arith) tt i.1
    ∙ append_assoc out (a ∷ b ∷ c ∷ []) input
decode_loop-encode_loop stale out (a ∷ b ∷ c ∷ more) (d ∷ input) l p i = absurd (omega arith)
decode_loop-encode_loop stale out (a ∷ []) (c ∷ input) l p i =
    decode_loop-encode_loop stale out (a ∷ c ∷ []) input (omega arith) (p.0, (i.0, tt)) i.1
decode_loop-encode_loop stale out [] (c ∷ input) l p i =
    decode_loop-encode_loop stale out (c ∷ []) input (omega arith) (i.0, tt) i.1

-- Decoding the encoding of any bytes gives them back, whatever stands in the decoder's
-- uninitialised array.
pub base64_decode-base64_encode :
    (stale input : Bytes) → All IsByte input → base64_decode stale (base64_encode input) ≡ input
unfolding base64_decode base64_encode
base64_decode-base64_encode stale input h =
    decode_loop-encode_loop stale [] [] input (omega arith) tt h
