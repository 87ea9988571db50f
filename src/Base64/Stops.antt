-- ===== src/Base64/Stops.antt =====
-- Where the decoder's loop ends.
use audio_tool_api.Prelude.{ℕ, ◌≡◌, ap, true, [], ◌∷◌, ◌++◌, Bytes, if◌then◌else◌}
use audio_tool_api.Base64.{stops, decode_loop, base64_decode, decode_group, decode_tail}

module _ (stale rest : Bytes) (c : ℕ) (stop : stops c ≡ true) where
  decode_loop-stop :
      (ret pending : Bytes)
      → decode_loop stale ret pending (c ∷ rest) ≡ ret ++ decode_tail stale pending
  unfolding decode_loop
  decode_loop-stop ret [] = rw stop
  decode_loop-stop ret (a ∷ []) = rw stop
  decode_loop-stop ret (a ∷ b ∷ []) = rw stop
  decode_loop-stop ret (a ∷ b ∷ d ∷ more) = rw stop

  decode_loop-append_stop :
      (ret pending input : Bytes)
      → decode_loop stale ret pending (input ++ c ∷ rest) ≡ decode_loop stale ret pending input
  unfolding decode_loop
  decode_loop-append_stop ret pending [] = decode_loop-stop ret pending
  decode_loop-append_stop ret [] (x ∷ input) =
      ap (if◌then◌else◌ (stops x) _) (decode_loop-append_stop ret (x ∷ []) input)
  decode_loop-append_stop ret (a ∷ []) (x ∷ input) =
      ap (if◌then◌else◌ (stops x) _) (decode_loop-append_stop ret (a ∷ x ∷ []) input)
  decode_loop-append_stop ret (a ∷ b ∷ []) (x ∷ input) =
      ap (if◌then◌else◌ (stops x) _) (decode_loop-append_stop ret (a ∷ b ∷ x ∷ []) input)
  decode_loop-append_stop ret (a ∷ b ∷ d ∷ more) (x ∷ input) =
      ap (if◌then◌else◌ (stops x) _)
        (decode_loop-append_stop (ret ++ decode_group a b d x) [] input)

  -- The decoder ignores the first character that is foreign or `=`, and all that follows it.
  pub base64_decode_truncates :
      (input : Bytes) → base64_decode stale (input ++ c ∷ rest) ≡ base64_decode stale input
  unfolding base64_decode
  base64_decode_truncates input = decode_loop-append_stop [] [] input
