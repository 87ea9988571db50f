-- ===== src/Tests/Audio.antt =====
-- The buffers of the audio processor at concrete inputs.
use audio_tool_api.Prelude.{
  ℕ, ◌≡◌, refl, Option, some, List, [], ◌∷◌, Bytes, replicate, length, length-replicate,
}
use mathlib.Core.List.{flatten}
use audio_tool_api.Audio.Buffers.{OutputBuffer, init_output_buffer, get_output_content, done}
use audio_tool_api.Audio.Writing.{write_all, write_all-content}

abbrev zeroed : ℕ → Option Bytes
zeroed n = some (replicate n 0)

zeroed-Gives : (n : ℕ) → (block : Bytes) × (zeroed n ≡ some block) × (length block ≡ n)
zeroed-Gives n = (replicate n 0, refl, length-replicate n 0)

-- Two packets, of which the second makes the block grow twice.
abbrev packets : List Bytes
packets = replicate 1000 1 ∷ replicate 3000 2 ∷ []

write_all-content_example :
    (bd : OutputBuffer) × (write_all zeroed zeroed-Gives
        (init_output_buffer (replicate 1024 9))
        packets
      ≡ done bd)
    × (get_output_content bd ≡ flatten packets)
write_all-content_example =
    write_all-content zeroed zeroed-Gives (replicate 1024 9) packets
      (length-replicate {A = ℕ} 1024 9)

abbrev nearly_full : OutputBuffer
nearly_full = record { buf = replicate 4 0; size = 4; offset = 3; room = 1 }
