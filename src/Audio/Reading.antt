-- ===== src/Audio/Reading.antt =====
-- What ffmpeg sees of the input: the content, cut into packets.
use audio_tool_api.Prelude.{
  ℕ, ◌+◌, ◌-◌, ◌≡◌, ◌<◌, ◌≤◌, refl, sym, ap, ◌∙◌, Option, none, some, List, [], ◌∷◌, ◌++◌,
  append-nil, append_assoc, arith, length, take, length-drop, take-append-drop, Bytes,
}
use Prim.Native.Nat.{min}
use audio_tool_api.Audio.Buffers.{InputBuffer, read_packet, set_input_content}

abbrev pub packet : Option Bytes → Bytes
packet none = []
packet (some bytes) = bytes

-- The packets that successive reads deliver, for the buffer sizes that ffmpeg offers, and the
-- buffer that is left.
pub read_all : InputBuffer → List ℕ → Bytes × InputBuffer
read_all bd [] = ([], bd)
read_all bd (n ∷ sizes) =
    let next = read_packet bd n in
    let rest = read_all next.1 sizes in (packet next.0 ++ rest.0, rest.1)

abbrev pub total : List ℕ → ℕ
total [] = 0
total (n ∷ sizes) = n + total sizes

abbrev IsExact : InputBuffer → Type 0
IsExact bd = bd.size ≡ length bd.ptr

-- One read takes `min n size` bytes from the front.
read_packet-splits :
    (bd : InputBuffer) (n : ℕ)
    → IsExact bd
    → (packet (read_packet bd n).0 ++ (read_packet bd n).1.ptr ≡ bd.ptr)
      × IsExact (read_packet bd n).1
      × ((read_packet bd n).1.size ≡ bd.size - n)
unfolding read_packet
read_packet-splits bd n e =
    ground (arith, take-append-drop (min n bd.size) bd.ptr, length-drop {0} (min n bd.size) bd.ptr)

read_all-splits :
    (sizes : List ℕ) (bd : InputBuffer)
    → IsExact bd
    → ((read_all bd sizes).0 ++ (read_all bd sizes).1.ptr ≡ bd.ptr)
      × IsExact (read_all bd sizes).1
      × ((read_all bd sizes).1.size ≡ bd.size - total sizes)
unfolding read_all
read_all-splits [] bd e = (refl, e, omega arith)
read_all-splits (n ∷ sizes) bd e =
    let h = read_packet-splits bd n e in
    let t = read_all-splits sizes (read_packet bd n).1 h.1 in
    (
      append_assoc (packet (read_packet bd n).0) _ _
          ∙ ap (◌++◌ (packet (read_packet bd n).0)) t.0
          ∙ h.0,
      t.1,
      omega (arith, h.2, t.2),
    )

-- Whatever sizes ffmpeg asks for, it reads a prefix of the content, and nothing is lost: the rest
-- is still in the buffer.
pub read_all-prefix :
    (content : Bytes) (sizes : List ℕ)
    → let got = read_all (set_input_content content) sizes in
      (got.0 ++ got.1.ptr ≡ content) × (got.1.size ≡ length content - total sizes)
unfolding set_input_content
read_all-prefix content sizes =
    let t = read_all-splits sizes (record { ptr = content; size = length content }) refl in
    (t.0, t.2)

length-eq-nil : (xs : Bytes) → length xs ≡ 0 → xs ≡ []
length-eq-nil [] e = refl
length-eq-nil (x ∷ xs) e = absurd (omega arith)

-- Once the sizes add up to the content's length, all of it has been read, and every further read
-- is the end of the file.
pub read_all-drains :
    (content : Bytes) (sizes : List ℕ) (n : ℕ)
    → length content ≤ total sizes
    → let got = read_all (set_input_content content) sizes in
      (got.0 ≡ content) × ((read_packet got.1 n).0 ≡ none)
unfolding set_input_content
read_all-drains content sizes n h =
    let t = read_all-splits sizes (record { ptr = content; size = length content }) refl in
    let gone =
      length-eq-nil (read_all (record { ptr = content; size = length content }) sizes).1.ptr
        (omega (arith, t.1, t.2)) in
    (sym (append-nil _) ∙ ap (◌++◌ _) (sym gone) ∙ t.0, unfold read_packet in ground (arith, t.2))

-- While bytes are left, a read into a buffer that is not empty delivers some.
pub read_packet-progress :
    (bd : InputBuffer) (n : ℕ)
    → 0 < n
    → 0 < bd.size
    → (read_packet bd n).0 ≡ some (take (min n bd.size) bd.ptr)
unfolding read_packet
read_packet-progress bd n h k = ground arith
