-- ===== src/Audio/Writing.antt =====
-- What ffmpeg writes is what `get_output_content` returns, however often the block has to grow.
use audio_tool_api.Prelude.{
  ℕ, suc, zero, ◌+◌, ◌-◌, ◌*◌, ◌≡◌, ◌<◌, ◌≤◌, refl, sym, ap, subst, ◌∙◌, Option, none, some, List,
  [], ◌∷◌, ◌++◌, ltb, Bool-cases, append-nil, append_assoc, arith, length, take, drop, length-drop,
  length-take, length-append, take_all, take-append, take-append_le, Bytes, inl, inr,
}
use mathlib.Core.List.{flatten}
use audio_tool_api.Audio.Buffers.{
  OutputBuffer, Outcome, done, fault, spinning, splice, double_block, make_room, append_packet,
  and_append, write_packet, get_output_content, init_output_buffer, output_buffer_size,
}

pub record IsValid (bd : OutputBuffer) : Type 0 where
  pub block : length bd.buf ≡ bd.size
  pub fits : bd.offset + bd.room ≡ bd.size
  pub size_pos : 0 < bd.size

abbrev written : OutputBuffer → Bytes
written bd = take bd.offset bd.buf

-- `malloc` gives a block of the size asked for. This is what the code relies on.
abbrev pub Gives : (ℕ → Option Bytes) → Type 0
Gives malloc = (n : ℕ) → (block : Bytes) × (malloc n ≡ some block) × (length block ≡ n)

take-take_le : (n m : ℕ) (xs : Bytes) → n ≤ m → take n (take m xs) ≡ take n xs
take-take_le zero m xs h = refl
take-take_le (suc n) zero xs h = absurd (omega arith)
take-take_le (suc n) (suc m) [] h = refl
take-take_le (suc n) (suc m) (x ∷ xs) h = ap (◌∷◌ x) (take-take_le n m xs (omega arith))

length-splice :
    (block : Bytes) (at : ℕ) (bytes : Bytes)
    → at + length bytes ≤ length block
    → length (splice block at bytes) ≡ length block
length-splice block at bytes h = omega (
  arith,
  length-append {0} (take at block) (bytes ++ drop (at + length bytes) block),
  length-append {0} bytes (drop (at + length bytes) block),
  length-take {0} at block,
  length-drop {0} (at + length bytes) block,
)

-- The first bytes up to the end of what was copied.
take-splice :
    (block : Bytes) (at : ℕ) (bytes : Bytes)
    → at ≤ length block
    → take (at + length bytes) (splice block at bytes) ≡ take at block ++ bytes
take-splice block at bytes h =
    ap (take (at + length bytes)) (sym (append_assoc front bytes behind))
    ∙ ap (λ k. take k ((front ++ bytes) ++ behind))
        (omega (arith, length-append {0} front bytes, length-take {0} at block))
    ∙ take-append (front ++ bytes) behind
  where
    front : Bytes
    front = take at block

    behind : Bytes
    behind = drop (at + length bytes) block

module _ (malloc : ℕ → Option Bytes) (gives : Gives malloc) where
  record Grown (bd bd' : OutputBuffer) : Type 0 where
    valid : IsValid bd'
    offset_is : bd'.offset ≡ bd.offset
    kept : written bd' ≡ written bd
    roomier : bd.room < bd'.room

  -- The block twice as large, with the old one copied to its front.
  grown : OutputBuffer → Bytes → OutputBuffer
  grown bd tmp = record {
    buf = splice tmp 0 (take bd.size bd.buf);
    size = bd.size * 2;
    offset = bd.offset;
    room = bd.size * 2 - bd.offset;
  }

  grown-Grown :
      (bd : OutputBuffer) (tmp : Bytes)
      → IsValid bd
      → length tmp ≡ 2 * bd.size
      → Grown bd (grown bd tmp)
  unfolding grown
  grown-Grown bd tmp v l =
      let whole = take_all bd.size bd.buf (omega (arith, v.block)) in
      record {
        valid = record {
          block =
              length-splice tmp 0 (take bd.size bd.buf)
                (omega (arith, length-take {0} bd.size bd.buf, v.block))
              ∙ omega (arith, l);
          fits = omega (arith, v.fits);
          size_pos = omega (arith, v.size_pos);
        };
        offset_is = refl;
        kept =
            take-append_le bd.offset (take bd.size bd.buf) _
              (omega (arith, length-take {0} bd.size bd.buf, v.block, v.fits))
            ∙ ap (take bd.offset) whole;
        roomier = omega (arith, v.fits, v.size_pos);
      }

  double_block-Grown :
      (bd : OutputBuffer)
      → IsValid bd
      → (bd' : OutputBuffer) × (double_block malloc bd ≡ some bd') × Grown bd bd'
  unfolding double_block grown
  double_block-Grown bd v =
      let (tmp, e, l) = gives (2 * bd.size) in
      (grown bd tmp, rw (e, double_block), grown-Grown bd tmp v l)

  make_room-lem :
      (fuel n : ℕ) (bd : OutputBuffer)
      → IsValid bd
      → n ≤ bd.room + fuel
      → (bd' : OutputBuffer) × (make_room malloc fuel n bd ≡ done bd')
        × IsValid bd'
        × (n ≤ bd'.room)
        × (written bd' ≡ written bd)
  unfolding make_room
  make_room-lem zero n bd v h = (bd, ground arith, v, omega arith, refl)
  make_room-lem (suc fuel) n bd v h = elim (Bool-cases (ltb bd.room n)) [
    | inl small ↦
        let (bd', e, g) = double_block-Grown bd v in
        let (bd'', e', v', room, kept) =
          make_room-lem fuel n bd' g.valid (omega (arith, g.roomier)) in
        (bd'', rw (small, e, make_room) e', v', room, kept ∙ g.kept)
    | inr enough ↦ (bd, rw (enough, make_room), v, ground (arith, enough), refl)
  ]

  appended : OutputBuffer → ℕ → Bytes → OutputBuffer
  appended bd n bytes = record bd {
    buf = splice bd.buf bd.offset bytes;
    offset = bd.offset + n;
    room = bd.room - n;
  }

  append_packet-appended :
      (bytes : Bytes) (bd : OutputBuffer)
      → IsValid bd
      → length bytes ≤ bd.room
      → append_packet malloc bytes bd ≡ appended bd (length bytes) bytes
  unfolding append_packet appended
  append_packet-appended bytes bd v h =
      ap (λ n. appended bd n (take n bytes)) (omega (arith, v.fits))
      ∙ ap (appended bd (length bytes)) (take_all (length bytes) bytes (omega arith))

  append_packet-lem :
      (bytes : Bytes) (bd : OutputBuffer)
      → IsValid bd
      → length bytes ≤ bd.room
      → IsValid (append_packet malloc bytes bd)
        × (written (append_packet malloc bytes bd) ≡ written bd ++ bytes)
  unfolding appended
  append_packet-lem bytes bd v h =
      subst (λ bd'. IsValid bd' × (written bd' ≡ written bd ++ bytes))
        (sym (append_packet-appended bytes bd v h))
        (
          record {
            block = length-splice bd.buf bd.offset bytes (omega (arith, v.block, v.fits)) ∙ v.block;
            fits = omega (arith, v.fits);
            size_pos = v.size_pos;
          },
          take-splice bd.buf bd.offset bytes (omega (arith, v.block, v.fits)),
        )

  -- The loop ends within the rounds that `write_packet` grants it, and the bytes are appended to
  -- what was written before.
  write_packet-done :
      (bd : OutputBuffer) (bytes : Bytes)
      → IsValid bd
      → (bd' : OutputBuffer) × (write_packet malloc bd bytes ≡ done bd')
        × IsValid bd'
        × (written bd' ≡ written bd ++ bytes)
  unfolding write_packet
  write_packet-done bd bytes v =
      let (bd', e, v', room, kept) =
        make_room-lem (suc (length bytes)) (length bytes) bd v (omega arith) in
      let (w, c) = append_packet-lem bytes bd' v' room in
      (
        append_packet malloc bytes bd',
        ap (and_append malloc bytes) e,
        w,
        c ∙ ap (λ s. s ++ bytes) kept,
      )

  -- All the packets that ffmpeg writes, one after the other.
  pub write_all : OutputBuffer → List Bytes → Outcome
  write_all bd [] = done bd
  write_all bd (bytes ∷ more) = elim (write_packet malloc bd bytes) [
    | done bd' ↦ write_all bd' more
    | fault ↦ fault
    | spinning ↦ spinning
  ]

  write_all-done :
      (packets : List Bytes) (bd : OutputBuffer)
      → IsValid bd
      → (bd' : OutputBuffer) × (write_all bd packets ≡ done bd')
        × IsValid bd'
        × (written bd' ≡ written bd ++ flatten packets)
  unfolding write_all flatten
  write_all-done [] bd v = (bd, refl, v, sym (append-nil (written bd)))
  write_all-done (bytes ∷ more) bd v =
      let (bd', e, v', c) = write_packet-done bd bytes v in
      let (bd'', e', v'', c') = write_all-done more bd' v' in
      (
        bd'',
        rw (e, write_all) e',
        v'',
        c' ∙ ap (λ s. s ++ flatten more) c ∙ append_assoc (written bd) bytes (flatten more),
      )

  -- If `malloc` gives blocks of the size asked for: from the buffer that `init_output` sets up, every sequence of packets is written in full, no
  -- loop of `write_packet` runs out of rounds, and `get_output_content` is their concatenation.
  pub write_all-content :
      (block : Bytes) (packets : List Bytes)
      → length block ≡ output_buffer_size
      → (bd : OutputBuffer) × (write_all (init_output_buffer block) packets ≡ done bd)
        × (get_output_content bd ≡ flatten packets)
  unfolding get_output_content init_output_buffer
  write_all-content block packets l =
      let (bd, e, v, c) =
        write_all-done packets (init_output_buffer block)
          (record { block = l; fits = omega arith; size_pos = omega arith }) in
      (bd, e, ap (λ n. take n bd.buf) (omega (arith, v.fits)) ∙ c)

-- When a packet is longer than the room that is left and `malloc` fails for the larger block, the copy that stands before the null test writes
-- through the null pointer: the ENOMEM branch is never taken.
pub write_packet-malloc_fails :
    (malloc : ℕ → Option Bytes) (bd : OutputBuffer) (bytes : Bytes)
    → bd.room < length bytes
    → malloc (2 * bd.size) ≡ none
    → write_packet malloc bd bytes ≡ fault
unfolding write_packet
write_packet-malloc_fails malloc bd bytes small e = ground (arith, e)
