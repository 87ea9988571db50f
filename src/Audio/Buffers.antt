-- ===== src/Audio/Buffers.antt =====
-- audio_tool_api/audio/audio_processor.cpp: the input and the output buffer of `AP`, and the
-- callbacks through which ffmpeg reads and writes them. A pointer into a block is the block and an
-- offset; the input's pointer is the list of the bytes from it on. `malloc` is a parameter, and
-- `none` is its null pointer. Sizes do not wrap.
use audio_tool_api.Prelude.{
  ℕ, zero, suc, ◌+◌, ◌-◌, ◌*◌, Option, none, some, true, false, ◌++◌, ltb, ◌==◌, if◌then◌else◌,
  length, take, drop, Bytes,
}
use Prim.Native.Nat.{min}

pub record InputBuffer : Type 0 where
  pub ptr : Bytes
  pub size : ℕ

pub record OutputBuffer : Type 0 where
  pub buf : Bytes
  pub size : ℕ
  -- `ptr - buf.get()`.
  pub offset : ℕ
  pub room : ℕ

-- `set_input_content` and the assignments to `ibd` in `init_input`.
unfoldable pub set_input_content : Bytes → InputBuffer
set_input_content content = record { ptr = content; size = length content }

-- The bytes copied to ffmpeg's buffer, or `none` for AVERROR_EOF.
unfoldable pub read_packet : InputBuffer → ℕ → Option Bytes × InputBuffer
read_packet bd buf_size =
    let n = min buf_size bd.size in
    if n == 0
    then (none, bd)
    else (some (take n bd.ptr), record { ptr = drop n bd.ptr; size = bd.size - n })

abbrev pub output_buffer_size : ℕ
output_buffer_size = 1024

-- The assignments to `obd` in `init_output`, on the block that `av_malloc` gave.
unfoldable pub init_output_buffer : Bytes → OutputBuffer
init_output_buffer block = record {
  buf = block;
  size = output_buffer_size;
  offset = 0;
  room = output_buffer_size;
}

-- `fault` is a write through the null pointer; `spinning` says that the rounds granted to the
-- loop did not suffice.
pub data Outcome : Type 0 where
  done : OutputBuffer → Outcome
  fault spinning : Outcome

-- `memcpy` to the block at an offset.
abbrev pub splice : Bytes → ℕ → Bytes → Bytes
splice block at bytes = take at block ++ (bytes ++ drop (at + length bytes) block)

module _ (malloc : ℕ → Option Bytes) where
  -- One round of the loop: the block doubles. The copy is made before the null test.
  unfoldable pub double_block : OutputBuffer → Option OutputBuffer
  double_block bd = elim (malloc (2 * bd.size)) [
    | none ↦ none
    | some tmp ↦ some (record {
      buf = splice tmp 0 (take bd.size bd.buf);
      size = bd.size * 2;
      offset = bd.offset;
      room = bd.size * 2 - bd.offset;
    })
  ]

  -- `while (buf_size > bd->room)`.
  unfoldable pub make_room : ℕ → ℕ → OutputBuffer → Outcome
  make_room zero buf_size bd = if ltb bd.room buf_size then spinning else done bd
  make_room (suc fuel) buf_size bd = elim (ltb bd.room buf_size) [
    | false ↦ done bd
    | true ↦ elim (double_block bd) [ none ↦ fault | some bd' ↦ make_room fuel buf_size bd' ]
  ]

  -- The copy behind the loop.
  unfoldable pub append_packet : Bytes → OutputBuffer → OutputBuffer
  append_packet bytes bd =
      let n = min (length bytes) bd.size in
      record bd {
        buf = splice bd.buf bd.offset (take n bytes);
        offset = bd.offset + n;
        room = bd.room - n;
      }

  abbrev pub and_append : Bytes → Outcome → Outcome
  and_append bytes (done bd) = done (append_packet bytes bd)
  and_append bytes fault = fault
  and_append bytes spinning = spinning

  -- The loop is granted one round more than there are bytes.
  unfoldable pub write_packet : OutputBuffer → Bytes → Outcome
  unfolding double_block make_room append_packet
  write_packet bd bytes = and_append bytes (make_room (suc (length bytes)) (length bytes) bd)

-- The bytes written so far.
unfoldable pub get_output_content : OutputBuffer → Bytes
get_output_content bd = take (bd.size - bd.room) bd.buf
