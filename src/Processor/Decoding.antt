-- ===== src/Processor/Decoding.antt =====
-- audio_tool_api/audio/processor.cpp: from `decode_audio_frame` to `read_decode_convert_and_store`,
-- one frame from the input to the FIFO buffer.
use audio_tool_api.Prelude.{
  ℕ, Bool, true, false, Option, none, some, ◌+◌, if◌then◌else◌, not, ltb, length, take,
}
use audio_tool_api.Processor.{
  enomem, exit_code, eof, eagain, Answer, gives, refuses, Code, frame, samples, packet, Samples,
  acquires, releases, reads, sends_packet, receives_frame, converts, stores, Ffmpeg, AudioProcessor,
  done, fails, Run, pure, leave, ask, deref, cleanup, on_error, modify, note, attempt, acquire,
  ◌>>=◌, ◌>>◌,
}

-- The out-parameters of `decode_audio_frame`, with the frame if there is one.
pub record Decoded : Type 0 where
  pub data_present : Option Samples
  pub finished : Bool

module _ {Q : Type 0} (av : Ffmpeg Q) where
  unfoldable pub init_input_frame : Run Q (Unit {0})
  init_input_frame = acquire av frame enomem

  -- `av_packet_unref`, for a packet that was read or not.
  abbrev pub unref : Bool → AudioProcessor Q → AudioProcessor Q
  unref true s = note (releases packet) s
  unref false s = s

  -- By the answer of `av_read_frame`: whether a packet was read.
  unfoldable pub packet_read : Code → Run Q Bool
  packet_read (gives n) = do modify (note (acquires packet)); pure true
  packet_read (refuses eof) = pure false
  packet_read (refuses e) = leave (refuses e)

  -- By the answer of `avcodec_receive_frame`. The first argument is `finished`.
  unfoldable pub frame_received : Bool → Answer Samples → Run Q Decoded
  frame_received finished (gives frame_data) =
      pure (record { data_present = some frame_data; finished = finished })
  frame_received finished (refuses eagain) =
      pure (record { data_present = none; finished = finished })
  frame_received finished (refuses eof) = pure (record { data_present = none; finished = true })
  frame_received finished (refuses e) = leave (refuses e)

  abbrev pub refused : Code → Run Q (Unit {0})
  refused (gives n) = pure tt
  refused (refuses e) = leave (refuses e)

  -- With the packet that was read, or an empty one at the end of the input. A packet that the
  -- decoder refuses is not given back.
  unfoldable pub decode_packet : Bool → Run Q Decoded
  decode_packet held = do
    sent ← ask av.send_packet sends_packet
    refused sent
    cleanup (unref held)
        (do received ← ask av.receive_frame receives_frame; frame_received (not held) received)

  unfoldable pub decode_audio_frame : Run Q Decoded
  decode_audio_frame = do
    error ← ask av.read_frame reads
    held ← packet_read error
    decode_packet held

  -- The array of pointers of `init_converted_samples`.
  unfoldable pub alloc_pointers : Run Q (Unit {0})
  alloc_pointers = acquire av samples enomem

  -- The samples of `init_converted_samples`: on an error it frees the array, whose pointer the
  -- caller keeps.
  unfoldable pub alloc_samples : Run Q (Unit {0})
  alloc_samples = on_error (note (releases samples)) (do attempt av.samples_alloc; pure tt)

  abbrev pub converted : Answer Samples → Run Q Samples
  converted (gives converted_data) = pure converted_data
  converted (refuses e) = leave (refuses e)

  -- The number of samples that the resampler answers is not used.
  unfoldable pub convert_samples : Samples → Run Q Samples
  convert_samples input_data = do
    answer ← ask (λ h. av.swr_convert h input_data) converts
    converted answer

  unfoldable pub grow_fifo : Q → ℕ → Run Q Q
  grow_fifo q frame_size = attempt (λ h. av.fifo_realloc h q (av.fifo_size q + frame_size))

  abbrev pub fewer : Code → ℕ → Bool
  fewer (gives n) frame_size = ltb n frame_size
  fewer (refuses e) frame_size = true

  -- By what `av_audio_fifo_write` answers, and leaves in the buffer.
  unfoldable pub fifo_written : Samples → ℕ → Code × Q → Run Q (Unit {0})
  fifo_written xs frame_size (code, q) s =
      let s' : AudioProcessor Q = note (stores xs) (record s { fifo = some q }) in
      if fewer code frame_size then (fails (refuses exit_code), s') else (done tt, s')

  unfoldable pub write_fifo : Q → Samples → ℕ → Run Q (Unit {0})
  write_fifo q xs frame_size s = fifo_written xs frame_size (av.fifo_write s.history q xs) s

  unfoldable pub add_samples_to_fifo : Samples → ℕ → Run Q (Unit {0})
  add_samples_to_fifo converted_input_samples frame_size = do
    q ← deref (λ s. s.fifo)
    q' ← grow_fifo q frame_size
    write_fifo q' (take frame_size converted_input_samples) frame_size

  -- `if (data_present)`.
  unfoldable pub convert_and_store : Option Samples → Run Q (Unit {0})
  convert_and_store none = pure tt
  convert_and_store (some input_data) = do
    alloc_pointers
    cleanup (note (releases samples)) (do
      alloc_samples
      converted_data ← convert_samples input_data
      add_samples_to_fifo converted_data (length input_data))

  -- The first argument is `finished`: what is decoded at the end of the input is dropped.
  unfoldable pub unless_finished : Bool → Option Samples → Run Q Bool
  unless_finished true data_present = pure true
  unless_finished false data_present = do convert_and_store data_present; pure false

  unfoldable pub read_decode_convert_and_store : Run Q Bool
  read_decode_convert_and_store = do
    init_input_frame
    cleanup (note (releases frame))
        (do decoded ← decode_audio_frame; unless_finished decoded.finished decoded.data_present)
