-- ===== src/Processor/Encoding.antt =====
-- audio_tool_api/audio/processor.cpp: the container's header and trailer, and from
-- `init_output_frame` to `load_encode_and_write`, one frame from the FIFO buffer to the output.
use audio_tool_api.Prelude.{
  ℕ, Bool, true, false, Option, none, some, ◌+◌, if◌then◌else◌, ltb, length, Bytes,
}
use Prim.Native.Nat.{min}
use audio_tool_api.Processor.{
  exit_code, eof, eagain, Answer, gives, refuses, Code, frame, packet, Samples, acquires, releases,
  loads, sends_frame, flushes, receives_packet, writes_header, writes_trailer, writes_frame, Ffmpeg,
  AudioProcessor, Exit, done, fails, crashes, spins, Run, pure, leave, ask, gets, deref, cleanup,
  on_error, modify, note, attempt, acquire, return_code, ◌>>=◌, ◌>>◌,
}

-- 20 · 1024 · 1024.
unfoldable pub output_frame_size : ℕ
output_frame_size = 20971520

module _ {Q : Type 0} where
  -- Whatever the error is, the method returns AVERROR_EXIT.
  abbrev pub exits : {A : Type 0} → Exit Code A × AudioProcessor Q → Exit Code A × AudioProcessor Q
  exits (done a, s) = (done a, s)
  exits (fails c, s) = (fails (refuses exit_code), s)
  exits (crashes, s) = (crashes, s)
  exits (spins, s) = (spins, s)

  unfoldable pub as_exit : {A : Type 0} → Run Q A → Run Q A
  as_exit m s = exits (m s)

module _ {Q : Type 0} (av : Ffmpeg Q) where
  abbrev pub not_refused : Code → Run Q (Unit {0})
  not_refused (gives n) = pure tt
  not_refused (refuses e) = leave (refuses e)

  unfoldable pub write_output_file_header : Run Q (Unit {0})
  write_output_file_header = do error ← ask av.write_header writes_header; not_refused error

  unfoldable pub write_output_file_trailer : Run Q (Unit {0})
  write_output_file_trailer = do error ← ask av.write_trailer writes_trailer; not_refused error

  unfoldable pub init_output_frame : ℕ → Run Q (Unit {0})
  init_output_frame frame_size = do
    acquire av frame exit_code
    on_error (note (releases frame)) (do attempt (λ h. av.frame_get_buffer h frame_size); pure tt)

  -- `avcodec_send_frame`, with the time stamp of the frame.
  unfoldable pub send_frame : Option Samples → Run Q Code
  send_frame none = ask av.flush_encoder flushes
  send_frame (some frame_data) = do
    pts ← gets (λ s. s.pts)
    modify (λ s. record s { pts = pts + length frame_data })
    ask (λ h. av.send_frame h pts frame_data) (sends_frame pts frame_data)

  unfoldable pub write_packet_out : Bytes → Run Q Bool
  write_packet_out output_packet = do
    modify (note (acquires packet))
    cleanup (note (releases packet)) (do
      error ← ask (λ h. av.write_frame h output_packet) (writes_frame output_packet)
      return_code error
      pure true)

  -- By the answer of `avcodec_receive_packet`.
  unfoldable pub packet_received : Answer Bytes → Run Q Bool
  packet_received (gives output_packet) = write_packet_out output_packet
  packet_received (refuses eagain) = pure false
  packet_received (refuses eof) = pure false
  packet_received (refuses e) = leave (refuses e)

  unfoldable pub frame_sent : Code → Run Q Bool
  frame_sent (gives n) = do
    received ← ask av.receive_packet receives_packet
    packet_received received
  frame_sent (refuses eof) = pure false
  frame_sent (refuses e) = leave (refuses e)

  -- The result is whether `data_present` was set.
  unfoldable pub encode_audio_frame : Option Samples → Run Q Bool
  encode_audio_frame frame_data = do error ← send_frame frame_data; frame_sent error

  -- By the answer of `av_audio_fifo_read`.
  unfoldable pub fifo_loaded : ℕ → Answer Samples → Run Q Samples
  fifo_loaded frame_size (gives xs) =
      if ltb (length xs) frame_size then leave (refuses exit_code) else pure xs
  fifo_loaded frame_size (refuses e) = leave (refuses exit_code)

  unfoldable pub read_fifo : Q → ℕ → Run Q Samples
  read_fifo q frame_size s =
      let (answer, q') = av.fifo_read s.history q frame_size in
      (do
        modify (λ s. record s { fifo = some q' })
        xs ← fifo_loaded frame_size answer
        modify (note (loads xs))
        pure xs)
        s

  unfoldable pub load_encode_and_write : Run Q (Unit {0})
  load_encode_and_write = as_exit (do
    q ← deref (λ s. s.fifo)
    let frame_size = min (av.fifo_size q) output_frame_size
    init_output_frame frame_size
    cleanup (note (releases frame))
        (do xs ← read_fifo q frame_size; encode_audio_frame (some xs); pure tt))
