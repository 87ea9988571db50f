-- ===== src/Processor/Execute.antt =====
-- audio_tool_api/audio/processor.cpp: `execute`. Its loop and the loop that fills the FIFO buffer
-- are granted a number of rounds each; the loop that empties the buffer is granted a round for each
-- sample and one more, since a round takes a sample at least, and so is the one that flushes the
-- encoder, by an argument.
use audio_tool_api.Prelude.{
  ℕ, suc, zero, Bool, true, false, none, some, ◌&&◌, ◌||◌, not, if◌then◌else◌, ltb,
}
use audio_tool_api.Processor.{
  decoder, encoder, resampler, fifo_buffer, releases, Ffmpeg, AudioProcessor, spins, Run, pure,
  deref, cleanup, branch, note, ◌>>=◌, ◌>>◌,
}
use audio_tool_api.Processor.Opening.{
  close_input, open_input_file, open_output_file, init_resampler, init_fifo,
}
use audio_tool_api.Processor.Decoding.{read_decode_convert_and_store}
use audio_tool_api.Processor.Encoding.{
  output_frame_size, write_output_file_header, write_output_file_trailer, encode_audio_frame,
  load_encode_and_write,
}

module _ {Q : Type 0} where
  -- `av_audio_fifo_free` does not reset the pointer.
  unfoldable pub free_fifo : AudioProcessor Q → AudioProcessor Q
  free_fifo s = elim s.fifo [ none ↦ s | some q ↦ note (releases fifo_buffer) s ]

  unfoldable pub free_resampler : AudioProcessor Q → AudioProcessor Q
  free_resampler s =
      if s.resample_context
      then record (note (releases resampler) s) { resample_context = false }
      else s

  unfoldable pub free_encoder : AudioProcessor Q → AudioProcessor Q
  free_encoder s = elim s.output_codec_context [
    | none ↦ s
    | some c ↦ record (note (releases encoder) s) { output_codec_context = none }
  ]

  unfoldable pub free_decoder : AudioProcessor Q → AudioProcessor Q
  free_decoder s = elim s.input_codec_context [
    | none ↦ s
    | some c ↦ record (note (releases decoder) s) { input_codec_context = none }
  ]

  -- Behind the label `cleanup`.
  unfoldable pub free_all : AudioProcessor Q → AudioProcessor Q
  free_all s = close_input (free_decoder (free_encoder (free_resampler (free_fifo s))))

  module _ (av : Ffmpeg Q) where
    unfoldable pub spin : {A : Type 0} → Run Q A
    spin s = (spins, s)

    -- Until a frame's worth of samples is there or the input has ended; the result is `finished`.
    unfoldable pub fill : ℕ → Run Q Bool
    fill zero = spin
    fill (suc fuel) = do
      q ← deref (λ s. s.fifo)
      branch (ltb (av.fifo_size q) output_frame_size)
          (do finished ← read_decode_convert_and_store av; branch finished (pure true) (fill fuel))
          (pure false)

    -- The test of the loop that empties the buffer.
    abbrev pub has_frame : Bool → Q → Bool
    has_frame finished q =
        not (ltb (av.fifo_size q) output_frame_size) || (finished && ltb 0 (av.fifo_size q))

    unfoldable pub drain_rounds : ℕ → Bool → Run Q (Unit {0})
    drain_rounds zero finished = spin
    drain_rounds (suc fuel) finished = do
      q ← deref (λ s. s.fifo)
      branch (has_frame finished q) (do load_encode_and_write av; drain_rounds fuel finished)
          (pure tt)

    unfoldable pub drain : Bool → Run Q (Unit {0})
    drain finished = do q ← deref (λ s. s.fifo); drain_rounds (suc (av.fifo_size q)) finished

    unfoldable pub flush : ℕ → Run Q (Unit {0})
    flush zero = spin
    flush (suc fuel) = do
      data_written ← encode_audio_frame av none
      branch data_written (flush fuel) (pure tt)

    unfoldable pub rounds : ℕ → ℕ → ℕ → Run Q (Unit {0})
    rounds zero fills flushes = spin
    rounds (suc fuel) fills flushes = do
      finished ← fill fills
      drain finished
      branch finished (flush flushes) (rounds fuel fills flushes)

    -- Up to the label `cleanup`.
    unfoldable pub pipeline : ℕ → ℕ → ℕ → Run Q (Unit {0})
    pipeline fuel fills flushes = do
      open_input_file av
      open_output_file av
      init_resampler av
      init_fifo av
      write_output_file_header av
      rounds fuel fills flushes
      write_output_file_trailer av

    -- The exit is that of the part before the label; `execute` itself returns nothing.
    unfoldable pub execute : ℕ → ℕ → ℕ → Run Q (Unit {0})
    execute fuel fills flushes = cleanup free_all (pipeline fuel fills flushes)
