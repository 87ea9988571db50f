-- ===== src/Processor/Opening.antt =====
-- audio_tool_api/audio/processor.cpp: from `open_input_file` to `init_fifo`, what `execute` sets up
-- before the first sample is read.
use audio_tool_api.Prelude.{
  ℕ, suc, Bool, true, false, Option, none, some, List, [], ◌∷◌, if◌then◌else◌, ◌==◌, get_elem?,
}
use audio_tool_api.Processor.{
  enomem, exit_code, refuses, input_context, input_avio_buffer, input_avio, decoder, output_context,
  output_avio_buffer, output_avio, encoder, resampler, fifo_buffer, releases, opens_decoder,
  CodecContext, Stream, Ffmpeg, AudioProcessor, done, crashes, Run, pure, leave, deref, pointed,
  on_error, modify, note, attempt, check, acquire, ◌>>=◌, ◌>>◌,
}

-- The loop over the streams: the last one that is audio. `open_input_file` does not use it.
unfoldable pub audio_stream : ℕ → Option ℕ → List Stream → Option ℕ
audio_stream i found [] = found
audio_stream i found (stream ∷ streams) =
    audio_stream (suc i) (if stream.is_audio then some i else found) streams

abbrev pub output_channels : ℕ
output_channels = 2

abbrev pub output_bit_rate : ℕ
output_bit_rate = 96000

module _ {Q : Type 0} where
  -- `avformat_close_input`.
  unfoldable pub close_input : AudioProcessor Q → AudioProcessor Q
  close_input s =
      if s.input_format_context
      then record (note (releases input_context) s) { input_format_context = false }
      else s

  unfoldable pub free_output : AudioProcessor Q → AudioProcessor Q
  free_output s =
      record (note (releases output_context)
        (note (releases output_avio) (note (releases output_avio_buffer) s))) {
          output_format_context = false;
        }

  unfoldable pub found : {A : Type 0} → Option A → Run Q A
  found none = leave (refuses exit_code)
  found (some a) = pure a

  -- The assertion compares the sample rates.
  unfoldable pub same_rate : CodecContext → CodecContext → Run Q (Unit {0})
  same_rate output input s =
      if output.sample_rate == input.sample_rate then (done tt, s) else (crashes, s)

  module _ (av : Ffmpeg Q) where
    -- A stream by its index.
    unfoldable pub stream_at : ℕ → Run Q Stream
    stream_at i s = pointed (get_elem? (av.streams s.history) i) s

    -- The context of the decoder, which is freed with the input when it cannot be set up.
    unfoldable pub open_decoder : ℕ → Run Q (Unit {0})
    open_decoder codec_id = do
      acquire av decoder enomem
      modify (note (opens_decoder codec_id))
      avctx ←
          on_error (note (releases decoder))
            (do avctx ← attempt av.parameters_to_context; attempt av.open_decoder; pure avctx)
      modify (λ s. record s { input_codec_context = some avctx })

    -- The number that is left in `error` is the index of the stream.
    unfoldable pub open_input_file : Run Q (Unit {0})
    open_input_file = do
      acquire av input_context enomem
      modify (λ s. record s { input_format_context = true })
      acquire av input_avio_buffer enomem
      acquire av input_avio enomem
      on_error close_input (do
        attempt av.open_input
        error ← attempt av.find_stream_info
        stream ← stream_at error
        check (λ h. av.find_decoder stream.codec_id) exit_code
        open_decoder stream.codec_id)

    -- What the encoder is asked for.
    unfoldable pub encoder_context : Bool → ℕ → CodecContext → CodecContext
    encoder_context global_header sample_fmt input = record {
      channels = output_channels;
      channel_layout = av.default_channel_layout output_channels;
      sample_fmt = sample_fmt;
      sample_rate = input.sample_rate;
      bit_rate = output_bit_rate;
      global_header = global_header;
    }

    unfoldable pub open_encoder : Bool → ℕ → Run Q (Unit {0})
    open_encoder global_header sample_fmt = do
      acquire av encoder enomem
      avctx ← on_error (note (releases encoder)) (do
        input ← deref (λ s. s.input_codec_context)
        attempt av.open_encoder
        attempt av.parameters_from_context
        pure (encoder_context global_header sample_fmt input))
      modify (λ s. record s { output_codec_context = some avctx })

    unfoldable pub open_output_file : Run Q (Unit {0})
    open_output_file = do
      acquire av output_avio_buffer enomem
      acquire av output_avio enomem
      acquire av output_context enomem
      modify (λ s. record s { output_format_context = true })
      on_error free_output (do
        global_header ← found av.guess_format
        sample_fmt ← found av.find_encoder
        check av.new_stream enomem
        open_encoder global_header sample_fmt)

    unfoldable pub init_resampler : Run Q (Unit {0})
    init_resampler = do
      output ← deref (λ s. s.output_codec_context)
      input ← deref (λ s. s.input_codec_context)
      acquire av resampler enomem
      modify (λ s. record s { resample_context = true })
      same_rate output input
      on_error (λ s. record (note (releases resampler) s) { resample_context = false })
          (do attempt av.swr_init; pure tt)

    unfoldable pub init_fifo : Run Q (Unit {0})
    init_fifo = do
      output ← deref (λ s. s.output_codec_context)
      acquire av fifo_buffer enomem
      modify (λ s. record s { fifo = some (av.fifo_alloc output.sample_fmt output.channels) })
