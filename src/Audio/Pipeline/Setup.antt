-- ===== src/Audio/Pipeline/Setup.antt =====
-- audio_tool_api/audio/audio_processor.cpp: `init_input`, `init_output`, `init_filter` and
-- `init_filters` of `AP`.
use audio_tool_api.Prelude.{
  ℕ, true, false, none, some, [], if◌then◌else◌, ◌==◌, set, replicate, Bytes, codes,
}
use audio_tool_api.Processor.{gives, refuses, Code}
use audio_tool_api.Audio.Pipeline.{
  message, string_message, avio_buffer, avio_context, format_context, stream_array, decoder_context,
  encoder_context, filter_parts, endpoint_names, filter_array, CodecContext, StreamContext,
  opens_input, opens_decoder, opens_encoder, makes_filter, writes_header, Libav, Run, record_call,
  ask, require, succeed, try_alloc, alloc, stream_context, set_stream, for_each, nb_streams,
  codec_of, pure, leave, gets, deref, branch, if_some, modify, ◌>>=◌, ◌>>◌,
}

abbrev pub no_memory : Bytes
no_memory = codes "Error allocating memory"

module _ (av : Libav) where
  -- The decoder of a stream.
  unfoldable pub init_decoder : ℕ → Run (Unit {0})
  init_decoder i = do
    codec ← codec_of av i
    require (av.find_decoder codec) (codes "Failed to find decoder for stream")
    alloc av decoder_context (codes "Failed to allocate decoder context for stream")
    params ← gets (λ s. av.parameters_to_context s.calls i)
    codec_ctx ←
        succeed params (codes "Failed to copy decoder codec paramters to input decoder context")
    branch codec_ctx.is_audio
        (do
          error ← ask av.open_decoder (λ c. opens_decoder i)
          succeed error (codes "Failed to open decoder for stream")
          pure tt)
        (pure tt)
    set_stream i (λ c. record c { dec_ctx = some codec_ctx })

  unfoldable pub input_opened : Code → Run (Unit {0})
  input_opened (gives n) = pure tt
  input_opened (refuses e) = modify (λ s. record s { in_fmt_ctx = false })

  -- `avformat_open_input`: on failure the context is freed and the pointer is null.
  unfoldable pub open_input : Run (Unit {0})
  open_input = do error ← ask av.open_input opens_input; input_opened error

  unfoldable pub info_found : Code → Run (Unit {0})
  info_found (gives n) = pure tt
  info_found (refuses e) = leave (string_message (codes "Could not find stream info, Error: "))

  -- `avformat_find_stream_info`, which reads the context.
  unfoldable pub find_stream_info : Run (Unit {0})
  find_stream_info = do
    deref (λ s. if s.in_fmt_ctx then some tt else none)
    error ← gets (λ s. av.find_stream_info s.calls)
    info_found error

  -- The answer of `avformat_open_input` is not used.
  unfoldable pub init_input : Run (Unit {0})
  init_input = do
    buffer ← try_alloc av avio_buffer
    context ← try_alloc av format_context
    modify (λ s. record s { in_fmt_ctx = context })
    require context no_memory
    require buffer no_memory
    alloc av avio_context no_memory
    open_input
    find_stream_info
    n ← nb_streams av
    array ← try_alloc av stream_array
    modify (λ s. record s {
      stream_ctx = if array then replicate n (record { dec_ctx = none; enc_ctx = none }) else [];
    })
    for_each n 0 init_decoder

  -- What the encoder is asked for.
  unfoldable pub encoder_of : ℕ → CodecContext → CodecContext
  encoder_of sample_fmt dec_ctx = record {
    is_audio = true;
    sample_rate = dec_ctx.sample_rate;
    channel_layout = dec_ctx.channel_layout;
    channels = av.layout_nb_channels dec_ctx.channel_layout;
    sample_fmt = sample_fmt;
  }

  -- The `if` on an audio stream.
  unfoldable pub init_encoder : ℕ → CodecContext → Run (Unit {0})
  init_encoder i dec_ctx = do
    sample_fmt ←
        if_some av.find_encoder pure (leave (message (codes "Could not find necessary encoder")))
    modify (λ s. record s { output_sample_rate = some dec_ctx.sample_rate })
    error ← ask av.open_encoder (λ c. opens_encoder i)
    succeed error (codes "Could not open codec")
    error' ← gets (λ s. av.parameters_from_context s.calls)
    succeed error' (codes "Failed to copy codec parameters from encoding context")
    set_stream i (λ c. record c { enc_ctx = some (encoder_of sample_fmt dec_ctx) })

  -- The output stream for a stream of the input.
  unfoldable pub init_stream : ℕ → Run (Unit {0})
  init_stream i = do
    new ← gets (λ s. av.new_stream s.calls)
    require new (codes "Could not allocate output stream")
    c ← stream_context i
    deref (λ s. c.dec_ctx)
    params ← gets (λ s. av.parameters_to_context s.calls i)
    dec_ctx ← succeed params (codes "Failed to build codec context from paramters for stream")
    set_stream i (λ c'. record c' { dec_ctx = some dec_ctx })
    alloc av encoder_context (codes "Failed to allocate the encoder context")
    branch dec_ctx.is_audio (init_encoder i dec_ctx) (pure tt)

  unfoldable pub init_output : Run (Unit {0})
  init_output = do
    buffer ← try_alloc av avio_buffer
    alloc av avio_context (codes "Could not allocate output IO context")
    alloc av format_context (codes "Could not allocate output format context")
    modify (λ s. record s { out_fmt_ctx = true })
    require av.guess_format (codes "Could not set up output format context")
    n ← nb_streams av
    for_each n 0 init_stream
    error ← ask av.write_header writes_header
    succeed error (codes "Error occurred when writing header")
    pure tt

  -- The decoder's layout, if it has none.
  unfoldable pub with_layout : CodecContext → CodecContext
  with_layout dec_ctx =
      if dec_ctx.channel_layout == 0
      then record dec_ctx { channel_layout = av.default_channel_layout dec_ctx.channels }
      else dec_ctx

  -- The answers for the sink, the channel layouts and the sample rates are not used: the tests behind
  -- these calls see the one before.
  unfoldable pub init_filter : ℕ → StreamContext → Run (Unit {0})
  init_filter i c = do
    alloc av filter_parts (codes "Could not allocate reources for filter")
    require av.has_buffer_filters (codes "Could not find filter for buffer source or sink")
    dec_ctx ← deref (λ s. c.dec_ctx)
    set_stream i (λ c'. record c' { dec_ctx = some (with_layout dec_ctx) })
    error ← gets (λ s. av.create_source s.calls)
    succeed error (codes "Could not create buffer source")
    enc_ctx ← deref (λ s. c.enc_ctx)
    error' ← gets (λ s. av.set_sample_fmts s.calls)
    succeed error' (codes "Could not set output sample format")
    alloc av endpoint_names (codes "Could not set up filter graph endpoints")
    parsed ← gets (λ s. av.graph_parse s.calls)
    succeed parsed []
    configured ← gets (λ s. av.graph_config s.calls)
    succeed configured []
    modify (λ s. record_call (makes_filter i) (record s { filter_ctx = set s.filter_ctx i true }))

  unfoldable pub init_filters : Run (Unit {0})
  init_filters = do
    n ← nb_streams av
    alloc av filter_array (codes "Could not allocate filter context")
    modify (λ s. record s { filter_ctx = replicate n false })
    for_each n 0 (λ i. do c ← stream_context i; init_filter i c)
