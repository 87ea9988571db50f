-- ===== src/Audio/Pipeline/Process.antt =====
-- audio_tool_api/audio/audio_processor.cpp: `process`, `filter_encode_write` and `encode_write` of
-- `AP`. Each loop is granted a number of rounds.
use audio_tool_api.Prelude.{ℕ, zero, suc, Bool, false, Option, none, some, get_elem?, set, codes}
use audio_tool_api.Processor.{
  eof, eagain, enomem, exit_code, other, Answer, gives, refuses, Samples,
}
use audio_tool_api.Audio.Pipeline.{
  spins, Raised, message, terminates, frame, filtered_frame, decoder_context, encoder_context,
  filter_parts, frees, reads, sends_packet, receives_frame, copies_packet, feeds, filters,
  sends_frame, receives_packet, writes_packet, writes_trailer, Libav, Run, record_call, ask,
  succeed, alloc, stream_context, set_stream, for_each, nb_streams, pure, leave, deref, branch,
  if_some, modify, ◌>>=◌, ◌>>◌,
}
use audio_tool_api.Audio.Pipeline.Setup.{init_input, init_output, init_filters}

-- Whether a loop over answers goes on: a value, the end (EAGAIN or AVERROR_EOF), or an error.
unfoldable pub drained : {A : Type 0} → Answer A → Raised → Run (Option A)
drained (gives a) e = pure (some a)
drained (refuses eagain) e = pure none
drained (refuses eof) e = pure none
drained (refuses enomem) e = leave e
drained (refuses exit_code) e = leave e
drained (refuses other) e = leave e

-- By the answer of `av_read_frame`.
abbrev pub packet_of : Answer ℕ → Option ℕ
packet_of (gives i) = some i
packet_of (refuses e) = none

unfoldable pub spin : {A : Type 0} → Run A
spin s = (spins, s)

module _ (av : Libav) where
  -- The loop of `encode_write` over the packets of the encoder.
  unfoldable pub write_packets : ℕ → ℕ → Run (Unit {0})
  write_packets zero i = spin
  write_packets (suc fuel) i = do
    ret ← ask (λ h. av.receive_packet h i) (receives_packet i)
    packet ← drained ret (message (codes "error encoding audio frame"))
    if_some packet
        (λ enc_pkt. do
          error ← ask (λ h. av.write_frame h i enc_pkt) (writes_packet i enc_pkt)
          succeed error (codes "Error writing frame")
          write_packets fuel i)
        (pure tt)

  -- The answer of `avcodec_send_frame` is not used.
  unfoldable pub encode_write : ℕ → Option Samples → ℕ → Run (Unit {0})
  encode_write fuel filt_frame i = do
    c ← stream_context i
    deref (λ s. c.enc_ctx)
    modify (record_call (sends_frame i filt_frame))
    if_some filt_frame (λ xs. modify (record_call (frees filtered_frame))) (pure tt)
    write_packets fuel i

  -- The loop of `filter_encode_write` over the frames of the filter. `throw;` stands where no
  -- exception is handled.
  unfoldable pub filter_frames : ℕ → ℕ → ℕ → Run (Unit {0})
  filter_frames zero fuel i = spin
  filter_frames (suc rounds) fuel i = do
    alloc av filtered_frame (codes "Could not allocate the filter frame")
    error ← ask (λ h. av.buffersink_get_frame h i) (filters i)
    filt_frame ← drained error terminates
    if_some filt_frame (λ xs. do encode_write fuel (some xs) i; filter_frames rounds fuel i)
        (modify (record_call (frees filtered_frame)))

  unfoldable pub filter_encode_write : ℕ → ℕ → Option Samples → ℕ → Run (Unit {0})
  filter_encode_write rounds fuel frame_data i = do
    error ← ask (λ h. av.buffersrc_add_frame h i frame_data) (feeds i frame_data)
    succeed error (codes "Error while feeding the filtergraph")
    filter_frames rounds fuel i

  -- By the answer of `avcodec_receive_frame`.
  unfoldable pub frame_received : ℕ → ℕ → ℕ → Answer Samples → Run (Unit {0})
  frame_received rounds fuel i (gives frame_data) =
      filter_encode_write rounds fuel (some frame_data) i
  frame_received rounds fuel i (refuses eagain) = pure tt
  frame_received rounds fuel i (refuses e) = leave (message (codes "Problem receiving frame"))

  -- A packet of a stream with a filter: at most one frame is taken from the decoder.
  unfoldable pub decode_packet : ℕ → ℕ → ℕ → Run (Unit {0})
  decode_packet rounds fuel i = do
    alloc av frame (codes "Could not allocate frame")
    error ← ask (λ h. av.send_packet h i) (sends_packet i)
    succeed error (codes "Problem sending packet")
    answer ← ask (λ h. av.receive_frame h i) (receives_frame i)
    frame_received rounds fuel i answer
    modify (record_call (frees frame))

  -- A packet of a stream without a filter is written as it is.
  unfoldable pub copy_packet : ℕ → Run (Unit {0})
  copy_packet i = do
    error ← ask (λ h. av.write_input_packet h i) (copies_packet i)
    succeed error (codes "Error writing frame")
    pure tt

  -- `filter_ctx.get()[i].filter_graph`.
  unfoldable pub has_filter : ℕ → Run Bool
  has_filter i = deref (λ s. get_elem? s.filter_ctx i)

  -- The loop over the packets; any error ends it.
  unfoldable pub read_packets : ℕ → ℕ → ℕ → Run (Unit {0})
  read_packets zero rounds fuel = spin
  read_packets (suc packets) rounds fuel = do
    error ← ask av.read_frame reads
    if_some (packet_of error)
        (λ stream_index. do
          there ← has_filter stream_index
          branch there (decode_packet rounds fuel stream_index) (copy_packet stream_index)
          read_packets packets rounds fuel)
        (pure tt)

  -- `while (true)` with no way out but an exception.
  unfoldable pub flush_encoder : ℕ → ℕ → ℕ → Run (Unit {0})
  flush_encoder zero fuel i = spin
  flush_encoder (suc flushes) fuel i = do encode_write fuel none i; flush_encoder flushes fuel i

  unfoldable pub flush_stream : ℕ → ℕ → ℕ → ℕ → Run (Unit {0})
  flush_stream rounds flushes fuel i = do
    there ← has_filter i
    branch there
        (do
          filter_encode_write rounds fuel none i
          c ← stream_context i
          deref (λ s. c.enc_ctx)
          branch av.has_delay (flush_encoder flushes fuel i) (pure tt))
        (pure tt)

  -- The contexts of a stream are freed. The output has a stream for each of the input.
  unfoldable pub free_stream : ℕ → Run (Unit {0})
  free_stream i = do
    c ← stream_context i
    if_some c.dec_ctx (λ d. modify (record_call (frees decoder_context))) (pure tt)
    if_some c.enc_ctx (λ e. modify (record_call (frees encoder_context))) (pure tt)
    set_stream i (λ c'. record { dec_ctx = none; enc_ctx = none })
    there ← has_filter i
    branch there
        (modify (λ s.
          record_call (frees filter_parts) (record s { filter_ctx = set s.filter_ctx i false })))
        (pure tt)

  -- The answer of `av_write_trailer` is not used.
  unfoldable pub process : ℕ → ℕ → ℕ → ℕ → Run (Unit {0})
  process packets rounds flushes fuel = do
    init_input av
    init_output av
    init_filters av
    read_packets packets rounds fuel
    n ← nb_streams av
    for_each n 0 (flush_stream rounds flushes fuel)
    ask av.write_trailer writes_trailer
    n' ← nb_streams av
    for_each n' 0 free_stream
