-- ===== src/Tests/Pipeline.antt =====
-- Runs of `AP` of audio_tool_api/audio/audio_processor.cpp.
use audio_tool_api.Prelude.{
  arith, ltb, if◌then◌else◌, ℕ, ◌≡◌, refl, true, false, some, [], ◌∷◌, Bytes,
}
use audio_tool_api.Effects.Rules.{Ends}
use audio_tool_api.Processor.{eof, eagain, other, Answer, gives, refuses, Samples}
use audio_tool_api.Audio.Pipeline.{
  CodecContext, done, crashes, Raised, Calls, Libav, Ap, new_ap, allocates, frees, reads, feeds,
  sends_frame, filtered_frame, ◌>>=◌, pure, leave, gets, deref, branch, if_some, modify, ask,
  require, succeed, try_alloc, alloc, stream_context, set_stream, for_each, nb_streams, codec_of,
}
use audio_tool_api.Audio.Pipeline.Setup.{
  init_decoder, input_opened, open_input, info_found, find_stream_info, init_input, encoder_of,
  init_encoder, init_stream, init_output, with_layout, init_filter, init_filters,
}
use audio_tool_api.Audio.Pipeline.Process.{
  drained, write_packets, encode_write, filter_frames, filter_encode_write, frame_received,
  decode_packet, copy_packet, has_filter, read_packets, flush_stream, free_stream, process,
}
use audio_tool_api.Audio.Pipeline.Order.{packets_out}
use audio_tool_api.Audio.Pipeline.Rounds.{IsBounded, reads_given, frames_since, packets_since}
use audio_tool_api.Audio.Pipeline.Ending.{read_packets-Ends}
use audio_tool_api.Audio.Pipeline.Faults.{process-not_media}

abbrev stereo : CodecContext
stereo = record {
  is_audio = true;
  sample_rate = 44100;
  channel_layout = 3;
  channels = 2;
  sample_fmt = 8;
}

-- One packet, then the end.
abbrev next_packet : Calls → Answer ℕ
next_packet [] = gives 0
next_packet (reads a ∷ h) = refuses eof
next_packet (c ∷ h) = next_packet h

-- The filter gives a frame back once.
abbrev next_filtered : Calls → ℕ → Answer Samples
next_filtered (allocates filtered_frame ∷ feeds j (some xs) code ∷ h) i = gives xs
next_filtered h i = refuses eagain

-- The encoder gives a packet for each frame.
abbrev next_encoded : Calls → ℕ → Answer Bytes
next_encoded (frees filtered_frame ∷ sends_frame j (some xs) ∷ h) i = gives (1 ∷ 2 ∷ [])
next_encoded h i = refuses eagain

abbrev small_av : Libav
small_av = record {
  alloc = λ h r. true;
  open_input = λ h. gives 0;
  find_stream_info = λ h. gives 0;
  streams = λ h. 86017 ∷ [];
  find_decoder = λ codec. true;
  parameters_to_context = λ h i. gives stereo;
  open_decoder = λ h. gives 0;
  guess_format = true;
  new_stream = λ h. true;
  find_encoder = some 8;
  layout_nb_channels = λ l. 2;
  default_channel_layout = λ n. 3;
  open_encoder = λ h. gives 0;
  parameters_from_context = λ h. gives 0;
  write_header = λ h. gives 0;
  has_buffer_filters = true;
  create_source = λ h. gives 0;
  create_sink = λ h. gives 0;
  set_sample_fmts = λ h. gives 0;
  set_channel_layouts = λ h. gives 0;
  set_sample_rates = λ h. gives 0;
  graph_parse = λ h. gives 0;
  graph_config = λ h. gives 0;
  read_frame = next_packet;
  send_packet = λ h i. gives 0;
  receive_frame = λ h i. gives (5 ∷ 6 ∷ []);
  write_input_packet = λ h i. gives 0;
  buffersrc_add_frame = λ h i xs. gives 0;
  buffersink_get_frame = next_filtered;
  receive_packet = next_encoded;
  write_frame = λ h i p. gives 0;
  write_trailer = λ h. gives 0;
  has_delay = false;
}

-- The packet is decoded, filtered, encoded and written.
written :
    (packets_out (process small_av 3 3 3 3 new_ap).1.calls ≡ (0, 1 ∷ 2 ∷ []) ∷ [])
    × ((process small_av 3 3 3 3 new_ap).0 ≡ done tt)
unfolding process init_input open_input input_opened find_stream_info info_found nb_streams for_each
    init_decoder codec_of set_stream stream_context init_output init_stream encoder_of init_encoder
    with_layout init_filter init_filters drained write_packets encode_write filter_frames
    filter_encode_write frame_received decode_packet copy_packet has_filter read_packets
    flush_stream free_stream ◌>>=◌ try_alloc alloc gets branch modify pure leave require deref ask
    succeed if_some
written = (refl, refl)

abbrev filtering : Ap
filtering = record new_ap {
  in_fmt_ctx = true;
  stream_ctx = record { dec_ctx = some stereo; enc_ctx = some stereo } ∷ [];
  filter_ctx = true ∷ [];
}

abbrev text_av : Libav
text_av = record small_av { open_input = λ h. refuses other }

process-not_media_example : (process text_av 3 3 3 3 new_ap).0 ≡ crashes
process-not_media_example = process-not_media text_av 3 3 3 3 other (λ h r. refl) (λ h. refl)

-- One packet of the input, one frame of the filter and one packet of the encoder for each.
abbrev counting_av : Libav
counting_av = record small_av {
  read_frame = λ h. if ltb (reads_given h) 1 then gives 0 else refuses eof;
  buffersink_get_frame = λ h i. if ltb (frames_since h) 1 then gives (5 ∷ []) else refuses eagain;
  receive_packet = λ h i. if ltb (packets_since h) 1 then gives (1 ∷ []) else refuses eagain;
}

counting_av-IsBounded : IsBounded counting_av 1 1
counting_av-IsBounded = record {
  filtered = λ h i xs e. ground (arith, e);
  encoded = λ h i p e. ground (arith, e);
}

read_packets-Ends_example :
    Ends {X = Raised}
      (Unit {0})
      ⊥
      (λ s'. Unit {0})
      (λ _ s'. Unit {0})
      (read_packets counting_av 2 2 2 filtering)
read_packets-Ends_example =
    read_packets-Ends counting_av 1 1 counting_av-IsBounded 1 2 2 2 filtering
      (λ h i e. ground (arith, e)) (omega arith) (omega arith) (omega arith) (omega arith)
