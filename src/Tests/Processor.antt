-- ===== src/Tests/Processor.antt =====
-- `AudioProcessor` with an ffmpeg whose input has two packets, and a FIFO buffer that is a list.
use audio_tool_api.Prelude.{
  ℕ, ◌+◌, ◌≡◌, refl, ap, not, true, false, some, [], ◌∷◌, ◌++◌, length, take, drop, codes, arith,
  ltb, ◌==◌, if◌then◌else◌,
}
use audio_tool_api.Processor.{
  Answer, gives, refuses, eof, enomem, input_context, output_context, fifo_buffer, samples, Samples,
  Ffmpeg, CodecContext, AudioProcessor, fresh, Exit, done, Code, pure, leave, crash, gets, ask,
  deref, branch, cleanup, on_error, modify, attempt, check, acquire, return_code, ◌>>=◌,
}
use audio_tool_api.Processor.Media.{sent, converted_samples, packets_written, reads_made, flushed}
use audio_tool_api.Processor.Ownership.{taken, misused, holding, number}
use audio_tool_api.Effects.Rules.{Ends}
use audio_tool_api.Processor.Invariants.{IsLawful}
use audio_tool_api.Processor.Safety.{IsCleaned, execute-IsCleaned}
use audio_tool_api.Processor.Chunks.{chunks}
use audio_tool_api.Processor.Total.{EndsAfter, Unknown}
use audio_tool_api.Processor.Whole.{execute-chunks}
use audio_tool_api.Processor.Faults.{OfAnswer, open_input_file-OfAnswer, convert_and_store-misused}
use audio_tool_api.Processor.Opening.{
  close_input, free_output, found, same_rate, stream_at, open_decoder, open_input_file,
  encoder_context, open_encoder, open_output_file, init_resampler, init_fifo,
}
use audio_tool_api.Processor.Decoding.{
  init_input_frame, packet_read, frame_received, decode_packet, decode_audio_frame, alloc_pointers,
  alloc_samples, convert_samples, grow_fifo, fifo_written, write_fifo, add_samples_to_fifo,
  convert_and_store, unless_finished, read_decode_convert_and_store,
}
use audio_tool_api.Processor.Encoding.{
  output_frame_size, write_output_file_header, write_output_file_trailer, init_output_frame,
  send_frame, write_packet_out, packet_received, frame_sent, encode_audio_frame, fifo_loaded,
  read_fifo, as_exit, load_encode_and_write,
}
use audio_tool_api.Processor.Execute.{
  spin, free_fifo, free_resampler, free_encoder, free_decoder, free_all, fill, drain_rounds, drain,
  flush, rounds, pipeline, execute,
}
use audio_tool_api.Processor.Again.{execute_again}

abbrev context : CodecContext
context = record {
  channels = 2;
  channel_layout = 3;
  sample_fmt = 8;
  sample_rate = 44100;
  bit_rate = 96000;
  global_header = false;
}

-- The frame after the first, and after the second packet.
abbrev decoded : ℕ → Answer Samples
decoded n = if n == 1 then gives (7 ∷ 8 ∷ []) else if n == 2 then gives (9 ∷ []) else refuses eof

abbrev ffmpeg : Ffmpeg Samples
ffmpeg = record {
  alloc = λ h r. true;
  open_input = λ h. gives 0;
  find_stream_info = λ h. gives 0;
  streams = λ h.
      record { is_audio = false; codec_id = 27 }
      ∷ record { is_audio = true; codec_id = 86018 }
      ∷ [];
  find_decoder = λ id. true;
  parameters_to_context = λ h. gives context;
  open_decoder = λ h. gives 0;
  guess_format = some false;
  find_encoder = some 3;
  new_stream = λ h. true;
  default_channel_layout = λ n. n + 1;
  open_encoder = λ h. gives 0;
  parameters_from_context = λ h. gives 0;
  swr_init = λ h. gives 0;
  fifo_alloc = λ f c. [];
  fifo_size = λ q. length q;
  fifo_realloc = λ h q n. gives q;
  fifo_write = λ h q xs. (gives (length xs), q ++ xs);
  fifo_read = λ h q n. (gives (take n q), drop n q);
  read_frame = λ h. if ltb (reads_made h) 2 then gives 0 else refuses eof;
  send_packet = λ h. gives 0;
  receive_frame = λ h. decoded (reads_made h);
  samples_alloc = λ h. gives 0;
  swr_convert = λ h xs. gives xs;
  frame_get_buffer = λ h n. gives 0;
  send_frame = λ h pts xs. gives 0;
  flush_encoder = λ h. if flushed h then refuses eof else gives 0;
  receive_packet = λ h. if flushed h then refuses eof else gives (codes "RIFF");
  write_header = λ h. gives 0;
  write_frame = λ h p. gives 0;
  write_trailer = λ h. gives 0;
}

ffmpeg-IsLawful : IsLawful ffmpeg (λ q. q)
ffmpeg-IsLawful = record {
  fifo_size = λ q. refl;
  fifo_alloc = λ f c. refl;
  fifo_realloc = λ h q q' n e. ground arith;
  fifo_write = λ h q q' xs n e. ground arith;
  fifo_read = λ h q n xs e. ground arith;
  swr_convert = λ h xs ys e. ground arith;
}

run : Exit Code (Unit {0}) × AudioProcessor Samples
run = execute ffmpeg 3 3 2 fresh

-- A context for the input can be allocated at the start only.
abbrev only_once : Ffmpeg Samples
only_once = record ffmpeg { alloc = λ h r. elim h [ [] ↦ true | e ∷ h' ↦ not (number r == 0) ] }

once_run : Exit Code (Unit {0}) × AudioProcessor Samples
once_run = execute only_once 3 3 2 fresh

run_done :
    (run.0 ≡ done tt)
    × (sent run.1.history ≡ (7 ∷ 8 ∷ 9 ∷ []) ∷ [])
    × (packets_written run.1.history ≡ codes "RIFF" ∷ [])
    × (once_run.0 ≡ done tt)
    × (only_once.alloc once_run.1.history input_context ≡ false)
unfolding run once_run pure leave crash gets ask deref branch cleanup on_error modify attempt check
    acquire return_code ◌>>=◌ close_input free_output found same_rate stream_at open_decoder
    open_input_file encoder_context open_encoder open_output_file init_resampler init_fifo
    init_input_frame packet_read frame_received decode_packet decode_audio_frame alloc_pointers
    alloc_samples convert_samples grow_fifo fifo_written write_fifo add_samples_to_fifo
    convert_and_store unless_finished read_decode_convert_and_store output_frame_size
    write_output_file_header write_output_file_trailer init_output_frame send_frame write_packet_out
    packet_received frame_sent encode_audio_frame fifo_loaded read_fifo as_exit
    load_encode_and_write spin free_fifo free_resampler free_encoder free_decoder free_all fill
    drain_rounds drain flush rounds pipeline execute
run_done = (refl, refl, refl, refl, refl)

execute-IsCleaned_example :
    Ends
      (Unit {0})
      (Unit {0})
      IsCleaned
      (λ a s. IsCleaned s × (holding output_context s.history ≡ taken))
      (execute ffmpeg 3 3 2 fresh)
execute-IsCleaned_example = execute-IsCleaned ffmpeg 3 3 2

ffmpeg-EndsAfter : EndsAfter ffmpeg 2
ffmpeg-EndsAfter h e = ground (arith, e)

execute-chunks_example :
    Ends ⊥ ⊥ Unknown
      (λ a s. sent s.history ≡ chunks output_frame_size (converted_samples s.history))
      (execute ffmpeg 3 3 2 fresh)
execute-chunks_example =
    execute-chunks (λ q. q) ffmpeg 2 3 3 0 ffmpeg-IsLawful ffmpeg-EndsAfter
      (λ h e. ground (arith, e)) (λ h n e. ground (arith, e)) (omega arith) (omega arith)

open_input_file-OfAnswer_example :
    Ends
      (Unit {0})
      (Unit {0})
      (λ s'. Unit {0})
      (λ a. OfAnswer ffmpeg)
      (open_input_file ffmpeg fresh)
open_input_file-OfAnswer_example = open_input_file-OfAnswer ffmpeg fresh

-- There is no memory for the samples.
abbrev short_of_memory : Ffmpeg Samples
short_of_memory = record ffmpeg { samples_alloc = λ h. refuses enomem }

convert_and_store-misused_example :
    holding samples (convert_and_store short_of_memory (some (7 ∷ [])) fresh).1.history ≡ misused
convert_and_store-misused_example =
    convert_and_store-misused short_of_memory (7 ∷ []) fresh enomem refl refl (λ h. refl)

execute_again_example : holding fifo_buffer (execute only_once 3 3 2 once_run.1).1.history ≡ misused
unfolding once_run
execute_again_example =
    execute_again only_once 3 3 2 3 3 2 once_run.1 (ap (λ x. (x, once_run.1)) run_done.3) run_done.4
