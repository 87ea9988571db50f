-- ===== src/Audio/Pipeline.antt =====
-- audio_tool_api/audio/audio_processor.h: the class `AP`, its state, and what it calls of ffmpeg.
-- ffmpeg is a parameter, whose functions are functions of the calls before. A frame is the list of
-- its samples and a packet of an encoder is a list of bytes; time stamps, which ffmpeg rescales, are
-- left out. The buffers behind the two callbacks are those of Buffers.
pub mod Setup
pub mod Process
pub mod Order
pub mod Packets
pub mod Writing
pub mod Rounds
pub mod Ending
pub mod Faults
pub use audio_tool_api.Effects.{Exit, done, fails, crashes, spins, Exec, ◌>>◌}
unfoldable pub use audio_tool_api.Effects.{
  pure, leave, crash, gets, deref, branch, if_some, modify, ◌>>=◌,
}
use audio_tool_api.Prelude.{
  ℕ, zero, suc, ◌+◌, Bool, true, false, Option, none, some, List, [], ◌∷◌, if◌then◌else◌, get_elem?,
  set, replicate, length, Bytes,
}
use audio_tool_api.Processor.{AvError, Answer, gives, refuses, Code, Samples}

-- What is thrown: a text, a `std::string`, or `throw;` where nothing was caught, which terminates.
pub data Raised : Type 0 where
  message string_message : Bytes → Raised
  terminates : Raised

pub data Resource : Type 0 where
  avio_buffer avio_context format_context stream_array decoder_context encoder_context : Resource
  filter_parts endpoint_names filter_array frame filtered_frame : Resource

pub record CodecContext : Type 0 where
  pub is_audio : Bool
  pub sample_rate : ℕ
  pub channel_layout : ℕ
  pub channels : ℕ
  pub sample_fmt : ℕ

pub record StreamContext : Type 0 where
  pub dec_ctx : Option CodecContext
  pub enc_ctx : Option CodecContext

-- The calls that the history keeps, with the index of the stream.
pub data Call : Type 0 where
  allocates frees : Resource → Call
  opens_input : Code → Call
  opens_decoder opens_encoder makes_filter : ℕ → Call
  writes_header writes_trailer : Code → Call
  reads : Answer ℕ → Call
  sends_packet : ℕ → Code → Call
  receives_frame : ℕ → Answer Samples → Call
  copies_packet : ℕ → Code → Call
  feeds : ℕ → Option Samples → Code → Call
  filters : ℕ → Answer Samples → Call
  sends_frame : ℕ → Option Samples → Call
  receives_packet : ℕ → Answer Bytes → Call
  writes_packet : ℕ → Bytes → Code → Call

abbrev pub Calls : Type 0
Calls = List Call

-- The functions of ffmpeg.
pub record Libav : Type 0 where
  -- Whether an allocation succeeds.
  pub alloc : Calls → Resource → Bool
  pub open_input : Calls → Code
  pub find_stream_info : Calls → Code
  -- The codec of each stream of the input.
  pub streams : Calls → List ℕ
  pub find_decoder : ℕ → Bool
  pub parameters_to_context : Calls → ℕ → Answer CodecContext
  pub open_decoder : Calls → Code
  pub guess_format : Bool
  pub new_stream : Calls → Bool
  -- The first sample format of the encoder, if there is one.
  pub find_encoder : Option ℕ
  pub layout_nb_channels : ℕ → ℕ
  pub default_channel_layout : ℕ → ℕ
  pub open_encoder : Calls → Code
  pub parameters_from_context : Calls → Code
  pub write_header : Calls → Code
  pub has_buffer_filters : Bool
  pub create_source : Calls → Code
  pub create_sink : Calls → Code
  pub set_sample_fmts : Calls → Code
  pub set_channel_layouts : Calls → Code
  pub set_sample_rates : Calls → Code
  pub graph_parse : Calls → Code
  pub graph_config : Calls → Code
  -- The index of the packet's stream.
  pub read_frame : Calls → Answer ℕ
  pub send_packet : Calls → ℕ → Code
  pub receive_frame : Calls → ℕ → Answer Samples
  pub write_input_packet : Calls → ℕ → Code
  pub buffersrc_add_frame : Calls → ℕ → Option Samples → Code
  pub buffersink_get_frame : Calls → ℕ → Answer Samples
  pub receive_packet : Calls → ℕ → Answer Bytes
  pub write_frame : Calls → ℕ → Bytes → Code
  pub write_trailer : Calls → Code
  -- The flag AV_CODEC_CAP_DELAY of the encoder.
  pub has_delay : Bool

-- An array that could not be allocated is empty. A filter is there or not.
pub record Ap : Type 0 where
  pub in_fmt_ctx : Bool
  pub stream_ctx : List StreamContext
  pub out_fmt_ctx : Bool
  pub filter_ctx : List Bool
  pub output_sample_rate : Option ℕ
  pub calls : Calls

-- The constructor of `AP`.
abbrev pub new_ap : Ap
new_ap = record {
  in_fmt_ctx = false;
  stream_ctx = [];
  out_fmt_ctx = false;
  filter_ctx = [];
  output_sample_rate = none;
  calls = [];
}

abbrev pub Run : Type 0 → Type 0
Run A = Exec Raised Ap A

abbrev pub record_call : Call → Ap → Ap
record_call c s = record s { calls = c ∷ s.calls }

-- A call of ffmpeg, by its answer and its entry in the history.
unfoldable pub ask : {A : Type 0} → (Calls → A) → (A → Call) → Run A
ask f call s = (done (f s.calls), record_call (call (f s.calls)) s)

-- `if (!test) throw`.
unfoldable pub require : Bool → Bytes → Run (Unit {0})
require true text = pure tt
require false text = leave (message text)

-- `if (error < 0) throw`.
unfoldable pub succeed : {A : Type 0} → Answer A → Bytes → Run A
succeed (gives a) text = pure a
succeed (refuses e) text = leave (message text)

-- An allocation whose null pointer is not tested.
unfoldable pub try_alloc : Libav → Resource → Run Bool
try_alloc av r = do
  there ← gets (λ s. av.alloc s.calls r)
  branch there (do modify (record_call (allocates r)); pure true) (pure false)

unfoldable pub alloc : Libav → Resource → Bytes → Run (Unit {0})
alloc av r text = do there ← try_alloc av r; require there text

-- `stream_ctx[i]`.
unfoldable pub stream_context : ℕ → Run StreamContext
stream_context i = deref (λ s. get_elem? s.stream_ctx i)

unfoldable pub set_stream : ℕ → (StreamContext → StreamContext) → Run (Unit {0})
set_stream i f = do
  c ← stream_context i
  modify (λ s. record s { stream_ctx = set s.stream_ctx i (f c) })

-- `for (int i = first; i < first + number; i++)`.
unfoldable pub for_each : ℕ → ℕ → (ℕ → Run (Unit {0})) → Run (Unit {0})
for_each zero first body = pure tt
for_each (suc number) first body = do body first; for_each number (suc first) body

-- `in_fmt_ctx->nb_streams`.
unfoldable pub nb_streams : Libav → Run ℕ
nb_streams av = deref (λ s. if s.in_fmt_ctx then some (length (av.streams s.calls)) else none)

-- `in_fmt_ctx->streams[i]->codecpar->codec_id`.
unfoldable pub codec_of : Libav → ℕ → Run ℕ
codec_of av i = deref (λ s. get_elem? (av.streams s.calls) i)
