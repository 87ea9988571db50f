-- ===== src/Processor.antt =====
-- audio_tool_api/audio/processor.h and processor.cpp: `AudioProcessor`, its state, and what it
-- calls of ffmpeg. ffmpeg is a parameter: each of its functions is a function of the history of
-- the calls before it, so it may answer anything, and may answer otherwise at each call. A sample,
-- of all channels, is a number. A null pointer that is read, an assertion that fails and an index
-- out of range are the exit `crashes`; a loop that has used up its rounds is the exit `spins`.
pub mod Opening
pub mod Decoding
pub mod Encoding
pub mod Execute
pub mod Media
pub mod Rules
pub mod Invariants
pub mod Received
pub mod Storing
pub mod Sending
pub mod Safety
pub mod Chunks
pub mod Draining
pub mod Flushing
pub mod Total
pub mod Whole
pub mod Faults
pub mod Again
pub mod Ownership
pub use audio_tool_api.Effects.{
  Exit, done, fails, crashes, spins, Exec, pointed, cleaned, undone, continue, ◌>>◌,
}
unfoldable pub use audio_tool_api.Effects.{
  pure, leave, crash, gets, deref, branch, cleanup, on_error, modify, ◌>>=◌,
}
use audio_tool_api.Prelude.{
  ℕ, zero, suc, Bool, true, false, Option, none, some, List, [], ◌∷◌, if◌then◌else◌, Bytes,
}

pub data AvError : Type 0 where
  enomem exit_code eof eagain other : AvError

-- What a call of ffmpeg answers: a value that is not negative, or an error.
pub data Answer (A : Type 0) : Type 0 where
  gives : A → Answer A
  refuses : AvError → Answer A

abbrev pub Code : Type 0
Code = Answer ℕ

pub data Resource : Type 0 where
  input_context input_avio_buffer input_avio decoder : Resource
  output_context output_avio_buffer output_avio encoder : Resource
  resampler fifo_buffer frame samples packet : Resource

abbrev pub Samples : Type 0
Samples = List ℕ

-- The calls that the history keeps, with their answers.
pub data Event : Type 0 where
  acquires releases : Resource → Event
  opens_decoder : ℕ → Event
  reads sends_packet : Code → Event
  receives_frame converts : Answer Samples → Event
  stores loads : Samples → Event
  -- with the time stamp
  sends_frame : ℕ → Samples → Code → Event
  flushes : Code → Event
  receives_packet : Answer Bytes → Event
  writes_header writes_trailer : Code → Event
  writes_frame : Bytes → Code → Event

-- The newest call first.
abbrev pub History : Type 0
History = List Event

-- What is read of a codec context, and set in it.
pub record CodecContext : Type 0 where
  pub channels : ℕ
  pub channel_layout : ℕ
  pub sample_fmt : ℕ
  pub sample_rate : ℕ
  pub bit_rate : ℕ
  pub global_header : Bool

pub record Stream : Type 0 where
  pub is_audio : Bool
  pub codec_id : ℕ

-- The functions of ffmpeg. `Q` is `AVAudioFifo`.
pub record Ffmpeg (Q : Type 0) : Type 0 where
  -- Whether an allocation succeeds.
  pub alloc : History → Resource → Bool
  pub open_input : History → Code
  pub find_stream_info : History → Code
  pub streams : History → List Stream
  pub find_decoder : ℕ → Bool
  pub parameters_to_context : History → Answer CodecContext
  pub open_decoder : History → Code
  -- The flag AVFMT_GLOBALHEADER of the container format "wav", if there is one.
  pub guess_format : Option Bool
  -- The first sample format of the encoder, if there is one.
  pub find_encoder : Option ℕ
  pub new_stream : History → Bool
  pub default_channel_layout : ℕ → ℕ
  pub open_encoder : History → Code
  pub parameters_from_context : History → Code
  pub swr_init : History → Code
  pub fifo_alloc : ℕ → ℕ → Q
  pub fifo_size : Q → ℕ
  pub fifo_realloc : History → Q → ℕ → Answer Q
  pub fifo_write : History → Q → Samples → Code × Q
  pub fifo_read : History → Q → ℕ → Answer Samples × Q
  pub read_frame : History → Code
  pub send_packet : History → Code
  pub receive_frame : History → Answer Samples
  pub samples_alloc : History → Code
  -- What stands in the array of converted samples afterwards.
  pub swr_convert : History → Samples → Answer Samples
  pub frame_get_buffer : History → ℕ → Code
  pub send_frame : History → ℕ → Samples → Code
  pub flush_encoder : History → Code
  pub receive_packet : History → Answer Bytes
  pub write_header : History → Code
  pub write_frame : History → Bytes → Code
  pub write_trailer : History → Code

-- A pointer whose target is not read here is the test whether it is not null. `fifo` keeps what it
-- pointed to after `av_audio_fifo_free`.
pub record AudioProcessor (Q : Type 0) : Type 0 where
  pub input_format_context : Bool
  pub output_format_context : Bool
  pub input_codec_context : Option CodecContext
  pub output_codec_context : Option CodecContext
  pub resample_context : Bool
  pub fifo : Option Q
  pub pts : ℕ
  pub history : History

abbrev pub fresh : {Q : Type 0} → AudioProcessor Q
fresh = record {
  input_format_context = false;
  output_format_context = false;
  input_codec_context = none;
  output_codec_context = none;
  resample_context = false;
  fifo = none;
  pts = 0;
  history = [];
}

-- What a method returns early is a value other than 0.
abbrev pub Run : Type 0 → Type 0 → Type 0
Run Q A = Exec Code (AudioProcessor Q) A

module _ {Q A : Type 0} where
  -- A call of ffmpeg, by its answer and its entry in the history.
  unfoldable pub ask : (History → A) → (A → Event) → Run Q A
  ask call event s =
      (done (call s.history), record s { history = event (call s.history) ∷ s.history })

module _ {Q : Type 0} where
  abbrev pub note : Event → AudioProcessor Q → AudioProcessor Q
  note e s = record s { history = e ∷ s.history }

  abbrev pub answered : {A : Type 0} → Answer A → Run Q A
  answered (gives a) s = (done a, s)
  answered (refuses e) s = (fails (refuses e), s)

  -- `if (error < 0) return error`, for a call that is not in the history.
  unfoldable pub attempt : {A : Type 0} → (History → Answer A) → Run Q A
  attempt call s = answered (call s.history) s

  -- `if (!test) return error`.
  unfoldable pub check : (History → Bool) → AvError → Run Q (Unit {0})
  check test e s = if test s.history then (done tt, s) else (fails (refuses e), s)

  unfoldable pub acquire : Ffmpeg Q → Resource → AvError → Run Q (Unit {0})
  acquire av r e s =
      if av.alloc s.history r then (done tt, note (acquires r) s) else (fails (refuses e), s)

module _ {Q : Type 0} where
  -- What a method returns is an error unless it is 0.
  unfoldable pub return_code : Code → Run Q (Unit {0})
  return_code (gives zero) = pure tt
  return_code (gives (suc n)) = leave (gives (suc n))
  return_code (refuses e) = leave (refuses e)
