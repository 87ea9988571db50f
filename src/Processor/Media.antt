-- ===== src/Processor/Media.antt =====
-- What a history of `AudioProcessor` says of the samples and the packets.
use audio_tool_api.Prelude.{
  ℕ, suc, ◌+◌, ◌≡◌, Bool, true, false, List, [], ◌∷◌, ◌++◌, length, if◌then◌else◌, Bytes, arith,
}
use audio_tool_api.Processor.{
  Code, gives, refuses, Samples, Event, acquires, releases, opens_decoder, reads, converts,
  sends_frame, flushes, receives_packet, writes_header, writes_trailer, writes_frame, History,
}

-- The calls that carry samples, or write to the output.
abbrev pub is_traffic : Event → Bool
is_traffic (acquires r) = false
is_traffic (releases r) = false
is_traffic (opens_decoder id) = false
is_traffic e = true

abbrev pub traffic : History → History
traffic [] = []
traffic (e ∷ h) = if is_traffic e then e ∷ traffic h else traffic h

-- The frames that the encoder was given, in order.
abbrev pub sent : History → List Samples
sent [] = []
sent (sends_frame pts xs code ∷ h) = sent h ++ (xs ∷ [])
sent (e ∷ h) = sent h

abbrev pub total : History → ℕ
total [] = 0
total (sends_frame pts xs code ∷ h) = total h + length xs
total (e ∷ h) = total h

-- The time stamp of a frame is the number of the samples before it.
abbrev pub IsStamped : History → Type 0
IsStamped [] = Unit
IsStamped (sends_frame pts xs code ∷ h) = (pts ≡ total h) × IsStamped h
IsStamped (e ∷ h) = IsStamped h

-- The samples that came out of the resampler, in order.
abbrev pub converted_samples : History → Samples
converted_samples [] = []
converted_samples (converts (gives xs) ∷ h) = converted_samples h ++ xs
converted_samples (e ∷ h) = converted_samples h

abbrev pub packets_received : History → List Bytes
packets_received [] = []
packets_received (receives_packet (gives p) ∷ h) = packets_received h ++ (p ∷ [])
packets_received (e ∷ h) = packets_received h

abbrev pub packets_written : History → List Bytes
packets_written [] = []
packets_written (writes_frame p code ∷ h) = packets_written h ++ (p ∷ [])
packets_written (e ∷ h) = packets_written h

-- The number of calls of `av_read_frame`.
abbrev pub reads_made : History → ℕ
reads_made [] = 0
reads_made (reads code ∷ h) = suc (reads_made h)
reads_made (e ∷ h) = reads_made h

-- Whether the encoder was told that no more frames come.
abbrev pub flushed : History → Bool
flushed [] = false
flushed (flushes (gives n) ∷ h) = true
flushed (e ∷ h) = flushed h

-- Where the container's file is: a frame may be written only behind the header and before the
-- trailer, and nothing behind a header that failed.
pub data Phase : Type 0 where
  before writing ended wrong : Phase

abbrev pub after_header : Code → Phase → Phase
after_header (gives n) before = writing
after_header (refuses e) before = ended
after_header code phase = wrong

abbrev pub when_writing : Phase → Phase → Phase
when_writing writing next = next
when_writing phase next = wrong

abbrev pub phase : History → Phase
phase [] = before
phase (writes_header code ∷ h) = after_header code (phase h)
phase (writes_frame p code ∷ h) = when_writing (phase h) writing
phase (writes_trailer code ∷ h) = when_writing (phase h) ended
phase (e ∷ h) = phase h

pub record IsSilent (h : History) : Type 0 where
  pub no_frames : sent h ≡ []
  pub no_total : total h ≡ 0
  pub no_stamps : IsStamped h
  pub no_samples : converted_samples h ≡ []
  pub none_received : packets_received h ≡ []
  pub none_written : packets_written h ≡ []
  pub not_begun : phase h ≡ before
  pub none_read : reads_made h ≡ 0

pub traffic-IsSilent : (h : History) → traffic h ≡ [] → IsSilent h
traffic-IsSilent [] e = ground arith
traffic-IsSilent (acquires r ∷ h) e = ground (arith, traffic-IsSilent h e)
traffic-IsSilent (releases r ∷ h) e = ground (arith, traffic-IsSilent h e)
traffic-IsSilent (opens_decoder id ∷ h) e = ground (arith, traffic-IsSilent h e)
traffic-IsSilent (_ ∷ h) e = absurd (cc)
