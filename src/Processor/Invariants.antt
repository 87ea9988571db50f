-- ===== src/Processor/Invariants.antt =====
-- What the loops of `AudioProcessor` keep, and what ffmpeg documents of the FIFO buffer and the
-- resampler.
use audio_tool_api.Prelude.{
  ℕ, suc, ◌≡◌, ◌≢◌, Bool, true, false, Option, none, some, [], ◌++◌, length, take, drop,
}
use audio_tool_api.Processor.{Answer, gives, refuses, Samples, History, Ffmpeg, AudioProcessor}
use audio_tool_api.Processor.Media.{
  sent, total, IsStamped, converted_samples, packets_received, packets_written, reads_made, writing,
  wrong, phase,
}
use audio_tool_api.Processor.Ownership.{Holding, free, IsOwner, is_some}

-- What holds of a state behind an error too.
pub record IsSafe {Q : Type 0} (s : AudioProcessor Q) : Type 0 where
  pub owner : IsOwner free s
  pub pts_is : s.pts ≡ total s.history
  pub stamped : IsStamped s.history
  pub packets : packets_written s.history ≡ packets_received s.history
  pub legal : phase s.history ≢ wrong

-- In the loops of `execute`.
pub record IsRunning {Q : Type 0} (held : Holding) (s : AudioProcessor Q) : Type 0 where
  pub owned : IsOwner held s
  pub pts_sum : s.pts ≡ total s.history
  pub stamps : IsStamped s.history
  pub in_step : packets_written s.history ≡ packets_received s.history
  pub is_writing : phase s.history ≡ writing
  pub has_fifo : is_some s.fifo ≡ true
  pub output_open : s.output_format_context ≡ true

-- What is documented of the FIFO buffer and of a resampler that keeps the rate. `contents` are the
-- samples in a buffer.
pub record IsLawful {Q : Type 0} (av : Ffmpeg Q) (contents : Q → Samples) : Type 0 where
  pub fifo_size : (q : Q) → av.fifo_size q ≡ length (contents q)
  pub fifo_alloc : (sample_fmt channels : ℕ) → contents (av.fifo_alloc sample_fmt channels) ≡ []
  pub fifo_realloc :
      (h : History) (q q' : Q) (n : ℕ) → av.fifo_realloc h q n ≡ gives q' → contents q' ≡ contents q
  pub fifo_write :
      (h : History) (q q' : Q) (xs : Samples) (n : ℕ)
      → av.fifo_write h q xs ≡ (gives n, q')
      → contents q' ≡ contents q ++ xs
  pub fifo_read :
      (h : History) (q : Q) (n : ℕ) (xs : Samples)
      → (av.fifo_read h q n).0 ≡ gives xs
      → (xs ≡ take n (contents q)) × (contents (av.fifo_read h q n).1 ≡ drop n (contents q))
  pub swr_convert :
      (h : History) (xs ys : Samples) → av.swr_convert h xs ≡ gives ys → length ys ≡ length xs

abbrev pub in_fifo : {Q : Type 0} → (Q → Samples) → Option Q → Samples
in_fifo contents none = []
in_fifo contents (some q) = contents q

-- The samples of a round: as many come into the buffer as come out of the resampler.
pub record Stored {Q : Type 0} (contents : Q → Samples) (s s' : AudioProcessor Q) : Type 0 where
  pub frames : sent s'.history ≡ sent s.history
  pub new : Samples
  pub out_of_resampler : converted_samples s'.history ≡ converted_samples s.history ++ new
  pub into_fifo : in_fifo contents s'.fifo ≡ in_fifo contents s.fifo ++ new

abbrev pub IsGiven : {A : Type 0} → Answer A → Type 0
IsGiven (gives a) = Unit
IsGiven (refuses e) = ⊥

-- One packet is asked for, and one was there unless the input has ended.
pub record ReadsOne {Q : Type 0} (av : Ffmpeg Q) (finished : Bool) (s s' : AudioProcessor Q)
    : Type 0 where
  pub counted : reads_made s'.history ≡ suc (reads_made s.history)
  pub more :
      finished ≡ false
      → (h : History) × IsGiven (av.read_frame h) × (reads_made h ≡ reads_made s.history)
