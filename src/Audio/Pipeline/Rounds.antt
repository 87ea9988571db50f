-- ===== src/Audio/Pipeline/Rounds.antt =====
-- How many rounds the loops of `filter_encode_write` and `encode_write` need.
use audio_tool_api.Prelude.{
  ℕ, zero, suc, ◌+◌, ◌<◌, ◌≤◌, ◌≡◌, refl, ◌∙◌, Option, none, some, [], ◌∷◌, Bytes, codes, arith,
}
use audio_tool_api.Effects.Rules.{
  Ensures, ◌$◌, bind_rule, then_rule, modify_rule, deref_rule, branch_rule, pure_rule, leave_rule,
  mono, gets_rule,
}
use audio_tool_api.Processor.{
  eof, eagain, enomem, exit_code, other, Answer, gives, refuses, Samples,
}
use audio_tool_api.Audio.Pipeline.{
  Exit, allocates, filtered_frame, message, terminates, filters, feeds, frees, sends_frame, Raised,
  Calls, reads, receives_packet, writes_packet, Libav, Ap, Run, record_call, ask, require, succeed,
  try_alloc, alloc, stream_context, pure, if_some, modify, ◌>>=◌,
}
use audio_tool_api.Audio.Pipeline.Process.{
  drained, write_packets, encode_write, filter_frames, filter_encode_write,
}
use audio_tool_api.Audio.Pipeline.Packets.{ask_rule}

-- The packets that were given since a frame was sent to an encoder.
abbrev pub packets_since : Calls → ℕ
packets_since [] = 0
packets_since (sends_frame i xs ∷ h) = 0
packets_since (receives_packet i (gives p) ∷ h) = suc (packets_since h)
packets_since (c ∷ h) = packets_since h

-- The frames that were given since a filter was fed.
abbrev pub frames_since : Calls → ℕ
frames_since [] = 0
frames_since (feeds i xs code ∷ h) = 0
frames_since (filters i (gives xs) ∷ h) = suc (frames_since h)
frames_since (c ∷ h) = frames_since h

-- The packets that were read.
abbrev pub reads_given : Calls → ℕ
reads_given [] = 0
reads_given (reads (gives i) ∷ h) = suc (reads_given h)
reads_given (c ∷ h) = reads_given h

-- ffmpeg gives at most `frames` frames for each that a filter is fed, and at most `packets` packets
-- for each that is sent to an encoder.
pub record IsBounded (av : Libav) (frames packets : ℕ) : Type 0 where
  pub filtered :
      (h : Calls) (i : ℕ) (xs : Samples)
      → av.buffersink_get_frame h i ≡ gives xs
      → frames_since h < frames
  pub encoded :
      (h : Calls) (i : ℕ) (p : Bytes) → av.receive_packet h i ≡ gives p → packets_since h < packets

-- The run ends in the rounds that it is granted, and the filter is not asked meanwhile, and no packet
-- is read.
abbrev Lands : {A : Type 0} → ℕ → ℕ → Exit Raised A × Ap → Type 0
Lands m n x =
    Ensures {X = Raised} (Unit {0}) ⊥ (λ s. Unit {0})
      (λ a s. (reads_given s.calls ≡ m) × (frames_since s.calls ≡ n)) x

abbrev pub Ended : {A : Type 0} → ℕ → Exit Raised A × Ap → Type 0
Ended m x = Ensures {X = Raised} (Unit {0}) ⊥ (λ s. Unit {0}) (λ a s. reads_given s.calls ≡ m) x

module _ {A A' : Type 0} {R : A' → Ap → Type 0} where
  pub succeed_then :
      (a : Answer A) (text : Bytes) (s : Ap) (k : Run A')
      → Ensures {X = Raised} (Unit {0}) ⊥ (λ s. Unit {0}) R (k s)
      → Ensures {X = Raised} (Unit {0}) ⊥ (λ s. Unit {0}) R ((succeed a text >>= λ _. k) s)
  unfolding succeed
  succeed_then (gives a) text s k p = bind_rule _ _ s $ pure_rule _ _ p
  succeed_then (refuses e) text s k p = bind_rule _ _ s $ leave_rule _ _ tt

module _ (av : Libav) (frames packets : ℕ) (bounded : IsBounded av frames packets) where
  write_packets-Lands :
      (fuel i : ℕ) (s : Ap)
      → packets < fuel + packets_since s.calls
      → packets_since s.calls ≤ packets
      → Lands (reads_given s.calls) (frames_since s.calls) (write_packets av fuel i s)
  unfolding write_packets drained if_some
  write_packets-Lands zero i s more within = absurd (omega (arith, more, within))
  write_packets-Lands (suc fuel) i s more within =
      bind_rule _ _ s
      $ ask_rule _ _ _
      $ received (av.receive_packet s.calls i) refl (write_packets-Lands fuel i)
    where
      received :
          (ret : Answer Bytes)
          → av.receive_packet s.calls i ≡ ret
          → ((s' : Ap)
              → packets < fuel + packets_since s'.calls
              → packets_since s'.calls ≤ packets
              → Lands (reads_given s'.calls) (frames_since s'.calls) (write_packets av fuel i s'))
          → Lands (reads_given s.calls) (frames_since s.calls) (
              (drained ret (message (codes "error encoding audio frame")) >>= λ packet.
              if_some packet
                (λ enc_pkt.
                  ask (λ h. av.write_frame h i enc_pkt) (writes_packet i enc_pkt) >>= λ error.
                  succeed error (codes "Error writing frame") >>= λ _. write_packets av fuel i)
                (pure tt))
                (record_call (receives_packet i ret) s))
      received (gives p) e k =
          bind_rule _ _ _
          $ pure_rule _ _
          $ bind_rule _ _ _
          $ ask_rule _ _ _
          $ succeed_then _ _ _ _
              (k _ (omega (arith, more)) (omega (arith, bounded.encoded s.calls i p e)))
      received (refuses eagain) e k = bind_rule _ _ _ $ pure_rule _ _ $ pure_rule _ _ (refl, refl)
      received (refuses eof) e k = bind_rule _ _ _ $ pure_rule _ _ $ pure_rule _ _ (refl, refl)
      received (refuses enomem) e k = bind_rule _ _ _ $ leave_rule _ _ tt
      received (refuses exit_code) e k = bind_rule _ _ _ $ leave_rule _ _ tt
      received (refuses other) e k = bind_rule _ _ _ $ leave_rule _ _ tt

  encode_write-Lands :
      (fuel : ℕ) (xs : Option Samples) (i : ℕ) (s : Ap)
      → packets < fuel
      → Lands (reads_given s.calls) (frames_since s.calls) (encode_write av fuel xs i s)
  unfolding encode_write stream_context if_some
  encode_write-Lands fuel none i s more = bind_rule _ _ s $ deref_rule _ s (λ _. tt) $ λ c _.
      bind_rule _ _ s $ deref_rule _ s (λ _. tt) $ λ _ _.
      bind_rule _ _ s
      $ modify_rule _ s
      $ bind_rule _ _ _
      $ pure_rule _ _
      $ write_packets-Lands fuel i _ (omega (arith, more)) (omega arith)
  encode_write-Lands fuel (some xs) i s more = bind_rule _ _ s $ deref_rule _ s (λ _. tt) $ λ c _.
      bind_rule _ _ s $ deref_rule _ s (λ _. tt) $ λ _ _.
      bind_rule _ _ s
      $ modify_rule _ s
      $ bind_rule _ _ _
      $ modify_rule _ _
      $ write_packets-Lands fuel i _ (omega (arith, more)) (omega arith)

  alloc_then :
      {m : ℕ} (text : Bytes) (k : Run (Unit {0})) (s : Ap)
      → Ended m (k (record_call (allocates filtered_frame) s))
      → Ended m ((alloc av filtered_frame text >>= λ _. k) s)
  unfolding alloc try_alloc require
  alloc_then text k s p =
      bind_rule _ _ s
      $ bind_rule _ _ s
      $ bind_rule _ _ s
      $ gets_rule _ s
      $ branch_rule (av.alloc s.calls filtered_frame) _ _ s
          (λ _. bind_rule _ _ s $ modify_rule _ s $ pure_rule _ _ $ pure_rule _ _ p)
          (λ _. pure_rule _ _ $ leave_rule _ _ tt)

  filter_frames-Ended :
      (rounds fuel i : ℕ) (s : Ap)
      → frames < rounds + frames_since s.calls
      → frames_since s.calls ≤ frames
      → packets < fuel
      → Ended (reads_given s.calls) (filter_frames av rounds fuel i s)
  unfolding filter_frames drained if_some
  filter_frames-Ended zero fuel i s more within enough = absurd (omega (arith, more, within))
  filter_frames-Ended (suc rounds) fuel i s more within enough =
      alloc_then _ _ s
      $ bind_rule _ _ _
      $ ask_rule _ _ _
      $ received (av.buffersink_get_frame s'.calls i) refl
          (λ s2 m w. filter_frames-Ended rounds fuel i s2 m w enough)
    where
      s' : Ap
      s' = record_call (allocates filtered_frame) s

      received :
          (error : Answer Samples)
          → av.buffersink_get_frame s'.calls i ≡ error
          → ((s2 : Ap)
              → frames < rounds + frames_since s2.calls
              → frames_since s2.calls ≤ frames
              → Ended (reads_given s2.calls) (filter_frames av rounds fuel i s2))
          → Ended (reads_given s.calls) (
              (drained error terminates >>= λ filt_frame.
              if_some filt_frame
                (λ xs. encode_write av fuel (some xs) i >>= λ _. filter_frames av rounds fuel i)
                (modify (record_call (frees filtered_frame))))
                (record_call (filters i error) s'))
      received (gives xs) e k =
          bind_rule _ _ _
          $ pure_rule _ _
          $ then_rule _ _ _ (encode_write-Lands fuel (some xs) i _ enough)
          $ λ _ s2 q.
              mono
                (k s2 (omega (arith, more, q.1))
                  (omega (arith, q.1, bounded.filtered s'.calls i xs e)))
                (λ s3 u. tt) (λ u s3 z. z ∙ q.0)
      received (refuses eagain) e k = bind_rule _ _ _ $ pure_rule _ _ $ modify_rule _ _ refl
      received (refuses eof) e k = bind_rule _ _ _ $ pure_rule _ _ $ modify_rule _ _ refl
      received (refuses enomem) e k = bind_rule _ _ _ $ leave_rule _ _ tt
      received (refuses exit_code) e k = bind_rule _ _ _ $ leave_rule _ _ tt
      received (refuses other) e k = bind_rule _ _ _ $ leave_rule _ _ tt

  pub filter_encode_write-Ended :
      (rounds fuel : ℕ) (xs : Option Samples) (i : ℕ) (s : Ap)
      → frames < rounds
      → packets < fuel
      → Ended (reads_given s.calls) (filter_encode_write av rounds fuel xs i s)
  unfolding filter_encode_write
  filter_encode_write-Ended rounds fuel xs i s more enough =
      bind_rule _ _ s
      $ ask_rule _ _ _
      $ succeed_then _ _ _ _
          (filter_frames-Ended rounds fuel i _ (omega (arith, more)) (omega arith) enough)
