-- ===== src/Processor/Received.antt =====
-- A rule for each test of an answer in the methods of Decoding.
use audio_tool_api.Prelude.{ℕ, ◌≡◌, refl, Bool, true, false, some, ltb, if◌then◌else◌}
use audio_tool_api.Processor.{
  AvError, enomem, exit_code, eof, eagain, other, Answer, gives, refuses, Code, packet, Samples,
  acquires, stores, done, fails, Ffmpeg, AudioProcessor, note,
}
use audio_tool_api.Effects.Rules.{Ensures, ◌$◌, bind_rule, modify_rule, pure_rule, leave_rule}
use audio_tool_api.Processor.Decoding.{
  Decoded, packet_read, frame_received, fifo_written, refused, converted,
}
use audio_tool_api.Processor.Invariants.{IsGiven}

module _ {Q : Type 0} (av : Ffmpeg Q) {B C : Type 0} {E : AudioProcessor Q → Type 0} where
  pub packet_read_rule :
      {R : Bool → AudioProcessor Q → Type 0} (c : Code) (s : AudioProcessor Q)
      → E s
      → (IsGiven c → R true (note (acquires packet) s))
      → R false s
      → Ensures {X = Code} B C E R (packet_read av c s)
  unfolding packet_read
  packet_read_rule (gives n) s e t f = bind_rule _ _ _ $ modify_rule _ _ $ pure_rule _ _ (t tt)
  packet_read_rule (refuses eof) s e t f = pure_rule _ _ f
  packet_read_rule (refuses enomem) s e t f = leave_rule _ _ e
  packet_read_rule (refuses exit_code) s e t f = leave_rule _ _ e
  packet_read_rule (refuses eagain) s e t f = leave_rule _ _ e
  packet_read_rule (refuses other) s e t f = leave_rule _ _ e

  pub frame_received_rule :
      {R : Decoded → AudioProcessor Q → Type 0} (finished : Bool) (a : Answer Samples)
      (s : AudioProcessor Q)
      → E s
      → ((d : Decoded) → (finished ≡ true → d.finished ≡ true) → R d s)
      → Ensures {X = Code} B C E R (frame_received av finished a s)
  unfolding frame_received
  frame_received_rule finished (gives xs) s e r = pure_rule _ _ (r _ (λ e. e))
  frame_received_rule finished (refuses eagain) s e r = pure_rule _ _ (r _ (λ e. e))
  frame_received_rule finished (refuses eof) s e r = pure_rule _ _ (r _ (λ e. refl))
  frame_received_rule finished (refuses enomem) s e r = leave_rule _ _ e
  frame_received_rule finished (refuses exit_code) s e r = leave_rule _ _ e
  frame_received_rule finished (refuses other) s e r = leave_rule _ _ e

  pub refused_rule :
      {R : Unit {0} → AudioProcessor Q → Type 0} (c : Code) (s : AudioProcessor Q)
      → E s
      → R tt s
      → Ensures {X = Code} B C E R (refused av c s)
  refused_rule (gives n) s e r = pure_rule _ _ r
  refused_rule (refuses x) s e r = leave_rule _ _ e

  pub converted_rule :
      {R : Samples → AudioProcessor Q → Type 0} (a : Answer Samples) (s : AudioProcessor Q)
      → ((x : AvError) → a ≡ refuses x → E s)
      → ((xs : Samples) → a ≡ gives xs → R xs s)
      → Ensures {X = Code} B C E R (converted av a s)
  converted_rule (gives xs) s e r = pure_rule _ _ (r xs refl)
  converted_rule (refuses x) s e r = leave_rule _ _ (e x refl)

module _ {Q : Type 0} (av : Ffmpeg Q) {B C : Type 0} {E : AudioProcessor Q → Type 0} where
  pub fifo_written_rule :
      {R : Unit {0} → AudioProcessor Q → Type 0} (xs : Samples) (frame_size : ℕ) (a : Code × Q)
      (s : AudioProcessor Q)
      → ((q : Q) → E (note (stores xs) (record s { fifo = some q })))
      → ((n : ℕ) (q : Q) → a ≡ (gives n, q) → R tt (note (stores xs) (record s { fifo = some q })))
      → Ensures {X = Code} B C E R (fifo_written av xs frame_size a s)
  unfolding fifo_written
  fifo_written_rule {R = R} xs frame_size (refuses x, q) s e r = record { ends = e q }
  fifo_written_rule {R = R} xs frame_size (gives n, q) s e r = of_test (ltb n frame_size)
    where
      of_test :
          (b : Bool)
          → Ensures {X = Code} B C E R (
              if b
              then (fails (refuses exit_code), note (stores xs) (record s { fifo = some q }))
              else (done tt, note (stores xs) (record s { fifo = some q })))
      of_test true = record { ends = e q }
      of_test false = record { ends = r n q refl }
