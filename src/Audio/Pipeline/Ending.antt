-- ===== src/Audio/Pipeline/Ending.antt =====
-- The loop of `process` over the packets of the input comes to an end.
use audio_tool_api.Prelude.{ℕ, zero, suc, ◌+◌, ◌<◌, ◌≤◌, ◌≡◌, refl, some, arith}
use audio_tool_api.Effects.Rules.{
  Ends, Ensures, ◌$◌, bind_rule, then_rule, modify_rule, deref_rule, branch_rule, pure_rule,
  leave_rule, gets_rule,
}
use audio_tool_api.Processor.{
  eof, eagain, enomem, exit_code, other, Answer, gives, refuses, Samples,
}
use audio_tool_api.Audio.Pipeline.{
  frame, reads, Raised, Calls, Libav, Ap, record_call, alloc, try_alloc, require, pure, branch,
  if_some, ◌>>=◌,
}
use audio_tool_api.Audio.Pipeline.Process.{
  frame_received, decode_packet, copy_packet, has_filter, packet_of, read_packets,
}
use audio_tool_api.Audio.Pipeline.Packets.{ask_rule}
use audio_tool_api.Audio.Pipeline.Rounds.{
  IsBounded, reads_given, Ended, succeed_then, filter_encode_write-Ended,
}

module _ (av : Libav) (frames packets : ℕ) (bounded : IsBounded av frames packets) where
  frame_received-Ended :
      (rounds fuel i : ℕ) (a : Answer Samples) (s : Ap)
      → frames < rounds
      → packets < fuel
      → Ended (reads_given s.calls) (frame_received av rounds fuel i a s)
  unfolding frame_received
  frame_received-Ended rounds fuel i (gives xs) s more enough =
      filter_encode_write-Ended av frames packets bounded rounds fuel (some xs) i s more enough
  frame_received-Ended rounds fuel i (refuses eagain) s more enough = pure_rule _ _ refl
  frame_received-Ended rounds fuel i (refuses eof) s more enough = leave_rule _ _ tt
  frame_received-Ended rounds fuel i (refuses enomem) s more enough = leave_rule _ _ tt
  frame_received-Ended rounds fuel i (refuses exit_code) s more enough = leave_rule _ _ tt
  frame_received-Ended rounds fuel i (refuses other) s more enough = leave_rule _ _ tt

  decode_packet-Ended :
      (rounds fuel i : ℕ) (s : Ap)
      → frames < rounds
      → packets < fuel
      → Ended (reads_given s.calls) (decode_packet av rounds fuel i s)
  unfolding decode_packet alloc try_alloc require
  decode_packet-Ended rounds fuel i s more enough =
      bind_rule _ _ s
      $ bind_rule _ _ s
      $ bind_rule _ _ s
      $ gets_rule _ s
      $ branch_rule (av.alloc s.calls frame) _ _ s
          (λ _.
            bind_rule _ _ s
            $ modify_rule _ s
            $ pure_rule _ _
            $ pure_rule _ _
            $ bind_rule _ _ _
            $ ask_rule _ _ _
            $ succeed_then _ _ _ _
            $ bind_rule _ _ _
            $ ask_rule _ _ _
            $ then_rule _ _ _ (frame_received-Ended rounds fuel i _ _ more enough)
            $ λ _ s2 q. modify_rule _ _ q)
          (λ _. pure_rule _ _ $ leave_rule _ _ tt)

  copy_packet-Ended : (i : ℕ) (s : Ap) → Ended (reads_given s.calls) (copy_packet av i s)
  unfolding copy_packet
  copy_packet-Ended i s =
      bind_rule _ _ s $ ask_rule _ _ _ $ succeed_then _ _ _ _ $ pure_rule _ _ refl

  -- If ffmpeg reads at most `number` packets, gives at most `frames` frames for each that a filter is
  -- fed and at most `packets` packets for each that is sent to an encoder, then one round more for each
  -- loop is enough: the loop over the packets of the input comes to an end.
  pub read_packets-Ends :
      (number granted rounds fuel : ℕ) (s : Ap)
      → ((h : Calls) (i : ℕ) → av.read_frame h ≡ gives i → reads_given h < number)
      → number < granted + reads_given s.calls
      → reads_given s.calls ≤ number
      → frames < rounds
      → packets < fuel
      → Ends {X = Raised}
          (Unit {0})
          ⊥
          (λ s'. Unit {0})
          (λ _ s'. Unit {0})
          (read_packets av granted rounds fuel s)
  unfolding read_packets if_some has_filter
  read_packets-Ends number zero rounds fuel s bound left within more enough =
      absurd (omega (arith, left, within))
  read_packets-Ends number (suc granted) rounds fuel s bound left within more enough =
      (bind_rule _ _ s
        $ ask_rule _ _ _
        $ received (av.read_frame s.calls) refl
            (λ s' l w. read_packets-Ends number granted rounds fuel s' bound l w more enough)).ends
    where
      received :
          (error : Answer ℕ)
          → av.read_frame s.calls ≡ error
          → ((s' : Ap)
              → number < granted + reads_given s'.calls
              → reads_given s'.calls ≤ number
              → Ends {X = Raised}
                  (Unit {0})
                  ⊥
                  (λ s'. Unit {0})
                  (λ _ s'. Unit {0})
                  (read_packets av granted rounds fuel s'))
          → Ensures {X = Raised}
              (Unit {0})
              ⊥
              (λ s'. Unit {0})
              (λ _ s'. Unit {0})
              (if_some
                (packet_of error)
                (λ stream_index. has_filter av stream_index >>= λ there.
                  branch there
                    (decode_packet av rounds fuel stream_index)
                    (copy_packet av stream_index)
                  >>= λ _. read_packets av granted rounds fuel)
                (pure tt)
                (record_call (reads error) s))
      received (refuses e) r k = pure_rule _ _ tt
      received (gives i) r k = bind_rule _ _ _ $ deref_rule _ _ (λ _. tt) $ λ there _.
          then_rule _ _ _ (
            branch_rule there _ _ _ (λ _. decode_packet-Ended rounds fuel i _ more enough)
              (λ _. copy_packet-Ended i _))
          $ λ _ s2 q. record {
            ends = k s2 (omega (arith, left, q)) (omega (arith, q, bound s.calls i r));
          }
