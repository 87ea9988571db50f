-- ===== src/Http/Server/Capacity.antt =====
-- How many connections exist at once.
use audio_tool_api.Prelude.{Option, ℕ, ◌≤◌, List, [], ◌∷◌, length, set, arith}
use audio_tool_api.Http.Threads.{WorkThread}
use audio_tool_api.Http.Server.{
  System, with_threads, thread_runner, join, set_worker, open_connections, keep_referenced,
  references, Step, accepts, shuts_down, begins, joins, ticks, completes, Reach, starts, followed,
}
use audio_tool_api.Http.Server.Rounds.{accept_round_rule}

keep_referenced-length : (refs cs : List ℕ) → length (keep_referenced refs cs) ≤ length cs
keep_referenced-length refs [] = omega arith
keep_referenced-length refs (c ∷ cs) = let h = keep_referenced-length refs cs in ground arith

kept :
    (s : System) (ts : List (WorkThread ℕ))
    → open_connections s ≤ 801
    → open_connections (with_threads ts s) ≤ 801
kept s ts h = let k = keep_referenced-length (references ts) s.objects in omega arith

module _ {R Q : Type 0} (process : Q → Option R) where
  Step-open_connections :
      {s s' : System} {closes loses : List ℕ}
      → Step process s s' closes loses
      → open_connections s ≤ 801
      → open_connections s' ≤ 801
  Step-open_connections {s} (accepts answer) h =
      accept_round_rule (λ x. open_connections x ≤ 801) s (λ n. h) (λ i t g few. ground arith)
        answer
  Step-open_connections shuts_down h = h
  Step-open_connections {s} (begins i n t g) h = kept s (set s.threads i (thread_runner n t)) h
  Step-open_connections {s} (joins i t g) h = kept s (set s.threads i (join t)) h
  Step-open_connections {s} (ticks i after run e) h = kept s after h
  Step-open_connections {s} (completes i k t w w' r log g f c e) h =
      kept s (set s.threads i (set_worker t k w')) h

  -- In every state that the server reaches, by any steps in any order, at most 801 connections exist.
  pub Reach-open_connections :
      {s : System} {closes loses : List ℕ} → Reach process s closes loses → open_connections s ≤ 801
  Reach-open_connections (starts n) = omega arith
  Reach-open_connections (followed r step) = Step-open_connections step (Reach-open_connections r)
