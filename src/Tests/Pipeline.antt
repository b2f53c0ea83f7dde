-- ===== src/Tests/Pipeline.antt =====
-- A pipeline with two workers, run to the point where both have passed the gate.
use pointcaster.Prelude.{ℕ, ◌≤◌, ◌≡◌, refl, some, [], ◌∷◌, arith}
use pointcaster.Pipeline.{Frame, idle, Pipeline, start, queue_capacity}
use pointcaster.Pipeline.Steps.{Step, store, Reach}
use pointcaster.Pipeline.Invariant.{Inv, start-Inv}
use pointcaster.Pipeline.Passed.{Gated, Reach-start-Gated}
use pointcaster.Pipeline.Gate.{latest_seq, latest_mono_single}
use pointcaster.Pipeline.Race.{
  submitted, gated, submits, passes_gate, Reach-join, both_gated, both_gated-reached,
  latest_goes_back,
}
use pointcaster.Pipeline.Submit.{after_submit, submit_finishes}

abbrev frame : ℕ → Frame ℕ
frame n = record { seq = n; cloud = 0 }

abbrev base : Pipeline ℕ
base = start 0 2

abbrev both : Pipeline ℕ
both = both_gated base 0 0 0 0

race_reached : Reach base both
race_reached = both_gated-reached 0 2 0 0 0 0 (omega arith)

latest_goes_back_example :
    (s : Pipeline ℕ) × (t : Pipeline ℕ) × Reach base s
    × (s.latest ≡ some (frame 2))
    × Step s t
    × (t.latest ≡ some (frame 1))
    × (t.published_seq ≡ 2)
latest_goes_back_example = latest_goes_back 0 2 0 0 0 0 (omega arith)

Reach-start-Gated_example : Inv both × Gated both
Reach-start-Gated_example = Reach-start-Gated 0 2 race_reached

-- A pipeline of one worker, with the first of two frames past the gate.
abbrev alone_queued : Pipeline ℕ
alone_queued = submitted (submitted (start 2 1) 0) 0

abbrev alone_gated : Pipeline ℕ
alone_gated = gated alone_queued 0 (frame 1) (frame 2 ∷ []) 0

alone_reached : Reach (start 2 1) alone_gated
unfolding start queue_capacity
alone_reached =
    Reach-join
      (Reach-join (submits (start 2 1) 0 refl (omega arith))
        (submits (submitted (start 2 1) 0) 0 refl (omega arith)))
      (passes_gate alone_queued 0 (frame 1) (frame 2 ∷ []) 0 (omega arith) refl refl (omega arith))

latest_mono_single_example : latest_seq alone_gated.latest ≤ 1
unfolding start
latest_mono_single_example = latest_mono_single 2 alone_reached (store 0 (frame 1) refl refl)

submit_finishes_example :
    Reach base
      (record base { queue = after_submit base (frame 1); submitter = idle; input_seq = 1 })
unfolding start queue_capacity
submit_finishes_example = submit_finishes base 0 (start-Inv 0 2) refl
