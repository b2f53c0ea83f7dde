-- ===== src/Tests/Recorder.antt =====
-- A recording of one frame of one device.
use pointcaster.Prelude.{ℕ, ◌+◌, ◌-◌, ◌≤◌, ◌≡◌, ◌^◌, true, false, [], ◌∷◌, arith, refl, length}
use pointcaster.Recorder.{
  Frame, Write, Recorder, leaving, enqueued, dequeued, frame_queue_max, start_recording, finished,
}
use pointcaster.Recorder.Steps.{
  increment, decrement, Step, stop, leave, room, enqueue, deepen, count, dequeue, shallow, detach,
  next_frame, write, drained, finish, Reach, here, next,
}
use pointcaster.Recorder.Invariant.{unnumbered, tally, tally_frames}
use pointcaster.Recorder.Totals.{queue_never_over, finished_writes_all, depth_wraps}

abbrev frame : Frame ℕ
frame = record { frame_index = 0; devices = 7 ∷ [] }

abbrev file : Write ℕ
file = record { frame_index = 0; device = 7 }

abbrev raced : Recorder ℕ
raced = record start_recording {
  producer = enqueued;
  writer = dequeued frame;
  history = frame ∷ [];
}

race_reached : Reach start_recording raced
unfolding start_recording
race_reached =
    next (next (next here (room refl refl (omega arith) refl)) (enqueue (7 ∷ []) refl refl))
      (dequeue frame [] refl refl refl)

abbrev ended : Recorder ℕ
ended = record start_recording {
  recording = false;
  current_frame = 1;
  producer = leaving;
  writer = finished;
  files = file ∷ [];
  history = frame ∷ [];
}

sampled :
    Reach start_recording
      (record raced { queue_depth = 1; current_frame = 1; producer = leaving; recording = false })
unfolding start_recording increment
sampled =
    next (next (next (next race_reached (deepen refl refl)) (count refl refl)) (stop refl))
      (leave refl refl refl)

end_reached : Reach start_recording ended
unfolding start_recording increment decrement
end_reached =
    next
      (next
        (next
          (next (next (next sampled (shallow frame refl refl)) (detach 0 7 [] refl refl))
            (next_frame 0 refl refl))
          (write [] [] file refl refl))
        (drained refl refl refl refl))
      (finish refl refl refl)

queue_never_over_example :
    (length raced.queue ≤ frame_queue_max)
    × (length raced.history + raced.dropped_frames
        ≡ raced.current_frame + unnumbered raced.producer)
queue_never_over_example = queue_never_over race_reached

finished_writes_all_example :
    tally (λ w. true) ended.files + tally (λ w. true) ended.unopened
    ≡ tally_frames (λ w. true) ended.history
finished_writes_all_example = finished_writes_all (λ w. true) end_reached refl

depth_wraps_example :
    (t : Recorder ℕ) × Step raced t × (t.queue ≡ []) × (t.queue_depth ≡ 2 ^ 64 - 1)
unfolding start_recording
depth_wraps_example = depth_wraps frame race_reached refl refl refl
