-- ===== src/Recorder/Totals.antt =====
-- What a recording promises: a bounded queue, and one attempt at the files of each frame enqueued.
use pointcaster.Prelude.{◌+◌, ◌-◌, ◌≤◌, ◌≡◌, ◌^◌, Bool, [], arith, refl, length, subst}
use pointcaster.Recorder.{
  Frame, Write, enqueued, dequeued, finished, Recorder, frame_queue_max, start_recording,
}
use pointcaster.Recorder.Steps.{decrement, Step, shallow, Reach}
use pointcaster.Recorder.Invariant.{unnumbered, tally, tally_frames, Drained}
use pointcaster.Recorder.Moves.{Room-max}
use pointcaster.Recorder.Preservation.{started-Inv}

module _ {D : Type 0} where
  -- From the start of a recording, whatever the interleaving, the queue never holds more than its 100
  -- frames, and with the frame being dealt with, each frame counted was enqueued or dropped.
  pub queue_never_over :
      {t : Recorder D}
      → Reach start_recording t
      → (length t.queue ≤ frame_queue_max)
        × (length t.history + t.dropped_frames ≡ t.current_frame + unnumbered t.producer)
  queue_never_over {t} r =
      let v = started-Inv r in (Room-max t.producer (length t.queue) v.bounded, v.numbered)

  -- When the writer has finished, each file has been written, or could not be opened, as often as the
  -- frames enqueued ask for it: an enqueued frame is lost only where a file cannot be opened, and none
  -- is written twice.
  pub finished_writes_all :
      {t : Recorder D} (p : Write D → Bool)
      → Reach start_recording t
      → t.writer ≡ finished
      → tally p t.files + tally p t.unopened ≡ tally_frames p t.history
  finished_writes_all {t} p r e =
      let v = started-Inv r in
      let (a, b, c) = subst (Drained t.producer t.queue t.in_flight) e v.closed in
      ground (arith, e, b, c, v.kept p)

  -- When the writer has taken the only frame of the queue and the recorder has not counted it yet, the
  -- writer can count first, and the depth of an empty queue is then 2^64 - 1.
  pub depth_wraps :
      {s : Recorder D} (f : Frame D)
      → Reach start_recording s
      → s.producer ≡ enqueued
      → s.writer ≡ dequeued f
      → s.queue ≡ []
      → (t : Recorder D) × Step s t × (t.queue ≡ []) × (t.queue_depth ≡ 2 ^ 64 - 1)
  unfolding decrement
  depth_wraps {s} f r e h k =
      let v = started-Inv r in
      let none_left : s.queue_depth ≡ 0 = ground (arith, e, h, k, v.depth, v.word) in
      (_, shallow f h refl, k, ground (arith, none_left))
