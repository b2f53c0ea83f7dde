-- ===== src/Recorder/Invariant.antt =====
-- What holds of the recorder in every interleaving of its threads.
use pointcaster.Prelude.{
  ℕ, ◌+◌, ◌≤◌, ◌<◌, ◌≡◌, ◌%◌, ◌^◌, Bool, List, [], ◌∷◌, length, if◌then◌else◌,
}
use pointcaster.Recorder.{
  Frame, Write, Producer, enqueuing, enqueued, counting, leaving, Writer, polling, dequeued,
  writing, waiting, finished, Recorder, frame_queue_max,
}

-- The frame enqueued that the depth does not count yet.
abbrev pub uncounted : Producer → ℕ
uncounted enqueued = 1
uncounted _ = 0

-- The frame dealt with that `current_frame` does not count yet.
abbrev pub unnumbered : Producer → ℕ
unnumbered enqueued = 1
unnumbered counting = 1
unnumbered _ = 0

abbrev pub Room : Producer → ℕ → Type 0
Room enqueuing n = n < frame_queue_max
Room _ n = n ≤ frame_queue_max

module _ {D : Type 0} where
  -- The frame dequeued that the depth still counts.
  abbrev pub held : Writer D → ℕ
  held (dequeued f) = 1
  held _ = 0

  -- How many of some writes satisfy a test.
  abbrev pub tally : (Write D → Bool) → List (Write D) → ℕ
  tally p [] = 0
  tally p (w ∷ ws) = (if p w then 1 else 0) + tally p ws

  abbrev pub tally_frame : (Write D → Bool) → ℕ → List D → ℕ
  tally_frame p i [] = 0
  tally_frame p i (d ∷ ds) =
      (if p (record { frame_index = i; device = d }) then 1 else 0) + tally_frame p i ds

  abbrev pub tally_frames : (Write D → Bool) → List (Frame D) → ℕ
  tally_frames p [] = 0
  tally_frames p (f ∷ fs) = tally_frame p f.frame_index f.devices + tally_frames p fs

  abbrev pub tally_writer : (Write D → Bool) → Writer D → ℕ
  tally_writer p (dequeued f) = tally_frame p f.frame_index f.devices
  tally_writer p (writing i ds) = tally_frame p i ds
  tally_writer p _ = 0

  -- The writer drains the queue only after the recorder thread has left its loop.
  abbrev pub Drained : Producer → List (Frame D) → List (Write D) → Writer D → Type 0
  Drained p q ws waiting = (p ≡ leaving) × (q ≡ [])
  Drained p q ws finished = (p ≡ leaving) × (q ≡ []) × (ws ≡ [])
  Drained p q ws polling = Unit {0}
  Drained p q ws (dequeued f) = Unit {0}
  Drained p q ws (writing i ds) = Unit {0}

  pub record Inv (s : Recorder D) : Type 0 where
    pub word : s.queue_depth < 2 ^ 64
    pub depth : (s.queue_depth + uncounted s.producer) % 2 ^ 64 ≡ length s.queue + held s.writer
    pub bounded : Room s.producer (length s.queue)
    pub numbered : length s.history + s.dropped_frames ≡ s.current_frame + unnumbered s.producer
    pub kept :
        (p : Write D → Bool)
        → tally p s.files
            + tally p s.unopened
            + tally p s.in_flight
            + tally_writer p s.writer
            + tally_frames p s.queue
          ≡ tally_frames p s.history
    pub closed : Drained s.producer s.queue s.in_flight s.writer
