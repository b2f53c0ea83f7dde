-- ===== src/Tests/FrameTasks.antt =====
-- Three threads at the two slots of a device.
use pointcaster.Prelude.{ℕ, ◌≤◌, ◌≡◌, List, [], ◌∷◌, arith, refl}
use pointcaster.FrameTasks.{
  Phase, idle, trying, processing, Tasks, max_in_flight, start_tasks, load, claim, drop, Reach,
  here, next, held,
}
use pointcaster.FrameTasks.Bounded.{frame_tasks_bounded}

abbrev at : List Phase → ℕ → ℕ → Tasks
at threads n dropped = record {
  threads = threads;
  in_flight = n;
  dropped_frames = dropped;
  frames_processed = 0;
}

-- Two tasks begin, and the frame of the third thread is dropped.
full_reached : Reach (start_tasks 3) (at (processing ∷ processing ∷ idle ∷ []) 2 1)
unfolding start_tasks
full_reached =
    next
      (next
        (next
          (next
            (next (next here (load 0 {t = at (trying 0 ∷ idle ∷ idle ∷ []) 0 0} refl refl))
              (claim 0 0 {t = at (processing ∷ idle ∷ idle ∷ []) 1 0} refl (omega arith) refl refl))
            (load 1 {t = at (processing ∷ trying 1 ∷ idle ∷ []) 1 0} refl refl))
          (claim 1 1 {t = at (processing ∷ processing ∷ idle ∷ []) 2 0} refl (omega arith) refl
            refl))
        (load 2 {t = at (processing ∷ processing ∷ trying 2 ∷ []) 2 0} refl refl))
      (drop 2 2 refl (omega arith) refl)

frame_tasks_bounded_example :
    (held (processing ∷ processing ∷ idle ∷ []) ≤ max_in_flight)
    × (2 ≡ held (processing ∷ processing ∷ idle ∷ []))
frame_tasks_bounded_example =
    frame_tasks_bounded 3 {s = at (processing ∷ processing ∷ idle ∷ []) 2 1} full_reached
