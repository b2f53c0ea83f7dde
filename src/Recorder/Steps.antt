-- ===== src/Recorder/Steps.antt =====
-- The steps of the threads of src/recorder/session_recorder.cc, with `_parallelise_writes` on, as the
-- header sets it.
use pointcaster.Prelude.{ℕ, ◌+◌, ◌-◌, ◌≤◌, ◌<◌, ◌≡◌, ◌%◌, ◌^◌, true, false, List, [], ◌∷◌, ◌++◌}
use pointcaster.Recorder.{
  Frame, Write, checking, enqueuing, enqueued, counting, leaving, polling, dequeued, writing,
  waiting, finished, Recorder, frame_queue_max,
}

-- `fetch_add(1)` and `fetch_sub(1)` of a `size_t`.
unfoldable pub increment : ℕ → ℕ
increment n = (n + 1) % 2 ^ 64

unfoldable pub decrement : ℕ → ℕ
decrement n = (n + (2 ^ 64 - 1)) % 2 ^ 64

module _ {D : Type 0} where
  pub data Step (s : Recorder D) : Recorder D → Type 0 where
    -- stop_recording
    stop : {t : Recorder D} → t ≡ record s { recording = false } → Step s t
    -- recorder_thread_work: the loop ends, and the writer is asked to stop
    leave :
        {t : Recorder D}
        → s.producer ≡ checking
        → s.recording ≡ false
        → t ≡ record s { producer = leaving }
        → Step s t
    -- recorder_thread_work: the queue has room
    room :
        {t : Recorder D}
        → s.producer ≡ checking
        → s.recording ≡ true
        → s.queue_depth < frame_queue_max
        → t ≡ record s { producer = enqueuing }
        → Step s t
    -- recorder_thread_work: the frame is dropped
    drop :
        {t : Recorder D}
        → s.producer ≡ checking
        → s.recording ≡ true
        → frame_queue_max ≤ s.queue_depth
        → t ≡ record s { dropped_frames = s.dropped_frames + 1; producer = counting }
        → Step s t
    enqueue :
        (ds : List D) {t : Recorder D}
        → s.producer ≡ enqueuing
        → t ≡ record s {
          queue = s.queue ++ (record { frame_index = s.current_frame; devices = ds }) ∷ [];
          producer = enqueued;
          history = (record { frame_index = s.current_frame; devices = ds }) ∷ s.history;
        }
        → Step s t
    deepen :
        {t : Recorder D}
        → s.producer ≡ enqueued
        → t ≡ record s { queue_depth = increment s.queue_depth; producer = counting }
        → Step s t
    count :
        {t : Recorder D}
        → s.producer ≡ counting
        → t ≡ record s { current_frame = s.current_frame + 1; producer = checking }
        → Step s t
    -- file_writer_thread_work: `wait_dequeue_timed`, or `try_dequeue` once stop is requested
    dequeue :
        (f : Frame D) (rest : List (Frame D)) {t : Recorder D}
        → s.writer ≡ polling
        → s.queue ≡ f ∷ rest
        → t ≡ record s { queue = rest; writer = dequeued f }
        → Step s t
    shallow :
        (f : Frame D) {t : Recorder D}
        → s.writer ≡ dequeued f
        → t ≡ record s {
          queue_depth = decrement s.queue_depth;
          writer = writing f.frame_index f.devices;
        }
        → Step s t
    -- write_files: one more write in flight
    detach :
        (i : ℕ) (d : D) (ds : List D) {t : Recorder D}
        → s.writer ≡ writing i (d ∷ ds)
        → t ≡ record s {
          in_flight = (record { frame_index = i; device = d }) ∷ s.in_flight;
          writer = writing i ds;
        }
        → Step s t
    next_frame :
        (i : ℕ) {t : Recorder D}
        → s.writer ≡ writing i []
        → t ≡ record s { writer = polling }
        → Step s t
    -- A task of the pool, in any order: write_ply, which opens its file, then one write fewer in flight
    write :
        (before after : List (Write D)) (w : Write D) {t : Recorder D}
        → s.in_flight ≡ before ++ w ∷ after
        → t ≡ record s { in_flight = before ++ after; files = w ∷ s.files }
        → Step s t
    -- The same, where write_ply fails to open the file and returns
    fail_open :
        (before after : List (Write D)) (w : Write D) {t : Recorder D}
        → s.in_flight ≡ before ++ w ∷ after
        → t ≡ record s { in_flight = before ++ after; unopened = w ∷ s.unopened }
        → Step s t
    -- file_writer_thread_work: nothing is left to drain after the stop
    drained :
        {t : Recorder D}
        → s.writer ≡ polling
        → s.producer ≡ leaving
        → s.queue ≡ []
        → t ≡ record s { writer = waiting }
        → Step s t
    finish :
        {t : Recorder D}
        → s.writer ≡ waiting
        → s.in_flight ≡ []
        → t ≡ record s { writer = finished }
        → Step s t

  pub data Reach (s : Recorder D) : Recorder D → Type 0 where
    here : Reach s s
    next : {t u : Recorder D} → Reach s t → Step t u → Reach s u
