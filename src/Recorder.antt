-- ===== src/Recorder.antt =====
-- src/recorder/session_recorder.cc: the recorder thread samples the devices into a queue, the writer
-- thread takes frames from it and hands each device's cloud to a pool that writes it to a file.
pub mod Steps
pub mod Invariant
pub mod Moves
pub mod Preservation
pub mod Totals
use pointcaster.Prelude.{ℕ, Bool, List, [], ◌∷◌, ◌++◌, false, true}

-- `D` stands for a device's name and cloud, a `DeviceFrame`.
pub record Frame (D : Type 0) : Type 0 where
  pub frame_index : ℕ
  pub devices : List D

-- A file to write: the frame's index and the device.
pub record Write (D : Type 0) : Type 0 where
  pub frame_index : ℕ
  pub device : D

-- Where `recorder_thread_work` stands.
pub data Producer : Type 0 where
  -- at the loop's condition
  checking : Producer
  -- past the test of the depth
  enqueuing : Producer
  -- before `_queue_depth.fetch_add`
  enqueued : Producer
  -- before `_current_frame.fetch_add`
  counting : Producer
  -- out of the loop: the writer has been asked to stop
  leaving : Producer

-- Where `file_writer_thread_work` stands.
pub data Writer (D : Type 0) : Type 0 where
  -- at either `dequeue`
  polling : Writer D
  -- before `_queue_depth.fetch_sub`
  dequeued : Frame D → Writer D
  -- in the loop of `write_files`, with the devices left
  writing : ℕ → List D → Writer D
  -- the queue is drained
  waiting : Writer D
  finished : Writer D

pub record Recorder (D : Type 0) : Type 0 where
  pub recording : Bool
  pub current_frame : ℕ
  pub queue_depth : ℕ
  pub dropped_frames : ℕ
  pub queue : List (Frame D)
  pub producer : Producer
  pub writer : Writer D
  -- `_writes_in_flight`, with the writes it counts
  pub in_flight : List (Write D)
  pub files : List (Write D)
  -- The writes whose file could not be opened: for the statements only.
  pub unopened : List (Write D)
  -- The frames enqueued since the start, the newest first: for the statements only.
  pub history : List (Frame D)

abbrev pub frame_queue_max : ℕ
frame_queue_max = 100

-- `start_recording`, up to the start of both threads.
unfoldable pub start_recording : {D : Type 0} → Recorder D
start_recording = record {
  recording = true;
  current_frame = 0;
  queue_depth = 0;
  dropped_frames = 0;
  queue = [];
  producer = checking;
  writer = polling;
  in_flight = [];
  files = [];
  unopened = [];
  history = [];
}
