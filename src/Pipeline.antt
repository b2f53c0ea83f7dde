-- ===== src/Pipeline.antt =====
-- src/pipeline/concurrent_operator_pipeline.cc: one submitter and several workers that share a
-- bounded queue, a published sequence number and the latest frame. Each step below is one access
-- to shared state, so a run is any interleaving. Sequence numbers are not taken modulo 2^64.
pub mod Steps
pub mod Invariant
pub mod Preservation
pub mod Passed
pub mod Submit
pub mod Gate
pub mod Race
pub mod Published
use pointcaster.Prelude.{ℕ, ◌≤◌, ◌≡◌, Option, none, List, [], if◌then◌else◌, ◌==◌, max}

pub record Frame (C : Type 0) : Type 0 where
  pub seq : ℕ
  pub cloud : C

-- Where the submitting thread is in `submit`; the host's lock lets in one thread at a time.
pub data Submitter (C : Type 0) : Type 0 where
  idle : Submitter C
  -- before `try_push`
  pushing : Frame C → Submitter C
  -- `try_push` failed: before `try_pop`
  evicting : Frame C → Submitter C

-- Where a worker thread is in `worker_loop`.
pub data Worker (C : Type 0) : Type 0 where
  -- before `pop`
  waiting : Worker C
  -- before the test that skips a superseded frame
  popped : Frame C → Worker C
  -- in the operators
  processing : Frame C → Worker C
  -- before the gate's load of the published number
  processed : Frame C → Worker C
  -- before the exchange that expects the given number
  exchanging : Frame C → ℕ → Worker C
  -- past the gate, before the store to `_latest`
  storing : Frame C → Worker C
  -- before the call of `_on_complete`
  completing : Frame C → Worker C
  -- left by an abort of the queue or an exception
  stopped : Worker C

pub record Pipeline (C : Type 0) : Type 0 where
  pub capacity : ℕ
  pub workers : ℕ
  pub input_seq : ℕ
  pub published_seq : ℕ
  -- Oldest first.
  pub queue : List (Frame C)
  pub submitter : Submitter C
  pub worker : ℕ → Worker C
  pub latest : Option (Frame C)
  -- The frames given to `_on_complete`, the newest first.
  pub completed : List (Frame C)
  -- The frames whose exchange of the published number succeeded, the newest first: for the
  -- statements only.
  pub passed : List (Frame C)

-- The capacity that the constructor sets.
unfoldable pub queue_capacity : ℕ → ℕ → ℕ
queue_capacity max_queue_size chains = if max_queue_size == 0 then max 1 chains else max_queue_size

-- The constructor and `start`.
unfoldable pub start : {C : Type 0} → ℕ → ℕ → Pipeline C
start max_queue_size chains = record {
  capacity = queue_capacity max_queue_size chains;
  workers = chains;
  input_seq = 0;
  published_seq = 0;
  queue = [];
  submitter = idle;
  worker = λ i. waiting;
  latest = none;
  completed = [];
  passed = [];
}
