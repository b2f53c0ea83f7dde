-- ===== src/FrameTasks.antt =====
-- The slots for frame tasks of src/plugins/devices/device_plugin.h, as steps of threads that begin and
-- end tasks. A step is one access to a counter. The counters of frames stay below their bound.
pub mod Bounded
use pointcaster.Prelude.{
  ℕ, zero, suc, ◌+◌, ◌-◌, ◌≤◌, ◌<◌, ◌≡◌, ◌%◌, ◌^◌, Option, some, List, [], ◌∷◌, get_elem?, set,
  replicate,
}

-- Where a thread stands: outside, in the loop of `try_begin_frame_task` with the value it read, in its
-- task, or in `end_frame_task` between the two counters.
pub data Phase : Type 0 where
  idle : Phase
  trying : ℕ → Phase
  processing : Phase
  releasing : Phase

pub record Tasks : Type 0 where
  pub threads : List Phase
  -- `_process_tasks_in_flight`, `_dropped_frames` and `_frames_processed`
  pub in_flight : ℕ
  pub dropped_frames : ℕ
  pub frames_processed : ℕ

abbrev pub max_in_flight : ℕ
max_in_flight = 2

unfoldable pub start_tasks : ℕ → Tasks
start_tasks n = record {
  threads = replicate n idle;
  in_flight = 0;
  dropped_frames = 0;
  frames_processed = 0;
}

pub data Step (s : Tasks) : Tasks → Type 0 where
  load :
      (i : ℕ) {t : Tasks}
      → get_elem? s.threads i ≡ some idle
      → t ≡ record s { threads = set s.threads i (trying s.in_flight) }
      → Step s t
  -- The exchange succeeds.
  claim :
      (i n : ℕ) {t : Tasks}
      → get_elem? s.threads i ≡ some (trying n)
      → n < max_in_flight
      → s.in_flight ≡ n
      → t ≡ record s { threads = set s.threads i processing; in_flight = n + 1 }
      → Step s t
  -- The exchange fails, which a weak one may at any time, and leaves the value it found.
  retry :
      (i n : ℕ) {t : Tasks}
      → get_elem? s.threads i ≡ some (trying n)
      → n < max_in_flight
      → t ≡ record s { threads = set s.threads i (trying s.in_flight) }
      → Step s t
  drop :
      (i n : ℕ) {t : Tasks}
      → get_elem? s.threads i ≡ some (trying n)
      → max_in_flight ≤ n
      → t ≡ record s { threads = set s.threads i idle; dropped_frames = s.dropped_frames + 1 }
      → Step s t
  process :
      (i : ℕ) {t : Tasks}
      → get_elem? s.threads i ≡ some processing
      → t ≡ record s {
        threads = set s.threads i releasing;
        frames_processed = s.frames_processed + 1;
      }
      → Step s t
  -- `fetch_sub(1)` of a `size_t`
  release :
      (i : ℕ) {t : Tasks}
      → get_elem? s.threads i ≡ some releasing
      → t ≡ record s {
        threads = set s.threads i idle;
        in_flight = (s.in_flight + (2 ^ 64 - 1)) % 2 ^ 64;
      }
      → Step s t

pub data Reach (s : Tasks) : Tasks → Type 0 where
  here : Reach s s
  next : {t u : Tasks} → Reach s t → Step t u → Reach s u

-- The threads that hold a slot.
abbrev pub holds : Phase → ℕ
holds idle = 0
holds (trying n) = 0
holds processing = 1
holds releasing = 1

abbrev pub held : List Phase → ℕ
held [] = 0
held (p ∷ ps) = holds p + held ps
