-- ===== src/PlyLoader.antt =====
-- src/plugins/devices/ply/ply_sequence_loader.cc: a ring of decoded frames that tasks of a pool fill
-- ahead of playback. `U` are position units, `T` attribute tables and `C` clouds.
pub mod Steps
pub mod Coherence
pub mod Window
use pointcaster.Prelude.{ℕ, ◌%◌, Bool, false, Option, none, some, ◌==◌, if◌then◌else◌}

-- One place of the vectors `_ring`, `_ring_index` and `_claimed_index`; `npos` is `none`.
pub record Slot (C : Type 0) : Type 0 where
  pub ring : Option C
  pub index : Option ℕ
  pub claimed : Option ℕ

-- Where a decode stands: a task of the pool, or the end of a call of `get_frame`. Each has the frame
-- and the generation that it was given.
pub data Load (T C : Type 0) : Type 0 where
  resting : Load T C
  -- detached, not yet run
  queued : ℕ → ℕ → Load T C
  -- at the start of `load_into_slot`
  starting : ℕ → ℕ → Load T C
  -- past the load of the attributes
  prepared : ℕ → ℕ → T → Load T C
  -- past `read_point_cloud`
  decoded : ℕ → ℕ → Option C → Load T C

pub record Loader (U T C : Type 0) : Type 0 where
  pub file_count : ℕ
  pub capacity : ℕ
  pub slot : ℕ → Slot C
  pub generation : ℕ
  pub units : U
  pub attributes : T
  -- A setter has stored new units or attributes and has not yet called `invalidate`.
  pub stale : Bool
  pub load : ℕ → Load T C

abbrev pub empty_slot : {C : Type 0} → Slot C
empty_slot = record { ring = none; index = none; claimed = none }

-- A successful `open`.
unfoldable pub open_loader : {U T C : Type 0} → ℕ → ℕ → U → T → Loader U T C
open_loader files capacity u t = record {
  file_count = files;
  capacity = capacity;
  slot = λ k. empty_slot;
  generation = 0;
  units = u;
  attributes = t;
  stale = false;
  load = λ i. resting;
}

abbrev pub holds : Option ℕ → ℕ → Bool
holds none frame = false
holds (some f) frame = f == frame

-- What `get_frame` finds in the ring.
unfoldable pub cached : {U T C : Type 0} → Loader U T C → ℕ → Option C
cached s frame = let k = s.slot (frame % s.capacity) in if holds k.index frame then k.ring else none
