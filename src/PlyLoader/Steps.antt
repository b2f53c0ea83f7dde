-- ===== src/PlyLoader/Steps.antt =====
-- The steps of src/plugins/devices/ply/ply_sequence_loader.cc: one access to shared state each, or
-- one locked block.
use pointcaster.Prelude.{
  ℕ, ◌+◌, ◌<◌, ◌≤◌, ◌≡◌, ◌≢◌, ◌%◌, true, false, Option, none, some, ◌==◌, if◌then◌else◌,
}
use pointcaster.PlyLoader.{
  Slot, resting, queued, starting, prepared, decoded, Loader, empty_slot, holds, cached,
}

abbrev pub put : {A : Type 0} → (ℕ → A) → ℕ → A → ℕ → A
put w i v j = if i == j then v else w j

module _ {C : Type 0} where
  -- `_claimed_index[slot]` once a decode of `frame` has ended.
  abbrev pub unclaimed : ℕ → Slot C → Slot C
  unclaimed frame k = record k { claimed = if holds k.claimed frame then none else k.claimed }

  -- The locked block of `load_into_slot`, when the cloud is kept.
  abbrev pub filled : ℕ → C → Slot C → Slot C
  filled frame c k = record (unclaimed frame k) { ring = some c; index = some frame }

module _ {U T C : Type 0} where
  -- `invalidate`, and the end of `set_capacity`.
  abbrev pub emptied : ℕ → Loader U T C → Loader U T C
  emptied capacity s = record s {
    capacity = capacity;
    slot = λ k. empty_slot;
    generation = s.generation + 1;
  }

  -- `read_point_cloud` of a frame's file under some units and attributes.
  module _ (read : ℕ → U → T → Option C) where
    pub data Step (s : Loader U T C) : Loader U T C → Type 0 where
      -- prefetch_from: an unclaimed slot is claimed and a task detached, with a generation read before
      claim :
          (i frame g : ℕ) {t : Loader U T C}
          → frame < s.file_count
          → 0 < s.capacity
          → g ≤ s.generation
          → s.load i ≡ resting
          → (s.slot (frame % s.capacity)).claimed ≡ none
          → cached s frame ≡ none
          → t ≡ record s {
            slot =
                put s.slot
                  (frame % s.capacity)
                  (record (s.slot (frame % s.capacity)) { claimed = some frame });
            load = put s.load i (queued frame g);
          }
          → Step s t
      -- prefetch_from: the task runs, in the generation that it was made for or in another
      task :
          (i frame g : ℕ) {t : Loader U T C}
          → s.load i ≡ queued frame g
          → t ≡ record s {
            load = put s.load i (if s.generation == g then starting frame g else resting);
          }
          → Step s t
      -- get_frame: the frame is not in the ring
      miss :
          (i frame : ℕ) {t : Loader U T C}
          → frame < s.file_count
          → s.load i ≡ resting
          → cached s frame ≡ none
          → t ≡ record s { load = put s.load i (starting frame s.generation) }
          → Step s t
      -- load_into_slot
      prepare :
          (i frame g : ℕ) {t : Loader U T C}
          → s.load i ≡ starting frame g
          → t ≡ record s { load = put s.load i (prepared frame g s.attributes) }
          → Step s t
      decode :
          (i frame g : ℕ) (a : T) {t : Loader U T C}
          → s.load i ≡ prepared frame g a
          → t ≡ record s { load = put s.load i (decoded frame g (read frame s.units a)) }
          → Step s t
      -- load_into_slot: no cloud, or one of another generation
      discard :
          (i frame g : ℕ) (o : Option C) {t : Loader U T C}
          → s.load i ≡ decoded frame g o
          → (if s.generation == g then o else none) ≡ none
          → t ≡ record s {
            slot = put s.slot (frame % s.capacity) (unclaimed frame (s.slot (frame % s.capacity)));
            load = put s.load i resting;
          }
          → Step s t
      keep :
          (i frame g : ℕ) (c : C) {t : Loader U T C}
          → s.load i ≡ decoded frame g (some c)
          → s.generation ≡ g
          → t ≡ record s {
            slot = put s.slot (frame % s.capacity) (filled frame c (s.slot (frame % s.capacity)));
            load = put s.load i resting;
          }
          → Step s t
      -- set_position_units and set_attributes: the store
      set_units : (u : U) {t : Loader U T C} → t ≡ record s { units = u; stale = true } → Step s t
      set_attributes :
          (a : T) {t : Loader U T C} → t ≡ record s { attributes = a; stale = true } → Step s t
      -- invalidate, by a setter or by itself
      invalidate :
          {t : Loader U T C} → t ≡ record (emptied s.capacity s) { stale = false } → Step s t
      -- set_capacity, of another size; the device never asks for 0
      resize : (n : ℕ) {t : Loader U T C} → 0 < n → n ≢ s.capacity → t ≡ emptied n s → Step s t

    pub data Reach (s : Loader U T C) : Loader U T C → Type 0 where
      here : Reach s s
      next : {t u : Loader U T C} → Reach s t → Step t u → Reach s u
