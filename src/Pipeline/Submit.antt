-- ===== src/Pipeline/Submit.antt =====
-- `submit` of src/pipeline/concurrent_operator_pipeline.cc, run with no other thread in between.
use pointcaster.Prelude.{
  ◌+◌, ◌<◌, ◌≡◌, List, [], ◌∷◌, ◌++◌, arith, refl, length, ltb, if◌then◌else◌, Bool-cases, inl, inr,
}
use pointcaster.Pipeline.{Frame, idle, pushing, Pipeline}
use pointcaster.Pipeline.Steps.{tail, number, push, full, evict, Reach, here, next}
use pointcaster.Pipeline.Invariant.{Inv, length-tail}

module _ {C : Type 0} where
  -- The queue that `submit` leaves: the oldest frame makes room when the queue is full.
  abbrev pub after_submit : Pipeline C → Frame C → List (Frame C)
  after_submit s f = (if ltb (length s.queue) s.capacity then s.queue else tail s.queue) ++ f ∷ []

  push_finishes :
      (s : Pipeline C) (f : Frame C)
      → s.submitter ≡ pushing f
      → length s.queue < s.capacity
      → Reach s (record s { queue = s.queue ++ f ∷ []; submitter = idle })
  push_finishes s f e h = next here (push f e h refl)

  Reach-trans : {s t u : Pipeline C} → Reach s t → Reach t u → Reach s u
  Reach-trans r here = r
  Reach-trans r (next q st) = next (Reach-trans r q) st

  -- From any state of the invariant with no submission under way, `submit` can run to its end with no
  -- other thread in between: its frame is queued last, under the next number, and of the others only
  -- the oldest is given up, and only when the queue is full.
  pub submit_finishes :
      (s : Pipeline C) (c : C)
      → Inv s
      → s.submitter ≡ idle
      → let f : Frame C = record { seq = s.input_seq + 1; cloud = c } in
        Reach s
          (record s { queue = after_submit s f; submitter = idle; input_seq = s.input_seq + 1 })
  submit_finishes s c v e =
      let f : Frame C = record { seq = s.input_seq + 1; cloud = c } in
      let numbered : Pipeline C = record s { input_seq = s.input_seq + 1; submitter = pushing f } in
      elim (Bool-cases (ltb (length s.queue) s.capacity)) [
        | inl room ↦ rw room (
            Reach-trans (next here (number c e refl))
              (push_finishes numbered f refl (ground (arith, room))))
        | inr none_left ↦
            let emptied : Pipeline C = record numbered { queue = tail s.queue } in
            rw none_left (
              Reach-trans
                (next
                  (next (next here (number c e refl))
                    (full f refl (ground (arith, none_left)) refl))
                  (evict f refl refl))
                (push_finishes emptied f refl
                  (omega (arith, length-tail s.queue, v.room, v.bounded))))
      ]
