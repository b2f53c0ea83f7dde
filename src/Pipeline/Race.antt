-- ===== src/Pipeline/Race.antt =====
-- A race past the gate of src/pipeline/concurrent_operator_pipeline.cc: runs of its threads, one pass
-- after the other, and the store that comes last.
use pointcaster.Prelude.{ℕ, ◌+◌, ◌≤◌, ◌<◌, ◌≡◌, some, List, [], ◌∷◌, ◌++◌, refl, arith, length}
use pointcaster.Pipeline.{
  Frame, idle, popped, processing, processed, exchanging, storing, completing, waiting, Pipeline,
  start,
}
use pointcaster.Pipeline.Steps.{
  update, Step, number, push, pop, begin, process, load, exchange, store, Reach, here, next,
}
use pointcaster.Pipeline.Invariant.{start-Inv}

module _ {C : Type 0} where
  -- After a pass of `submit` that finds room.
  abbrev pub submitted : Pipeline C → C → Pipeline C
  submitted s c = record s {
    input_seq = s.input_seq + 1;
    queue = s.queue ++ (record { seq = s.input_seq + 1; cloud = c }) ∷ [];
    submitter = idle;
  }

  -- After a worker has taken a frame from the queue to the far side of the gate, as the cloud `d`.
  abbrev pub gated : Pipeline C → ℕ → Frame C → List (Frame C) → C → Pipeline C
  gated s i f rest d =
      let g : Frame C = record { seq = f.seq; cloud = d } in
      record s {
        queue = rest;
        published_seq = f.seq;
        passed = g ∷ s.passed;
        worker =
            update
              (update
                (update (update (update s.worker i (popped f)) i (processing f)) i (processed g)) i
                (exchanging g s.published_seq))
              i (storing g);
      }

  -- After a worker has stored its frame.
  abbrev pub stored : Pipeline C → ℕ → Frame C → Pipeline C
  stored s i f = record s { latest = some f; worker = update s.worker i (completing f) }

  pub submits :
      (s : Pipeline C) (c : C)
      → s.submitter ≡ idle
      → length s.queue < s.capacity
      → Reach s (submitted s c)
  submits s c e h =
      next (next here (number c e refl))
        (push (record { seq = s.input_seq + 1; cloud = c }) refl h refl)

  pub passes_gate :
      (s : Pipeline C) (i : ℕ) (f : Frame C) (rest : List (Frame C)) (d : C)
      → i < s.workers
      → s.worker i ≡ waiting
      → s.queue ≡ f ∷ rest
      → s.published_seq < f.seq
      → Reach s (gated s i f rest d)
  passes_gate s i f rest d h e q k =
      let g : Frame C = record { seq = f.seq; cloud = d } in
      next
        (next
          (next (next (next here (pop i f rest h e q refl)) (begin i f (ground arith) k refl))
            (process i f d (ground arith) refl))
          (load i g (ground arith) refl))
        (exchange i g s.published_seq (ground arith) k refl refl)

  pub Reach-join : {s t u : Pipeline C} → Reach s t → Reach t u → Reach s u
  Reach-join r here = r
  Reach-join r (next q st) = next (Reach-join r q) st

  -- Two frames submitted, each taken past the gate by a worker of its own.
  abbrev pub both_gated : Pipeline C → C → C → C → C → Pipeline C
  both_gated s a b a' b' =
      let first = gated (submitted s a) 0 (record { seq = 1; cloud = a }) [] a' in
      gated (submitted first b) 1 (record { seq = 2; cloud = b }) [] b'

  pub both_gated-reached :
      (m n : ℕ) (a b a' b' : C) → 2 ≤ n → Reach (start m n) (both_gated (start m n) a b a' b')
  unfolding start
  both_gated-reached m n a b a' b' two =
      let s = start m n in
      let first = gated (submitted s a) 0 (record { seq = 1; cloud = a }) [] a' in
      let room : 0 < (start {C = C} m n).capacity = (start-Inv {C = C} m n).room in
      Reach-join
        (Reach-join (submits s a refl room) (
          passes_gate (submitted s a) 0 (record { seq = 1; cloud = a }) [] a' (omega arith) refl
            refl (omega arith)))
        (Reach-join (submits first b refl room) (
          passes_gate (submitted first b) 1 (record { seq = 2; cloud = b }) [] b' (omega arith) refl
            refl (omega arith)))

  -- With two workers or more, whatever the queue's size and the clouds, there is a run from the start
  -- in which the second frame is on show and the next step shows the first one again, while the
  -- published number is that of the second.
  pub latest_goes_back :
      (max_queue_size chains : ℕ) (a b a' b' : C)
      → 2 ≤ chains
      → (s : Pipeline C) × (t : Pipeline C) × Reach (start max_queue_size chains) s
        × (s.latest ≡ some (record { seq = 2; cloud = b' }))
        × Step s t
        × (t.latest ≡ some (record { seq = 1; cloud = a' }))
        × (t.published_seq ≡ 2)
  unfolding start
  latest_goes_back m n a b a' b' two =
      let s = both_gated (start m n) a b a' b' in
      let newer : Frame C = record { seq = 2; cloud = b' } in
      let older : Frame C = record { seq = 1; cloud = a' } in
      let shown = stored s 1 newer in
      (
        shown,
        stored shown 0 older,
        next (both_gated-reached m n a b a' b' two) (store 1 newer refl refl),
        refl,
        store 0 older refl refl,
        refl,
        refl,
      )
