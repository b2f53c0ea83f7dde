-- ===== src/Pipeline/Invariant.antt =====
-- What holds of the pipeline in every interleaving of its threads.
use pointcaster.Prelude.{
  ℕ, ◌-◌, ◌≤◌, ◌<◌, ◌≡◌, Option, none, some, List, [], ◌∷◌, ◌++◌, arith, refl, length, ◌==◌,
  Bool-cases, inl, inr, subst, sym,
}
use pointcaster.Pipeline.{
  Frame, Submitter, idle, pushing, evicting, Worker, waiting, popped, processing, processed,
  exchanging, storing, completing, stopped, Pipeline, start, queue_capacity,
}
use pointcaster.Pipeline.Steps.{update, tail}

module _ {C : Type 0} where
  -- The numbers of the frames rise strictly, above `lo` and up to `hi`.
  abbrev pub Ascending : ℕ → List (Frame C) → ℕ → Type 0
  Ascending lo [] hi = lo ≤ hi
  Ascending lo (f ∷ fs) hi = (lo < f.seq) × Ascending f.seq fs hi

  abbrev pub SubmitterOk : ℕ → List (Frame C) → Submitter C → Type 0
  SubmitterOk input q idle = Ascending 0 q input
  SubmitterOk input q (pushing f) = (f.seq ≡ input) × (0 < input) × Ascending 0 q (input - 1)
  SubmitterOk input q (evicting f) = (f.seq ≡ input) × (0 < input) × Ascending 0 q (input - 1)

  -- A frame past the gate has a published number, any other a number that was given out.
  abbrev pub WorkerOk : ℕ → ℕ → Worker C → Type 0
  WorkerOk input published waiting = Unit {0}
  WorkerOk input published (popped f) = f.seq ≤ input
  WorkerOk input published (processing f) = f.seq ≤ input
  WorkerOk input published (processed f) = f.seq ≤ input
  WorkerOk input published (exchanging f prev) = (f.seq ≤ input) × (prev ≤ published)
  WorkerOk input published (storing f) = f.seq ≤ published
  WorkerOk input published (completing f) = f.seq ≤ published
  WorkerOk input published stopped = Unit {0}

  abbrev pub LatestOk : ℕ → Option (Frame C) → Type 0
  LatestOk published none = Unit {0}
  LatestOk published (some f) = f.seq ≤ published

  abbrev pub CompletedOk : ℕ → List (Frame C) → Type 0
  CompletedOk published [] = Unit {0}
  CompletedOk published (f ∷ fs) = (f.seq ≤ published) × CompletedOk published fs

  pub record Inv (s : Pipeline C) : Type 0 where
    pub room : 0 < s.capacity
    pub bounded : length s.queue ≤ s.capacity
    pub ordered : SubmitterOk s.input_seq s.queue s.submitter
    pub given_out : s.published_seq ≤ s.input_seq
    pub phases : (i : ℕ) → WorkerOk s.input_seq s.published_seq (s.worker i)
    pub shown : LatestOk s.published_seq s.latest
    pub told : CompletedOk s.published_seq s.completed

  pub Ascending-weaken :
      (lo lo' hi hi' : ℕ) (q : List (Frame C))
      → lo' ≤ lo
      → hi ≤ hi'
      → Ascending lo q hi
      → Ascending lo' q hi'
  Ascending-weaken lo lo' hi hi' [] h k a = omega arith
  Ascending-weaken lo lo' hi hi' (f ∷ fs) h k a =
      (omega arith, Ascending-weaken f.seq f.seq hi hi' fs (omega arith) k a.1)

  pub Ascending-push :
      (lo hi : ℕ) (q : List (Frame C)) (f : Frame C)
      → hi < f.seq
      → Ascending lo q hi
      → Ascending lo (q ++ f ∷ []) f.seq
  Ascending-push lo hi [] f h a = (omega arith, omega arith)
  Ascending-push lo hi (g ∷ q) f h a = (a.0, Ascending-push g.seq hi q f h a.1)

  pub Ascending-le : (lo hi : ℕ) (q : List (Frame C)) → Ascending lo q hi → lo ≤ hi
  Ascending-le lo hi [] a = a
  Ascending-le lo hi (f ∷ q) a = omega (arith, Ascending-le f.seq hi q a.1)

  pub Ascending-tail :
      (lo hi : ℕ) (q : List (Frame C)) → Ascending lo q hi → Ascending lo (tail q) hi
  unfolding tail
  Ascending-tail lo hi [] a = a
  Ascending-tail lo hi (f ∷ fs) a =
      Ascending-weaken f.seq lo hi hi fs (omega arith) (omega arith) a.1

  pub length-tail : (q : List (Frame C)) → length (tail q) ≡ length q - 1
  unfolding tail
  length-tail [] = refl
  length-tail (f ∷ fs) = omega arith

  pub WorkerOk-weaken :
      (a b a' b' : ℕ) (w : Worker C) → a ≤ a' → b ≤ b' → WorkerOk a b w → WorkerOk a' b' w
  WorkerOk-weaken a b a' b' waiting h k v = tt
  WorkerOk-weaken a b a' b' stopped h k v = tt
  WorkerOk-weaken a b a' b' (popped f) h k v = omega arith
  WorkerOk-weaken a b a' b' (processing f) h k v = omega arith
  WorkerOk-weaken a b a' b' (processed f) h k v = omega arith
  WorkerOk-weaken a b a' b' (exchanging f prev) h k v = (omega arith, omega arith)
  WorkerOk-weaken a b a' b' (storing f) h k v = omega arith
  WorkerOk-weaken a b a' b' (completing f) h k v = omega arith

  pub LatestOk-weaken : (b b' : ℕ) (o : Option (Frame C)) → b ≤ b' → LatestOk b o → LatestOk b' o
  LatestOk-weaken b b' none k v = tt
  LatestOk-weaken b b' (some f) k v = omega arith

  pub CompletedOk-weaken :
      (b b' : ℕ) (fs : List (Frame C)) → b ≤ b' → CompletedOk b fs → CompletedOk b' fs
  CompletedOk-weaken b b' [] k v = tt
  CompletedOk-weaken b b' (f ∷ fs) k v = (omega arith, CompletedOk-weaken b b' fs k v.1)

  pub phases-update :
      (a b : ℕ) (w : ℕ → Worker C) (i : ℕ) (v : Worker C)
      → ((j : ℕ) → WorkerOk a b (w j))
      → WorkerOk a b v
      → (j : ℕ) → WorkerOk a b (update w i v j)
  phases-update a b w i v all new j = elim (Bool-cases (i == j)) [
    | inl e ↦ rw e new
    | inr e ↦ rw e (all j)
  ]

  -- What is known of the phase that a step starts from.
  pub phase_of :
      {s : Pipeline C} {w : Worker C} (i : ℕ)
      → Inv s
      → s.worker i ≡ w
      → WorkerOk s.input_seq s.published_seq w
  phase_of {s} i v e = subst (WorkerOk s.input_seq s.published_seq) e (v.phases i)

  pub ordered_of :
      {s : Pipeline C} {p : Submitter C}
      → Inv s
      → s.submitter ≡ p
      → SubmitterOk s.input_seq s.queue p
  ordered_of {s} v e = subst (SubmitterOk s.input_seq s.queue) e v.ordered

  -- A step of one worker alone.
  pub moved-Inv :
      (s : Pipeline C) (i : ℕ) (w : Worker C) (t : Pipeline C)
      → t ≡ record s { worker = update s.worker i w }
      → WorkerOk s.input_seq s.published_seq w
      → Inv s
      → Inv t
  moved-Inv s i w t e ok v = subst Inv (sym e) (record {
    room = v.room;
    bounded = v.bounded;
    ordered = v.ordered;
    given_out = v.given_out;
    phases = phases-update s.input_seq s.published_seq s.worker i w v.phases ok;
    shown = v.shown;
    told = v.told;
  })

  pub start-Inv : (max_queue_size chains : ℕ) → Inv (start {C = C} max_queue_size chains)
  unfolding start queue_capacity
  start-Inv m n = record {
    room = ground arith;
    bounded = ground arith;
    ordered = omega arith;
    given_out = omega arith;
    phases = λ i. tt;
    shown = tt;
    told = tt;
  }
