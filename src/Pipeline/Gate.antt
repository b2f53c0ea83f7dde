-- ===== src/Pipeline/Gate.antt =====
-- The monotonic gate of `worker_loop` in src/pipeline/concurrent_operator_pipeline.cc.
use pointcaster.Prelude.{
  ℕ, zero, suc, ◌≤◌, ◌<◌, ◌≡◌, ◌==◌, Option, none, some, List, ◌∷◌, arith, refl, sym, subst,
  Bool-cases, inl, inr, ◌∙◌,
}
use pointcaster.Pipeline.{
  Frame, Worker, waiting, popped, processing, processed, exchanging, storing, completing, stopped,
  Pipeline, start,
}
use pointcaster.Pipeline.Steps.{
  update, Step, number, push, full, evict, pop, skip, begin, process, swallow, raise, load, drop,
  exchange, refresh, store, complete, abort, Reach, here, next,
}
use pointcaster.Pipeline.Invariant.{Inv, phase_of, start-Inv}
use pointcaster.Pipeline.Preservation.{Reach-Inv, Reach-start-Inv}

not_first : {i : ℕ} {A : Type 0} → i ≡ 0 → 0 < i → A
not_first e h = absurd (omega arith)

module _ {C : Type 0} where
  abbrev pub latest_seq : Option (Frame C) → ℕ
  latest_seq none = 0
  latest_seq (some f) = f.seq

  abbrev AtRest : Worker C → Type 0
  AtRest waiting = Unit {0}
  AtRest stopped = Unit {0}
  AtRest _ = ⊥

  -- A frame about to be stored is newer than the one shown.
  abbrev Fresh : ℕ → Worker C → Type 0
  Fresh l (storing f) = l < f.seq
  Fresh l waiting = Unit {0}
  Fresh l stopped = Unit {0}
  Fresh l (popped f) = Unit {0}
  Fresh l (processing f) = Unit {0}
  Fresh l (processed f) = Unit {0}
  Fresh l (exchanging f prev) = Unit {0}
  Fresh l (completing f) = Unit {0}

  pub record Single (s : Pipeline C) : Type 0 where
    pub one : s.workers ≡ 1
    pub rest : (i : ℕ) → 0 < i → AtRest (s.worker i)
    pub fresh : Fresh (latest_seq s.latest) (s.worker 0)
    pub behind : latest_seq s.latest ≤ s.published_seq

  busy_zero :
      {s : Pipeline C} {w : Worker C} (i : ℕ) → Single s → s.worker i ≡ w → ¬ (AtRest w) → i ≡ 0
  busy_zero zero v e b = refl
  busy_zero (suc i) v e b = absurd (b (subst AtRest e (v.rest (suc i) (omega arith))))

  rest-update :
      (w : ℕ → Worker C) (i : ℕ) (v : Worker C)
      → ((j : ℕ) → 0 < j → AtRest (w j))
      → (0 < i → AtRest v)
      → (j : ℕ) → 0 < j
      → AtRest (update w i v j)
  rest-update w i v all new j h = elim (Bool-cases (i == j)) [
    | inl e ↦ rw e (new (ground (arith, e)))
    | inr e ↦ rw e (all j h)
  ]

  Fresh-update :
      (l : ℕ) (w : ℕ → Worker C) (i : ℕ) (v : Worker C)
      → Fresh l (w 0)
      → Fresh l v
      → Fresh l (update w i v 0)
  Fresh-update l w i v old new = elim (Bool-cases (i == 0)) [ inl e ↦ rw e new | inr e ↦ rw e old ]

  -- A step of one worker that leaves the published number and the latest frame.
  moved-Single :
      (s : Pipeline C) (i : ℕ) (w : Worker C) (q : List (Frame C)) (k : List (Frame C))
      (t : Pipeline C)
      → t ≡ record s { queue = q; completed = k; worker = update s.worker i w }
      → Single s
      → (0 < i → AtRest w)
      → Fresh (latest_seq s.latest) w
      → Single t × (latest_seq s.latest ≤ latest_seq t.latest)
  moved-Single s i w q k t e v r f =
      subst (λ z. Single z × (latest_seq s.latest ≤ latest_seq z.latest)) (sym e)
        (
          record {
            one = v.one;
            rest = rest-update s.worker i w v.rest r;
            fresh = Fresh-update (latest_seq s.latest) s.worker i w v.fresh f;
            behind = v.behind;
          },
          omega arith,
        )

  exchange-Single :
      (s : Pipeline C) (f : Frame C) (t : Pipeline C)
      → t ≡ record s {
        published_seq = f.seq;
        passed = f ∷ s.passed;
        worker = update s.worker 0 (storing f);
      }
      → s.published_seq < f.seq
      → Single s
      → Single t × (latest_seq s.latest ≤ latest_seq t.latest)
  exchange-Single s f t e h v =
      subst (λ z. Single z × (latest_seq s.latest ≤ latest_seq z.latest)) (sym e)
        (
          record {
            one = v.one;
            rest = rest-update s.worker 0 (storing f) v.rest (λ z. absurd (omega arith));
            fresh = omega (arith, v.behind);
            behind = omega (arith, v.behind);
          },
          omega arith,
        )

  store-Single :
      (s : Pipeline C) (f : Frame C) (t : Pipeline C)
      → t ≡ record s { latest = some f; worker = update s.worker 0 (completing f) }
      → latest_seq s.latest < f.seq
      → f.seq ≤ s.published_seq
      → Single s
      → Single t × (latest_seq s.latest ≤ latest_seq t.latest)
  store-Single s f t e h k v =
      subst (λ z. Single z × (latest_seq s.latest ≤ latest_seq z.latest)) (sym e)
        (
          record {
            one = v.one;
            rest = rest-update s.worker 0 (completing f) v.rest (λ z. absurd (omega arith));
            fresh = tt;
            behind = omega arith;
          },
          omega arith,
        )

  submitted-Single :
      (s t : Pipeline C)
      → t.workers ≡ s.workers
      → t.worker ≡ s.worker
      → t.latest ≡ s.latest
      → t.published_seq ≡ s.published_seq
      → Single s
      → Single t × (latest_seq s.latest ≤ latest_seq t.latest)
  submitted-Single s t a b c d v = (
    record {
      one = a ∙ v.one;
      rest = λ i h. subst (λ w. AtRest (w i)) (sym b) (v.rest i h);
      fresh =
          subst (λ w. Fresh (latest_seq t.latest) (w 0)) (sym b)
            (subst (λ l. Fresh (latest_seq l) (s.worker 0)) (sym c) v.fresh);
      behind = subst (λ l. latest_seq l ≤ t.published_seq) (sym c) (rw d v.behind);
    },
    subst (λ l. latest_seq s.latest ≤ latest_seq l) (sym c) (omega arith),
  )

  Step-Single :
      {s t : Pipeline C}
      → Inv s
      → Single s
      → Step s t
      → Single t × (latest_seq s.latest ≤ latest_seq t.latest)
  Step-Single {s} {t} n v (number c e q) =
      submitted-Single s t (ground arith) (ground arith) (ground arith) (ground arith) v
  Step-Single {s} {t} n v (push f e h q) =
      submitted-Single s t (ground arith) (ground arith) (ground arith) (ground arith) v
  Step-Single {s} {t} n v (full f e h q) =
      submitted-Single s t (ground arith) (ground arith) (ground arith) (ground arith) v
  Step-Single {s} {t} n v (evict f e q) =
      submitted-Single s t (ground arith) (ground arith) (ground arith) (ground arith) v
  Step-Single {s} {t} n v (pop i f rest h e k q) =
      moved-Single s i (popped f) rest s.completed t q v (not_first (omega (arith, v.one))) tt
  Step-Single {s} {t} n v (skip i f e h q) =
      moved-Single s i waiting s.queue s.completed t q v (λ z. tt) tt
  Step-Single {s} {t} n v (begin i f e h q) =
      moved-Single s i (processing f) s.queue s.completed t q v
        (not_first (busy_zero i v e (λ b. b))) tt
  Step-Single {s} {t} n v (process i f c e q) =
      moved-Single s i (processed (record { seq = f.seq; cloud = c })) s.queue s.completed t q v
        (not_first (busy_zero i v e (λ b. b))) tt
  Step-Single {s} {t} n v (swallow i f e q) =
      moved-Single s i waiting s.queue s.completed t q v (λ z. tt) tt
  Step-Single {s} {t} n v (raise i f e q) =
      moved-Single s i stopped s.queue s.completed t q v (λ z. tt) tt
  Step-Single {s} {t} n v (load i f e q) =
      moved-Single s i (exchanging f s.published_seq) s.queue s.completed t q v
        (not_first (busy_zero i v e (λ b. b))) tt
  Step-Single {s} {t} n v (drop i f prev e h q) =
      moved-Single s i waiting s.queue s.completed t q v (λ z. tt) tt
  Step-Single {s} {t} n v (exchange i f prev e h p q) =
      let z = busy_zero i v e (λ b. b) in
      exchange-Single s f t
        (subst
          (λ j. t ≡ record s {
            published_seq = f.seq;
            passed = f ∷ s.passed;
            worker = update s.worker j (storing f);
          })
          z q)
        (omega arith) v
  Step-Single {s} {t} n v (refresh i f prev e h q) =
      moved-Single s i (exchanging f s.published_seq) s.queue s.completed t q v
        (not_first (busy_zero i v e (λ b. b))) tt
  Step-Single {s} {t} n v (store i f e q) =
      let z = busy_zero i v e (λ b. b) in
      let e0 = subst (λ j. s.worker j ≡ storing f) z e in
      store-Single s f t
        (subst (λ j. t ≡ record s { latest = some f; worker = update s.worker j (completing f) }) z
          q)
        (subst (Fresh (latest_seq s.latest)) e0 v.fresh) (phase_of i n e) v
  Step-Single {s} {t} n v (complete i f e q) =
      moved-Single s i waiting s.queue (f ∷ s.completed) t q v (λ z. tt) tt
  Step-Single {s} {t} n v (abort i e q) =
      moved-Single s i stopped s.queue s.completed t q v (λ z. tt) tt

  Reach-Single : {s t : Pipeline C} → Inv s → Single s → Reach s t → Single t
  Reach-Single n v here = v
  Reach-Single n v (next r st) = (Step-Single (Reach-Inv n r) (Reach-Single n v r) st).0

  start-Single : (m : ℕ) → Single (start {C = C} m 1)
  unfolding start
  start-Single m = record { one = refl; rest = λ i h. tt; fresh = tt; behind = omega arith }

  -- With one worker the frame shown only ever gets newer, in any run from the start.
  pub latest_mono_single :
      (max_queue_size : ℕ) {s t : Pipeline C}
      → Reach (start max_queue_size 1) s
      → Step s t
      → latest_seq s.latest ≤ latest_seq t.latest
  latest_mono_single m r st =
      (Step-Single (Reach-start-Inv m 1 r) (Reach-Single (start-Inv m 1) (start-Single m) r) st).1
