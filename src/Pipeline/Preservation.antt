-- ===== src/Pipeline/Preservation.antt =====
-- Every step of every thread of the pipeline keeps its invariant.
use pointcaster.Prelude.{
  ℕ, ◌+◌, ◌-◌, ◌≤◌, ◌<◌, ◌≡◌, some, List, [], ◌∷◌, ◌++◌, arith, refl, length, length-append, subst,
  sym, ap,
}
use pointcaster.Pipeline.{
  Frame, Submitter, idle, pushing, evicting, popped, storing, exchanging, waiting, completing,
  Pipeline, start,
}
use pointcaster.Pipeline.Steps.{
  update, tail, Step, number, push, full, evict, pop, skip, begin, process, swallow, raise, load,
  drop, exchange, refresh, store, complete, abort, Reach, here, next,
}
use pointcaster.Pipeline.Invariant.{
  Inv, SubmitterOk, Ascending-weaken, Ascending-push, Ascending-le, Ascending-tail, length-tail,
  WorkerOk-weaken, LatestOk-weaken, CompletedOk-weaken, phases-update, phase_of, ordered_of,
  moved-Inv, start-Inv,
}

module _ {C : Type 0} where
  number-Inv :
      (s : Pipeline C) (c : C)
      → s.submitter ≡ idle
      → Inv s
      → Inv (record s {
        input_seq = s.input_seq + 1;
        submitter = pushing (record { seq = s.input_seq + 1; cloud = c });
      })
  number-Inv s c e v = record {
    room = v.room;
    bounded = v.bounded;
    ordered = (
      refl,
      omega arith,
      Ascending-weaken 0 0 s.input_seq (s.input_seq + 1 - 1) s.queue (omega arith) (omega arith)
          (ordered_of v e),
    );
    given_out = omega (arith, v.given_out);
    phases = λ i.
        WorkerOk-weaken s.input_seq s.published_seq (s.input_seq + 1) s.published_seq (s.worker i)
          (omega arith) (omega arith) (v.phases i);
    shown = v.shown;
    told = v.told;
  }

  push-Inv :
      (s : Pipeline C) (f : Frame C)
      → s.submitter ≡ pushing f
      → length s.queue < s.capacity
      → Inv s
      → Inv (record s { queue = s.queue ++ f ∷ []; submitter = idle })
  push-Inv s f e h v =
      let (a, b, c) = ordered_of v e in
      record {
        room = v.room;
        bounded = omega (arith, length-append s.queue (f ∷ []));
        ordered =
            Ascending-weaken 0 0 f.seq s.input_seq (s.queue ++ f ∷ []) (omega arith) (omega arith)
              (Ascending-push 0 (s.input_seq - 1) s.queue f (omega arith) c);
        given_out = v.given_out;
        phases = v.phases;
        shown = v.shown;
        told = v.told;
      }

  evict-Inv :
      (s : Pipeline C) (f : Frame C)
      → s.submitter ≡ evicting f
      → Inv s
      → Inv (record s { queue = tail s.queue; submitter = pushing f })
  evict-Inv s f e v =
      let (a, b, c) = ordered_of v e in
      record {
        room = v.room;
        bounded = omega (arith, length-tail s.queue, v.bounded);
        ordered = (a, b, Ascending-tail 0 (s.input_seq - 1) s.queue c);
        given_out = v.given_out;
        phases = v.phases;
        shown = v.shown;
        told = v.told;
      }

  SubmitterOk-pop :
      (input : ℕ) (f : Frame C) (rest : List (Frame C)) (p : Submitter C)
      → SubmitterOk input (f ∷ rest) p
      → (f.seq ≤ input) × SubmitterOk input rest p
  unfolding tail
  SubmitterOk-pop input f rest idle a =
      (Ascending-le f.seq input rest a.1, Ascending-tail 0 input (f ∷ rest) a)
  SubmitterOk-pop input f rest (pushing g) a = (
    omega (arith, Ascending-le f.seq (input - 1) rest a.2.1),
    (a.0, a.1, Ascending-tail 0 (input - 1) (f ∷ rest) a.2),
  )
  SubmitterOk-pop input f rest (evicting g) a = (
    omega (arith, Ascending-le f.seq (input - 1) rest a.2.1),
    (a.0, a.1, Ascending-tail 0 (input - 1) (f ∷ rest) a.2),
  )

  pop-Inv :
      (s : Pipeline C) (i : ℕ) (f : Frame C) (rest : List (Frame C))
      → s.queue ≡ f ∷ rest
      → Inv s
      → Inv (record s { queue = rest; worker = update s.worker i (popped f) })
  pop-Inv s i f rest e v =
      let (a, b) =
        SubmitterOk-pop s.input_seq f rest s.submitter
          (subst (λ q. SubmitterOk s.input_seq q s.submitter) e v.ordered) in
      record {
        room = v.room;
        bounded = omega (arith, ap length e, v.bounded);
        ordered = b;
        given_out = v.given_out;
        phases = phases-update s.input_seq s.published_seq s.worker i (popped f) v.phases a;
        shown = v.shown;
        told = v.told;
      }

  exchange-Inv :
      (s : Pipeline C) (i : ℕ) (f : Frame C) (prev : ℕ)
      → s.worker i ≡ exchanging f prev
      → prev < f.seq
      → s.published_seq ≡ prev
      → Inv s
      → Inv (record s {
        published_seq = f.seq;
        passed = f ∷ s.passed;
        worker = update s.worker i (storing f);
      })
  exchange-Inv s i f prev e h p v =
      let (a, b) = phase_of i v e in
      let up : s.published_seq ≤ f.seq = omega arith in
      record {
        room = v.room;
        bounded = v.bounded;
        ordered = v.ordered;
        given_out = a;
        phases =
            phases-update s.input_seq f.seq s.worker i (storing f)
              (λ j.
                WorkerOk-weaken s.input_seq s.published_seq s.input_seq f.seq (s.worker j)
                  (omega arith) up (v.phases j))
              (omega arith);
        shown = LatestOk-weaken s.published_seq f.seq s.latest up v.shown;
        told = CompletedOk-weaken s.published_seq f.seq s.completed up v.told;
      }

  store-Inv :
      (s : Pipeline C) (i : ℕ) (f : Frame C)
      → s.worker i ≡ storing f
      → Inv s
      → Inv (record s { latest = some f; worker = update s.worker i (completing f) })
  store-Inv s i f e v = record {
    room = v.room;
    bounded = v.bounded;
    ordered = v.ordered;
    given_out = v.given_out;
    phases =
        phases-update s.input_seq s.published_seq s.worker i (completing f) v.phases
          (phase_of i v e);
    shown = phase_of i v e;
    told = v.told;
  }

  complete-Inv :
      (s : Pipeline C) (i : ℕ) (f : Frame C)
      → s.worker i ≡ completing f
      → Inv s
      → Inv (record s { completed = f ∷ s.completed; worker = update s.worker i waiting })
  complete-Inv s i f e v = record {
    room = v.room;
    bounded = v.bounded;
    ordered = v.ordered;
    given_out = v.given_out;
    phases = phases-update s.input_seq s.published_seq s.worker i waiting v.phases tt;
    shown = v.shown;
    told = (phase_of i v e, v.told);
  }

  -- A step of any thread keeps the invariant.
  pub Step-Inv : {s t : Pipeline C} → Step s t → Inv s → Inv t
  Step-Inv {s} (number c e q) v = subst Inv (sym q) (number-Inv s c e v)
  Step-Inv {s} (push f e h q) v = subst Inv (sym q) (push-Inv s f e h v)
  Step-Inv {s} (full f e h q) v = subst Inv (sym q) (record {
    room = v.room;
    bounded = v.bounded;
    ordered = ordered_of v e;
    given_out = v.given_out;
    phases = v.phases;
    shown = v.shown;
    told = v.told;
  })
  Step-Inv {s} (evict f e q) v = subst Inv (sym q) (evict-Inv s f e v)
  Step-Inv {s} (pop i f rest h e k q) v = subst Inv (sym q) (pop-Inv s i f rest k v)
  Step-Inv {s} {t} (skip i f e h q) v = moved-Inv s i _ t q tt v
  Step-Inv {s} {t} (begin i f e h q) v = moved-Inv s i _ t q (phase_of i v e) v
  Step-Inv {s} {t} (process i f c e q) v = moved-Inv s i _ t q (phase_of i v e) v
  Step-Inv {s} {t} (swallow i f e q) v = moved-Inv s i _ t q tt v
  Step-Inv {s} {t} (raise i f e q) v = moved-Inv s i _ t q tt v
  Step-Inv {s} {t} (load i f e q) v = moved-Inv s i _ t q (phase_of i v e, omega arith) v
  Step-Inv {s} {t} (drop i f prev e h q) v = moved-Inv s i _ t q tt v
  Step-Inv {s} (exchange i f prev e h p q) v = subst Inv (sym q) (exchange-Inv s i f prev e h p v)
  Step-Inv {s} {t} (refresh i f prev e h q) v =
      moved-Inv s i _ t q ((phase_of i v e).0, omega arith) v
  Step-Inv {s} (store i f e q) v = subst Inv (sym q) (store-Inv s i f e v)
  Step-Inv {s} (complete i f e q) v = subst Inv (sym q) (complete-Inv s i f e v)
  Step-Inv {s} {t} (abort i e q) v = moved-Inv s i _ t q tt v

  pub Reach-Inv : {s t : Pipeline C} → Inv s → Reach s t → Inv t
  Reach-Inv v here = v
  Reach-Inv v (next r st) = Step-Inv st (Reach-Inv v r)

  -- From the start, whatever the interleaving, the pipeline keeps the invariant.
  pub Reach-start-Inv :
      (max_queue_size chains : ℕ) {t : Pipeline C} → Reach (start max_queue_size chains) t → Inv t
  Reach-start-Inv m n r = Reach-Inv (start-Inv m n) r
