-- ===== src/Pipeline/Passed.antt =====
-- Which frames the gate of src/pipeline/concurrent_operator_pipeline.cc lets through.
use pointcaster.Prelude.{
  ℕ, ◌<◌, ◌≡◌, ◌==◌, ◌⊎◌, Option, none, some, List, [], ◌∷◌, sym, subst, Bool-cases, inl, inr, refl,
  arith,
}
use pointcaster.Pipeline.{
  Frame, Submitter, Worker, waiting, popped, processing, processed, exchanging, storing, completing,
  stopped, Pipeline, start,
}
use pointcaster.Pipeline.Steps.{
  update, Step, number, push, full, evict, pop, skip, begin, process, swallow, raise, load, drop,
  exchange, refresh, store, complete, abort, Reach, here, next,
}
use pointcaster.Pipeline.Invariant.{Inv}
use pointcaster.Pipeline.Preservation.{Reach-start-Inv}

module _ {C : Type 0} where
  abbrev pub IsAmong : Frame C → List (Frame C) → Type 0
  IsAmong f [] = ⊥
  IsAmong f (g ∷ gs) = (f ≡ g) ⊎ IsAmong f gs

  -- The numbers of the frames fall strictly, from the given one on.
  abbrev pub Descending : ℕ → List (Frame C) → Type 0
  Descending n [] = n ≡ 0
  Descending n (f ∷ fs) = (n ≡ f.seq) × (m : ℕ) × (m < n) × Descending m fs

  abbrev pub WorkerPassed : List (Frame C) → Worker C → Type 0
  WorkerPassed ps (storing f) = IsAmong f ps
  WorkerPassed ps (completing f) = IsAmong f ps
  WorkerPassed ps waiting = Unit {0}
  WorkerPassed ps (popped f) = Unit {0}
  WorkerPassed ps (processing f) = Unit {0}
  WorkerPassed ps (processed f) = Unit {0}
  WorkerPassed ps (exchanging f prev) = Unit {0}
  WorkerPassed ps stopped = Unit {0}

  abbrev pub LatestPassed : List (Frame C) → Option (Frame C) → Type 0
  LatestPassed ps none = Unit {0}
  LatestPassed ps (some f) = IsAmong f ps

  abbrev pub AllPassed : List (Frame C) → List (Frame C) → Type 0
  AllPassed ps [] = Unit {0}
  AllPassed ps (f ∷ fs) = IsAmong f ps × AllPassed ps fs

  -- The newest frame past the gate has the published number, each before it a smaller one, and only
  -- such frames are stored, shown or handed on.
  pub record Gated (s : Pipeline C) : Type 0 where
    pub falling : Descending s.published_seq s.passed
    pub holding : (i : ℕ) → WorkerPassed s.passed (s.worker i)
    pub showing : LatestPassed s.passed s.latest
    pub handed_on : AllPassed s.passed s.completed

  WorkerPassed-more :
      (f : Frame C) (ps : List (Frame C)) (w : Worker C)
      → WorkerPassed ps w
      → WorkerPassed (f ∷ ps) w
  WorkerPassed-more f ps (storing g) h = inr h
  WorkerPassed-more f ps (completing g) h = inr h
  WorkerPassed-more f ps waiting h = tt
  WorkerPassed-more f ps (popped g) h = tt
  WorkerPassed-more f ps (processing g) h = tt
  WorkerPassed-more f ps (processed g) h = tt
  WorkerPassed-more f ps (exchanging g prev) h = tt
  WorkerPassed-more f ps stopped h = tt

  LatestPassed-more :
      (f : Frame C) (ps : List (Frame C)) (o : Option (Frame C))
      → LatestPassed ps o
      → LatestPassed (f ∷ ps) o
  LatestPassed-more f ps none h = tt
  LatestPassed-more f ps (some g) h = inr h

  AllPassed-more : (f : Frame C) (ps fs : List (Frame C)) → AllPassed ps fs → AllPassed (f ∷ ps) fs
  AllPassed-more f ps [] h = tt
  AllPassed-more f ps (g ∷ fs) (h, hs) = (inr h, AllPassed-more f ps fs hs)

  holding-update :
      (ps : List (Frame C)) (w : ℕ → Worker C) (i : ℕ) (v : Worker C)
      → ((j : ℕ) → WorkerPassed ps (w j))
      → WorkerPassed ps v
      → (j : ℕ) → WorkerPassed ps (update w i v j)
  holding-update ps w i v all new j = elim (Bool-cases (i == j)) [
    | inl e ↦ rw e new
    | inr e ↦ rw e (all j)
  ]

  held_by :
      {s : Pipeline C} {w : Worker C} (i : ℕ) → Gated s → s.worker i ≡ w → WorkerPassed s.passed w
  held_by {s} i v e = subst (WorkerPassed s.passed) e (v.holding i)

  -- A step that passes no frame and shows or hands on none.
  moved-Gated :
      (s : Pipeline C) (i : ℕ) (w : Worker C) (q : List (Frame C)) (t : Pipeline C)
      → t ≡ record s { queue = q; worker = update s.worker i w }
      → WorkerPassed s.passed w
      → Gated s
      → Gated t
  moved-Gated s i w q t e ok v = subst Gated (sym e) (record {
    falling = v.falling;
    holding = holding-update s.passed s.worker i w v.holding ok;
    showing = v.showing;
    handed_on = v.handed_on;
  })

  submitted-Gated :
      (s : Pipeline C) (n : ℕ) (q : List (Frame C)) (p : Submitter C) (t : Pipeline C)
      → t ≡ record s { input_seq = n; queue = q; submitter = p }
      → Gated s
      → Gated t
  submitted-Gated s n q p t e v = subst Gated (sym e) (record {
    falling = v.falling;
    holding = v.holding;
    showing = v.showing;
    handed_on = v.handed_on;
  })

  exchange-Gated :
      (s : Pipeline C) (i : ℕ) (f : Frame C)
      → s.published_seq < f.seq
      → Gated s
      → Gated (record s {
        published_seq = f.seq;
        passed = f ∷ s.passed;
        worker = update s.worker i (storing f);
      })
  exchange-Gated s i f h v = record {
    falling = (refl, s.published_seq, h, v.falling);
    holding =
        holding-update (f ∷ s.passed) s.worker i (storing f)
          (λ j. WorkerPassed-more f s.passed (s.worker j) (v.holding j)) (inl refl);
    showing = LatestPassed-more f s.passed s.latest v.showing;
    handed_on = AllPassed-more f s.passed s.completed v.handed_on;
  }

  store-Gated :
      (s : Pipeline C) (i : ℕ) (f : Frame C)
      → s.worker i ≡ storing f
      → Gated s
      → Gated (record s { latest = some f; worker = update s.worker i (completing f) })
  store-Gated s i f e v = record {
    falling = v.falling;
    holding = holding-update s.passed s.worker i (completing f) v.holding (held_by i v e);
    showing = held_by i v e;
    handed_on = v.handed_on;
  }

  complete-Gated :
      (s : Pipeline C) (i : ℕ) (f : Frame C)
      → s.worker i ≡ completing f
      → Gated s
      → Gated (record s { completed = f ∷ s.completed; worker = update s.worker i waiting })
  complete-Gated s i f e v = record {
    falling = v.falling;
    holding = holding-update s.passed s.worker i waiting v.holding tt;
    showing = v.showing;
    handed_on = (held_by i v e, v.handed_on);
  }

  Step-Gated : {s t : Pipeline C} → Step s t → Gated s → Gated t
  Step-Gated {s} {t} (number c e q) v = submitted-Gated s _ _ _ t q v
  Step-Gated {s} {t} (push f e h q) v = submitted-Gated s _ _ _ t q v
  Step-Gated {s} {t} (full f e h q) v = submitted-Gated s _ _ _ t q v
  Step-Gated {s} {t} (evict f e q) v = submitted-Gated s _ _ _ t q v
  Step-Gated {s} {t} (pop i f rest h e k q) v = moved-Gated s i (popped f) rest t q tt v
  Step-Gated {s} {t} (skip i f e h q) v = moved-Gated s i waiting s.queue t q tt v
  Step-Gated {s} {t} (begin i f e h q) v = moved-Gated s i (processing f) s.queue t q tt v
  Step-Gated {s} {t} (process i f c e q) v = moved-Gated s i (processed _) s.queue t q tt v
  Step-Gated {s} {t} (swallow i f e q) v = moved-Gated s i waiting s.queue t q tt v
  Step-Gated {s} {t} (raise i f e q) v = moved-Gated s i stopped s.queue t q tt v
  Step-Gated {s} {t} (load i f e q) v = moved-Gated s i (exchanging f _) s.queue t q tt v
  Step-Gated {s} {t} (drop i f prev e h q) v = moved-Gated s i waiting s.queue t q tt v
  Step-Gated {s} (exchange i f prev e h p q) v =
      subst Gated (sym q) (exchange-Gated s i f (omega arith) v)
  Step-Gated {s} {t} (refresh i f prev e h q) v = moved-Gated s i (exchanging f _) s.queue t q tt v
  Step-Gated {s} (store i f e q) v = subst Gated (sym q) (store-Gated s i f e v)
  Step-Gated {s} (complete i f e q) v = subst Gated (sym q) (complete-Gated s i f e v)
  Step-Gated {s} {t} (abort i e q) v = moved-Gated s i stopped s.queue t q tt v

  start-Gated : (max_queue_size chains : ℕ) → Gated (start {C = C} max_queue_size chains)
  unfolding start
  start-Gated m n = record { falling = refl; holding = λ i. tt; showing = tt; handed_on = tt }

  Reach-Gated : {s t : Pipeline C} → Gated s → Reach s t → Gated t
  Reach-Gated v here = v
  Reach-Gated v (next r st) = Step-Gated st (Reach-Gated v r)

  -- From the start, whatever the interleaving: the queue stays within its capacity and in the order
  -- of submission. The numbers that pass the gate rise strictly, up to the published one, and only
  -- frames whose exchange succeeded are stored, shown or handed on.
  pub Reach-start-Gated :
      (max_queue_size chains : ℕ) {t : Pipeline C}
      → Reach (start max_queue_size chains) t
      → Inv t × Gated t
  Reach-start-Gated m n r = (Reach-start-Inv m n r, Reach-Gated (start-Gated m n) r)
