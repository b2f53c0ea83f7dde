-- ===== src/Pipeline/Published.antt =====
-- The number that the gate of src/pipeline/concurrent_operator_pipeline.cc has published.
use pointcaster.Prelude.{◌≤◌, arith}
use pointcaster.Pipeline.{Pipeline}
use pointcaster.Pipeline.Steps.{
  Step, number, push, full, evict, pop, skip, begin, process, swallow, raise, load, drop, exchange,
  refresh, store, complete, abort,
}

module _ {C : Type 0} where
  -- No step of any thread, of any number of workers, lowers the published number.
  pub published_seq_mono : {s t : Pipeline C} → Step s t → s.published_seq ≤ t.published_seq
  published_seq_mono (number c e q) = ground arith
  published_seq_mono (push f e h q) = ground arith
  published_seq_mono (full f e h q) = ground arith
  published_seq_mono (evict f e q) = ground arith
  published_seq_mono (pop i f rest h e k q) = ground arith
  published_seq_mono (skip i f e h q) = ground arith
  published_seq_mono (begin i f e h q) = ground arith
  published_seq_mono (process i f c e q) = ground arith
  published_seq_mono (swallow i f e q) = ground arith
  published_seq_mono (raise i f e q) = ground arith
  published_seq_mono (load i f e q) = ground arith
  published_seq_mono (drop i f prev e h q) = ground arith
  published_seq_mono (exchange i f prev e h p q) = ground arith
  published_seq_mono (refresh i f prev e h q) = ground arith
  published_seq_mono (store i f e q) = ground arith
  published_seq_mono (complete i f e q) = ground arith
  published_seq_mono (abort i e q) = ground arith
