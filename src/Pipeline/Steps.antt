-- ===== src/Pipeline/Steps.antt =====
-- The steps of the threads of src/pipeline/concurrent_operator_pipeline.cc.
use pointcaster.Prelude.{
  ℕ, ◌+◌, ◌≤◌, ◌<◌, ◌≡◌, some, List, [], ◌∷◌, ◌++◌, if◌then◌else◌, ◌==◌, length,
}
use pointcaster.Pipeline.{
  Frame, idle, pushing, evicting, Worker, waiting, popped, processing, processed, exchanging,
  storing, completing, stopped, Pipeline,
}

abbrev pub update : {C : Type 0} → (ℕ → Worker C) → ℕ → Worker C → ℕ → Worker C
update w i v j = if i == j then v else w j

module _ {C : Type 0} where
  -- `drop` of the oldest frame, if there is one.
  unfoldable pub tail : List (Frame C) → List (Frame C)
  tail [] = []
  tail (f ∷ fs) = fs

  abbrev pub moved : Pipeline C → ℕ → Worker C → Pipeline C
  moved s i v = record s { worker = update s.worker i v }

  pub data Step (s : Pipeline C) : Pipeline C → Type 0 where
    -- submit: take a number for a cloud
    number :
        (c : C) {t : Pipeline C}
        → s.submitter ≡ idle
        → t ≡ record s {
          input_seq = s.input_seq + 1;
          submitter = pushing (record { seq = s.input_seq + 1; cloud = c });
        }
        → Step s t
    -- submit: `try_push` finds room
    push :
        (f : Frame C) {t : Pipeline C}
        → s.submitter ≡ pushing f
        → length s.queue < s.capacity
        → t ≡ record s { queue = s.queue ++ f ∷ []; submitter = idle }
        → Step s t
    -- submit: `try_push` finds the queue full
    full :
        (f : Frame C) {t : Pipeline C}
        → s.submitter ≡ pushing f
        → s.capacity ≤ length s.queue
        → t ≡ record s { submitter = evicting f }
        → Step s t
    -- submit: `try_pop` takes the oldest frame, or finds none
    evict :
        (f : Frame C) {t : Pipeline C}
        → s.submitter ≡ evicting f
        → t ≡ record s { queue = tail s.queue; submitter = pushing f }
        → Step s t
    -- worker_loop: `pop`
    pop :
        (i : ℕ) (f : Frame C) (rest : List (Frame C)) {t : Pipeline C}
        → i < s.workers
        → s.worker i ≡ waiting
        → s.queue ≡ f ∷ rest
        → t ≡ record s { queue = rest; worker = update s.worker i (popped f) }
        → Step s t
    -- worker_loop: the frame has been superseded
    skip :
        (i : ℕ) (f : Frame C) {t : Pipeline C}
        → s.worker i ≡ popped f
        → f.seq ≤ s.published_seq
        → t ≡ moved s i waiting
        → Step s t
    begin :
        (i : ℕ) (f : Frame C) {t : Pipeline C}
        → s.worker i ≡ popped f
        → s.published_seq < f.seq
        → t ≡ moved s i (processing f)
        → Step s t
    -- worker_loop: the operators return a frame; its number is the one popped
    process :
        (i : ℕ) (f : Frame C) (c : C) {t : Pipeline C}
        → s.worker i ≡ processing f
        → t ≡ moved s i (processed (record { seq = f.seq; cloud = c }))
        → Step s t
    -- worker_loop: the operators return no frame
    swallow :
        (i : ℕ) (f : Frame C) {t : Pipeline C}
        → s.worker i ≡ processing f
        → t ≡ moved s i waiting
        → Step s t
    -- worker_loop: an operator throws
    raise :
        (i : ℕ) (f : Frame C) {t : Pipeline C}
        → s.worker i ≡ processing f
        → t ≡ moved s i stopped
        → Step s t
    -- worker_loop: the gate loads the published number
    load :
        (i : ℕ) (f : Frame C) {t : Pipeline C}
        → s.worker i ≡ processed f
        → t ≡ moved s i (exchanging f s.published_seq)
        → Step s t
    -- worker_loop: a newer frame has won
    drop :
        (i : ℕ) (f : Frame C) (prev : ℕ) {t : Pipeline C}
        → s.worker i ≡ exchanging f prev
        → f.seq ≤ prev
        → t ≡ moved s i waiting
        → Step s t
    -- worker_loop: the exchange succeeds
    exchange :
        (i : ℕ) (f : Frame C) (prev : ℕ) {t : Pipeline C}
        → s.worker i ≡ exchanging f prev
        → prev < f.seq
        → s.published_seq ≡ prev
        → t ≡ record s {
          published_seq = f.seq;
          passed = f ∷ s.passed;
          worker = update s.worker i (storing f);
        }
        → Step s t
    -- worker_loop: the exchange fails, also for no reason, and reads the number again
    refresh :
        (i : ℕ) (f : Frame C) (prev : ℕ) {t : Pipeline C}
        → s.worker i ≡ exchanging f prev
        → prev < f.seq
        → t ≡ moved s i (exchanging f s.published_seq)
        → Step s t
    store :
        (i : ℕ) (f : Frame C) {t : Pipeline C}
        → s.worker i ≡ storing f
        → t ≡ record s { latest = some f; worker = update s.worker i (completing f) }
        → Step s t
    complete :
        (i : ℕ) (f : Frame C) {t : Pipeline C}
        → s.worker i ≡ completing f
        → t ≡ record s { completed = f ∷ s.completed; worker = update s.worker i waiting }
        → Step s t
    -- stop: the queue's abort ends a waiting worker
    abort : (i : ℕ) {t : Pipeline C} → s.worker i ≡ waiting → t ≡ moved s i stopped → Step s t

  pub data Reach (s : Pipeline C) : Pipeline C → Type 0 where
    here : Reach s s
    next : {t u : Pipeline C} → Reach s t → Step t u → Reach s u
