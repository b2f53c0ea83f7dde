-- ===== src/FrameTasks/Bounded.antt =====
-- How many frame tasks of src/plugins/devices/device_plugin.h run at a time.
use mathlib.Core.Option.{some-injective}
use pointcaster.Prelude.{
  ℕ, zero, suc, ◌+◌, ◌≤◌, ◌≡◌, some, List, [], ◌∷◌, get_elem?, set, replicate, arith, refl, ap, sym,
  subst,
}
use pointcaster.FrameTasks.{
  Phase, idle, trying, processing, releasing, Tasks, max_in_flight, start_tasks, Step, load, claim,
  retry, drop, process, release, Reach, here, next, holds, held,
}

held-set :
    (ps : List Phase) (i : ℕ) (p q : Phase)
    → get_elem? ps i ≡ some p
    → held (set ps i q) + holds p ≡ held ps + holds q
held-set [] i p q h = ground (arith, h)
held-set (x ∷ ps) zero p q h = omega (arith, ap holds (some-injective x p h))
held-set (x ∷ ps) (suc i) p q h = omega (arith, held-set ps i p q h)

abbrev Inv : Tasks → Type 0
Inv s = (s.in_flight ≡ held s.threads) × (s.in_flight ≤ max_in_flight)

Step-Inv : {s t : Tasks} → Step s t → Inv s → Inv t
Step-Inv {s} (load i e q) (same, below) =
    subst Inv (sym q) (omega (arith, same, held-set s.threads i idle (trying s.in_flight) e), below)
Step-Inv {s} (claim i n e h k q) (same, below) =
    subst Inv (sym q)
      (omega (arith, same, k, held-set s.threads i (trying n) processing e), omega (arith, h))
Step-Inv {s} (retry i n e h q) (same, below) =
    subst Inv (sym q)
      (omega (arith, same, held-set s.threads i (trying n) (trying s.in_flight) e), below)
Step-Inv {s} (drop i n e h q) (same, below) =
    subst Inv (sym q) (omega (arith, same, held-set s.threads i (trying n) idle e), below)
Step-Inv {s} (process i e q) (same, below) =
    subst Inv (sym q) (omega (arith, same, held-set s.threads i processing releasing e), below)
Step-Inv {s} (release i e q) (same, below) =
    let moved = held-set s.threads i releasing idle e in
    subst Inv (sym q) (omega (arith, same, below, moved), omega (arith, same, below, moved))

held_idle : (n : ℕ) → held (replicate n idle) ≡ 0
held_idle zero = refl
held_idle (suc n) = omega (arith, held_idle n)

Reach-Inv : {s t : Tasks} → Reach s t → Inv s → Inv t
Reach-Inv here v = v
Reach-Inv (next r e) v = Step-Inv e (Reach-Inv r v)

-- However the threads interleave, at most two of them hold a slot at a time, and the counter of tasks
-- in flight is the number of those that do.
pub frame_tasks_bounded :
    (n : ℕ) {s : Tasks}
    → Reach (start_tasks n) s
    → (held s.threads ≤ max_in_flight) × (s.in_flight ≡ held s.threads)
unfolding start_tasks
frame_tasks_bounded n r =
    let (same, below) = Reach-Inv r (sym (held_idle n), omega arith) in
    (omega (arith, same, below), same)
