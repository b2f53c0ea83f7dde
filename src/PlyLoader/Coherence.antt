-- ===== src/PlyLoader/Coherence.antt =====
-- What is in the ring of src/plugins/devices/ply/ply_sequence_loader.cc, in every interleaving.
use pointcaster.Prelude.{
  ℕ, ◌+◌, ◌≤◌, ◌≡◌, ◌%◌, Bool, true, false, Option, none, some, ◌==◌, if◌then◌else◌, arith, refl,
  inl, inr, Bool-cases, Option-cases, subst, sym, ap,
}
use pointcaster.PlyLoader.{
  Slot, Load, resting, queued, starting, prepared, decoded, Loader, holds, cached, open_loader,
}
use pointcaster.PlyLoader.Steps.{
  put, unclaimed, filled, emptied, Step, claim, task, miss, prepare, decode, discard, keep,
  set_units, set_attributes, invalidate, resize, Reach, here, next,
}

module _ {U T C : Type 0} (read : ℕ → U → T → Option C) where
  -- What a slot holds is what its frame's file gives under the settings.
  abbrev SlotOk : U → T → Option ℕ → Option C → Type 0
  SlotOk u a none o = Unit {0}
  SlotOk u a (some f) none = Unit {0}
  SlotOk u a (some f) (some c) = read f u a ≡ some c

  -- A decode of the present generation has read the present settings.
  abbrev LoadOk : ℕ → Bool → U → T → Load T C → Type 0
  LoadOk g stale u a resting = Unit {0}
  LoadOk g stale u a (queued f h) = h ≤ g
  LoadOk g stale u a (starting f h) = h ≤ g
  LoadOk g stale u a (prepared f h b) = (h ≤ g) × (h ≡ g → stale ≡ false → b ≡ a)
  LoadOk g stale u a (decoded f h o) = (h ≤ g) × (h ≡ g → stale ≡ false → o ≡ read f u a)

  pub record Inv (s : Loader U T C) : Type 0 where
    pub slots :
        s.stale ≡ false → (k : ℕ) → SlotOk s.units s.attributes (s.slot k).index (s.slot k).ring
    pub loads : (i : ℕ) → LoadOk s.generation s.stale s.units s.attributes (s.load i)

  put-all :
      {A : Type 0} (P : A → Type 0) (w : ℕ → A) (i : ℕ) (v : A)
      → ((j : ℕ) → P (w j))
      → P v
      → (j : ℕ) → P (put w i v j)
  put-all P w i v all new j = elim (Bool-cases (i == j)) [ inl e ↦ rw e new | inr e ↦ rw e (all j) ]

  -- A later generation, and settings in doubt, ask less of a decode.
  LoadOk-older :
      (g : ℕ) (stale stale' : Bool) (u u' : U) (a a' : T) (l : Load T C)
      → LoadOk g stale u a l
      → LoadOk (g + 1) stale' u' a' l
  LoadOk-older g stale stale' u u' a a' resting v = tt
  LoadOk-older g stale stale' u u' a a' (queued f h) v = omega arith
  LoadOk-older g stale stale' u u' a a' (starting f h) v = omega arith
  LoadOk-older g stale stale' u u' a a' (prepared f h b) v =
      (omega (arith, v.0), λ e. absurd (omega (arith, v.0)))
  LoadOk-older g stale stale' u u' a a' (decoded f h o) v =
      (omega (arith, v.0), λ e. absurd (omega (arith, v.0)))

  LoadOk-stale :
      (g : ℕ) (stale : Bool) (u u' : U) (a a' : T) (l : Load T C)
      → LoadOk g stale u a l
      → LoadOk g true u' a' l
  LoadOk-stale g stale u u' a a' resting v = tt
  LoadOk-stale g stale u u' a a' (queued f h) v = v
  LoadOk-stale g stale u u' a a' (starting f h) v = v
  LoadOk-stale g stale u u' a a' (prepared f h b) v = (v.0, λ e x. absurd (cc))
  LoadOk-stale g stale u u' a a' (decoded f h o) v = (v.0, λ e x. absurd (cc))

  -- A step of one decode that leaves the ring.
  load-Inv :
      (s : Loader U T C) (i : ℕ) (l : Load T C)
      → Inv s
      → LoadOk s.generation s.stale s.units s.attributes l
      → Inv (record s { load = put s.load i l })
  load-Inv s i l v n = record {
    slots = v.slots;
    loads = put-all (LoadOk s.generation s.stale s.units s.attributes) s.load i l v.loads n;
  }

  -- A step of one decode that also changes a slot.
  slot-Inv :
      (s : Loader U T C) (i k : ℕ) (l : Load T C) (z : Slot C)
      → Inv s
      → LoadOk s.generation s.stale s.units s.attributes l
      → (s.stale ≡ false → SlotOk s.units s.attributes z.index z.ring)
      → Inv (record s { slot = put s.slot k z; load = put s.load i l })
  slot-Inv s i k l z v n m = record {
    slots = λ e.
        put-all (λ (y : Slot C). SlotOk s.units s.attributes y.index y.ring) s.slot k z (v.slots e)
          (m e);
    loads = put-all (LoadOk s.generation s.stale s.units s.attributes) s.load i l v.loads n;
  }

  emptied-Inv :
      (s : Loader U T C) (n : ℕ) (stale : Bool)
      → Inv s
      → Inv (record (emptied n s) { stale = stale })
  emptied-Inv s n stale v = record {
    slots = λ e k. tt;
    loads = λ i.
        LoadOk-older s.generation s.stale stale s.units s.units s.attributes s.attributes (s.load i)
          (v.loads i);
  }

  stale-Inv :
      (s : Loader U T C) (u : U) (a : T)
      → Inv s
      → Inv (record s { units = u; attributes = a; stale = true })
  stale-Inv s u a v = record {
    slots = λ e. absurd (cc);
    loads = λ i. LoadOk-stale s.generation s.stale s.units u s.attributes a (s.load i) (v.loads i);
  }

  at :
      {s : Loader U T C} {l : Load T C} (i : ℕ)
      → Inv s
      → s.load i ≡ l
      → LoadOk s.generation s.stale s.units s.attributes l
  at {s} i v e = subst (LoadOk s.generation s.stale s.units s.attributes) e (v.loads i)

  task_ok :
      (g h f : ℕ) (b stale : Bool) (u : U) (a : T)
      → h ≤ g
      → LoadOk g stale u a (if b then starting f h else resting)
  task_ok g h f true stale u a k = k
  task_ok g h f false stale u a k = tt

  Step-Inv : {s t : Loader U T C} → Step read s t → Inv s → Inv t
  Step-Inv {s} (claim i f g a b h e n m q) v = subst Inv (sym q) (
      slot-Inv s i (f % s.capacity) (queued f g)
        (record (s.slot (f % s.capacity)) { claimed = some f }) v h
        (λ x. v.slots x (f % s.capacity)))
  Step-Inv {s} (task i f g e q) v = subst Inv (sym q) (
      load-Inv s i (if s.generation == g then starting f g else resting) v
        (task_ok s.generation g f (s.generation == g) s.stale s.units s.attributes (at i v e)))
  Step-Inv {s} (miss i f a e n q) v =
      subst Inv (sym q) (load-Inv s i (starting f s.generation) v (omega arith))
  Step-Inv {s} (prepare i f g e q) v =
      subst Inv (sym q) (load-Inv s i (prepared f g s.attributes) v (at i v e, λ x y. refl))
  Step-Inv {s} (decode i f g a e q) v =
      let (h, k) = at i v e in
      subst Inv (sym q)
        (load-Inv s i (decoded f g (read f s.units a)) v (h, λ x y. ap (read f s.units) (k x y)))
  Step-Inv {s} (discard i f g o e n q) v = subst Inv (sym q) (
      slot-Inv s i (f % s.capacity) resting (unclaimed f (s.slot (f % s.capacity))) v tt
        (λ x. v.slots x (f % s.capacity)))
  Step-Inv {s} (keep i f g c e n q) v =
      let (h, k) = at i v e in
      subst Inv (sym q) (
        slot-Inv s i (f % s.capacity) resting (filled f c (s.slot (f % s.capacity))) v tt
          (λ x. sym (k (sym n) x)))
  Step-Inv {s} (set_units u q) v = subst Inv (sym q) (stale-Inv s u s.attributes v)
  Step-Inv {s} (set_attributes a q) v = subst Inv (sym q) (stale-Inv s s.units a v)
  Step-Inv {s} (invalidate q) v = subst Inv (sym q) (emptied-Inv s s.capacity false v)
  Step-Inv {s} (resize n h x q) v = subst Inv (sym q) (emptied-Inv s n s.stale v)

  Reach-Inv : {s t : Loader U T C} → Inv s → Reach read s t → Inv t
  Reach-Inv v here = v
  Reach-Inv v (next r st) = Step-Inv st (Reach-Inv v r)

  open_loader-Inv : (files capacity : ℕ) (u : U) (a : T) → Inv (open_loader files capacity u a)
  unfolding open_loader
  open_loader-Inv files capacity u a = record { slots = λ e k. tt; loads = λ i. tt }

  -- In every interleaving of playback, tasks and changes of settings: when no change is half made, a
  -- frame that is found in the ring is what its file gives under the present units and attributes.
  pub cached-read :
      (files capacity : ℕ) (u : U) (a : T) {s : Loader U T C} (frame : ℕ) {c : C}
      → Reach read (open_loader files capacity u a) s
      → s.stale ≡ false
      → cached s frame ≡ some c
      → read frame s.units s.attributes ≡ some c
  unfolding cached
  cached-read files capacity u a {s} frame {c} r e h =
      let v = Reach-Inv (open_loader-Inv files capacity u a) r in
      in_slot (s.slot (frame % s.capacity)) (v.slots e (frame % s.capacity)) h
    where
      in_slot :
          (k : Slot C)
          → SlotOk s.units s.attributes k.index k.ring
          → (if holds k.index frame then k.ring else none) ≡ some c
          → read frame s.units s.attributes ≡ some c
      in_slot k w x = elim (Option-cases k.index) [
        | inl n ↦ absurd (ground (arith, n, x))
        | inr (f, n) ↦ elim (Option-cases k.ring) [
          | inl m ↦ absurd (ground (arith, n, m, x))
          | inr (d, m) ↦ ground (arith, n, m, x, w)
        ]
      ]
