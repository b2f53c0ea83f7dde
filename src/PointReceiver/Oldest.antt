-- ===== src/PointReceiver/Oldest.antt =====
-- The frames that the receiver keeps, in src/pointreceiver/pointreceiver.cc: one for each address.
use pointcaster.Prelude.{
  ℕ, suc, ◌≤◌, ◌≡◌, ◌⊎◌, inl, inr, true, false, Option, none, some, List, [], ◌∷◌, ltb,
  if◌then◌else◌, arith, refl, Bool-cases, ◌∙◌,
}
use pointcaster.Wire.{Bytes, bytes_eq, bytes_eq_iff, bytes_eq_refl}
use pointcaster.Wire.Maps.{find, assign, find-assign}
use pointcaster.PointReceiver.{PointCloudFrame}
use pointcaster.PointReceiver.Frames.{oldest_pending}

module _ {C : Type 0} where
  -- The cloud of a frame that is not handed out yet.
  abbrev pub waiting : Option (PointCloudFrame C) → Option C
  waiting none = none
  waiting (some f) = if f.pending then f.incoming_cloud else none

  abbrev pub age : Option (PointCloudFrame C) → ℕ
  age none = 0
  age (some f) = f.timestamp

  abbrev pub IsLoaded : PointCloudFrame C → Type 0
  IsLoaded f = (f.pending ≡ false) ⊎ ((cloud : C) × (f.incoming_cloud ≡ some cloud))

  -- Every address has one frame, a pending frame has a cloud, and no frame is newer than `time`.
  abbrev pub AreFrames : ℕ → List (Bytes × PointCloudFrame C) → Type 0
  AreFrames time [] = Unit {0}
  AreFrames time ((a, f) ∷ m) =
      (find m a ≡ none) × IsLoaded f × (f.timestamp ≤ time) × AreFrames time m

  pub AreFrames-later :
      (time : ℕ) (m : List (Bytes × PointCloudFrame C)) → AreFrames time m → AreFrames (suc time) m
  AreFrames-later time [] v = tt
  AreFrames-later time ((a, f) ∷ m) (u, l, t, v) =
      (u, l, omega (arith, t), AreFrames-later time m v)

  pub AreFrames-assign :
      (time : ℕ) (k : Bytes) (g : PointCloudFrame C) (m : List (Bytes × PointCloudFrame C))
      → IsLoaded g
      → g.timestamp ≤ time
      → AreFrames time m
      → AreFrames time (assign k g m)
  unfolding assign find
  AreFrames-assign time k g [] l t v = (refl, l, t, tt)
  AreFrames-assign time k g ((a, f) ∷ m) l t (u, l', t', v) = elim (Bool-cases (bytes_eq a k)) [
    | inl e ↦ rw e (u, l, t, v)
    | inr e ↦ rw e (
      find-assign k a g m ∙ ground (arith, e, u, bytes_eq_iff a k, bytes_eq_iff k a),
      l',
      t',
      AreFrames-assign time k g m l t v,
    )
  ]

  -- Nothing waits, or the oldest pending frame is one of the frames, and no other waiting cloud came
  -- before its own.
  abbrev pub Oldest : ℕ → List (Bytes × PointCloudFrame C) → Type 0
  Oldest time m =
      ((oldest_pending m ≡ none) × ((q : Bytes) → waiting (find m q) ≡ none))
      ⊎ ((a : Bytes) × (f : PointCloudFrame C) × (cloud : C) × (oldest_pending m ≡ some (a, f))
          × (find m a ≡ some f)
          × (f.incoming_cloud ≡ some cloud)
          × (f.pending ≡ true)
          × (f.timestamp ≤ time)
          × ((q : Bytes) (b : C) → waiting (find m q) ≡ some b → f.timestamp ≤ age (find m q)))

  Oldest-skip :
      (time : ℕ) (a : Bytes) (f : PointCloudFrame C) (m : List (Bytes × PointCloudFrame C))
      → find m a ≡ none
      → f.pending ≡ false
      → Oldest time m
      → Oldest time ((a, f) ∷ m)
  unfolding oldest_pending find
  Oldest-skip time a f m u off (inl (n, all)) = inl (
    ground (arith, off, n),
    λ q. elim (Bool-cases (bytes_eq a q)) [ inl e ↦ ground (arith, e, off) | inr e ↦ rw e (all q) ],
  )
  Oldest-skip time a f m u off (inr (b, g, cloud, n, s, i, p, t, least)) = inr (
    b,
    g,
    cloud,
    ground (arith, off, n),
    ground (arith, s, u, bytes_eq_iff a b),
    i,
    p,
    t,
    λ q c w. elim (Bool-cases (bytes_eq a q)) [
      | inl e ↦ absurd (ground (arith, e, off, w))
      | inr e ↦ ground (arith, e, w, least q c)
    ],
  )

  Oldest-front :
      (time : ℕ) (a : Bytes) (f : PointCloudFrame C) (m : List (Bytes × PointCloudFrame C))
      (cloud : C)
      → f.timestamp ≤ time
      → f.pending ≡ true
      → f.incoming_cloud ≡ some cloud
      → oldest_pending ((a, f) ∷ m) ≡ some (a, f)
      → ((q : Bytes) (b : C) → waiting (find m q) ≡ some b → f.timestamp ≤ age (find m q))
      → Oldest time ((a, f) ∷ m)
  unfolding find
  Oldest-front time a f m cloud t on i first least = inr (
    a,
    f,
    cloud,
    first,
    rw (bytes_eq_refl a) refl,
    i,
    on,
    t,
    λ q c w. elim (Bool-cases (bytes_eq a q)) [
      | inl e ↦ ground (arith, e)
      | inr e ↦ ground (arith, e, w, least q c)
    ],
  )

  Oldest-pending :
      (time : ℕ) (a : Bytes) (f : PointCloudFrame C) (m : List (Bytes × PointCloudFrame C))
      (cloud : C)
      → find m a ≡ none
      → f.timestamp ≤ time
      → f.pending ≡ true
      → f.incoming_cloud ≡ some cloud
      → Oldest time m
      → Oldest time ((a, f) ∷ m)
  unfolding oldest_pending find
  Oldest-pending time a f m cloud u t on i (inl (n, all)) =
      Oldest-front time a f m cloud t on i (ground (arith, on, n))
        (λ q c w. absurd (ground (arith, w, all q)))
  Oldest-pending time a f m cloud u t on i (inr (b, g, cloud', n, s, i', p, t', least)) =
      elim (Bool-cases (ltb g.timestamp f.timestamp)) [
        | inl older ↦ inr (
          b,
          g,
          cloud',
          ground (arith, on, n, older),
          ground (arith, s, u, bytes_eq_iff a b),
          i',
          p,
          t',
          λ q c w. elim (Bool-cases (bytes_eq a q)) [
            | inl e ↦ ground (arith, e, older)
            | inr e ↦ ground (arith, e, w, least q c)
          ],
        )
        | inr newer ↦
            Oldest-front time a f m cloud t on i (ground (arith, on, n, newer))
              (λ q c w. ground (arith, newer, least q c w))
      ]

  pub oldest_pending_lem :
      (time : ℕ) (m : List (Bytes × PointCloudFrame C)) → AreFrames time m → Oldest time m
  unfolding oldest_pending find
  oldest_pending_lem time [] v = inl (refl, λ q. refl)
  oldest_pending_lem time ((a, f) ∷ m) (u, l, t, v) =
      let rest = oldest_pending_lem time m v in
      elim (Bool-cases f.pending) [
        | inl on ↦ elim l [
          | inl off ↦ Oldest-skip time a f m u off rest
          | inr (cloud, i) ↦ Oldest-pending time a f m cloud u t on i rest
        ]
        | inr off ↦ Oldest-skip time a f m u off rest
      ]
