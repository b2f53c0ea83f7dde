-- ===== src/PointStreamer/Entries.antt =====
-- The entries of the maps that a pass of src/point_streamer/point_streamer.cc makes.
use pointcaster.Prelude.{
  ℕ, ◌≡◌, inl, inr, Bool, true, false, Option, none, some, List, [], ◌∷◌, ◌&&◌, if◌then◌else◌,
  arith, refl, Bool-cases, ◌∙◌,
}
use pointcaster.Wire.{Bytes, bytes_eq, bytes_eq_iff}
use pointcaster.Wire.Maps.{
  find, assign, erase, find-assign, find-erase, AreDistinct, assign-AreDistinct,
}
use pointcaster.PointReceiver.{member}
use pointcaster.PointStreamer.{Clouds, addresses_where, erase_all, with_stopped}

module _ {ℓ} {V : Type ℓ} where
  abbrev pub is_there : Option V → Bool
  is_there none = false
  is_there (some v) = true

  pub member-addresses_where :
      (f : Bytes → Bool) (m : List (Bytes × V)) (q : Bytes)
      → member (addresses_where f m) q ≡ is_there (find m q) && f q
  unfolding member addresses_where find
  member-addresses_where f [] q = refl
  member-addresses_where f ((a, v) ∷ m) q = elim (Bool-cases (bytes_eq a q)) [
    | inl e ↦ ground (arith, e, (bytes_eq_iff a q).0 e, member-addresses_where f m q)
    | inr e ↦ ground (arith, e, member-addresses_where f m q)
  ]

  pub find-erase_all :
      (xs : List Bytes) (m : List (Bytes × V)) (q : Bytes)
      → find (erase_all xs m) q ≡ (if member xs q then none else find m q)
  unfolding member erase_all
  find-erase_all [] m q = refl
  find-erase_all (a ∷ xs) m q =
      find-erase_all xs (erase a m) q ∙ rw (find-erase a q m) (ground arith)

module _ (clouds : Clouds) where
  open clouds use {cloud_empty, compress, stopped_cloud}

  pub find-with_stopped :
      (xs : List Bytes) (m : List (Bytes × Option ℕ)) (q : Bytes)
      → find (with_stopped clouds xs m) q
        ≡ (if member xs q then some (some stopped_cloud) else find m q)
  unfolding member with_stopped
  find-with_stopped [] m q = refl
  find-with_stopped (a ∷ xs) m q =
      find-with_stopped xs (assign a (some stopped_cloud) m) q
      ∙ rw (find-assign a q (some stopped_cloud) m) (ground arith)

  pub with_stopped-AreDistinct :
      (xs : List Bytes) (m : List (Bytes × Option ℕ))
      → AreDistinct m
      → AreDistinct (with_stopped clouds xs m)
  unfolding with_stopped
  with_stopped-AreDistinct [] m d = d
  with_stopped-AreDistinct (a ∷ xs) m d =
      with_stopped-AreDistinct xs (assign a (some stopped_cloud) m)
        (assign-AreDistinct a (some stopped_cloud) m d)
