-- ===== src/PointCloud/Gather.antt =====
-- `gather_attributes_into` of src/core/point_cloud.cc.
use pointcaster.Prelude.{
  ℕ, ◌<◌, ◌≡◌, String, List, [], ◌∷◌, map, length, get_or, arith, refl, ap, suc, zero,
}
use pointcaster.Prelude.Int.{pos}
use pointcaster.PointCloud.{
  Floats, Storage, of_positions, of_floats, of_integers, Attribute, PointCloud, origin, zero_float,
  gathered, gather_all, gather_attributes_into,
}

abbrev pub AreBelow : ℕ → List ℕ → Type 0
AreBelow n [] = Unit {0}
AreBelow n (j ∷ js) = (j < n) × AreBelow n js

-- The sources of elements gathered twice.
abbrev pub composed : List ℕ → List ℕ → List ℕ
composed indices js = map (λ j. get_or indices j 0) js

module _ {A : Type 0} where
  get_or-map :
      (f : ℕ → A) (indices : List ℕ) (j : ℕ) (d : A)
      → j < length indices
      → get_or (map f indices) j d ≡ f (get_or indices j 0)
  get_or-map f [] j d h = elim h [ ]
  get_or-map f (i ∷ indices) zero d h = refl
  get_or-map f (i ∷ indices) (suc j) d h = get_or-map f indices j d (omega (arith, h))

  gather_twice :
      (values : List A) (d : A) (indices js : List ℕ)
      → AreBelow (length indices) js
      → map (λ j. get_or (map (λ i. get_or values i d) indices) j d) js
        ≡ map (λ i. get_or values i d) (composed indices js)
  gather_twice values d indices [] h = refl
  gather_twice values d indices (j ∷ js) (h, hs) =
      rw (get_or-map (λ i. get_or values i d) indices j d h, gather_twice values d indices js hs)
        refl

module _ {F : Type 0} (floats : Floats F) where
  gathered_twice :
      (s : Storage F) (indices js : List ℕ)
      → AreBelow (length indices) js
      → gathered floats js (gathered floats indices s) ≡ gathered floats (composed indices js) s
  unfolding gathered
  gathered_twice (of_positions values) indices js h =
      ap of_positions (gather_twice values origin indices js h)
  gathered_twice (of_floats values) indices js h =
      ap of_floats (gather_twice values (zero_float floats) indices js h)
  gathered_twice (of_integers t values) indices js h =
      ap (of_integers t) (gather_twice values (pos 0) indices js h)

  gather_all_twice :
      (xs : List (String × Attribute F)) (indices js : List ℕ)
      → AreBelow (length indices) js
      → gather_all floats js (gather_all floats indices xs)
        ≡ gather_all floats (composed indices js) xs
  unfolding gather_all
  gather_all_twice [] indices js h = refl
  gather_all_twice ((name, a) ∷ rest) indices js h =
      rw (gathered_twice a.storage indices js h, gather_all_twice rest indices js h) refl

  -- Gathering twice, the second time from indices within the first result, is gathering once by
  -- the composed indices: each element reaches the slot that both steps give it, whatever cloud
  -- stood between, and an index out of range of the source gives a zero element either way.
  pub gather_attributes_into-gather :
      (cloud between destination : PointCloud F) (indices js : List ℕ)
      → AreBelow (length indices) js
      → gather_attributes_into floats
          (gather_attributes_into floats cloud between indices)
          destination
          js
        ≡ gather_attributes_into floats cloud destination (composed indices js)
  unfolding gather_attributes_into
  gather_attributes_into-gather cloud between destination indices js h =
      ap (λ xs. record destination { attributes = xs })
        (gather_all_twice cloud.attributes indices js h)
