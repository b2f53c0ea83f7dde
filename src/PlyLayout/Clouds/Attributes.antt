-- ===== src/PlyLayout/Clouds/Attributes.antt =====
-- The attributes that src/plugins/devices/ply/ply_layout.cc adds to a cloud, scales and quantises.
use pointcaster.Prelude.{
  ℕ, suc, ◌≡◌, inl, inr, none, some, List, [], ◌∷◌, String, str_eq, eq_iff, if◌then◌else◌,
  length-map, arith, refl, ◌∙◌, sym, ap, Bool-cases, Option-cases,
}
use pointcaster.PointCloud.{
  Floats, Attribute, Storage, of_positions, of_floats, of_integers, RawType, storage_size,
  find_attribute,
}
use pointcaster.PointCloud.Sizes.{HasSize, HasDistinctNames}
use pointcaster.PlyLayout.Targets.{AttributeConfiguration, visit_raw_type, cloud_attribute_name}
use pointcaster.PlyLayout.Files.Inside.{AreColumns}
use pointcaster.PlyLayout.Clouds.{
  put_attribute, update_attribute, add_attributes, scaled_storage, quantised, quantise_attribute,
  scale_attribute, finish_attributes,
}

module _ {F : Type 0} where
  -- Each attribute has an element for each point, and no two have a name in common.
  abbrev pub AreAttributes : ℕ → List (String × Attribute F) → Type 0
  AreAttributes n attributes = HasSize n attributes × HasDistinctNames attributes

  find-put_attribute :
      (name q : String) (a : Attribute F) (attributes : List (String × Attribute F))
      → find_attribute q (put_attribute name a attributes)
        ≡ (if str_eq name q then some a else find_attribute q attributes)
  unfolding find_attribute put_attribute
  find-put_attribute name q a [] = refl
  find-put_attribute name q a ((n, b) ∷ rest) =
      ground (arith, eq_iff n name, eq_iff n q, eq_iff name q, find-put_attribute name q a rest)

  AreAttributes-put_attribute :
      (count : ℕ) (name : String) (a : Attribute F) (attributes : List (String × Attribute F))
      → storage_size a.storage ≡ count
      → AreAttributes count attributes
      → AreAttributes count (put_attribute name a attributes)
  unfolding put_attribute find_attribute
  AreAttributes-put_attribute count name a [] h v = ((h, tt), (refl, tt))
  AreAttributes-put_attribute count name a ((n, b) ∷ rest) h ((own, sized), (fresh, distinct)) =
      elim (Bool-cases (str_eq n name)) [
        | inl e ↦ rw e ((h, sized), (fresh, distinct))
        | inr e ↦
            let (s, d) = AreAttributes-put_attribute count name a rest h (sized, distinct) in
            rw e (
              (own, s),
              (
                ground (
                  arith,
                  find-put_attribute name n a rest,
                  eq_iff n name,
                  eq_iff name n,
                  e,
                  fresh,
                ),
                d,
              ),
            )
      ]

  find-update_attribute :
      (name q : String) (f : Attribute F → Attribute F) (attributes : List (String × Attribute F))
      → find_attribute q attributes ≡ none
      → find_attribute q (update_attribute name f attributes) ≡ none
  unfolding find_attribute update_attribute
  find-update_attribute name q f [] h = refl
  find-update_attribute name q f ((n, b) ∷ rest) h =
      ground (arith, h, find-update_attribute name q f rest)

  AreAttributes-update_attribute :
      (count : ℕ) (name : String) (f : Attribute F → Attribute F)
      (attributes : List (String × Attribute F))
      → ((a : Attribute F) → storage_size (f a).storage ≡ storage_size a.storage)
      → AreAttributes count attributes
      → AreAttributes count (update_attribute name f attributes)
  unfolding update_attribute
  AreAttributes-update_attribute count name f [] same v = v
  AreAttributes-update_attribute count name f ((n, b) ∷ rest) same
        ((own, sized), (fresh, distinct)) =
      elim (Bool-cases (str_eq n name)) [
        | inl e ↦ rw e ((same b ∙ own, sized), (fresh, distinct))
        | inr e ↦
            let (s, d) = AreAttributes-update_attribute count name f rest same (sized, distinct) in
            rw e ((own, s), (find-update_attribute name n f rest fresh, d))
      ]

module _ {F : Type 0} (floats : Floats F) where
  storage_size-scaled_storage :
      (scale : F) (s : Storage F) → storage_size (scaled_storage floats scale s) ≡ storage_size s
  unfolding scaled_storage
  storage_size-scaled_storage scale (of_positions values) = refl
  storage_size-scaled_storage scale (of_floats values) = length-map values _
  storage_size-scaled_storage scale (of_integers t values) = refl

  storage_size-scale_attribute :
      (scale : F) (c : AttributeConfiguration F) (a : Attribute F)
      → storage_size (scale_attribute floats scale c a).storage ≡ storage_size a.storage
  unfolding scale_attribute
  storage_size-scale_attribute scale c a =
      ground (arith, storage_size-scaled_storage scale a.storage)

  storage_size-quantised :
      (c : AttributeConfiguration F) (t : RawType) (a : Attribute F) (s : Storage F)
      → a.storage ≡ s
      → storage_size (quantised floats c t a s).storage ≡ storage_size a.storage
  unfolding quantised
  storage_size-quantised c t a (of_positions values) h = refl
  storage_size-quantised c t a (of_integers u values) h = refl
  storage_size-quantised c t a (of_floats []) h = refl
  storage_size-quantised c t a (of_floats (v ∷ vs)) h =
      ap suc (length-map vs _) ∙ ap storage_size (sym h)

  storage_size-quantise_attribute :
      (c : AttributeConfiguration F) (a : Attribute F)
      → storage_size (quantise_attribute floats c a).storage ≡ storage_size a.storage
  unfolding quantise_attribute
  storage_size-quantise_attribute c a = elim (Option-cases (visit_raw_type floats c)) [
    | inl n ↦ ground (arith, n)
    | inr (t, n) ↦ ground (arith, n, storage_size-quantised c t a a.storage refl)
  ]

  pub AreAttributes-add_attributes :
      (count : ℕ) (claims : List (ℕ × AttributeConfiguration F)) (columns : List (List F))
      (attributes : List (String × Attribute F))
      → AreColumns count columns
      → AreAttributes count attributes
      → AreAttributes count (add_attributes floats claims columns attributes)
  unfolding add_attributes
  AreAttributes-add_attributes count [] columns attributes k v = v
  AreAttributes-add_attributes count (c ∷ cs) [] attributes k v = v
  AreAttributes-add_attributes count ((index, c) ∷ cs) (values ∷ columns) attributes (n, k) v =
      AreAttributes-add_attributes count cs columns _ k
        (AreAttributes-put_attribute count (cloud_attribute_name c.target) _ attributes n v)

  pub AreAttributes-finish_attributes :
      (count : ℕ) (scale : F) (claims : List (ℕ × AttributeConfiguration F))
      (attributes : List (String × Attribute F))
      → AreAttributes count attributes
      → AreAttributes count (finish_attributes floats scale claims attributes)
  unfolding finish_attributes
  AreAttributes-finish_attributes count scale [] attributes v = v
  AreAttributes-finish_attributes count scale ((index, c) ∷ cs) attributes v =
      AreAttributes-finish_attributes count scale cs _ (
        AreAttributes-update_attribute count (cloud_attribute_name c.target) _ attributes
          (λ a.
            storage_size-quantise_attribute c (scale_attribute floats scale c a)
            ∙ storage_size-scale_attribute scale c a)
          v)
