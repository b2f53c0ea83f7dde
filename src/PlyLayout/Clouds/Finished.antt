-- ===== src/PlyLayout/Clouds/Finished.antt =====
-- The cloud that src/plugins/devices/ply/ply_layout.cc makes of the vertices that were read.
use pointcaster.Prelude.{ℕ, true, false, ◌≡◌, Bool, List, [], ◌∷◌, length, refl, sym, subst}
use pointcaster.PointCloud.{Floats, PointCloud, size}
use pointcaster.PointCloud.Sizes.{HasSize, HasDistinctNames}
use pointcaster.PlyLayout.{Element, VertexLayout}
use pointcaster.PlyLayout.Targets.{AttributeConfiguration}
use pointcaster.PlyLayout.Files.{Vertices, Reading, failed, outside, exception, has_vertices}
use pointcaster.PlyLayout.Files.Inside.{IsSized, AreColumns}
use pointcaster.PlyLayout.Clouds.{
  CloudRead, null_cloud, returned_cloud, exception_left, undefined_read, finish_attributes,
  add_attributes, cloud_of, finished_cloud, no_values,
}
use pointcaster.PlyLayout.Clouds.Attributes.{
  AreAttributes-add_attributes, AreAttributes-finish_attributes,
}

module _ {F : Type 0} (floats : Floats F) where
  AreColumns-no_values :
      (claims : List (ℕ × AttributeConfiguration F)) → AreColumns 0 (no_values claims)
  AreColumns-no_values [] = tt
  AreColumns-no_values (c ∷ cs) = (refl, AreColumns-no_values cs)

  -- A point, a color and an element of each attribute for each vertex.
  abbrev pub IsCloudOf : Element → PointCloud F → Type 0
  IsCloudOf e cloud =
      (size cloud ≡ e.count)
      × (length cloud.colors ≡ e.count)
      × HasSize e.count cloud.attributes
      × HasDistinctNames cloud.attributes

  -- A read that throws when the first test is true, and otherwise returns a cloud of the element when
  -- the second is true, and null when it is false.
  abbrev pub Returns : Bool → Bool → Element → CloudRead F → Type 0
  Returns t b e undefined_read = ⊥
  Returns t b e exception_left = t ≡ true
  Returns t b e null_cloud = (t ≡ false) × (b ≡ false)
  Returns t b e (returned_cloud cloud) = (t ≡ false) × (b ≡ true) × IsCloudOf e cloud

  finish_attributes-IsCloudOf :
      (e : Element) (layout : VertexLayout) (scale : F)
      (claims : List (ℕ × AttributeConfiguration F)) (vertices : Vertices F)
      → IsSized e layout vertices
      → IsCloudOf e (record (cloud_of floats claims vertices) {
        attributes =
            finish_attributes floats scale claims (cloud_of floats claims vertices).attributes;
      })
  unfolding cloud_of
  finish_attributes-IsCloudOf e layout scale claims vertices (n, m, k, sized) =
      let (s, d) = AreAttributes-finish_attributes floats e.count scale claims _ (
        AreAttributes-add_attributes floats e.count claims vertices.attribute_values [] sized
          (tt, tt)) in
      (n, m, s, d)

  pub no_vertices-IsCloudOf :
      (e : Element) (claims : List (ℕ × AttributeConfiguration F))
      → e.count ≡ 0
      → IsCloudOf e (
          cloud_of floats claims
            (record { positions = []; colors = []; attribute_values = no_values claims }))
  unfolding cloud_of
  no_vertices-IsCloudOf e claims z =
      let (s, d) =
        AreAttributes-add_attributes floats 0 claims (no_values claims) []
          (AreColumns-no_values claims) (tt, tt) in
      (
        sym z,
        sym z,
        subst (λ (n : ℕ). HasSize n (add_attributes floats claims (no_values claims) [])) (sym z) s,
        d,
      )

  -- A reading that throws when the first test is true, and otherwise has a value for each slot when the
  -- second is true, and is null when it is false.
  abbrev pub IsReading : Bool → Bool → Element → VertexLayout → Reading F → Type 0
  IsReading t b e layout outside = ⊥
  IsReading t b e layout exception = t ≡ true
  IsReading t b e layout failed = (t ≡ false) × (b ≡ false)
  IsReading t b e layout (has_vertices vertices) =
      (t ≡ false) × (b ≡ true) × IsSized e layout vertices

  pub finished_cloud-IsReading :
      (t b : Bool) (e : Element) (layout : VertexLayout) (scale : F)
      (claims : List (ℕ × AttributeConfiguration F)) (reading : Reading F)
      → IsReading t b e layout reading
      → Returns t b e (finished_cloud floats scale claims reading)
  unfolding finished_cloud
  finished_cloud-IsReading t b e layout scale claims failed h = h
  finished_cloud-IsReading t b e layout scale claims exception h = h
  finished_cloud-IsReading t b e layout scale claims outside h = absurd h
  finished_cloud-IsReading t b e layout scale claims (has_vertices vertices) (x, y, h) =
      (x, y, finish_attributes-IsCloudOf e layout scale claims vertices h)
