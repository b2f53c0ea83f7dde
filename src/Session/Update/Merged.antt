-- ===== src/Session/Update/Merged.antt =====
-- What a pass of `update_loop` of src/session/session.cc feeds to the pipeline.
use mathlib.Core.List.{append-nil, append_assoc}
use pointcaster.Prelude.{
  sym, String, ℕ, ◌+◌, ◌<◌, ◌≡◌, ◌==◌, true, false, Option, none, some, List, [], ◌∷◌, ◌++◌, ◌||◌,
  refl, arith, ap, ◌∙◌, inl, inr, Bool-cases,
}
use pointcaster.Prelude.Int.{ℤ}
use pointcaster.PointCloud.{Floats, PointCloud, size, empty_cloud}
use pointcaster.PointCloud.Sizes.{IsValid, append-IsValid}
use pointcaster.PointCloud.Points.{PointReading, read_positions, read_colors}
use pointcaster.DeviceTree.{Config}
use pointcaster.Session.Update.Included.{AreIncluded, included-AreIncluded}
use pointcaster.Session.Update.{
  update_pass, included, Update, SharedCloud, DeviceView, Updating, fed, clouds_of, clouds_changed,
  aggregated, merged_with, length_changed, publish_length, feed, update_once,
}

module _ {F : Type 0} where
  abbrev pub AreValid : List (Option (SharedCloud F)) → Type 0
  AreValid [] = Unit {0}
  AreValid (none ∷ clouds) = AreValid clouds
  AreValid (some s ∷ clouds) = IsValid s.cloud × AreValid clouds

  -- The points of all clouds.
  abbrev pub points : List (Option (SharedCloud F)) → ℕ
  points [] = 0
  points (none ∷ clouds) = points clouds
  points (some s ∷ clouds) = size s.cloud + points clouds

module _ {F A : Type 0} (read : PointCloud F → List A) where
  -- What is read of the clouds, one after the other.
  unfoldable pub all_contents : List (Option (SharedCloud F)) → List A
  all_contents [] = []
  all_contents (none ∷ clouds) = all_contents clouds
  all_contents (some s ∷ clouds) = read s.cloud ++ all_contents clouds

module _ {F A : Type 0} (floats : Floats F) (read : PointCloud F → List A)
    (reads : PointReading floats read) where
  merged_with-IsValid :
      (sum : PointCloud F) (s : SharedCloud F)
      → IsValid s.cloud
      → IsValid sum
      → IsValid (merged_with floats sum (some s))
        × (size (merged_with floats sum (some s)) ≡ size sum + size s.cloud)
        × (read (merged_with floats sum (some s)) ≡ read sum ++ read s.cloud)
  unfolding merged_with
  merged_with-IsValid sum s own v = elim (Bool-cases (size s.cloud == 0)) [
    | inl e ↦
        rw (e, reads.empties s.cloud own.0 (ground (arith, e)))
          (v, ground (arith, e), sym (append-nil (read sum)))
    | inr e ↦
        let (grown, valid) = append-IsValid floats sum s.cloud v own.0 in
        rw e (valid, grown, reads.joins sum s.cloud own.0)
  ]

  aggregated-IsValid :
      (clouds : List (Option (SharedCloud F))) (sum : PointCloud F)
      → AreValid clouds
      → IsValid sum
      → IsValid (aggregated floats sum clouds)
        × (size (aggregated floats sum clouds) ≡ size sum + points clouds)
        × (read (aggregated floats sum clouds) ≡ read sum ++ all_contents read clouds)
  unfolding aggregated merged_with all_contents
  aggregated-IsValid [] sum h v = (v, omega arith, sym (append-nil (read sum)))
  aggregated-IsValid (none ∷ clouds) sum h v = aggregated-IsValid clouds sum h v
  aggregated-IsValid (some s ∷ clouds) sum (own, h) v =
      let (merged, sized, joined) = merged_with-IsValid sum s own v in
      let (valid, all, in_order) =
        aggregated-IsValid clouds (merged_with floats sum (some s)) h merged in
      (
        valid,
        omega (arith, sized, all),
        in_order
            ∙ ap (λ xs. xs ++ all_contents read clouds) joined
            ∙ append_assoc (read sum) (read s.cloud) (all_contents read clouds),
      )

module _ {F : Type 0} (floats : Floats F) where
  feed-fed :
      (clouds : List (Option (SharedCloud F))) (s : Updating F)
      → (clouds_changed clouds s.last_clouds || s.force_reprocess) ≡ true
      → (size (aggregated floats empty_cloud clouds) == 0) ≡ false
      → feed floats clouds s ≡ (
        record s { force_reprocess = false; last_clouds = clouds },
        fed (aggregated floats empty_cloud clouds) ∷ [],
      )
  unfolding feed
  feed-fed clouds s h k = rw (h, k) refl

  publish_length-keeps :
      (resolve_length : ℤ → ℤ) (devices : List (DeviceView F)) (s : Updating F)
      → ((publish_length resolve_length devices s).0.last_clouds ≡ s.last_clouds)
        × ((publish_length resolve_length devices s).0.force_reprocess ≡ s.force_reprocess)
  unfolding publish_length
  publish_length-keeps resolve_length devices s =
      elim (Bool-cases (length_changed resolve_length devices s)) [
        | inl e ↦ rw e (refl, refl)
        | inr e ↦ rw e (refl, refl)
      ]

  update_pass-once :
      {T : Type 0} (f : ℕ) (c : Config T) (disabled : List String) (resolve_length : ℤ → ℤ)
      (devices : List (Option (DeviceView F))) (ds : List (DeviceView F)) (s : Updating F)
      → included f c disabled devices ≡ some ds
      → update_pass floats f c disabled resolve_length devices s
        ≡ some (update_once floats resolve_length ds s)
  unfolding update_pass
  update_pass-once f c disabled resolve_length devices ds s e = ground (arith, e)

  update_once-fed :
      (resolve_length : ℤ → ℤ) (ds : List (DeviceView F)) (s t : Updating F)
      (updates : List (Update F))
      → feed floats (clouds_of ds) (publish_length resolve_length ds s).0 ≡ (t, updates)
      → update_once floats resolve_length ds s
        ≡ (t, (publish_length resolve_length ds s).1 ++ updates)
  unfolding update_once
  update_once-fed resolve_length ds s t updates e =
      ap (λ z. (z.0, (publish_length resolve_length ds s).1 ++ z.1)) e

  -- A session takes the devices that are there, are no discovery instance and are enabled in it. When
  -- their clouds are valid and have points, a pass that finds the clouds changed, or that is forced,
  -- feeds the pipeline one valid cloud whose positions and colors are those of the clouds, one after
  -- the other in the devices' order, and keeps the clouds as the last ones, no longer forced.
  pub update_pass-fed :
      {T : Type 0} (f : ℕ) (c : Config T) (disabled : List String) (resolve_length : ℤ → ℤ)
      {devices : List (Option (DeviceView F))} {ds : List (DeviceView F)} (s : Updating F)
      → AreIncluded f c disabled devices ds
      → AreValid (clouds_of ds)
      → 0 < points (clouds_of ds)
      → (clouds_changed (clouds_of ds) s.last_clouds || s.force_reprocess) ≡ true
      → (cloud : PointCloud F) × (t : Updating F) × (update_pass floats f c disabled resolve_length
            devices s
          ≡ some (t, (publish_length resolve_length ds s).1 ++ fed cloud ∷ []))
        × IsValid cloud
        × (cloud.positions ≡ all_contents (λ one. one.positions) (clouds_of ds))
        × (cloud.colors ≡ all_contents (λ one. one.colors) (clouds_of ds))
        × (t.last_clouds ≡ clouds_of ds)
        × (t.force_reprocess ≡ false)
  update_pass-fed f c disabled resolve_length {devices = devices} {ds = ds} s taken h some_points
        changed =
      let clouds = clouds_of ds in
      let merged = aggregated floats empty_cloud clouds in
      let (valid, sized, positions) =
        aggregated-IsValid floats _ (read_positions floats) clouds empty_cloud h
          (refl, tt, tt, tt) in
      let (_, _, colors) =
        aggregated-IsValid floats _ (read_colors floats) clouds empty_cloud h (refl, tt, tt, tt) in
      let not_empty : (size merged == 0) ≡ false = ground (arith, sized, some_points) in
      let (last, force) = publish_length-keeps resolve_length ds s in
      let published = (publish_length resolve_length ds s).0 in
      let still : (clouds_changed clouds published.last_clouds || published.force_reprocess)
          ≡ true =
        rw (last, force) changed in
      (
        merged,
        record published { force_reprocess = false; last_clouds = clouds },
        update_pass-once f c disabled resolve_length devices ds s
              (included-AreIncluded f c disabled taken)
            ∙ ap some (
                update_once-fed resolve_length ds s _ _
                  (feed-fed clouds published still not_empty)),
        valid,
        positions,
        colors,
        refl,
        refl,
      )
