-- ===== src/Session/Update/Again.antt =====
-- A pass of `update_loop` of src/session/session.cc run again with the same devices.
use pointcaster.Prelude.{
  ◌≡◌, ◌==◌, Bool, true, false, Option, none, some, List, [], ◌∷◌, ◌||◌, refl, arith, ◌∙◌, inl, inr,
  Bool-cases,
}
use pointcaster.Prelude.Int.{ℤ, pos, eq_ℤ}
use pointcaster.PointCloud.{Floats, size, empty_cloud}
use pointcaster.Session.Update.{
  SharedCloud, DeviceView, Updating, clouds_of, clouds_changed, any_differs, same_cloud, same_bool,
  aggregated, length_changed, publish_length, feed, update_once, total_frames, has_sequence,
}

eq_ℤ_refl : (a : ℤ) → eq_ℤ a a ≡ true
eq_ℤ_refl a = ground arith

same_bool_refl : (b : Bool) → same_bool b b ≡ true
same_bool_refl true = refl
same_bool_refl false = refl

module _ {F : Type 0} where
  same_cloud_refl : (c : Option (SharedCloud F)) → same_cloud c c ≡ true
  unfolding same_cloud
  same_cloud_refl none = refl
  same_cloud_refl (some s) = ground arith

  any_differs_self : (cs : List (Option (SharedCloud F))) → any_differs cs cs ≡ false
  unfolding any_differs
  any_differs_self [] = refl
  any_differs_self (c ∷ cs) = rw (same_cloud_refl c) (any_differs_self cs)

  clouds_changed_self : (cs : List (Option (SharedCloud F))) → clouds_changed cs cs ≡ false
  unfolding clouds_changed
  clouds_changed_self cs = rw (any_differs_self cs) (ground arith)

  -- Nothing is left for a pass to do with these devices.
  abbrev pub IsSettled : (ℤ → ℤ) → List (DeviceView F) → Updating F → Type 0
  IsSettled resolve_length devices s =
      (length_changed resolve_length devices s ≡ false)
      × (clouds_changed (clouds_of devices) s.last_clouds ≡ false)
      × (s.force_reprocess ≡ false)

module _ {F : Type 0} (floats : Floats F) (resolve_length : ℤ → ℤ)
    (devices : List (DeviceView F)) where
  publish_length-settles :
      (s : Updating F)
      → length_changed resolve_length devices (publish_length resolve_length devices s).0 ≡ false
  unfolding publish_length length_changed
  publish_length-settles s = elim (Bool-cases (length_changed resolve_length devices s)) [
    | inl e ↦
        rw
          (
            e,
            eq_ℤ_refl (resolve_length (total_frames (pos 1) devices)),
            same_bool_refl (has_sequence devices),
          )
          refl
    | inr e ↦ rw e e
  ]

  -- `feed` leaves what the length is compared with.
  feed-settles :
      (clouds : List (Option (SharedCloud F))) (s : Updating F)
      → (length_changed resolve_length devices (feed floats clouds s).0
          ≡ length_changed resolve_length devices s)
        × (clouds_changed clouds (feed floats clouds s).0.last_clouds ≡ false)
        × ((feed floats clouds s).0.force_reprocess ≡ false)
  unfolding feed length_changed
  feed-settles clouds s =
      elim (Bool-cases (clouds_changed clouds s.last_clouds || s.force_reprocess)) [
        | inl e ↦ elim (Bool-cases (size (aggregated floats empty_cloud clouds) == 0)) [
          | inl f ↦ elim (Bool-cases s.has_current) [
            | inl g ↦ rw (e, f, g) (refl, clouds_changed_self clouds, refl)
            | inr g ↦ rw (e, f, g) (refl, clouds_changed_self clouds, refl)
          ]
          | inr f ↦ rw (e, f) (refl, clouds_changed_self clouds, refl)
        ]
        | inr e ↦ rw e (refl, ground (arith, e), refl)
      ]

  settled-update_once :
      (s : Updating F)
      → IsSettled resolve_length devices s
      → update_once floats resolve_length devices s ≡ (s, [])
  unfolding update_once publish_length feed
  settled-update_once s (a, b, d) = rw (a, b, d) refl

  -- A pass after a pass, with the same devices and clouds and nothing forced in between, changes
  -- nothing and has no effect: no cloud is fed twice and no change is announced twice.
  pub update_once-again :
      (s : Updating F)
      → update_once floats resolve_length devices (update_once floats resolve_length devices s).0
        ≡ ((update_once floats resolve_length devices s).0, [])
  unfolding update_once
  update_once-again s =
      let published = (publish_length resolve_length devices s).0 in
      let (same, unchanged, unforced) = feed-settles (clouds_of devices) published in
      settled-update_once (feed floats (clouds_of devices) published).0
        (same ∙ publish_length-settles s, unchanged, unforced)
