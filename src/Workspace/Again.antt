-- ===== src/Workspace/Again.antt =====
-- `sync_devices` of src/workspace/workspace.cc run again with the configuration unchanged.
use mathlib.Core.List.{append_assoc}
use pointcaster.Prelude.{
  ℕ, suc, ◌≡◌, String, Bool, true, false, Option, none, some, List, [], ◌∷◌, ◌++◌, map, str_eq,
  arith, refl, ap, sym, ◌∙◌, subst, inl, inr, ◌||◌, Option-cases, eq_iff, str_eq_refl, str_eq_comm,
}
use pointcaster.DeviceTree.{contains}
use pointcaster.Workspace.{
  Config, Instance, is_empty, update_config, instantiated, sync_devices, device_plugin,
}
use pointcaster.Workspace.Index.{first_with}
use pointcaster.Workspace.Entry.{prior, kept, entry}
use pointcaster.Workspace.Reconciled.{reconciled, reconciled-uses, sync_devices-reconciled}

module _ {V : Type 0} where
  abbrev pub has_id : String → List (Config V) → Bool
  has_id id [] = false
  has_id id (c ∷ cs) = str_eq c.id id || has_id id cs

  -- Each entry has an id, another one than the entries after it, and a loaded plugin.
  abbrev pub IsUsable : (String → Bool) → List (Config V) → Type 0
  IsUsable is_loaded [] = Unit {0}
  IsUsable is_loaded (c ∷ cs) =
      (is_empty c.id ≡ false)
      × (is_loaded c.plugin_name ≡ true)
      × (has_id c.id cs ≡ false)
      × IsUsable is_loaded cs

  entry-usable :
      (is_loaded : String → Bool) (c : Config V)
      → is_empty c.id ≡ false
      → is_loaded c.plugin_name ≡ true
      → entry (device_plugin is_loaded) c ≡ some c.plugin_name
  unfolding device_plugin
  entry-usable is_loaded c h k = rw (h, k) refl

  config_of : Instance V → Config V
  config_of o = o.config

  -- The instances left hold the entries, in order.
  configs_reconciled :
      (is_loaded : String → Bool) (old : List (Option (Instance V))) (seen : List String) (n : ℕ)
      (cs : List (Config V))
      → IsUsable is_loaded cs
      → map config_of (reconciled (device_plugin is_loaded) old seen n cs) ≡ cs
  unfolding reconciled config_of instantiated update_config
  configs_reconciled is_loaded old seen n [] h = refl
  configs_reconciled is_loaded old seen n (c ∷ cs) (a, b, d, h) =
      let used = entry-usable is_loaded c a b in
      let uses = reconciled-uses (device_plugin is_loaded) old seen n c cs c.plugin_name in
      elim (Option-cases (kept c.plugin_name (prior old seen c.id))) [
        | inl k ↦
            ap (map config_of) (sym (uses none used k))
            ∙ ap (c ∷◌) (configs_reconciled is_loaded old (c.id ∷ seen) (suc n) cs h)
        | inr (o, k) ↦
            ap (map config_of) (sym (uses (some o) used k))
            ∙ ap (c ∷◌) (configs_reconciled is_loaded old (c.id ∷ seen) n cs h)
      ]

  kept_again :
      (old : List (Option (Instance V))) (seen : List String) (o : Instance V)
      → contains seen o.config.id ≡ false
      → first_with o.config.id old ≡ some o
      → kept o.config.plugin_name (prior old seen o.config.id) ≡ some o
  unfolding kept prior
  kept_again old seen o h e = rw (h, e, str_eq_refl o.config.plugin_name) refl

  has_id-append :
      (id : String) (cs ds : List (Config V))
      → has_id id (cs ++ ds) ≡ (has_id id cs || has_id id ds)
  has_id-append id [] ds = refl
  has_id-append id (c ∷ cs) ds = ground (arith, has_id-append id cs ds)

  map-config_of :
      (os ps : List (Instance V)) → map config_of (os ++ ps) ≡ map config_of os ++ map config_of ps
  map-config_of [] ps = refl
  map-config_of (o ∷ os) ps = ap (config_of o ∷◌) (map-config_of os ps)

  first_with-append :
      (id : String) (passed : List (Instance V)) (o : Instance V) (rest : List (Instance V))
      → has_id id (map config_of passed) ≡ false
      → o.config.id ≡ id
      → first_with id (map some (passed ++ o ∷ rest)) ≡ some o
  unfolding first_with config_of
  first_with-append id [] o rest h e = rw ((eq_iff o.config.id id).1 e) refl
  first_with-append id (p ∷ passed) o rest h e =
      let other : str_eq p.config.id id ≡ false = ground (arith, h) in
      let others : has_id id (map config_of passed) ≡ false = ground (arith, h) in
      rw other (first_with-append id passed o rest others e)

  -- The ids of the entries are not among those seen and passed.
  abbrev AreApart : List String → List (Instance V) → List (Config V) → Type 0
  AreApart seen passed [] = Unit {0}
  AreApart seen passed (c ∷ cs) =
      (contains seen c.id ≡ false)
      × (has_id c.id (map config_of passed) ≡ false)
      × AreApart seen passed cs

  AreApart-next :
      (seen : List String) (passed : List (Instance V)) (o : Instance V) (cs : List (Config V))
      → has_id o.config.id cs ≡ false
      → AreApart seen passed cs
      → AreApart (o.config.id ∷ seen) (passed ++ o ∷ []) cs
  unfolding contains config_of
  AreApart-next seen passed o [] h g = tt
  AreApart-next seen passed o (c ∷ cs) h (unseen, apart, g) =
      let other : str_eq o.config.id c.id ≡ false =
        ground (arith, h, str_eq_comm c.id o.config.id) in
      let others : has_id o.config.id cs ≡ false = ground (arith, h) in
      let both : has_id c.id (map config_of (passed ++ o ∷ [])) ≡ false =
        ap (has_id c.id) (map-config_of passed (o ∷ []))
        ∙ has_id-append c.id (map config_of passed) (o.config ∷ [])
        ∙ ground (arith, apart, other) in
      (ground (arith, other, unseen), both, AreApart-next seen passed o cs others g)

  AreApart-nil : (cs : List (Config V)) → AreApart [] [] cs
  unfolding contains
  AreApart-nil [] = tt
  AreApart-nil (c ∷ cs) = (refl, refl, AreApart-nil cs)

  reconciled_again :
      (is_loaded : String → Bool) (passed rest : List (Instance V)) (seen : List String) (n : ℕ)
      → IsUsable is_loaded (map config_of rest)
      → AreApart seen passed (map config_of rest)
      → reconciled (device_plugin is_loaded) (map some (passed ++ rest)) seen n (map config_of rest)
        ≡ rest
  unfolding reconciled config_of update_config
  reconciled_again is_loaded passed [] seen n h g = refl
  reconciled_again is_loaded passed (o ∷ rest) seen n (a, b, d, h) (unseen, apart, g) =
      let old = map some (passed ++ o ∷ rest) in
      let c = o.config in
      let used = entry-usable is_loaded c a b in
      let next =
        reconciled_again is_loaded (passed ++ o ∷ []) rest (c.id ∷ seen) n h
          (AreApart-next seen passed o (map config_of rest) d g) in
      sym (
        reconciled-uses (device_plugin is_loaded) old seen n c (map config_of rest) c.plugin_name
          (some o) used
          (kept_again old seen o unseen (first_with-append c.id passed o rest apart refl)))
      ∙ ap (o ∷◌) (
          subst
            (λ l.
              reconciled (device_plugin is_loaded) (map some l) (c.id ∷ seen) n (map config_of rest)
              ≡ rest)
            (append_assoc passed (o ∷ []) rest) next)

  -- `sync_devices` run twice with entries that have distinct ids and loaded plugins keeps each
  -- instance of the first run, in its place and with its configuration: no device is started anew.
  pub sync_devices-sync :
      (is_loaded : String → Bool) (configs : List (Config V)) (devices : List (Option (Instance V)))
      (m n : ℕ)
      → IsUsable is_loaded configs
      → (sync_devices is_loaded configs
          (map some (sync_devices is_loaded configs devices n).results)
          m).results
        ≡ (sync_devices is_loaded configs devices n).results
  sync_devices-sync is_loaded configs devices m n h =
      let first = (sync_devices is_loaded configs devices n).results in
      let held : map config_of first ≡ configs =
        ap (map config_of) (sync_devices-reconciled is_loaded configs devices n)
        ∙ configs_reconciled is_loaded devices [] n configs h in
      sync_devices-reconciled is_loaded configs (map some first) m
      ∙ subst (λ cs. reconciled (device_plugin is_loaded) (map some first) [] m cs ≡ first) held
          (reconciled_again is_loaded [] first [] m (subst (IsUsable is_loaded) (sym held) h)
            (AreApart-nil (map config_of first)))
