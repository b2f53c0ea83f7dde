-- ===== src/Workspace/Reconciled.antt =====
-- What `sync_operators` of src/plugins/operators/operator_host.cc and `sync_devices` of
-- src/workspace/workspace.cc leave for each entry of the configuration.
use mathlib.Core.List.{append-nil, append_assoc}
use pointcaster.Prelude.{
  ℕ, suc, ◌≡◌, String, Bool, false, Option, none, some, List, [], ◌∷◌, ◌++◌, arith, refl, ap, sym,
  ◌∙◌, inl, inr, Bool-cases, Option-cases,
}
use pointcaster.Workspace.{
  Config, Instance, Sync, is_empty, update_config, instantiated, sync_plugin, sync_one, sync_all,
  start_sync, sync_operators, operator_plugin, sync_devices, device_plugin,
}
use pointcaster.Workspace.Entry.{
  prior, kept, entry, Inv, start_sync-Inv, sync_plugin-Adds_new, sync_plugin-Adds_kept,
}

module _ {V : Type 0} where
  -- The entries that are used, in their order: each keeps the instance of its id or gets a new one.
  unfoldable pub reconciled :
      (Config V → Option String)
      → List (Option (Instance V))
      → List String
      → ℕ
      → List (Config V)
      → List (Instance V)
  reconciled plugin_of old seen n [] = []
  reconciled plugin_of old seen n (c ∷ cs) = elim (entry plugin_of c) [
    | none ↦ reconciled plugin_of old seen n cs
    | some plugin ↦ elim (kept plugin (prior old seen c.id)) [
      | some o ↦ update_config c o ∷ reconciled plugin_of old (c.id ∷ seen) n cs
      | none ↦ instantiated plugin c n ∷ reconciled plugin_of old (c.id ∷ seen) (suc n) cs
    ]
  ]

  joined :
      (plugin_of : Config V → Option String) (old : List (Option (Instance V))) (seen : List String)
      (cs : List (Config V)) (s : Sync V) (o : Instance V) (results : List (Instance V)) (m n : ℕ)
      → results ≡ s.results ++ o ∷ []
      → m ≡ n
      → results ++ reconciled plugin_of old seen m cs
        ≡ s.results ++ o ∷ reconciled plugin_of old seen n cs
  joined plugin_of old seen cs s o results m n e f =
      rw (e, f) (append_assoc s.results (o ∷ []) (reconciled plugin_of old seen n cs))

  sync_one-skips :
      (plugin_of : Config V → Option String) (c : Config V) (s : Sync V)
      → entry plugin_of c ≡ none
      → sync_one plugin_of c s ≡ s
  unfolding sync_one
  sync_one-skips plugin_of c s e = elim (Bool-cases (is_empty c.id)) [
    | inl h ↦ rw h refl
    | inr h ↦ elim (Option-cases (plugin_of c)) [
      | inl f ↦ rw (h, f) refl
      | inr (plugin, f) ↦ ground (arith, e, h, f)
    ]
  ]

  sync_one-uses :
      (plugin_of : Config V → Option String) (c : Config V) (s : Sync V) (plugin : String)
      → entry plugin_of c ≡ some plugin
      → (is_empty c.id ≡ false) × (sync_one plugin_of c s ≡ sync_plugin plugin c s)
  unfolding sync_one
  sync_one-uses plugin_of c s plugin e = elim (Bool-cases (is_empty c.id)) [
    | inl h ↦ ground (arith, e, h)
    | inr h ↦ let f : plugin_of c ≡ some plugin = ground (arith, e, h) in (h, rw (h, f) refl)
  ]

  module _ (plugin_of : Config V → Option String) (old : List (Option (Instance V)))
      (seen : List String) (n : ℕ) (c : Config V) (cs : List (Config V)) where
    abbrev pub with_instance : String → Option (Instance V) → List (Instance V)
    with_instance plugin found = elim found [
      | some o ↦ update_config c o ∷ reconciled plugin_of old (c.id ∷ seen) n cs
      | none ↦ instantiated plugin c n ∷ reconciled plugin_of old (c.id ∷ seen) (suc n) cs
    ]

    abbrev pub with_plugin : Option String → List (Instance V)
    with_plugin found = elim found [
      | none ↦ reconciled plugin_of old seen n cs
      | some plugin ↦ with_instance plugin (kept plugin (prior old seen c.id))
    ]

    pub reconciled-skips :
        entry plugin_of c ≡ none
        → reconciled plugin_of old seen n cs ≡ reconciled plugin_of old seen n (c ∷ cs)
    unfolding reconciled
    reconciled-skips e = sym (ap with_plugin e)

    pub reconciled-uses :
        (plugin : String) (found : Option (Instance V))
        → entry plugin_of c ≡ some plugin
        → kept plugin (prior old seen c.id) ≡ found
        → with_instance plugin found ≡ reconciled plugin_of old seen n (c ∷ cs)
    unfolding reconciled
    reconciled-uses plugin found e k = sym (ap with_plugin e ∙ ap (with_instance plugin) k)

  sync_all-reconciled :
      (plugin_of : Config V → Option String) (old : List (Option (Instance V))) (seen : List String)
      (cs : List (Config V)) (s : Sync V)
      → Inv old seen s
      → (sync_all plugin_of cs s).results
        ≡ s.results ++ reconciled plugin_of old seen s.next_instance cs
  unfolding sync_all reconciled
  sync_all-reconciled plugin_of old seen [] s inv = sym (append-nil s.results)
  sync_all-reconciled plugin_of old seen (c ∷ cs) s inv = elim (Option-cases (entry plugin_of c)) [
    | inl e ↦
        ap (λ t. (sync_all plugin_of cs t).results) (sync_one-skips plugin_of c s e)
        ∙ sync_all-reconciled plugin_of old seen cs s inv
        ∙ ap (◌++◌ s.results) (reconciled-skips plugin_of old seen s.next_instance c cs e)
    | inr (plugin, e) ↦
        let (h, step) = sync_one-uses plugin_of c s plugin e in
        let s' = sync_plugin plugin c s in
        ap (λ t. (sync_all plugin_of cs t).results) step
        ∙ elim (Option-cases (kept plugin (prior old seen c.id))) [
          | inl k ↦
              let ((inv', added), next) = sync_plugin-Adds_new old seen plugin c s h inv k in
              sync_all-reconciled plugin_of old (c.id ∷ seen) cs s' inv'
              ∙ joined plugin_of old (c.id ∷ seen) cs s (instantiated plugin c s.next_instance)
                  s'.results s'.next_instance (suc s.next_instance) added next
              ∙ ap (◌++◌ s.results)
                  (reconciled-uses plugin_of old seen s.next_instance c cs plugin none e k)
          | inr (o, k) ↦
              let ((inv', added), next) = sync_plugin-Adds_kept old seen plugin c s o h inv k in
              sync_all-reconciled plugin_of old (c.id ∷ seen) cs s' inv'
              ∙ joined plugin_of old (c.id ∷ seen) cs s (update_config c o) s'.results
                  s'.next_instance s.next_instance added next
              ∙ ap (◌++◌ s.results)
                  (reconciled-uses plugin_of old seen s.next_instance c cs plugin (some o) e k)
        ]
  ]

module _ {V : Type 0} (is_loaded : String → Bool) where
  -- Whatever operators there were, null pointers and repeated ids included: for each entry with an
  -- id and a loaded plugin, in order, `sync_operators` leaves one instance that holds the entry's
  -- configuration. It is the first old instance of the id, if that is of the same plugin and no
  -- entry before it took the id, and a new instance otherwise.
  pub sync_operators-reconciled :
      (configs : List (Config V)) (operators : List (Option (Instance V))) (n : ℕ)
      → (sync_operators is_loaded configs operators n).results
        ≡ reconciled (operator_plugin is_loaded) operators [] n configs
  unfolding sync_operators start_sync
  sync_operators-reconciled configs operators n =
      sync_all-reconciled (operator_plugin is_loaded) operators [] configs (start_sync operators n)
        (start_sync-Inv operators n)

  pub sync_devices-reconciled :
      (configs : List (Config V)) (devices : List (Option (Instance V))) (n : ℕ)
      → (sync_devices is_loaded configs devices n).results
        ≡ reconciled (device_plugin is_loaded) devices [] n configs
  unfolding sync_devices start_sync
  sync_devices-reconciled configs devices n =
      sync_all-reconciled (device_plugin is_loaded) devices [] configs (start_sync devices n)
        (start_sync-Inv devices n)
