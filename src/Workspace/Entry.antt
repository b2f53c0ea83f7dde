-- ===== src/Workspace/Entry.antt =====
-- What one entry of the configuration does in `sync_operators` of
-- src/plugins/operators/operator_host.cc and `sync_devices` of src/workspace/workspace.cc.
use mathlib.Core.Option.{some-injective}
use pointcaster.Prelude.{
  ℕ, suc, ◌≡◌, ◌≢◌, String, true, false, Option, none, some, List, [], ◌∷◌, ◌++◌, set, str_eq,
  if◌then◌else◌, arith, refl, ap, sym, ◌∙◌, subst, inl, inr, Bool-cases, Option-cases, eq_iff,
}
use pointcaster.DeviceTree.{contains}
use pointcaster.Workspace.{
  Config, Instance, Sync, is_empty, index_of, erase_index, slot, update_config, instantiated,
  created, reused, replaced, sync_plugin, start_sync,
}
use pointcaster.Workspace.Index.{
  slot-set_ne, first_with, Finds, index_from-Finds, index_of-erase_index,
}

module _ {V : Type 0} where
  -- The instance an entry may keep: the first of its id, if no entry before it took that.
  unfoldable pub prior : List (Option (Instance V)) → List String → String → Option (Instance V)
  prior old seen id = if contains seen id then none else first_with id old

  -- It is kept when its configuration is of the plugin named.
  unfoldable pub kept : String → Option (Instance V) → Option (Instance V)
  kept plugin none = none
  kept plugin (some o) = if str_eq o.config.plugin_name plugin then some o else none

  abbrev pub entry : (Config V → Option String) → Config V → Option String
  entry plugin_of c = if is_empty c.id then none else plugin_of c

  -- The index holds what entries not seen yet may keep.
  abbrev pub Inv : List (Option (Instance V)) → List String → Sync V → Type 0
  Inv old seen s =
      (id : String)
      → is_empty id ≡ false
      → Finds s.existing_index_by_id s.slots id (prior old seen id)

  pub start_sync-Inv : (old : List (Option (Instance V))) (n : ℕ) → Inv old [] (start_sync old n)
  unfolding prior start_sync contains
  start_sync-Inv old n id h = index_from-Finds id old h

  pub prior_seen :
      (old : List (Option (Instance V))) (seen : List String) (k id : String)
      → prior old (k ∷ seen) id ≡ (if str_eq k id then none else prior old seen id)
  unfolding prior contains
  prior_seen old seen k id = elim (Bool-cases (str_eq k id)) [
    | inl e ↦ rw e refl
    | inr e ↦ rw e refl
  ]

  pub created-Inv :
      (old : List (Option (Instance V))) (seen : List String) (s : Sync V) (plugin : String)
      (c : Config V)
      → Inv old seen s
      → index_of c.id s.existing_index_by_id ≡ none
      → Inv old (c.id ∷ seen) (created plugin c s)
  unfolding created
  created-Inv old seen s plugin c inv e id h =
      subst (Finds s.existing_index_by_id s.slots id) (sym (prior_seen old seen c.id id))
        (elim (Bool-cases (str_eq c.id id)) [
          | inl f ↦
              rw f (subst (λ w. index_of w s.existing_index_by_id ≡ none) ((eq_iff c.id id).0 f) e)
          | inr f ↦ rw f (inv id h)
        ])

  -- After the instance at place `i` was taken out.
  pub taken-Finds :
      (m : List (String × ℕ)) (slots : List (Option (Instance V))) (k id : String) (i : ℕ)
      (o : Instance V) (found : Option (Instance V))
      → o.config.id ≡ k
      → slot slots i ≡ some o
      → str_eq k id ≡ false
      → Finds m slots id found
      → Finds (erase_index k m) (set slots i none) id found
  taken-Finds m slots k id i o none q t f h = index_of-erase_index id k m ∙ rw f h
  taken-Finds m slots k id i o (some o') q t f (q', j, p, t') =
      (q', j, index_of-erase_index id k m ∙ rw f p, slot-set_ne slots i j other ∙ t')
    where
      other : i ≢ j
      other same =
          let one : o ≡ o' = some-injective o o' (sym t ∙ ap (slot slots) same ∙ t') in
          let equal : k ≡ id = sym q ∙ ap (λ x. x.config.id) one ∙ q' in
          ground (arith, (eq_iff k id).1 equal, f)

  pub taken-Inv :
      (old : List (Option (Instance V))) (seen : List String) (s : Sync V) (k : String) (i : ℕ)
      (o : Instance V)
      → Inv old seen s
      → o.config.id ≡ k
      → slot s.slots i ≡ some o
      → (id : String) → is_empty id ≡ false
      → Finds
          (erase_index k s.existing_index_by_id)
          (set s.slots i none)
          id
          (prior old (k ∷ seen) id)
  taken-Inv old seen s k i o inv q t id h =
      subst (Finds (erase_index k s.existing_index_by_id) (set s.slots i none) id)
        (sym (prior_seen old seen k id))
        (elim (Bool-cases (str_eq k id)) [
          | inl f ↦ rw f (index_of-erase_index id k s.existing_index_by_id ∙ rw f refl)
          | inr f ↦ rw f (
              taken-Finds s.existing_index_by_id s.slots k id i o (prior old seen id) q t f
                (inv id h))
        ])

  abbrev pub without_index : Config V → Sync V → Sync V
  without_index c s = record s { existing_index_by_id = erase_index c.id s.existing_index_by_id }

  pub sync_plugin-absent :
      (plugin : String) (c : Config V) (s : Sync V)
      → index_of c.id s.existing_index_by_id ≡ none
      → sync_plugin plugin c s ≡ created plugin c s
  unfolding sync_plugin
  sync_plugin-absent plugin c s e = rw (sync_plugin, e) refl

  pub sync_plugin-reused :
      (plugin : String) (c : Config V) (s : Sync V) (i : ℕ) (o : Instance V)
      → index_of c.id s.existing_index_by_id ≡ some i
      → slot s.slots i ≡ some o
      → str_eq o.config.plugin_name plugin ≡ true
      → sync_plugin plugin c s ≡ reused i o c (without_index c s)
  unfolding sync_plugin
  sync_plugin-reused plugin c s i o e t f = rw (sync_plugin, e, t, f) refl

  pub sync_plugin-replaced :
      (plugin : String) (c : Config V) (s : Sync V) (i : ℕ) (o : Instance V)
      → index_of c.id s.existing_index_by_id ≡ some i
      → slot s.slots i ≡ some o
      → str_eq o.config.plugin_name plugin ≡ false
      → sync_plugin plugin c s ≡ replaced i o plugin c (without_index c s)
  unfolding sync_plugin
  sync_plugin-replaced plugin c s i o e t f = rw (sync_plugin, e, t, f) refl

  pub kept-some :
      (plugin : String) (found : Option (Instance V)) (o : Instance V)
      → kept plugin found ≡ some o
      → (found ≡ some o) × (str_eq o.config.plugin_name plugin ≡ true)
  unfolding kept
  kept-some plugin none o k = ground (arith, k)
  kept-some plugin (some o') o k = elim (Bool-cases (str_eq o'.config.plugin_name plugin)) [
    | inl e ↦
        let same : some o' ≡ some o = ground (arith, k, e) in
        (same, subst (λ x. str_eq x.config.plugin_name plugin ≡ true) (some-injective o' o same) e)
    | inr e ↦ ground (arith, k, e)
  ]

  -- What one entry does to the state, and which instance it adds.
  abbrev pub Adds :
      List (Option (Instance V)) → List String → Config V → Sync V → Instance V → Sync V → Type 0
  Adds old seen c s o s' = Inv old (c.id ∷ seen) s' × (s'.results ≡ s.results ++ o ∷ [])

  pub sync_plugin-Adds_new :
      (old : List (Option (Instance V))) (seen : List String) (plugin : String) (c : Config V)
      (s : Sync V)
      → is_empty c.id ≡ false
      → Inv old seen s
      → kept plugin (prior old seen c.id) ≡ none
      → Adds old seen c s (instantiated plugin c s.next_instance) (sync_plugin plugin c s)
        × ((sync_plugin plugin c s).next_instance ≡ suc s.next_instance)
  unfolding created replaced kept
  sync_plugin-Adds_new old seen plugin c s h inv k = elim (Option-cases (prior old seen c.id)) [
    | inl e ↦
        let absent = subst (Finds s.existing_index_by_id s.slots c.id) e (inv c.id h) in
        subst
          (λ r.
            Adds old seen c s (instantiated plugin c s.next_instance) r
            × (r.next_instance ≡ suc s.next_instance))
          (sym (sync_plugin-absent plugin c s absent))
          ((created-Inv old seen s plugin c inv absent, refl), refl)
    | inr (o, e) ↦
        let (q, i, p, t) = subst (Finds s.existing_index_by_id s.slots c.id) e (inv c.id h) in
        let other : str_eq o.config.plugin_name plugin ≡ false = ground (arith, k, e) in
        subst
          (λ r.
            Adds old seen c s (instantiated plugin c s.next_instance) r
            × (r.next_instance ≡ suc s.next_instance))
          (sym (sync_plugin-replaced plugin c s i o p t other))
          ((taken-Inv old seen s c.id i o inv q t, refl), refl)
  ]

  pub sync_plugin-Adds_kept :
      (old : List (Option (Instance V))) (seen : List String) (plugin : String) (c : Config V)
      (s : Sync V) (o : Instance V)
      → is_empty c.id ≡ false
      → Inv old seen s
      → kept plugin (prior old seen c.id) ≡ some o
      → Adds old seen c s (update_config c o) (sync_plugin plugin c s)
        × ((sync_plugin plugin c s).next_instance ≡ s.next_instance)
  unfolding reused kept
  sync_plugin-Adds_kept old seen plugin c s o h inv k =
      let (e, same) = kept-some plugin (prior old seen c.id) o k in
      let (q, i, p, t) = subst (Finds s.existing_index_by_id s.slots c.id) e (inv c.id h) in
      subst (λ r. Adds old seen c s (update_config c o) r × (r.next_instance ≡ s.next_instance))
        (sym (sync_plugin-reused plugin c s i o p t same))
        ((taken-Inv old seen s c.id i o inv q t, refl), refl)
