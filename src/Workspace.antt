-- ===== src/Workspace.antt =====
-- How the workspace brings its plugins in line with a configuration: `sync_operators` of
-- src/plugins/operators/operator_host.cc and `sync_devices` of src/workspace/workspace.cc. An
-- instance of a plugin is the number of its object with the configuration it holds; a pointer is an
-- option, null where it was moved from. Which plugins are loaded is a parameter, and
-- the objects of the plugin manager are numbered in the order of creation. The host was given its
-- workspace, and NullDevice is always there to instantiate.
mod Index
pub mod Entry
pub mod Reconciled
pub mod Rebuild
pub mod Again
pub mod Placeholder
pub mod Sessions
pub mod Membership
use pointcaster.Prelude.{
  ℕ, suc, ◌==◌, String, Bool, true, false, Option, none, some, List, [], ◌∷◌, ◌++◌, map, length,
  get_elem?, set, str_eq, if◌then◌else◌, ◌||◌, not,
}

-- The id and the plugin's name, as `operator_info_from_variant` reads them, and the rest.
pub record Config (V : Type 0) : Type 0 where
  pub id : String
  pub plugin_name : String
  pub settings : V

pub record Instance (V : Type 0) : Type 0 where
  pub instance_id : ℕ
  -- The class that was instantiated.
  pub plugin : String
  pub config : Config V

pub record Sync (V : Type 0) : Type 0 where
  pub slots : List (Option (Instance V))
  pub existing_index_by_id : List (String × ℕ)
  pub results : List (Instance V)
  pub disposed : List (Instance V)
  pub next_instance : ℕ

abbrev pub is_empty : String → Bool
is_empty id = str_eq id ""

unfoldable pub index_of : String → List (String × ℕ) → Option ℕ
index_of id [] = none
index_of id ((k, i) ∷ rest) = let found = index_of id rest in if str_eq k id then some i else found

-- `try_emplace`: the first index given for an id stays.
unfoldable pub try_emplace : String → ℕ → List (String × ℕ) → List (String × ℕ)
try_emplace id i m = elim (index_of id m) [ some _ ↦ m | none ↦ m ++ (id, i) ∷ [] ]

unfoldable pub erase_index : String → List (String × ℕ) → List (String × ℕ)
erase_index id [] = []
erase_index id ((k, i) ∷ rest) =
    let others = erase_index id rest in if str_eq k id then others else (k, i) ∷ others

module _ {V : Type 0} where
  abbrev pub slot : List (Option (Instance V)) → ℕ → Option (Instance V)
  slot slots i = elim (get_elem? slots i) [ none ↦ none | some pointer ↦ pointer ]

  -- The loop that fills the index, from position `i`.
  unfoldable pub index_from : ℕ → List (Option (Instance V)) → List (String × ℕ) → List (String × ℕ)
  index_from i [] m = m
  index_from i (none ∷ slots) m = index_from (suc i) slots m
  index_from i (some o ∷ slots) m =
      index_from (suc i) slots (if is_empty o.config.id then m else try_emplace o.config.id i m)

  unfoldable pub update_config : Config V → Instance V → Instance V
  update_config c o = record o { config = c }

  -- A new object, after its `update_config`.
  unfoldable pub instantiated : String → Config V → ℕ → Instance V
  instantiated plugin c n = record { instance_id = n; plugin = plugin; config = c }

  unfoldable pub created : String → Config V → Sync V → Sync V
  created plugin c s = record s {
    results = s.results ++ instantiated plugin c s.next_instance ∷ [];
    next_instance = suc s.next_instance;
  }

  unfoldable pub reused : ℕ → Instance V → Config V → Sync V → Sync V
  reused i o c s = record s {
    slots = set s.slots i none;
    results = s.results ++ update_config c o ∷ [];
  }

  unfoldable pub replaced : ℕ → Instance V → String → Config V → Sync V → Sync V
  replaced i o plugin c s =
      created plugin c (record s { slots = set s.slots i none; disposed = s.disposed ++ o ∷ [] })

  -- One entry whose plugin to instantiate is known. The index never holds a null pointer.
  unfoldable pub sync_plugin : String → Config V → Sync V → Sync V
  sync_plugin plugin c s = elim (index_of c.id s.existing_index_by_id) [
    | none ↦ created plugin c s
    | some i ↦
        let s' = record s { existing_index_by_id = erase_index c.id s.existing_index_by_id } in
        elim (slot s.slots i) [
          | none ↦ s'
          | some o ↦
              if str_eq o.config.plugin_name plugin
              then reused i o c s'
              else replaced i o plugin c s'
        ]
  ]

  -- The loop over the configuration. `plugin_of` tells which plugin an entry gets, if any.
  unfoldable pub sync_one : (Config V → Option String) → Config V → Sync V → Sync V
  sync_one plugin_of c s =
      if is_empty c.id
      then s
      else elim (plugin_of c) [ none ↦ s | some plugin ↦ sync_plugin plugin c s ]

  unfoldable pub sync_all : (Config V → Option String) → List (Config V) → Sync V → Sync V
  sync_all plugin_of [] s = s
  sync_all plugin_of (c ∷ cs) s = sync_all plugin_of cs (sync_one plugin_of c s)

  unfoldable pub start_sync : List (Option (Instance V)) → ℕ → Sync V
  start_sync slots next_instance = record {
    slots = slots;
    existing_index_by_id = index_from 0 slots [];
    results = [];
    disposed = [];
    next_instance = next_instance;
  }

  -- `new_operators[i].get() != operators[i].get()` for some `i`
  unfoldable pub differ : List (Instance V) → List (Option (Instance V)) → Bool
  differ (r ∷ rs) (some o ∷ slots) =
      let rest = differ rs slots in if r.instance_id == o.instance_id then rest else true
  differ (r ∷ rs) (none ∷ slots) = true
  differ _ _ = false

  unfoldable pub changed : Sync V → Bool
  changed s = not (length s.results == length s.slots) || differ s.results s.slots

  -- The devices that are still in the index are disposed of.
  unfoldable pub leftover : List (String × ℕ) → List (Option (Instance V)) → List (Instance V)
  leftover [] slots = []
  leftover ((id, i) ∷ rest) slots =
      let others = leftover rest slots in
      elim (slot slots i) [ none ↦ others | some o ↦ o ∷ others ]

module _ {V : Type 0} (is_loaded : String → Bool) where
  -- An operator whose plugin is not loaded is skipped.
  unfoldable pub operator_plugin : Config V → Option String
  operator_plugin c = if is_loaded c.plugin_name then some c.plugin_name else none

  unfoldable pub sync_operators : List (Config V) → List (Option (Instance V)) → ℕ → Sync V
  sync_operators configs operators next_instance =
      sync_all operator_plugin configs (start_sync operators next_instance)

  -- Whether `sync_operators` goes on to build its pipeline anew, which it also does without one or
  -- with one of another concurrency.
  unfoldable pub need_rebuild : Bool → List (Config V) → List (Option (Instance V)) → ℕ → Bool
  need_rebuild pipeline_fits configs operators next_instance =
      changed (sync_operators configs operators next_instance) || not pipeline_fits

  -- A device whose plugin is not loaded gets the placeholder.
  unfoldable pub device_plugin : Config V → Option String
  device_plugin c = if is_loaded c.plugin_name then some c.plugin_name else some "NullDevice"

  unfoldable pub sync_devices : List (Config V) → List (Option (Instance V)) → ℕ → Sync V
  sync_devices configs devices next_instance =
      let s = sync_all device_plugin configs (start_sync devices next_instance) in
      record s { disposed = s.disposed ++ leftover s.existing_index_by_id s.slots }
