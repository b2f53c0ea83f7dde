-- ===== src/DeviceTree/Edits/Rerooted.antt =====
-- What the moves and deletions of src/ui/models/workspace_model.cc do to the sets of paths.
use Prim.Native.String.{◌++◌ as append}
use Prim.Native.String.append.{nil as nil-append, cons as cons-append}
use Prim.Native.Char.{code}
use text.Mathlib.TextEquality.{Char-path}
use pointcaster.Prelude.{
  ◌≡◌, String, Bool, true, false, none, some, List, [], ◌∷◌, arith, refl, inl, inr, str_eq, eq_iff,
  Bool-cases, Option-cases, ◌||◌, ◌&&◌, ◌==◌, not, map, sym, subst, ◌∙◌, ap,
}
use pointcaster.DeviceTree.{Config, contains}
use pointcaster.DeviceTree.Edits.Paths.{
  strip_prefix, under_prefix, insert, reroot_paths, erase_paths, reroot_paths_between,
  erase_node_paths,
}

-- Where one path goes when its owner moves.
abbrev pub rerooted : String → String → String → String
rerooted previous new p = elim (under_prefix p previous) [ some tail ↦ append new tail | none ↦ p ]

abbrev pub is_under : String → String → Bool
is_under prefix p = elim (under_prefix p prefix) [ some _ ↦ true | none ↦ false ]

contains-insert :
    (p : String) (ps : List String) (q : String)
    → contains (insert p ps) q ≡ (str_eq p q || contains ps q)
unfolding insert contains
contains-insert p ps q = elim (Bool-cases (contains ps p)) [
  | inl h ↦ ground (arith, h, same p ps q)
  | inr h ↦ ground (arith, h)
]
  where
    same :
        (p : String) (ps : List String) (q : String)
        → contains ps p ≡ true
        → str_eq p q ≡ true
        → contains ps q ≡ true
    same p [] q h e = cc
    same p (x ∷ xs) q h e = ground (arith, h, e, eq_iff p q, eq_iff x p, eq_iff x q, same p xs q)

-- The rerooted set is the image of the old one: each path moves with its owner or stays.
contains-reroot_paths :
    (ps : List String) (previous new q : String)
    → contains (reroot_paths ps previous new) q ≡ contains (map (rerooted previous new) ps) q
unfolding reroot_paths contains
contains-reroot_paths [] previous new q = refl
contains-reroot_paths (p ∷ ps) previous new q = elim (Option-cases (under_prefix p previous)) [
  | inl n ↦ ground (
    arith,
    n,
    contains-reroot_paths ps previous new q,
    contains-insert p (reroot_paths ps previous new) q,
  )
  | inr (tail, e) ↦ ground (
    arith,
    e,
    contains-reroot_paths ps previous new q,
    contains-insert (append new tail) (reroot_paths ps previous new) q,
  )
]

contains-erase_paths :
    (ps : List String) (prefix q : String)
    → contains (erase_paths ps prefix) q ≡ (contains ps q && not (is_under prefix q))
unfolding erase_paths contains
contains-erase_paths [] prefix q = refl
contains-erase_paths (p ∷ ps) prefix q = elim (Option-cases (under_prefix p prefix)) [
  | inl n ↦ ground (arith, n, contains-erase_paths ps prefix q, eq_iff p q)
  | inr (tail, e) ↦ ground (arith, e, contains-erase_paths ps prefix q, eq_iff p q)
]

strip_prefix-append :
    (prefix path tail : String) → strip_prefix prefix path ≡ some tail → path ≡ append prefix tail
unfolding strip_prefix
strip_prefix-append String.[] path tail e =
    let same : path ≡ tail = ground (arith, e) in same ∙ sym (λ i. nil-append tail i)
strip_prefix-append (String.◌∷◌ a prefix) String.[] tail e = cc
strip_prefix-append (String.◌∷◌ a prefix) (String.◌∷◌ b path) tail e =
    elim (Bool-cases (code a == code b)) [
      | inl x ↦
          ap (λ z. String.◌∷◌ z path) (sym (Char-path a b (ground (arith, x))))
          ∙ ap (String.◌∷◌ a) (strip_prefix-append prefix path tail (ground (arith, x, e)))
          ∙ sym (λ i. cons-append a prefix tail i)
      | inr x ↦ absurd (ground (arith, x, e))
    ]

-- Rerooting to where it is leaves a path as it is.
rerooted-same : (prefix p : String) → rerooted prefix prefix p ≡ p
unfolding under_prefix
rerooted-same prefix p = elim (Option-cases (strip_prefix prefix p)) [
  | inl n ↦ ground (arith, n)
  | inr (tail, e) ↦ ground (arith, e, strip_prefix-append prefix p tail e)
]

map-rerooted_same : (ps : List String) (prefix : String) → map (rerooted prefix prefix) ps ≡ ps
map-rerooted_same [] prefix = refl
map-rerooted_same (p ∷ ps) prefix =
    ground (arith, rerooted-same prefix p, map-rerooted_same ps prefix)

module _ {T : Type 0} (c : Config T) where
  -- When a node's registry prefix changes, each set of paths becomes its image: the paths below the
  -- old prefix go below the new one with the rest of their name, and every other path stays.
  pub reroot_paths_between-image :
      (previous new q : String)
      → (contains (reroot_paths_between c previous new).publish_paths q
          ≡ contains (map (rerooted previous new) c.publish_paths) q)
        × (contains (reroot_paths_between c previous new).push_paths q
            ≡ contains (map (rerooted previous new) c.push_paths) q)
        × (contains (reroot_paths_between c previous new).render_paths q
            ≡ contains (map (rerooted previous new) c.render_paths) q)
  unfolding reroot_paths_between
  reroot_paths_between-image previous new q = elim (Bool-cases (str_eq new previous)) [
    | inl e ↦
        subst
          (λ z.
            (contains (reroot_paths_between c previous z).publish_paths q
              ≡ contains (map (rerooted previous z) c.publish_paths) q)
            × (contains (reroot_paths_between c previous z).push_paths q
                ≡ contains (map (rerooted previous z) c.push_paths) q)
            × (contains (reroot_paths_between c previous z).render_paths q
                ≡ contains (map (rerooted previous z) c.render_paths) q))
          (sym ((eq_iff new previous).0 e)) (still previous)
    | inr e ↦ rw e (
      contains-reroot_paths c.publish_paths previous new q,
      contains-reroot_paths c.push_paths previous new q,
      contains-reroot_paths c.render_paths previous new q,
    )
  ]
    where
      still :
          (p : String)
          → (contains (reroot_paths_between c p p).publish_paths q
              ≡ contains (map (rerooted p p) c.publish_paths) q)
            × (contains (reroot_paths_between c p p).push_paths q
                ≡ contains (map (rerooted p p) c.push_paths) q)
            × (contains (reroot_paths_between c p p).render_paths q
                ≡ contains (map (rerooted p p) c.render_paths) q)
      still p = (
        ground (arith, eq_iff p p, map-rerooted_same c.publish_paths p),
        ground (arith, eq_iff p p, map-rerooted_same c.push_paths p),
        ground (arith, eq_iff p p, map-rerooted_same c.render_paths p),
      )

  -- After a node's paths are erased, each set holds exactly the paths it had that do not lie below
  -- the node's prefix.
  pub erase_node_paths-rest :
      (prefix q : String)
      → (contains (erase_node_paths c prefix).publish_paths q
          ≡ (contains c.publish_paths q && not (is_under prefix q)))
        × (contains (erase_node_paths c prefix).push_paths q
            ≡ (contains c.push_paths q && not (is_under prefix q)))
        × (contains (erase_node_paths c prefix).render_paths q
            ≡ (contains c.render_paths q && not (is_under prefix q)))
  unfolding erase_node_paths
  erase_node_paths-rest prefix q = (
    contains-erase_paths c.publish_paths prefix q,
    contains-erase_paths c.push_paths prefix q,
    contains-erase_paths c.render_paths prefix q,
  )
