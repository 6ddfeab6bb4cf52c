-- ===== src/Assets/Fingerprints/Drift.antt =====
-- What each outcome of a comparison says of the changed components.
use runlet.Prelude.{
  ℕ, ◌≤◌, Bool, true, false, ◌||◌, ◌≡◌, some, [], ◌∷◌, is_empty, if◌then◌else◌, nat_eq, list_eq,
  filter, arith, Bool-cases, inl, inr,
}
use runlet.Assets.Fingerprints.Compare.{
  AssetStatus, safe, suspect, stale, Component, navigation_hash, key_locator_hash,
  semantic_summary_hash, structure_hash, Fingerprint, component_changed, map_diff_score_to_status,
  total_weight, compare_fingerprints,
}

-- A status, from what changed: navigation, key locators, semantic summary, structure.
abbrev pub expected_status : Bool → Bool → Bool → Bool → AssetStatus
expected_status navigation true semantic structure =
    if navigation || structure then stale else suspect
expected_status false false false structure = safe
expected_status false false true structure = if structure then suspect else safe
expected_status true false semantic structure = if semantic || structure then suspect else safe

-- A comparison with an earlier fingerprint that is not empty is stale if the key locators changed
-- together with the navigation or the structure, safe if the key locators did not change and at most
-- one of the others did, and suspect in every other case.
pub compare_fingerprints-status :
    (old new : Fingerprint)
    → is_empty old ≡ false
    → (compare_fingerprints (some old) new).status
      ≡ expected_status
          (component_changed old new navigation_hash)
          (component_changed old new key_locator_hash)
          (component_changed old new semantic_summary_hash)
          (component_changed old new structure_hash)
unfolding compare_fingerprints map_diff_score_to_status total_weight filter
compare_fingerprints-status old new h = rw h (
    go (component_changed old new navigation_hash) (component_changed old new key_locator_hash)
      (component_changed old new semantic_summary_hash) (component_changed old new structure_hash))
  where
    go :
        (a b c d : Bool)
        → map_diff_score_to_status (
            total_weight (
              let rest =
                (let rest =
                    (let rest = (let rest = [] in if d then structure_hash ∷ rest else rest) in
                      if c then semantic_summary_hash ∷ rest else rest) in
                  if b then key_locator_hash ∷ rest else rest) in
              if a then navigation_hash ∷ rest else rest))
          ≡ expected_status a b c d
    go a b c d = ground arith

abbrev pub severity : AssetStatus → ℕ
severity safe = 0
severity suspect = 1
severity stale = 2

-- If every component that one new fingerprint changes is also changed by another, then the status of
-- the other comparison is at least as severe.
pub compare_fingerprints-monotone :
    (old new new' : Fingerprint)
    → ((component : Component)
        → component_changed old new component ≡ true
        → component_changed old new' component ≡ true)
    → severity (compare_fingerprints (some old) new).status
      ≤ severity (compare_fingerprints (some old) new').status
compare_fingerprints-monotone old new new' h = elim (Bool-cases (is_empty old)) [
  | inl e ↦ unfold compare_fingerprints in rw e (omega arith)
  | inr e ↦
      rw (compare_fingerprints-status old new e, compare_fingerprints-status old new' e)
        (ground
          (arith, h navigation_hash, h key_locator_hash, h semantic_summary_hash, h structure_hash))
]
