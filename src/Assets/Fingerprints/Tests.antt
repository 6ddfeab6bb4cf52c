-- ===== src/Assets/Fingerprints/Tests.antt =====
-- Comparisons of fingerprints in which the key locators and the structure change.
use runlet.Prelude.{
  ℕ, ◌≤◌, ◌≡◌, refl, Bool, true, false, Option, some, List, [], ◌∷◌, text, Text, Value,
}
use mathlib.Core.List.Permᴰ
use runlet.Assets.Fingerprints.Hashes.{build_page_fingerprint}
use runlet.Assets.Fingerprints.Menus.{payload, build_page_fingerprint-Permᴰ}
use runlet.Prelude.Values.{null, int, pos, new_dict, str}
use runlet.Assets.Fingerprints.Compare.{
  stale, Component, navigation_hash, key_locator_hash, semantic_summary_hash, structure_hash,
  Fingerprint, component_changed, compare_fingerprints,
}
use runlet.Assets.Fingerprints.Drift.{
  expected_status, severity, compare_fingerprints-status, compare_fingerprints-monotone,
}

abbrev hashes : Text → Text → Fingerprint
hashes locators structure =
    (text "navigation_hash", str (text "n"))
    ∷ (text "key_locator_hash", str locators)
    ∷ (text "semantic_summary_hash", str (text "s"))
    ∷ (text "structure_hash", str structure)
    ∷ []

abbrev before : Fingerprint
before = hashes (text "k") (text "t")

abbrev moved : Fingerprint
moved = hashes (text "k2") (text "t")

abbrev rebuilt : Fingerprint
rebuilt = hashes (text "k2") (text "t2")

rebuilt_is_stale : (compare_fingerprints (some before) rebuilt).status ≡ stale
unfolding compare_fingerprints runlet.Prelude.list_beq
rebuilt_is_stale = refl

compare_fingerprints-status_example :
    (compare_fingerprints (some before) rebuilt).status
    ≡ expected_status
        (component_changed before rebuilt navigation_hash)
        (component_changed before rebuilt key_locator_hash)
        (component_changed before rebuilt semantic_summary_hash)
        (component_changed before rebuilt structure_hash)
compare_fingerprints-status_example = compare_fingerprints-status before rebuilt refl

changes_of_moved :
    (component : Component)
    → component_changed before moved component ≡ true
    → component_changed before rebuilt component ≡ true
unfolding component_changed runlet.Prelude.list_beq
changes_of_moved navigation_hash h = cc
changes_of_moved key_locator_hash h = refl
changes_of_moved semantic_summary_hash h = cc
changes_of_moved structure_hash h = refl

compare_fingerprints-monotone_example :
    severity (compare_fingerprints (some before) moved).status
    ≤ severity (compare_fingerprints (some before) rebuilt).status
compare_fingerprints-monotone_example =
    compare_fingerprints-monotone before moved rebuilt changes_of_moved

-- Two menus, in two orders; the hash function leaves a text as it is.
abbrev menu : Text → Value
menu label = new_dict ((text "label", str label) ∷ (text "depth", int (pos 1)) ∷ [])

build_page_fingerprint-Permᴰ_example :
    build_page_fingerprint
      (λ s. s)
      (payload null (menu (text "Users") ∷ menu (text "Roles") ∷ []) null)
    ≡ build_page_fingerprint
        (λ s. s)
        (payload null (menu (text "Roles") ∷ menu (text "Users") ∷ []) null)
build_page_fingerprint-Permᴰ_example =
    build_page_fingerprint-Permᴰ (λ s. s) null null (Permᴰ.swap refl refl)
