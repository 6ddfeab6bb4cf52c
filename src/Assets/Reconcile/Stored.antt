-- ===== src/Assets/Reconcile/Stored.antt =====
-- What build_blocking_dependency_json stores is read back as it was built.

use runlet.Prelude.{
  Bool, true, false, ◌≡◌, refl, List, [], ◌∷◌, ◌++◌, Text, text, strip, is_space, list_beq, lookup,
  All, All-append, All-dedupe, Result, ok, raise, ◌>>=◌, if◌then◌else◌, ◌==◌, ◌&&◌, nat_eq, list_eq,
  Value, Option, get_or, Bool-cases, inl, inr,
}
use runlet.Prelude.Values.{
  field_of, dict, TypeError, normalize_text, iterate, from_items-to_items, from_fields,
}
use runlet.Assets.Reconcile.Rows.{ElementRow, row_eq}
use runlet.Assets.Reconcile.Dependencies.{
  Dependencies, list_field, labels, is_dict, descriptors, table_element, dialog_element, next_chain,
  scan_step, scan_steps, scan_assertion, assemble, build_blocking_dependency_json,
  normalize_dependency_json, dependency_value,
}
use runlet.Assets.Reconcile.Clean.{
  IsLabel, IsClean, labels-IsLabel, descriptors-IsClean, labels_of_clean, descriptors_of_clean,
}

-- What a loop or a scan returns, if it returns, has clean labels and clean descriptors.
abbrev IsCleanPair : Result TypeError (List Text × List ElementRow) → Type 0
IsCleanPair (ok (chain, rows)) = All IsLabel chain × All IsClean rows
IsCleanPair (raise e) = Unit

abbrev IsLabelled : Result TypeError (List Text) → Type 0
IsLabelled (ok chain) = All IsLabel chain
IsLabelled (raise e) = Unit

table_element-IsClean : IsClean table_element
unfolding strip is_space
table_element-IsClean = record { kind = refl; role = refl; element_text = refl; some_text = refl }

dialog_element-IsClean : IsClean dialog_element
unfolding strip is_space
dialog_element-IsClean = record { kind = refl; role = refl; element_text = refl; some_text = refl }

module _ (chain : List Text) (derived : List ElementRow) (c : All IsLabel chain)
    (d : All IsClean derived) where
  derived-IsClean : (b : Bool) → All IsClean (if b then derived ++ table_element ∷ [] else derived)
  derived-IsClean true = All-append IsClean derived _ d (table_element-IsClean, tt)
  derived-IsClean false = d

  labels_after : (r : Result TypeError (List Value)) → IsLabelled (r >>= λ found. ok (labels found))
  labels_after (ok xs) = labels-IsLabel xs
  labels_after (raise x) = tt

  next_chain-IsLabelled : (name : Text) (params : Value) → IsLabelled (next_chain name params chain)
  unfolding next_chain
  next_chain-IsLabelled name params =
      elim (Bool-cases (name == text "nav.menu_chain" && is_dict params)) [
        | inl h ↦ rw h (labels_after (iterate (list_field (text "menu_chain") params)))
        | inr h ↦ rw h c
      ]

  paired :
      (r : Result TypeError (List Text)) (b : Bool)
      → IsLabelled r
      → IsCleanPair
          (r >>= λ found. ok (found, if b then derived ++ table_element ∷ [] else derived))
  paired (ok found) b h = (h, derived-IsClean b)
  paired (raise x) b h = tt

  scan_step-IsCleanPair : (step : Value) → IsCleanPair (scan_step chain derived step)
  unfolding scan_step
  scan_step-IsCleanPair step = elim (Bool-cases (is_dict step)) [
    | inl h ↦
        let name = normalize_text (field_of (text "module") step) in
        let params = field_of (text "params") step in
        rw h (
          paired (next_chain name params chain) (name == text "assert.table_visible")
            (next_chain-IsLabelled name params))
    | inr h ↦ rw h (c, d)
  ]

scan_steps-IsCleanPair :
    (chain : List Text) (derived : List ElementRow) (steps : List Value)
    → All IsLabel chain
    → All IsClean derived
    → IsCleanPair (scan_steps chain derived steps)
unfolding scan_steps
scan_steps-IsCleanPair chain derived [] c d = (c, d)
scan_steps-IsCleanPair chain derived (step ∷ steps) c d =
    go (scan_step chain derived step) refl (scan_step-IsCleanPair chain derived c d step)
      (λ c' d'. scan_steps-IsCleanPair c' d' steps)
  where
    go :
        (r : Result TypeError (List Text × List ElementRow))
        → scan_step chain derived step ≡ r
        → IsCleanPair r
        → ((c' : List Text) (d' : List ElementRow)
            → All IsLabel c'
            → All IsClean d'
            → IsCleanPair (scan_steps c' d' steps))
        → IsCleanPair (scan_steps chain derived (step ∷ steps))
    go (ok (c', d')) e h ih = rw (e, scan_steps) (ih c' d' h.0 h.1)
    go (raise x) e h ih = rw (e, scan_steps) tt

-- What the assertion schema asks for and derives is clean.
abbrev IsCleanRows : Result TypeError (List ElementRow × List ElementRow) → Type 0
IsCleanRows (ok (rows, asserted)) = All IsClean rows × All IsClean asserted
IsCleanRows (raise e) = Unit

when : (b : Bool) (row : ElementRow) → IsClean row → All IsClean (if b then row ∷ [] else [])
when true row h = (h, tt)
when false row h = tt

scan_assertion-IsCleanRows : (schema : Value) → IsCleanRows (scan_assertion schema)
unfolding scan_assertion
scan_assertion-IsCleanRows (dict shown fields) =
    go (iterate (list_field (text "required_elements") schema))
  where
    schema : Value
    schema = dict shown fields

    name : Text
    name = normalize_text (field_of (text "assertion") schema)

    asserted : List ElementRow
    asserted =
        (if name == text "table_visible" then table_element ∷ [] else [])
        ++ (if name == text "modal_visible" then dialog_element ∷ [] else [])

    go :
        (r : Result TypeError (List Value))
        → IsCleanRows (r >>= λ items. ok (descriptors items, asserted))
    go (ok items) = (
      descriptors-IsClean items,
      All-append IsClean _ _
          (when (name == text "table_visible") table_element table_element-IsClean)
          (when (name == text "modal_visible") dialog_element dialog_element-IsClean),
    )
    go (raise e) = tt
scan_assertion-IsCleanRows _ = (tt, tt)

-- Clean dependencies are read back from the JSON that holds them.
normalize-dependency_value :
    (shown : Text) (deps : Dependencies)
    → All IsLabel deps.menu_chain
    → All IsClean deps.required_elements
    → normalize_dependency_json (dependency_value shown deps) ≡ ok deps
unfolding normalize_dependency_json dependency_value lookup from_fields list_beq iterate
normalize-dependency_value shown deps c d = simp (
  from_items-to_items,
  labels_of_clean deps.menu_chain c,
  descriptors_of_clean shown deps.required_elements d,
)

-- Whatever the steps and the assertion schema, if the blocking dependencies are built, then the
-- stored record is read back as exactly these dependencies.
pub normalize-build :
    (steps_json : Option (List Value)) (assertion_schema : Value) (shown : Text)
    {deps : Dependencies}
    → build_blocking_dependency_json steps_json assertion_schema ≡ ok deps
    → normalize_dependency_json (dependency_value shown deps) ≡ ok deps
unfolding build_blocking_dependency_json
normalize-build steps_json assertion_schema shown {deps} h =
    go (scan_steps [] [] (get_or [] steps_json)) (scan_assertion assertion_schema)
      (scan_steps-IsCleanPair [] [] (get_or [] steps_json) tt tt)
      (scan_assertion-IsCleanRows assertion_schema) h
  where
    go :
        (r : Result TypeError (List Text × List ElementRow))
        (s : Result TypeError (List ElementRow × List ElementRow))
        → IsCleanPair r
        → IsCleanRows s
        → (r >>= λ p. s >>= λ q. ok (assemble p q)) ≡ ok deps
        → normalize_dependency_json (dependency_value shown deps) ≡ ok deps
    go (ok (chain, derived)) (ok (rows, asserted)) c d e =
        let built = assemble (chain, derived) (rows, asserted) in
        cc (
          normalize-dependency_value shown built c.0
            (All-dedupe IsClean _ (All-append IsClean _ _ d.0 (All-append IsClean _ _ c.1 d.1))))
    go (ok p) (raise x) c d e = cc
    go (raise x) s c d e = cc
