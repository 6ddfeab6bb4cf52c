-- ===== src/Assets/Reconcile/Clean.antt =====
-- Labels and element rows that normalising keeps: they are read back as they were written.

use runlet.Prelude.{
  true, false, ◌≡◌, refl, ap, List, [], ◌∷◌, map, Text, text, strip, strip_idem, is_empty, filter,
  list_beq, lookup, All, nat_eq, list_eq, Value, arith, Bool-cases, inl, inr,
}
use runlet.Prelude.Values.{field_of, null, str, py_str, normalize_text, from_fields}
use runlet.Assets.Reconcile.Rows.{ElementRow, row_eq}
use runlet.Assets.Reconcile.Dependencies.{
  labels, descriptor, has_text, is_dict, descriptors, row_value,
}

-- A label that stripping keeps and that is not empty.
abbrev pub IsLabel : Text → Type 0
IsLabel s = (strip s ≡ s) × (is_empty s ≡ false)

pub record IsClean (row : ElementRow) : Type 0 where
  pub kind : strip row.kind ≡ row.kind
  pub role : strip row.role ≡ row.role
  pub element_text : strip row.element_text ≡ row.element_text
  pub some_text : has_text row ≡ true

normalize_text_clean : (v : Value) → strip (normalize_text v) ≡ normalize_text v
unfolding normalize_text
normalize_text_clean null = unfold strip in refl
normalize_text_clean v = strip_idem (py_str v)

pub labels-IsLabel : (xs : List Value) → All IsLabel (labels xs)
unfolding labels filter
labels-IsLabel [] = tt
labels-IsLabel (x ∷ xs) = elim (Bool-cases (is_empty (normalize_text x))) [
  | inl h ↦ rw h (labels-IsLabel xs)
  | inr h ↦ rw h ((normalize_text_clean x, h), labels-IsLabel xs)
]

descriptor-IsClean : (x : Value) → has_text (descriptor x) ≡ true → IsClean (descriptor x)
descriptor-IsClean x h = record {
  kind = normalize_text_clean (field_of (text "kind") x);
  role = normalize_text_clean (field_of (text "role") x);
  element_text = normalize_text_clean (field_of (text "text") x);
  some_text = h;
}

pub descriptors-IsClean : (xs : List Value) → All IsClean (descriptors xs)
unfolding descriptors
descriptors-IsClean [] = tt
descriptors-IsClean (x ∷ xs) = elim (Bool-cases (is_dict x)) [
  | inl d ↦ elim (Bool-cases (has_text (descriptor x))) [
    | inl h ↦ rw (d, h) (descriptor-IsClean x h, descriptors-IsClean xs)
    | inr h ↦ rw (d, h) (descriptors-IsClean xs)
  ]
  | inr d ↦ rw d (descriptors-IsClean xs)
]

pub labels_of_clean : (chain : List Text) → All IsLabel chain → labels (map str chain) ≡ chain
unfolding labels filter normalize_text
labels_of_clean [] h = refl
labels_of_clean (s ∷ chain) h = rw (h.0.0, h.0.1) (ap (◌∷◌ s) (labels_of_clean chain h.1))

descriptor_of_texts :
    (shown kind role element_text : Text)
    → strip kind ≡ kind
    → strip role ≡ role
    → strip element_text ≡ element_text
    → descriptor
        (row_value shown (record { kind = kind; role = role; element_text = element_text }))
      ≡ record { kind = kind; role = role; element_text = element_text }
unfolding row_value lookup from_fields normalize_text list_beq
descriptor_of_texts shown [] [] [] h k l = ground arith
descriptor_of_texts shown [] [] (e ∷ es) h k l = ground arith
descriptor_of_texts shown [] (r ∷ rs) [] h k l = ground arith
descriptor_of_texts shown [] (r ∷ rs) (e ∷ es) h k l = ground arith
descriptor_of_texts shown (c ∷ cs) [] [] h k l = ground arith
descriptor_of_texts shown (c ∷ cs) [] (e ∷ es) h k l = ground arith
descriptor_of_texts shown (c ∷ cs) (r ∷ rs) [] h k l = ground arith
descriptor_of_texts shown (c ∷ cs) (r ∷ rs) (e ∷ es) h k l = ground arith

descriptor_of_clean :
    (shown : Text) (row : ElementRow) → IsClean row → descriptor (row_value shown row) ≡ row
descriptor_of_clean shown row h =
    descriptor_of_texts shown row.kind row.role row.element_text h.kind h.role h.element_text

is_dict-row_value : (shown : Text) (row : ElementRow) → is_dict (row_value shown row) ≡ true
unfolding row_value
is_dict-row_value shown row = refl

pub descriptors_of_clean :
    (shown : Text) (rows : List ElementRow)
    → All IsClean rows
    → descriptors (map (row_value shown) rows) ≡ rows
unfolding descriptors
descriptors_of_clean shown [] h = refl
descriptors_of_clean shown (row ∷ rows) h = ground (
  arith,
  descriptor_of_clean shown row h.0,
  h.0.some_text,
  is_dict-row_value shown row,
  descriptors_of_clean shown rows h.1,
)
