-- ===== src/Assets/Semantic/Fingerprints.antt =====
-- KeyElementDescriptor and PageSemanticFingerprint of current_state_diff.py, normalised when they
-- are built.
use runlet.Prelude.{
  Bool, true, ◌&&◌, not, ◌≡◌, ◌↔◌, Option, none, some, List, [], ◌∷◌, map, Text, text_beq_iff,
  is_empty, if◌then◌else◌, ◌==◌, Eq, list_eq, nat_eq, list_beq_iff, filter, dedupe, sort, text_leb,
  Value, arith,
}
use runlet.Prelude.Values.{normalize_text}

pub record KeyElementDescriptor : Type 0 where
  pub kind : Text
  pub role : Text
  pub element_text : Text

abbrev pub descriptor_beq : KeyElementDescriptor → KeyElementDescriptor → Bool
descriptor_beq a b = a.kind == b.kind && (a.role == b.role && a.element_text == b.element_text)

pub descriptor_beq_iff : (a b : KeyElementDescriptor) → (descriptor_beq a b ≡ true) ↔ (a ≡ b)
descriptor_beq_iff a b =
    (λ h. ground (arith, kinds, roles, texts), λ h. ground (arith, kinds, roles, texts))
  where
    kinds : (a.kind == b.kind ≡ true) ↔ (a.kind ≡ b.kind)
    kinds = text_beq_iff a.kind b.kind

    roles : (a.role == b.role ≡ true) ↔ (a.role ≡ b.role)
    roles = text_beq_iff a.role b.role

    texts : (a.element_text == b.element_text ≡ true) ↔ (a.element_text ≡ b.element_text)
    texts = text_beq_iff a.element_text b.element_text

instance abbrev pub descriptor_eq : Eq KeyElementDescriptor
descriptor_eq = record { equal = descriptor_beq; equal_iff = descriptor_beq_iff }

-- __post_init__: every field is normalised.
unfoldable pub new_descriptor : Value → Value → Value → KeyElementDescriptor
new_descriptor kind role element_text = record {
  kind = normalize_text kind;
  role = normalize_text role;
  element_text = normalize_text element_text;
}

-- The order of the dataclass: field by field.
abbrev pub descriptor_leb : KeyElementDescriptor → KeyElementDescriptor → Bool
descriptor_leb a b =
    if not (a.kind == b.kind)
    then text_leb a.kind b.kind
    else if not (a.role == b.role)
    then text_leb a.role b.role
    else text_leb a.element_text b.element_text

-- What may stand for a key element: a descriptor, or a mapping with its three keys.
pub data KeyElementInput : Type 0 where
  descriptor : KeyElementDescriptor → KeyElementInput
  mapping : Value → Value → Value → KeyElementInput

unfoldable pub build_key_element_descriptor : KeyElementInput → Option KeyElementDescriptor
unfolding new_descriptor
build_key_element_descriptor (descriptor d) =
    if is_empty d.kind && (is_empty d.role && is_empty d.element_text) then none else some d
build_key_element_descriptor (mapping kind role element_text) =
    let d = new_descriptor kind role element_text in
    if is_empty d.kind && (is_empty d.role && is_empty d.element_text) then none else some d

unfoldable pub built_descriptors : List KeyElementInput → List KeyElementDescriptor
built_descriptors [] = []
built_descriptors (x ∷ xs) = elim (build_key_element_descriptor x) [
  | none ↦ built_descriptors xs
  | some d ↦ d ∷ built_descriptors xs
]

-- tuple(sorted(set(…)))
unfoldable pub normalize_key_elements : List KeyElementInput → List KeyElementDescriptor
unfolding built_descriptors
normalize_key_elements elements = sort descriptor_leb (dedupe (built_descriptors elements))

pub record PageSemanticFingerprint : Type 0 where
  pub route_path : Text
  pub page_title : Text
  pub menu_chain : List Text
  pub key_elements : List KeyElementDescriptor

abbrev pub fingerprint_beq : PageSemanticFingerprint → PageSemanticFingerprint → Bool
fingerprint_beq a b =
    a.route_path == b.route_path
    && (a.page_title == b.page_title
        && (a.menu_chain == b.menu_chain && a.key_elements == b.key_elements))

pub fingerprint_beq_iff : (a b : PageSemanticFingerprint) → (fingerprint_beq a b ≡ true) ↔ (a ≡ b)
fingerprint_beq_iff a b = (
  λ h. ground (arith, routes, titles, chains, elements),
  λ h. ground (arith, routes, titles, chains, elements),
)
  where
    routes : (a.route_path == b.route_path ≡ true) ↔ (a.route_path ≡ b.route_path)
    routes = text_beq_iff a.route_path b.route_path

    titles : (a.page_title == b.page_title ≡ true) ↔ (a.page_title ≡ b.page_title)
    titles = text_beq_iff a.page_title b.page_title

    chains : (a.menu_chain == b.menu_chain ≡ true) ↔ (a.menu_chain ≡ b.menu_chain)
    chains = list_beq_iff a.menu_chain b.menu_chain

    elements : (a.key_elements == b.key_elements ≡ true) ↔ (a.key_elements ≡ b.key_elements)
    elements = list_beq_iff a.key_elements b.key_elements

instance abbrev pub fingerprint_eq : Eq PageSemanticFingerprint
fingerprint_eq = record { equal = fingerprint_beq; equal_iff = fingerprint_beq_iff }

-- __init__
unfoldable pub new_fingerprint :
    Value → Value → List Value → List KeyElementInput → PageSemanticFingerprint
unfolding normalize_key_elements
new_fingerprint route_path page_title menu_chain key_elements = record {
  route_path = normalize_text route_path;
  page_title = normalize_text page_title;
  menu_chain = filter (λ label. not (is_empty label)) (map normalize_text menu_chain);
  key_elements = normalize_key_elements key_elements;
}
