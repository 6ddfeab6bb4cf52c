-- ===== src/Assets/Fingerprints/Hashes.antt =====
-- The hashes of build_page_fingerprint, of the normalised page, menus and elements.
use runlet.Prelude.{List, [], ◌∷◌, map, Text, text, nat_eq, list_eq, sort, Value}
use runlet.Prelude.Values.{str, field_of, new_dict, new_list}
use runlet.Prelude.Json.{dumps_compact}
use runlet.Assets.Fingerprints.Compare.{Fingerprint}
use runlet.Assets.Fingerprints.Build.{
  PageText, normalize_page, MenuText, normalize_menus, ElementText, read_elements, items_of,
  texts_leb, legacy_elements_projection, page_value, menu_value,
}

abbrev pub element_value : ElementText → Value
element_value e = new_dict (
    (text "element_type", str e.element_type)
    ∷ (text "element_role", str e.element_role)
    ∷ (text "element_text", str e.element_text)
    ∷ (text "playwright_locator", str e.playwright_locator)
    ∷ (text "state_signature", str e.state_signature)
    ∷ (text "usage_description", str e.usage_description)
    ∷ (text "attributes", e.attributes)
    ∷ (text "locator_bundle_summary", e.locator_bundle_summary)
    ∷ [])

abbrev pub legacy_value : ElementText → Value
legacy_value e = new_dict (
    (text "element_type", str e.element_type)
    ∷ (text "element_role", str e.element_role)
    ∷ (text "element_text", str e.element_text)
    ∷ (text "playwright_locator", str e.playwright_locator)
    ∷ (text "usage_description", str e.usage_description)
    ∷ (text "attributes", e.attributes)
    ∷ [])

-- The part of an element that its key locators are.
abbrev pub locator_value : ElementText → Value
locator_value e = new_dict (
    (text "element_type", str e.element_type)
    ∷ (text "element_role", str e.element_role)
    ∷ (text "state_signature", str e.state_signature)
    ∷ (text "locator_bundle_summary", e.locator_bundle_summary)
    ∷ (text "attributes", e.attributes)
    ∷ [])

abbrev pub legacy_locator_value : ElementText → Value
legacy_locator_value e = new_dict (
    (text "element_type", str e.element_type)
    ∷ (text "element_role", str e.element_role)
    ∷ (text "playwright_locator", str e.playwright_locator)
    ∷ (text "attributes", e.attributes)
    ∷ [])

abbrev pub structure_value : PageText → List MenuText → List Value → Value
structure_value page menus elements = new_dict (
    (text "page", page_value page)
    ∷ (text "menus", new_list (map menu_value menus))
    ∷ (text "elements", new_list elements)
    ∷ [])

module _ (sha256_hex : Text → Text) where
  unfoldable pub stable_hash : Value → Text
  unfolding dumps_compact
  stable_hash value = sha256_hex (dumps_compact value)

  abbrev pub element_key : ElementText → List Text
  element_key e =
      e.element_type
      ∷ e.element_role
      ∷ e.element_text
      ∷ e.state_signature
      ∷ stable_hash e.locator_bundle_summary
      ∷ []

  unfoldable pub normalize_elements : Value → List ElementText
  unfolding read_elements stable_hash
  normalize_elements elements =
      sort (λ a b. texts_leb (element_key a) (element_key b)) (read_elements (items_of elements))

  -- The six hashes of the normalised parts.
  unfoldable pub hash_parts : PageText → List MenuText → List ElementText → Fingerprint
  unfolding stable_hash legacy_elements_projection
  hash_parts page menus elements =
      let legacy = legacy_elements_projection elements in
      (
        text "navigation_hash",
        str (
            stable_hash (
              new_dict (
                (
                  text "page",
                  new_dict (
                      (text "route_path", str page.route_path)
                      ∷ (text "page_title", str page.page_title)
                      ∷ []),
                )
                ∷ (text "menus", new_list (map menu_value menus))
                ∷ []))),
      )
      ∷ (text "key_locator_hash", str (stable_hash (new_list (map locator_value elements))))
      ∷ (
        text "semantic_summary_hash",
        str (
            stable_hash (
              new_dict (
                (text "page_title", str page.page_title)
                ∷ (text "page_summary", str page.page_summary)
                ∷ (
                  text "usage_descriptions",
                  new_list (map (λ (e : ElementText). str e.usage_description) elements),
                )
                ∷ (text "texts", new_list (map (λ (e : ElementText). str e.element_text) elements))
                ∷ []))),
      )
      ∷ (
        text "structure_hash",
        str (stable_hash (structure_value page menus (map element_value elements))),
      )
      ∷ (
        text "legacy_key_locator_hash",
        str (stable_hash (new_list (map legacy_locator_value legacy))),
      )
      ∷ (
        text "legacy_structure_hash",
        str (stable_hash (structure_value page menus (map legacy_value legacy))),
      )
      ∷ []

  unfoldable pub build_page_fingerprint : Value → Fingerprint
  unfolding normalize_page normalize_menus normalize_elements hash_parts
  build_page_fingerprint page_payload =
      hash_parts (normalize_page (field_of (text "page") page_payload))
        (normalize_menus (field_of (text "menus") page_payload))
        (normalize_elements (field_of (text "elements") page_payload))
