-- ===== src/Assets/Fingerprints/Menus.antt =====
-- The order of the menus does not matter to the fingerprint of a page.
use mathlib.Core.List.{Permᴰ}
use mathlib.Core.List.Permᴰ
use runlet.Prelude.{
  ◌≡◌, refl, sym, ap, ◌∙◌, Option, none, some, List, [], ◌∷◌, arith, list_beq, lookup, Text, text,
  nat_eq, list_eq, sort, text_leb, Value,
}
use runlet.Prelude.Values.{
  from_fields, to_fields, from_items-to_items, field_of, new_dict, new_list,
}
use runlet.Prelude.Orders.{
  IsTotalOrder, lex, lex-IsTotalOrder, int_leb, int_eq, int_leb-IsTotalOrder, text_leb-IsTotalOrder,
  sort-Permᴰ,
}
use runlet.Assets.Fingerprints.Compare.{Fingerprint}
use runlet.Assets.Fingerprints.Build.{
  MenuText, menu_key, menu_leb, normalize_page, read_menu, cons_some, read_menus, normalize_menus,
}
use runlet.Assets.Fingerprints.Hashes.{hash_parts, normalize_elements, build_page_fingerprint}

menu_of_key : (a b : MenuText) → menu_key a ≡ menu_key b → a ≡ b
menu_of_key a b h = ground arith

menu_leb-IsTotalOrder : IsTotalOrder menu_leb
menu_leb-IsTotalOrder = record {
  total = λ a b. o.total (menu_key a) (menu_key b);
  trans = λ a b c. o.trans (menu_key a) (menu_key b) (menu_key c);
  antisym = λ a b h k. menu_of_key a b (o.antisym (menu_key a) (menu_key b) h k);
}
  where
    o : IsTotalOrder (lex int_leb (lex int_leb (lex text_leb text_leb)))
    o = lex-IsTotalOrder int_leb _ int_leb-IsTotalOrder (
        lex-IsTotalOrder int_leb _ int_leb-IsTotalOrder
          (lex-IsTotalOrder text_leb text_leb text_leb-IsTotalOrder text_leb-IsTotalOrder))

cons_some-Permᴰ :
    (m : Option MenuText) {xs ys : List MenuText}
    → Permᴰ xs ys
    → Permᴰ (cons_some m xs) (cons_some m ys)
cons_some-Permᴰ none p = p
cons_some-Permᴰ (some x) p = Permᴰ.cons refl p

cons_some-swap :
    (m n : Option MenuText) (xs : List MenuText)
    → Permᴰ (cons_some m (cons_some n xs)) (cons_some n (cons_some m xs))
cons_some-swap none n xs = Permᴰ.refl (cons_some n xs)
cons_some-swap (some x) none xs = Permᴰ.refl (x ∷ xs)
cons_some-swap (some x) (some y) xs = Permᴰ.swap refl refl

read_menus-Permᴰ : {xs ys : List Value} → Permᴰ xs ys → Permᴰ (read_menus xs) (read_menus ys)
unfolding read_menus
read_menus-Permᴰ Permᴰ.nil = Permᴰ.nil
read_menus-Permᴰ (Permᴰ.cons {a} {b} {l₁} {l₂} e p) =
    rw e (cons_some-Permᴰ (read_menu b) (read_menus-Permᴰ p))
read_menus-Permᴰ (Permᴰ.swap {a} {b} {a'} {b'} {l} e f) =
    rw (e, f) (cons_some-swap (read_menu b') (read_menu a') (read_menus l))
read_menus-Permᴰ (Permᴰ.trans p q) = Permᴰ.trans (read_menus-Permᴰ p) (read_menus-Permᴰ q)

normalize_menus-Permᴰ :
    {xs ys : List Value}
    → Permᴰ xs ys
    → normalize_menus (new_list xs) ≡ normalize_menus (new_list ys)
unfolding normalize_menus
normalize_menus-Permᴰ {xs} {ys} p =
    ap (λ l. sort menu_leb (read_menus l)) (from_items-to_items xs)
    ∙ sort-Permᴰ menu_leb menu_leb-IsTotalOrder (read_menus-Permᴰ p)
    ∙ ap (λ l. sort menu_leb (read_menus l)) (sym (from_items-to_items ys))

-- The payload of a page: the page, its menus and its elements.
abbrev pub payload : Value → List Value → Value → Value
payload page menus elements =
    new_dict
      ((text "page", page) ∷ (text "menus", new_list menus) ∷ (text "elements", elements) ∷ [])

fields-payload :
    (page : Value) (menus : List Value) (elements : Value)
    → (field_of (text "page") (payload page menus elements) ≡ page)
      × (field_of (text "menus") (payload page menus elements) ≡ new_list menus)
      × (field_of (text "elements") (payload page menus elements) ≡ elements)
unfolding lookup list_beq from_fields to_fields
fields-payload page menus elements = (refl, refl, refl)

build-parts :
    (sha256_hex : Text → Text) (value : Value)
    → build_page_fingerprint sha256_hex value
      ≡ hash_parts sha256_hex
          (normalize_page (field_of (text "page") value))
          (normalize_menus (field_of (text "menus") value))
          (normalize_elements sha256_hex (field_of (text "elements") value))
unfolding build_page_fingerprint
build-parts sha256_hex value = refl

build-payload :
    (sha256_hex : Text → Text) (page : Value) (menus : List Value) (elements : Value)
    → build_page_fingerprint sha256_hex (payload page menus elements)
      ≡ hash_parts sha256_hex
          (normalize_page page)
          (normalize_menus (new_list menus))
          (normalize_elements sha256_hex elements)
build-payload sha256_hex page menus elements =
    let value = payload page menus elements in
    let hashed : Value → Value → Value → Fingerprint = λ p m e.
      hash_parts sha256_hex (normalize_page p) (normalize_menus m)
        (normalize_elements sha256_hex e) in
    let fields = fields-payload page menus elements in
    build-parts sha256_hex value
    ∙ ap (λ p. hashed p (field_of (text "menus") value) (field_of (text "elements") value)) fields.0
    ∙ ap (λ m. hashed page m (field_of (text "elements") value)) fields.1
    ∙ ap (λ e. hashed page (new_list menus) e) fields.2

-- Whatever the hash function, two payloads that list the same menus in another order have the same
-- fingerprint.
pub build_page_fingerprint-Permᴰ :
    (sha256_hex : Text → Text) (page elements : Value) {menus other : List Value}
    → Permᴰ menus other
    → build_page_fingerprint sha256_hex (payload page menus elements)
      ≡ build_page_fingerprint sha256_hex (payload page other elements)
build_page_fingerprint-Permᴰ sha256_hex page elements {menus} {other} p =
    build-payload sha256_hex page menus elements
    ∙ ap
        (λ m.
          hash_parts sha256_hex (normalize_page page) m (normalize_elements sha256_hex elements))
        (normalize_menus-Permᴰ p)
    ∙ sym (build-payload sha256_hex page other elements)
