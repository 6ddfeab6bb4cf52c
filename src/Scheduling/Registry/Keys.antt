-- ===== src/Scheduling/Registry/Keys.antt =====
-- Rows found by their ids, and distinct texts for distinct ids.

use runlet.Prelude.{
  ℕ, ◌<◌, true, false, ◌≡◌, refl, sym, ap, ◌∙◌, some, List, [], ◌∷◌, map, Text, nat_eq, list_eq,
  list_beq_iff, nat_beq_iff, contains, distinct, All, arith,
}
use runlet.Scheduling.Jobs.Publish.{uuid_text}
use runlet.Scheduling.Uuids.Digits.{pow16}
use runlet.Scheduling.Uuids.RoundTrip.{parse_uuid-uuid_text}
use runlet.Scheduling.Uuids.Parse.{parse_uuid}
use runlet.Scheduling.Policies.{find_row}

-- A UUID has 128 bits.
abbrev pub IsUuid : ℕ → Type 0
IsUuid id = id < pow16 32

pub uuid_text_injective : (a b : ℕ) → IsUuid a → IsUuid b → uuid_text a ≡ uuid_text b → a ≡ b
uuid_text_injective a b h k e =
    let same : some a ≡ some b =
      sym (parse_uuid-uuid_text a h) ∙ ap parse_uuid e ∙ parse_uuid-uuid_text b k in
    cc

module _ (key : ℕ → Text) where
  abbrev pub IsInjective : Type 0
  IsInjective = (a b : ℕ) → IsUuid a → IsUuid b → key a ≡ key b → a ≡ b

  contains-map_key :
      IsInjective
      → (a : ℕ) (ids : List ℕ) → IsUuid a
      → All IsUuid ids
      → contains a ids ≡ false
      → contains (key a) (map key ids) ≡ false
  unfolding contains
  contains-map_key inj a [] h k e = refl
  contains-map_key inj a (id ∷ ids) h k e = ground (
    arith,
    inj id a k.0 h,
    inj a id h k.0,
    list_beq_iff (key a) (key id),
    list_beq_iff (key id) (key a),
    contains-map_key inj a ids h k.1,
  )

  -- Distinct UUIDs have distinct keys.
  pub distinct-map_key :
      IsInjective
      → (ids : List ℕ) → All IsUuid ids
      → distinct ids ≡ true
      → distinct (map key ids) ≡ true
  unfolding distinct contains
  distinct-map_key inj [] k e = refl
  distinct-map_key inj (id ∷ ids) k e =
      ground (arith, contains-map_key inj id ids k.0 k.1, distinct-map_key inj ids k.1)

module _ {A : Type 0} (id_of : A → ℕ) where
  abbrev pub IsFound : List A → A → Type 0
  IsFound rows row = find_row id_of (id_of row) rows ≡ some row

  IsFound-cons :
      (x : A) (rows found : List A)
      → contains (id_of x) (map id_of found) ≡ false
      → All (IsFound rows) found
      → All (IsFound (x ∷ rows)) found
  unfolding find_row contains
  IsFound-cons x rows [] h k = tt
  IsFound-cons x rows (r ∷ rs) h k = (
    ground (arith, k.0, nat_beq_iff (id_of x) (id_of r), nat_beq_iff (id_of r) (id_of x)),
    IsFound-cons x rows rs (ground arith) k.1,
  )

  -- With distinct ids, each row is found by its id.
  pub find_row_self : (rows : List A) → distinct (map id_of rows) ≡ true → All (IsFound rows) rows
  unfolding find_row distinct
  find_row_self [] h = tt
  find_row_self (x ∷ rows) h = (
    ground (arith, nat_beq_iff (id_of x) (id_of x)),
    IsFound-cons x rows rows (ground arith) (find_row_self rows (ground arith)),
  )

map-map :
    {A : Type 0} (key : ℕ → Text) (id_of : A → ℕ) (rows : List A)
    → map (λ r. key (id_of r)) rows ≡ map key (map id_of rows)
map-map key id_of [] = refl
map-map key id_of (r ∷ rows) = ap (◌∷◌ (key (id_of r))) (map-map key id_of rows)

pub distinct_keys :
    {A : Type 0} (key : ℕ → Text) (id_of : A → ℕ) (rows : List A)
    → IsInjective key
    → All IsUuid (map id_of rows)
    → distinct (map id_of rows) ≡ true
    → distinct (map (λ r. key (id_of r)) rows) ≡ true
distinct_keys key id_of rows inj h k =
    rw (map-map key id_of rows) (distinct-map_key key inj (map id_of rows) h k)
