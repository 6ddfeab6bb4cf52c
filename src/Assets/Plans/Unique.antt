-- ===== src/Assets/Plans/Unique.antt =====
-- The standard checks of a page: one for each code.
use runlet.Prelude.{
  Bool, true, false, ◌≡◌, refl, sym, ap, ◌∙◌, Option, none, some, List, [], ◌∷◌, Text, ◌==◌, nat_eq,
  list_eq, list_beq_iff, filter, Dict, keys, values, is_some, lookup, insert, lookup-insert,
  lookup_absent, contains, contains-keys, Bool-cases, inl, inr, Value, arith,
}
use runlet.Assets.Plans.Checks.{
  StandardCheckDefinition, prefer_new_check, select_one, select_checks, candidate_checks,
  build_standard_checks,
}
use runlet.Assets.Plans.Selected.{of_code, preferred, select_checks-preferred}

-- Each check stands under its own code, and no code stands twice.
abbrev IsByCode : Dict Text StandardCheckDefinition → Type 0
IsByCode [] = Unit
IsByCode ((code, c) ∷ d) = (c.check_code ≡ code) × (contains code (keys d) ≡ false) × IsByCode d

insert-IsByCode :
    (c : StandardCheckDefinition) (d : Dict Text StandardCheckDefinition)
    → IsByCode d
    → IsByCode (insert c.check_code c d)
unfolding insert contains
insert-IsByCode c [] h = (refl, refl, tt)
insert-IsByCode c ((code, v) ∷ d) h = elim (Bool-cases (code == c.check_code)) [
  | inl e ↦ rw e (sym ((list_beq_iff code c.check_code).0 e), h.1, h.2)
  | inr e ↦
      let absent : contains code (keys (insert c.check_code c d)) ≡ false =
        contains-keys code (insert c.check_code c d)
        ∙ ap is_some (lookup-insert c.check_code code c d)
        ∙ ground (
          arith,
          e,
          h.1,
          list_beq_iff code c.check_code,
          list_beq_iff c.check_code code,
          contains-keys code d,
        ) in
      rw e (h.0, absent, insert-IsByCode c d h.2)
]

select_one-IsByCode :
    (default : Option Text) (d : Dict Text StandardCheckDefinition) (c : StandardCheckDefinition)
    (o : Option StandardCheckDefinition)
    → IsByCode d
    → IsByCode (select_one default d c o)
select_one-IsByCode default d c none h = insert-IsByCode c d h
select_one-IsByCode default d c (some existing) h =
    elim (Bool-cases (prefer_new_check default existing c)) [
      | inl e ↦ rw e (insert-IsByCode c d h)
      | inr e ↦ rw e h
    ]

select_checks-IsByCode :
    (default : Option Text) (d : Dict Text StandardCheckDefinition)
    (cs : List StandardCheckDefinition)
    → IsByCode d
    → IsByCode (select_checks default d cs)
unfolding select_checks
select_checks-IsByCode default d [] h = h
select_checks-IsByCode default d (c ∷ cs) h =
    select_checks-IsByCode default (select_one default d c (lookup c.check_code d)) cs
      (select_one-IsByCode default d c (lookup c.check_code d) h)

abbrev pub to_list : Option StandardCheckDefinition → List StandardCheckDefinition
to_list none = []
to_list (some c) = c ∷ []

of_code-values :
    (code : Text) (d : Dict Text StandardCheckDefinition)
    → IsByCode d
    → of_code code (values d) ≡ to_list (lookup code d)
unfolding filter lookup
of_code-values code [] h = refl
of_code-values code ((k, c) ∷ d) h = elim (Bool-cases (k == code)) [
  | inl e ↦
      let same : k ≡ code = (list_beq_iff k code).0 e in
      let own : c.check_code == code ≡ true = rw h.0 e in
      let none_left : lookup code d ≡ none = lookup_absent code d (rw same at h.1) in
      rw (e, own) (ap (◌∷◌ c) (of_code-values code d h.2 ∙ ap to_list none_left))
  | inr e ↦
      let other : c.check_code == code ≡ false = rw h.0 e in
      rw (e, other) (of_code-values code d h.2)
]

-- For every code, the standard checks of a page hold at most one check: the first of the candidates of
-- that code whose state is not the default one, else the first of that code; and none if there is no
-- candidate.
pub build_standard_checks-preferred :
    (page_summary : Option Text) (has_table has_create_action : Bool)
    (representative_states : List (Dict Text Value)) (default : Option Text) (code : Text)
    → of_code code (
        build_standard_checks page_summary has_table has_create_action representative_states
          default)
      ≡ to_list (
          preferred default (
            of_code code (
              candidate_checks page_summary has_table has_create_action representative_states
                default)))
unfolding build_standard_checks
build_standard_checks-preferred summary table create states default code =
    let candidates = candidate_checks summary table create states default in
    of_code-values code (select_checks default [] candidates)
      (select_checks-IsByCode default [] candidates tt)
    ∙ ap to_list (select_checks-preferred default code candidates)
