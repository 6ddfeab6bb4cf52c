-- ===== src/Assets/Plans/Selected.antt =====
-- Which check is selected for a code: the first one of another state than the default, else the first.
use runlet.Prelude.{
  true, false, not, ◌≡◌, refl, sym, ap, ◌∙◌, Option, none, some, List, [], ◌∷◌, Text, if◌then◌else◌,
  ◌==◌, nat_eq, list_eq, list_beq_iff, filter, first, Dict, lookup, lookup-insert, Bool-cases, inl,
  inr,
}
use runlet.Assets.Plans.Checks.{
  StandardCheckDefinition, is_default, prefer_new_check, select_one, select_checks,
}

abbrev pub or_first :
    Option StandardCheckDefinition → Option StandardCheckDefinition → Option StandardCheckDefinition
or_first none other = other
or_first (some c) other = some c

abbrev pub of_code : Text → List StandardCheckDefinition → List StandardCheckDefinition
of_code code cs = filter (λ (c : StandardCheckDefinition). c.check_code == code) cs

module _ (default : Option Text) where
  -- The loop for one code: what is selected so far, and the checks of the code that follow.
  pick :
      Option StandardCheckDefinition → List StandardCheckDefinition → Option StandardCheckDefinition
  pick none [] = none
  pick (some c) [] = some c
  pick none (c ∷ cs) = pick (some c) cs
  pick (some existing) (c ∷ cs) =
      pick (some (if prefer_new_check default existing c then c else existing)) cs

  -- The first check of another state than the default one, else the first.
  abbrev pub preferred : List StandardCheckDefinition → Option StandardCheckDefinition
  preferred cs = or_first (first (filter (λ c. not (is_default default c)) cs)) (first cs)

  pick-other :
      (c : StandardCheckDefinition) (cs : List StandardCheckDefinition)
      → is_default default c ≡ false
      → pick (some c) cs ≡ some c
  unfolding pick prefer_new_check
  pick-other c [] h = refl
  pick-other c (d ∷ cs) h = rw h (pick-other c cs h)

  pick-default :
      (c : StandardCheckDefinition) (cs : List StandardCheckDefinition)
      → is_default default c ≡ true
      → pick (some c) cs ≡ or_first (first (filter (λ d. not (is_default default d)) cs)) (some c)
  unfolding pick prefer_new_check filter
  pick-default c [] h = refl
  pick-default c (d ∷ cs) h = elim (Bool-cases (is_default default d)) [
    | inl e ↦ rw (h, e) (pick-default c cs h)
    | inr e ↦ rw (h, e) (pick-other d cs e)
  ]

  pick-preferred : (cs : List StandardCheckDefinition) → pick none cs ≡ preferred cs
  unfolding pick filter
  pick-preferred [] = refl
  pick-preferred (c ∷ cs) = elim (Bool-cases (is_default default c)) [
    | inl e ↦ rw e (pick-default c cs e)
    | inr e ↦ rw e (pick-other c cs e)
  ]

  abbrev next_pick :
      Option StandardCheckDefinition → StandardCheckDefinition → Option StandardCheckDefinition
  next_pick none c = some c
  next_pick (some existing) c = some (if prefer_new_check default existing c then c else existing)

  pick-nil : (o : Option StandardCheckDefinition) → o ≡ pick o []
  unfolding pick
  pick-nil none = refl
  pick-nil (some c) = refl

  pick-cons :
      (o : Option StandardCheckDefinition) (c : StandardCheckDefinition)
      (cs : List StandardCheckDefinition)
      → pick (next_pick o c) cs ≡ pick o (c ∷ cs)
  unfolding pick
  pick-cons none c cs = refl
  pick-cons (some existing) c cs = refl

  lookup-select_one :
      (code : Text) (selected : Dict Text StandardCheckDefinition) (c : StandardCheckDefinition)
      (o : Option StandardCheckDefinition)
      → lookup c.check_code selected ≡ o
      → lookup code (select_one default selected c o)
        ≡ (if c.check_code == code then next_pick o c else lookup code selected)
  lookup-select_one code selected c none e = lookup-insert c.check_code code c selected
  lookup-select_one code selected c (some existing) e =
      elim (Bool-cases (prefer_new_check default existing c)) [
        | inl better ↦ rw better (lookup-insert c.check_code code c selected)
        | inr worse ↦ rw worse (elim (Bool-cases (c.check_code == code)) [
          | inl own ↦ rw own (
              ap (λ (k : Text). lookup k selected) (sym ((list_beq_iff c.check_code code).0 own))
              ∙ e)
          | inr other ↦ rw other
        ])
      ]

  select_checks-pick :
      (code : Text) (selected : Dict Text StandardCheckDefinition)
      (cs : List StandardCheckDefinition)
      → lookup code (select_checks default selected cs)
        ≡ pick (lookup code selected) (of_code code cs)
  unfolding select_checks filter
  select_checks-pick code selected [] = pick-nil (lookup code selected)
  select_checks-pick code selected (c ∷ cs) =
      select_checks-pick code (select_one default selected c (lookup c.check_code selected)) cs
      ∙ ap (λ o. pick o (of_code code cs))
          (lookup-select_one code selected c (lookup c.check_code selected) refl)
      ∙ elim (Bool-cases (c.check_code == code)) [
        | inl own ↦
            let same : c.check_code ≡ code = (list_beq_iff c.check_code code).0 own in
            rw own (
              ap (λ (k : Text). pick (next_pick (lookup k selected) c) (of_code code cs)) same
              ∙ pick-cons (lookup code selected) c (of_code code cs))
        | inr other ↦ rw other
      ]

  -- The check that is selected for a code is the first of the given checks of that code whose state is
  -- not the default one and, if there is none, the first of that code.
  pub select_checks-preferred :
      (code : Text) (cs : List StandardCheckDefinition)
      → lookup code (select_checks default [] cs) ≡ preferred (of_code code cs)
  unfolding lookup
  select_checks-preferred code cs = select_checks-pick code [] cs ∙ pick-preferred (of_code code cs)
