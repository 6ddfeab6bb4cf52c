-- ===== src/Crawler/Navigation/Budgets.antt =====
-- The budgets of the registry: what the counters count, and that no sequence of calls passes a bound.
use runlet.Prelude.{
  ℕ, ◌+◌, ◌≤◌, Bool, true, ◌≡◌, refl, ap, ◌∙◌, Option, none, some, List, [], ◌∷◌, ◌++◌, map, Text,
  text, text_beq_iff, if◌then◌else◌, ◌==◌, nat_eq, nat_beq_iff, list_eq, option_eq, filter,
  filter-append, length, length-append, contains, distinct, Dict, lookup, lookup-insert, is_some,
  arith, Bool-cases, inl, inr,
}
use runlet.Crawler.Navigation.Targets.{NavigationTarget}
use runlet.Crawler.Navigation.Merge.{
  dedupe_key, merge_from, mark_queued, mark_blocked, mark_duplicate,
}
use runlet.Crawler.Navigation.Registry.{
  Store, set_target, NavigationTargetRegistry, count_at, count_one, count_optional, merge_duplicate,
}

-- What the registry counts of a target. No merge and no mark changes it.
pub record Shape : Type 0 where
  pub key : Text
  pub route_hint : Option Text
  pub target_kind : Text
  pub parent_target_key : Option Text

abbrev pub shape : NavigationTarget → Shape
shape target = record {
  key = dedupe_key target;
  route_hint = target.route_hint;
  target_kind = target.target_kind;
  parent_target_key = target.parent_target_key;
}

abbrev pub shapes : Store → List ℕ → List Shape
shapes store refs = map (λ ref. shape (store ref)) refs

abbrev pub count : (Shape → Bool) → List Shape → ℕ
count p xs = length (filter p xs)

abbrev pub has_route : Text → Shape → Bool
has_route q s = s.route_hint == some q

abbrev pub has_kind : Text → Shape → Bool
has_kind q s = s.target_kind == q

abbrev pub has_parent : Text → Shape → Bool
has_parent q s = s.parent_target_key == some q

-- No bound is passed by the targets themselves, and no key stands twice.
pub record IsWithinBudgets (r : NavigationTargetRegistry) (xs : List Shape) : Type 0 where
  pub total : length xs ≤ r.max_total_targets
  pub route : (q : Text) → count (has_route q) xs ≤ r.max_targets_per_route
  pub kind : (q : Text) → count (has_kind q) xs ≤ r.max_targets_per_kind
  pub parent : (q : Text) → count (has_parent q) xs ≤ r.max_children_per_parent
  pub unique : distinct (map (λ (s : Shape). s.key) xs) ≡ true

-- The counters and the index say what the targets are.
pub record IsCounted (r : NavigationTargetRegistry) (xs : List Shape) : Type 0 where
  pub total : length r.targets ≡ length xs
  pub route : (q : Text) → count_at q r.targets_by_route ≡ count (has_route q) xs
  pub kind : (q : Text) → count_at q r.targets_by_kind ≡ count (has_kind q) xs
  pub parent : (q : Text) → count_at q r.targets_by_parent ≡ count (has_parent q) xs
  pub key :
      (q : Text) → is_some (lookup q r.targets_by_key) ≡ contains q (map (λ (s : Shape). s.key) xs)

pub record IsConsistent (r : NavigationTargetRegistry) (store : Store) : Type 0 where
  pub counted : IsCounted r (shapes store r.targets)
  pub within : IsWithinBudgets r (shapes store r.targets)

-- The shape of every object is kept.
abbrev pub KeepsShape : Store → Store → Type 0
KeepsShape store store' = (ref : ℕ) → shape (store' ref) ≡ shape (store ref)

pub shapes-KeepsShape :
    (store store' : Store) (refs : List ℕ)
    → KeepsShape store store'
    → shapes store' refs ≡ shapes store refs
shapes-KeepsShape store store' [] h = refl
shapes-KeepsShape store store' (ref ∷ refs) h =
    rw (h ref, shapes-KeepsShape store store' refs h) refl

set_target-KeepsShape :
    (ref : ℕ) (target : NavigationTarget) (store : Store)
    → shape target ≡ shape (store ref)
    → KeepsShape store (set_target ref target store)
unfolding set_target
set_target-KeepsShape ref target store h other = elim (Bool-cases (other == ref)) [
  | inl e ↦ rw (e, (nat_beq_iff other ref).0 e) h
  | inr e ↦ rw e refl
]

merge_from-shape :
    (target other : NavigationTarget) → shape (merge_from target other) ≡ shape target
unfolding merge_from dedupe_key
merge_from-shape target other = refl

pub merge_duplicate-KeepsShape :
    (store : Store) (existing ref : ℕ) → KeepsShape store (merge_duplicate store existing ref)
unfolding dedupe_key
merge_duplicate-KeepsShape store existing ref other =
    let merged = set_target existing (merge_from (store existing) (store ref)) store in
    set_target-KeepsShape ref (mark_duplicate (text "duplicate_target") (merged ref)) merged refl
      other
    ∙ set_target-KeepsShape existing (merge_from (store existing) (store ref)) store
        (merge_from-shape (store existing) (store ref)) other

pub mark_queued-KeepsShape :
    (store : Store) (ref : ℕ) → KeepsShape store (set_target ref (mark_queued (store ref)) store)
unfolding dedupe_key
mark_queued-KeepsShape store ref = set_target-KeepsShape ref (mark_queued (store ref)) store refl

pub mark_blocked-KeepsShape :
    (reason : Text) (store : Store) (ref : ℕ)
    → KeepsShape store (set_target ref (mark_blocked reason (store ref)) store)
unfolding dedupe_key
mark_blocked-KeepsShape reason store ref =
    set_target-KeepsShape ref (mark_blocked reason (store ref)) store refl

pub count-append_one :
    (p : Shape → Bool) (xs : List Shape) (s : Shape)
    → count p (xs ++ s ∷ []) ≡ count p xs + (if p s then 1 else 0)
unfolding filter
count-append_one p xs s =
    ap length (filter-append p xs (s ∷ []))
    ∙ ground (arith, length-append (filter p xs) (filter p (s ∷ [])))

pub count_at-count_one :
    (key q : Text) (counts : Dict Text ℕ)
    → count_at q (count_one key counts) ≡ count_at q counts + (if key == q then 1 else 0)
count_at-count_one key q counts =
    ground (arith, text_beq_iff key q, lookup-insert key q (count_at key counts + 1) counts)

pub count_at-count_optional :
    (key : Option Text) (q : Text) (counts : Dict Text ℕ)
    → count_at q (count_optional key counts) ≡ count_at q counts + (if key == some q then 1 else 0)
count_at-count_optional none q counts = omega arith
count_at-count_optional (some key) q counts = count_at-count_one key q counts
