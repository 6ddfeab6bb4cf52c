-- ===== src/Crawler/Navigation/Admission.antt =====
-- Which targets the registry admits, and that its budgets hold after any calls.
use runlet.Prelude.{
  distinct-append_one, ℕ, false, ◌≡◌, refl, sym, ap, ◌∙◌, Option, none, some, List, [], ◌∷◌, ◌++◌,
  map, Text, text_beq_iff, nat_eq, list_eq, option_eq, option_beq_iff, length-append, contains,
  contains-append, lookup, lookup-insert, is_some, arith,
}
use mathlib.Core.Path.{subst}
use mathlib.Core.List.{map-append}
use runlet.Crawler.Navigation.Merge.{dedupe_key}
use runlet.Crawler.Navigation.Registry.{
  Store, NavigationTargetRegistry, budget_rejection_reason, accept, reject, add_new, add_found,
}
use runlet.Crawler.Navigation.Budgets.{
  Shape, shape, shapes, has_route, has_kind, has_parent, IsWithinBudgets, IsCounted, IsConsistent,
  shapes-KeepsShape, merge_duplicate-KeepsShape, mark_queued-KeepsShape, mark_blocked-KeepsShape,
  count-append_one, count_at-count_one, count_at-count_optional,
}
use runlet.Crawler.Navigation.Room.{HasRoom, room_of_none}

-- The registry after an accepted target counts it.
accept-IsCounted :
    (r : NavigationTargetRegistry) (store : Store) (ref : ℕ) (xs : List Shape)
    → IsCounted r xs
    → IsCounted (accept r store ref) (xs ++ shape (store ref) ∷ [])
unfolding contains
accept-IsCounted r store ref xs c =
    let s = shape (store ref) in
    record {
      total =
          ground (arith, length-append r.targets (ref ∷ []), length-append xs (s ∷ []), c.total);
      route = λ q.
          count_at-count_optional s.route_hint q r.targets_by_route
          ∙ ground (arith, c.route q, count-append_one (has_route q) xs s);
      kind = λ q.
          count_at-count_one s.target_kind q r.targets_by_kind
          ∙ ground (arith, c.kind q, count-append_one (has_kind q) xs s);
      parent = λ q.
          count_at-count_optional s.parent_target_key q r.targets_by_parent
          ∙ ground (arith, c.parent q, count-append_one (has_parent q) xs s);
      key = λ q.
          let keys = map (λ (x : Shape). x.key) xs in
          ap is_some (lookup-insert s.key q ref r.targets_by_key)
          ∙ rw (map-append (λ (x : Shape). x.key) xs (s ∷ []), contains-append q keys (s.key ∷ []))
              (ground (arith, c.key q, text_beq_iff s.key q, text_beq_iff q s.key));
    }

accept-IsWithinBudgets :
    (r : NavigationTargetRegistry) (store : Store) (ref : ℕ) (xs : List Shape)
    → HasRoom r xs (shape (store ref))
    → contains (dedupe_key (store ref)) (map (λ (x : Shape). x.key) xs) ≡ false
    → IsWithinBudgets r xs
    → IsWithinBudgets (accept r store ref) (xs ++ shape (store ref) ∷ [])
accept-IsWithinBudgets r store ref xs room fresh w =
    let s = shape (store ref) in
    record {
      total = ground (arith, length-append xs (s ∷ []), room.total);
      route = λ q. ground (
        arith,
        count-append_one (has_route q) xs s,
        w.route q,
        room.route q,
        option_beq_iff s.route_hint (some q),
      );
      kind = λ q. ground (
        arith,
        count-append_one (has_kind q) xs s,
        w.kind q,
        room.kind,
        text_beq_iff s.target_kind q,
      );
      parent = λ q. ground (
        arith,
        count-append_one (has_parent q) xs s,
        w.parent q,
        room.parent q,
        option_beq_iff s.parent_target_key (some q),
      );
      unique =
          rw (map-append (λ (x : Shape). x.key) xs (s ∷ []))
            (distinct-append_one s.key (map (λ (x : Shape). x.key) xs) fresh w.unique);
    }

shapes-append_one :
    (store : Store) (refs : List ℕ) (ref : ℕ)
    → shapes store (refs ++ ref ∷ []) ≡ shapes store refs ++ shape (store ref) ∷ []
shapes-append_one store refs ref = map-append (λ t. shape (store t)) refs (ref ∷ [])

-- A change of the store that keeps the shapes keeps the counts.
reshape :
    (r : NavigationTargetRegistry) (xs : List Shape) (store : Store)
    → shapes store r.targets ≡ xs
    → IsCounted r xs
    → IsWithinBudgets r xs
    → IsConsistent r store
reshape r xs store e c w = record {
  counted = subst (λ (ys : List Shape). IsCounted r ys) (sym e) c;
  within = subst (λ (ys : List Shape). IsWithinBudgets r ys) (sym e) w;
}

reject-IsConsistent :
    (r : NavigationTargetRegistry) (ref : ℕ) (store store' : Store)
    → shapes store' r.targets ≡ shapes store r.targets
    → IsConsistent r store
    → IsConsistent (reject r ref) store'
reject-IsConsistent r ref store store' e h =
    reshape (reject r ref) (shapes store r.targets) store' e
      (record {
        total = h.counted.total;
        route = h.counted.route;
        kind = h.counted.kind;
        parent = h.counted.parent;
        key = h.counted.key;
      })
      (record {
        total = h.within.total;
        route = h.within.route;
        kind = h.within.kind;
        parent = h.within.parent;
        unique = h.within.unique;
      })

pub absent_key :
    (r : NavigationTargetRegistry) (xs : List Shape) (q : Text)
    → IsCounted r xs
    → lookup q r.targets_by_key ≡ none
    → contains q (map (λ (x : Shape). x.key) xs) ≡ false
absent_key r xs q c e = sym (c.key q) ∙ ap is_some e

pub add_found-IsConsistent :
    (r : NavigationTargetRegistry) (store : Store) (ref : ℕ) (found : Option ℕ)
    → lookup (dedupe_key (store ref)) r.targets_by_key ≡ found
    → IsConsistent r store
    → let (decision, r', store') = add_found r store ref found in IsConsistent r' store'
add_found-IsConsistent r store ref (some existing) e h =
    reject-IsConsistent r ref store _
      (shapes-KeepsShape store _ r.targets (merge_duplicate-KeepsShape store existing ref)) h
add_found-IsConsistent r store ref none e h = go (budget_rejection_reason r (store ref)) refl
  where
    go :
        (reason : Option Text)
        → budget_rejection_reason r (store ref) ≡ reason
        → let (decision, r', store') = add_new r store ref reason in IsConsistent r' store'
    go (some reason) k =
        reject-IsConsistent r ref store _
          (shapes-KeepsShape store _ r.targets (mark_blocked-KeepsShape reason store ref)) h
    go none k =
        let xs = shapes store r.targets in
        let room = room_of_none r xs (store ref) h.counted k in
        reshape (accept r store ref) (xs ++ shape (store ref) ∷ []) _
          (shapes-KeepsShape store _ (r.targets ++ ref ∷ []) (mark_queued-KeepsShape store ref)
            ∙ shapes-append_one store r.targets ref)
          (accept-IsCounted r store ref xs h.counted)
          (accept-IsWithinBudgets r store ref xs room (absent_key r xs _ h.counted e) h.within)
