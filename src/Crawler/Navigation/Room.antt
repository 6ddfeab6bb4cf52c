-- ===== src/Crawler/Navigation/Room.antt =====
-- When none of the budgets of the registry stops a target: there is room for one more.
use runlet.Prelude.{
  ℕ, ◌<◌, Bool, false, ◌≡◌, ◌↔◌, refl, Option, none, some, List, Text, if◌then◌else◌, leb, nat_eq,
  list_eq, option_eq, length, Dict, arith,
}
use runlet.Crawler.Navigation.Targets.{NavigationTarget}
use runlet.Crawler.Navigation.Registry.{
  NavigationTargetRegistry, count_at, reaches, budget_rejection_reason,
}
use runlet.Crawler.Navigation.Budgets.{
  Shape, shape, count, has_route, has_kind, has_parent, IsCounted,
}

-- There is room for one more item of the shape.
pub record HasRoom (r : NavigationTargetRegistry) (xs : List Shape) (s : Shape) : Type 0 where
  pub total : length xs < r.max_total_targets
  pub route : (q : Text) → s.route_hint ≡ some q → count (has_route q) xs < r.max_targets_per_route
  pub kind : count (has_kind s.target_kind) xs < r.max_targets_per_kind
  pub parent :
      (q : Text)
      → s.parent_target_key ≡ some q
      → count (has_parent q) xs < r.max_children_per_parent

reaches_iff :
    (key : Option Text) (counts : Dict Text ℕ) (bound : ℕ)
    → (reaches key counts bound ≡ false) ↔ ((q : Text) → key ≡ some q → count_at q counts < bound)
reaches_iff none counts bound = (λ h q e. absurd (cc), λ h. refl)
reaches_iff (some key) counts bound =
    (λ h q e. ground (arith, h, e), λ h. ground (arith, h key refl))

-- A chain of four guards lets through what none of them stops.
four_guards :
    (a b c d : Bool) (w x y z : Text)
    → ((if a
          then some w
          else if b
          then some x
          else if c
          then some y
          else if d
          then some z
          else none)
        ≡ none)
      ↔ ((a ≡ false) × (b ≡ false) × (c ≡ false) × (d ≡ false))
four_guards a b c d w x y z = (
  λ h. (ground (arith, h), ground (arith, h), ground (arith, h), ground (arith, h)),
  λ h. ground (arith, h.0, h.1, h.2, h.3),
)

module _ (r : NavigationTargetRegistry) (xs : List Shape) (target : NavigationTarget)
    (c : IsCounted r xs) where
  abbrev guards : (budget_rejection_reason r target ≡ none) ↔ (
      (leb r.max_total_targets (length r.targets) ≡ false)
      × (reaches target.route_hint r.targets_by_route r.max_targets_per_route ≡ false)
      × (leb r.max_targets_per_kind (count_at target.target_kind r.targets_by_kind) ≡ false)
      × (reaches target.parent_target_key r.targets_by_parent r.max_children_per_parent ≡ false))
  unfolding budget_rejection_reason
  guards = four_guards _ _ _ _ _ _ _ _

  pub room_of_none : budget_rejection_reason r target ≡ none → HasRoom r xs (shape target)
  room_of_none h =
      let open_guards = guards.0 h in
      record {
        total = ground (arith, open_guards.0, c.total);
        route = λ q e. ground (
          arith,
          c.route q,
          (reaches_iff target.route_hint r.targets_by_route r.max_targets_per_route).0 open_guards.1
              q e,
        );
        kind = ground (arith, open_guards.2, c.kind target.target_kind);
        parent = λ q e. ground (
          arith,
          c.parent q,
          (reaches_iff target.parent_target_key r.targets_by_parent r.max_children_per_parent).0
              open_guards.3 q e,
        );
      }

  pub none_of_room : HasRoom r xs (shape target) → budget_rejection_reason r target ≡ none
  none_of_room h = guards.1 (
    ground (arith, h.total, c.total),
    (reaches_iff target.route_hint r.targets_by_route r.max_targets_per_route).1
        (λ q e. ground (arith, c.route q, h.route q e)),
    ground (arith, h.kind, c.kind target.target_kind),
    (reaches_iff target.parent_target_key r.targets_by_parent r.max_children_per_parent).1
        (λ q e. ground (arith, c.parent q, h.parent q e)),
  )
