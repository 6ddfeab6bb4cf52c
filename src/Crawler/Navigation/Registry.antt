-- ===== src/Crawler/Navigation/Registry.antt =====
-- NavigationTargetRegistry of navigation_targets.py. The targets are mutable objects, which the
-- registry, its index and the callers share: a store maps the references to them.
use runlet.Prelude.{
  ℕ, ◌+◌, max, Bool, true, false, Option, none, some, List, [], ◌∷◌, ◌++◌, Text, text,
  if◌then◌else◌, leb, ◌==◌, nat_eq, list_eq, length, Dict, lookup, insert, get_or,
}
use runlet.Prelude.Values.{ℤ, pos, negsuc}
use runlet.Crawler.Navigation.Targets.{NavigationTarget}
use runlet.Crawler.Navigation.Merge.{
  dedupe_key, merge_from, mark_queued, mark_duplicate, mark_blocked,
}

abbrev pub Store : Type 0
Store = ℕ → NavigationTarget

-- One object is replaced.
unfoldable pub set_target : ℕ → NavigationTarget → Store → Store
set_target ref target store other = if other == ref then target else store other

pub record NavigationTargetRegistry : Type 0 where
  pub max_total_targets : ℕ
  pub max_targets_per_route : ℕ
  pub max_targets_per_kind : ℕ
  pub max_children_per_parent : ℕ
  pub targets : List ℕ
  pub rejected_targets : List ℕ
  pub targets_by_key : Dict Text ℕ
  pub targets_by_route : Dict Text ℕ
  pub targets_by_kind : Dict Text ℕ
  pub targets_by_parent : Dict Text ℕ

-- max(1, n)
abbrev pub at_least_one : ℤ → ℕ
at_least_one (pos n) = max 1 n
at_least_one (negsuc n) = 1

unfoldable pub new_registry : ℤ → ℤ → ℤ → ℤ → NavigationTargetRegistry
new_registry total per_route per_kind per_parent = record {
  max_total_targets = at_least_one total;
  max_targets_per_route = at_least_one per_route;
  max_targets_per_kind = at_least_one per_kind;
  max_children_per_parent = at_least_one per_parent;
  targets = [];
  rejected_targets = [];
  targets_by_key = [];
  targets_by_route = [];
  targets_by_kind = [];
  targets_by_parent = [];
}

pub record NavigationTargetDecision : Type 0 where
  pub accepted : Bool
  pub target : ℕ
  pub reason : Option Text

-- counts.get(key, 0)
abbrev pub count_at : Text → Dict Text ℕ → ℕ
count_at key counts = get_or 0 (lookup key counts)

-- A key that may be None has no budget.
abbrev pub reaches : Option Text → Dict Text ℕ → ℕ → Bool
reaches none counts bound = false
reaches (some key) counts bound = leb bound (count_at key counts)

unfoldable pub budget_rejection_reason : NavigationTargetRegistry → NavigationTarget → Option Text
unfolding lookup
budget_rejection_reason r target =
    if leb r.max_total_targets (length r.targets)
    then some (text "total_budget_exhausted")
    else if reaches target.route_hint r.targets_by_route r.max_targets_per_route
    then some (text "route_budget_exhausted")
    else if leb r.max_targets_per_kind (count_at target.target_kind r.targets_by_kind)
    then some (text "kind_budget_exhausted")
    else if reaches target.parent_target_key r.targets_by_parent r.max_children_per_parent
    then some (text "parent_budget_exhausted")
    else none

-- counts[key] = counts.get(key, 0) + 1
abbrev pub count_one : Text → Dict Text ℕ → Dict Text ℕ
count_one key counts = insert key (count_at key counts + 1) counts

abbrev pub count_optional : Option Text → Dict Text ℕ → Dict Text ℕ
count_optional none counts = counts
count_optional (some key) counts = count_one key counts

-- The registry and the store after a call, and its result.
abbrev pub Added : Type 0
Added = NavigationTargetDecision × NavigationTargetRegistry × Store

abbrev pub reject : NavigationTargetRegistry → ℕ → NavigationTargetRegistry
reject r ref = record r { rejected_targets = r.rejected_targets ++ ref ∷ [] }

abbrev pub accept : NavigationTargetRegistry → Store → ℕ → NavigationTargetRegistry
accept r store ref = record r {
  targets = r.targets ++ ref ∷ [];
  targets_by_key = insert (dedupe_key (store ref)) ref r.targets_by_key;
  targets_by_route = count_optional (store ref).route_hint r.targets_by_route;
  targets_by_kind = count_one (store ref).target_kind r.targets_by_kind;
  targets_by_parent = count_optional (store ref).parent_target_key r.targets_by_parent;
}

-- A target that is there is merged with the new one, whose mark is written after.
abbrev pub merge_duplicate : Store → ℕ → ℕ → Store
merge_duplicate store existing ref =
    let merged = set_target existing (merge_from (store existing) (store ref)) store in
    set_target ref (mark_duplicate (text "duplicate_target") (merged ref)) merged

abbrev pub add_new : NavigationTargetRegistry → Store → ℕ → Option Text → Added
add_new r store ref none = (
  record { accepted = true; target = ref; reason = none },
  accept r store ref,
  set_target ref (mark_queued (store ref)) store,
)
add_new r store ref (some reason) = (
  record { accepted = false; target = ref; reason = some reason },
  reject r ref,
  set_target ref (mark_blocked reason (store ref)) store,
)

abbrev pub add_found : NavigationTargetRegistry → Store → ℕ → Option ℕ → Added
add_found r store ref none = add_new r store ref (budget_rejection_reason r (store ref))
add_found r store ref (some existing) = (
  record { accepted = false; target = ref; reason = some (text "duplicate_target") },
  reject r ref,
  merge_duplicate store existing ref,
)

unfoldable pub add : NavigationTargetRegistry → Store → ℕ → Added
unfolding lookup insert dedupe_key merge_from set_target budget_rejection_reason
add r store ref = add_found r store ref (lookup (dedupe_key (store ref)) r.targets_by_key)

-- The accepted targets, in order.
unfoldable pub extend :
    NavigationTargetRegistry → Store → List ℕ → List ℕ × NavigationTargetRegistry × Store
unfolding add
extend r store [] = ([], r, store)
extend r store (ref ∷ refs) =
    let (decision, r', store') = add r store ref in
    let (accepted, r'', store'') = extend r' store' refs in
    (if decision.accepted then decision.target ∷ accepted else accepted, r'', store'')
