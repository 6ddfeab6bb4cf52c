-- ===== src/Crawler/Navigation/Extend.antt =====
-- What calls of `add` and `extend` of the registry do, for any targets in any order.
use runlet.Prelude.{
  ℕ, true, false, ◌≡◌, ◌↔◌, ◌⊎◌, inl, inr, refl, sym, ap, ◌∙◌, Option, none, some, List, [], ◌∷◌,
  ◌++◌, map, Text, nat_eq, list_eq, filter, contains, distinct, lookup, is_some, arith,
}
use mathlib.Core.List.{append_assoc, append-nil}
use runlet.Prelude.Values.{ℤ}
use runlet.Crawler.Navigation.Merge.{dedupe_key}
use runlet.Crawler.Navigation.Registry.{
  Store, NavigationTargetRegistry, NavigationTargetDecision, new_registry, budget_rejection_reason,
  add_new, add_found, add, extend,
}
use runlet.Crawler.Navigation.Budgets.{Shape, shape, shapes, IsConsistent}
use runlet.Crawler.Navigation.Room.{HasRoom, room_of_none, none_of_room}
use runlet.Crawler.Navigation.Admission.{add_found-IsConsistent, absent_key}

pub new_registry-IsConsistent :
    (total per_route per_kind per_parent : ℤ) (store : Store)
    → IsConsistent (new_registry total per_route per_kind per_parent) store
unfolding new_registry lookup contains distinct filter
new_registry-IsConsistent total per_route per_kind per_parent store = record {
  counted = record {
    total = refl;
    route = λ q. refl;
    kind = λ q. refl;
    parent = λ q. refl;
    key = λ q. refl;
  };
  within = record {
    total = omega arith;
    route = λ q. omega arith;
    kind = λ q. omega arith;
    parent = λ q. omega arith;
    unique = refl;
  };
}

add-IsConsistent :
    (r : NavigationTargetRegistry) (store : Store) (ref : ℕ)
    → IsConsistent r store
    → let (decision, r', store') = add r store ref in IsConsistent r' store'
unfolding add
add-IsConsistent r store ref h = add_found-IsConsistent r store ref _ refl h

-- From a registry whose counters count its targets, whose targets pass no bound and have different
-- keys, any list of targets leads to such a registry. The list may name one object twice.
pub extend-IsConsistent :
    (r : NavigationTargetRegistry) (store : Store) (refs : List ℕ)
    → IsConsistent r store
    → let (accepted, r', store') = extend r store refs in IsConsistent r' store'
unfolding extend
extend-IsConsistent r store [] h = h
extend-IsConsistent r store (ref ∷ refs) h =
    let (decision, r', store') = add r store ref in
    extend-IsConsistent r' store' refs (add-IsConsistent r store ref h)

-- A consistent registry accepts a target exactly if no target of its key is there and the total, its
-- route, its kind and its parent each have room for one more.
pub add-accepts_iff :
    (r : NavigationTargetRegistry) (store : Store) (ref : ℕ)
    → IsConsistent r store
    → ((add r store ref).0.accepted ≡ true) ↔ (
        (contains (dedupe_key (store ref)) (map (λ (x : Shape). x.key) (shapes store r.targets))
          ≡ false)
        × HasRoom r (shapes store r.targets) (shape (store ref)))
unfolding add
add-accepts_iff r store ref h = go (lookup (dedupe_key (store ref)) r.targets_by_key) refl
  where
    xs : List Shape
    xs = shapes store r.targets

    fresh : Type 0
    fresh = contains (dedupe_key (store ref)) (map (λ (x : Shape). x.key) xs) ≡ false

    decided :
        (reason : Option Text)
        → budget_rejection_reason r (store ref) ≡ reason
        → fresh
        → ((add_new r store ref reason).0.accepted ≡ true)
          ↔ (fresh × HasRoom r xs (shape (store ref)))
    decided none k f = (λ e. (f, room_of_none r xs (store ref) h.counted k), λ e. refl)
    decided (some reason) k f = (
      λ e. absurd cc,
      λ e. absurd (ground (arith, k, none_of_room r xs (store ref) h.counted e.1)),
    )

    go :
        (found : Option ℕ)
        → lookup (dedupe_key (store ref)) r.targets_by_key ≡ found
        → ((add_found r store ref found).0.accepted ≡ true)
          ↔ (fresh × HasRoom r xs (shape (store ref)))
    go none e = decided (budget_rejection_reason r (store ref)) refl (absent_key r xs _ h.counted e)
    go (some existing) e = (
      λ k. absurd cc,
      λ k. absurd (ground (arith, k.0, ap is_some e, h.counted.key (dedupe_key (store ref)))),
    )

-- The target of a call was kept.
abbrev IsKept :
    NavigationTargetRegistry → ℕ → NavigationTargetDecision → NavigationTargetRegistry → Type 0
IsKept r ref decision r' =
    (decision.accepted ≡ true)
    × (decision.target ≡ ref)
    × (r'.targets ≡ r.targets ++ ref ∷ [])
    × (r'.rejected_targets ≡ r.rejected_targets)

-- The target of a call was refused.
abbrev IsRefused :
    NavigationTargetRegistry → ℕ → NavigationTargetDecision → NavigationTargetRegistry → Type 0
IsRefused r ref decision r' =
    (decision.accepted ≡ false)
    × (r'.targets ≡ r.targets)
    × (r'.rejected_targets ≡ r.rejected_targets ++ ref ∷ [])

add_found-IsKept_or_IsRefused :
    (r : NavigationTargetRegistry) (store : Store) (ref : ℕ) (found : Option ℕ)
    (reason : Option Text)
    → budget_rejection_reason r (store ref) ≡ reason
    → let (decision, r', store') = add_found r store ref found in
      IsKept r ref decision r' ⊎ IsRefused r ref decision r'
add_found-IsKept_or_IsRefused r store ref (some existing) reason e = inr (refl, refl, refl)
add_found-IsKept_or_IsRefused r store ref none none e = rw e (inl (refl, refl, refl, refl))
add_found-IsKept_or_IsRefused r store ref none (some reason) e = rw e (inr (refl, refl, refl))

-- The list is the two others put together, each in its order.
pub data Interleaves : List ℕ → List ℕ → List ℕ → Type 0 where
  neither : Interleaves [] [] []
  kept :
      (ref : ℕ) {ins outs refs : List ℕ}
      → Interleaves ins outs refs
      → Interleaves (ref ∷ ins) outs (ref ∷ refs)
  refused :
      (ref : ℕ) {ins outs refs : List ℕ}
      → Interleaves ins outs refs
      → Interleaves ins (ref ∷ outs) (ref ∷ refs)

-- The given targets are put together of those that the result gives back, which are appended to the
-- targets, and of those that are appended to the rejected targets, both in the given order: none is
-- lost, none is recorded twice, and nothing else is recorded.
pub extend-targets :
    (r : NavigationTargetRegistry) (store : Store) (refs : List ℕ)
    → let (accepted, r', store') = extend r store refs in
      (rejected : List ℕ) × (r'.targets ≡ r.targets ++ accepted)
      × (r'.rejected_targets ≡ r.rejected_targets ++ rejected)
      × Interleaves accepted rejected refs
unfolding extend add
extend-targets r store [] =
    ([], sym (append-nil r.targets), sym (append-nil r.rejected_targets), neither)
extend-targets r store (ref ∷ refs) =
    let (decision, r', store') = add r store ref in
    let (accepted, r'', store'') = extend r' store' refs in
    let (rejected, targets, refusals, split) = extend-targets r' store' refs in
    elim (add_found-IsKept_or_IsRefused r store ref
      (lookup (dedupe_key (store ref)) r.targets_by_key) _ refl) [
        | inl (is_accepted, own, grown, same) ↦
            rw (is_accepted, own)
              (
                rejected,
                targets
                    ∙ ap (λ ts. ts ++ accepted) grown
                    ∙ append_assoc r.targets (ref ∷ []) accepted,
                refusals ∙ ap (λ ts. ts ++ rejected) same,
                kept ref split,
              )
        | inr (is_rejected, same, grown) ↦ rw is_rejected (
          ref ∷ rejected,
          targets ∙ ap (λ ts. ts ++ accepted) same,
          refusals
              ∙ ap (λ ts. ts ++ rejected) grown
              ∙ append_assoc r.rejected_targets (ref ∷ []) rejected,
          refused ref split,
        )
      ]
