-- ===== src/Assets/Reconcile/Retired.antt =====
-- What reconcile_retirement_decisions retires, row by row.
use runlet.Prelude.{
  ℕ, Bool, true, false, ◌&&◌, ◌||◌, ◌≡◌, refl, Option, none, some, List, [], ◌∷◌, ◌++◌, Text, leb,
  ◌==◌, list_eq, nat_eq, pair_eq, contains, contains-dedupe, dedupe, Dict, lookup, get_or, holds,
  holds-append_to, lookup-append_to, append_to, Result, ok, raise, arith,
}
use runlet.Prelude.Sort.{contains-sort}
use runlet.Prelude.Values.{TypeError}
use runlet.Assets.Reconcile.Rows.{
  Reason, missing_page, reason_eq, ActivePageTruth, ActiveCheckTruth, SnapshotTruth,
  RetirementDecision,
}
use runlet.Assets.Reconcile.Gate.{QualityGateDecision}
use runlet.Assets.Reconcile.Decisions.{
  route_by_asset, checks_by_asset, missing_asset_ids, check_reason, group_checks, page_decisions,
  group_decisions, reconcile_retirement_decisions,
}

-- A decision retires the check with this asset and for this reason.
pub retires : ℕ → Reason → ℕ → List RetirementDecision → Bool
retires a r k [] = false
retires a r k (d ∷ ds) =
    (d.page_asset_id == a && d.reason == r) && contains k d.page_check_ids || retires a r k ds

abbrev pub gives : Reason → Result TypeError (Option Reason) → Bool
gives r (ok (some q)) = q == r
gives r _ = false

-- A row of this check on this asset whose round of the loop ends with the reason.
unfoldable pub blamed :
    SnapshotTruth → Dict ℕ Text → List ℕ → ℕ → Reason → ℕ → List ActiveCheckTruth → Bool
blamed truth routes missing a r k [] = false
blamed truth routes missing a r k (row ∷ rows) =
    (row.page_asset_id == a && gives r (check_reason truth routes missing row))
      && k == row.page_check_id
    || blamed truth routes missing a r k rows

-- A row of this check on this asset.
pub attached : ℕ → ℕ → List ActiveCheckTruth → Bool
attached a k [] = false
attached a k (row ∷ rows) = row.page_asset_id == a && k == row.page_check_id || attached a k rows

retires-append :
    (a : ℕ) (r : Reason) (k : ℕ) (ds es : List RetirementDecision)
    → retires a r k (ds ++ es) ≡ retires a r k ds || retires a r k es
unfolding retires
retires-append a r k [] es = refl
retires-append a r k (d ∷ ds) es = ground (arith, retires-append a r k ds es)

retires-group_decisions :
    (a : ℕ) (r : Reason) (k : ℕ) (groups : Dict (ℕ × Reason) (List ℕ))
    → retires a r k (group_decisions groups) ≡ holds (a, r) k groups
unfolding retires group_decisions holds
retires-group_decisions a r k [] = refl
retires-group_decisions a r k (((b, q), ids) ∷ groups) = ground (
  arith,
  contains-sort leb k (dedupe ids),
  contains-dedupe k ids,
  retires-group_decisions a r k groups,
)

retires-page_decisions :
    (a : ℕ) (r : Reason) (k : ℕ) (checks : Dict ℕ (List ℕ)) (ids : List ℕ)
    → retires a r k (page_decisions checks ids)
      ≡ (contains a ids && missing_page == r) && contains k (get_or [] (lookup a checks))
unfolding retires page_decisions contains
retires-page_decisions a r k checks [] = ground arith
retires-page_decisions a r k checks (b ∷ ids) =
    ground (arith, retires-page_decisions a r k checks ids)

contains-checks_by_asset :
    (a k : ℕ) (d : Dict ℕ (List ℕ)) (rows : List ActiveCheckTruth)
    → contains k (get_or [] (lookup a (checks_by_asset d rows)))
      ≡ contains k (get_or [] (lookup a d)) || attached a k rows
unfolding checks_by_asset attached
contains-checks_by_asset a k d [] = ground arith
contains-checks_by_asset a k d (row ∷ rows) = ground (
  arith,
  lookup-append_to row.page_asset_id a row.page_check_id k d,
  contains-checks_by_asset a k (append_to row.page_asset_id row.page_check_id d) rows,
)

holds-group_checks :
    (truth : SnapshotTruth) (routes : Dict ℕ Text) (missing : List ℕ) (a : ℕ) (r : Reason) (k : ℕ)
    (groups : Dict (ℕ × Reason) (List ℕ)) (rows : List ActiveCheckTruth)
    {found : Dict (ℕ × Reason) (List ℕ)}
    → group_checks truth routes missing groups rows ≡ ok found
    → holds (a, r) k found ≡ holds (a, r) k groups || blamed truth routes missing a r k rows
unfolding group_checks blamed
holds-group_checks truth routes missing a r k groups [] h = ground arith
holds-group_checks truth routes missing a r k groups (row ∷ rows) {found} h =
    go (check_reason truth routes missing row) refl
      (λ g. holds-group_checks truth routes missing a r k g rows)
  where
    go :
        (c : Result TypeError (Option Reason))
        → check_reason truth routes missing row ≡ c
        → ((g : Dict (ℕ × Reason) (List ℕ))
            → group_checks truth routes missing g rows ≡ ok found
            → holds (a, r) k found ≡ holds (a, r) k g || blamed truth routes missing a r k rows)
        → holds (a, r) k found
          ≡ holds (a, r) k groups || blamed truth routes missing a r k (row ∷ rows)
    go (ok none) e ih = ground (arith, e, ih groups)
    go (ok (some q)) e ih = ground (
      arith,
      e,
      ih (append_to (row.page_asset_id, q) row.page_check_id groups),
      holds-append_to (row.page_asset_id, q) (a, r) row.page_check_id k groups,
    )
    go (raise x) e ih = absurd (ground (arith, e))

holds_nil : (a : ℕ) (r : Reason) (k : ℕ) → holds {K = ℕ × Reason} {V = ℕ} (a, r) k [] ≡ false
unfolding holds
holds_nil a r k = refl

contains_nil : (a k : ℕ) → contains k (get_or [] (lookup {V = List ℕ} a [])) ≡ false
unfolding contains lookup
contains_nil a k = refl

-- What is retired, by the rounds of the loop over the checks.
pub retires-reconcile_rounds :
    (pages : List ActivePageTruth) (checks : List ActiveCheckTruth) (truth : SnapshotTruth)
    (gate : QualityGateDecision) (a : ℕ) (r : Reason) (k : ℕ) {ds : List RetirementDecision}
    → gate.allow_retirement ≡ true
    → reconcile_retirement_decisions pages checks truth gate ≡ ok ds
    → retires a r k ds
      ≡ (contains a (missing_asset_ids truth pages) && missing_page == r) && attached a k checks
        || blamed truth (route_by_asset [] pages) (missing_asset_ids truth pages) a r k checks
unfolding reconcile_retirement_decisions
retires-reconcile_rounds pages checks truth gate a r k {ds} allowed h =
    go (group_checks truth routes missing [] checks) refl
  where
    routes : Dict ℕ Text
    routes = route_by_asset [] pages

    missing : List ℕ
    missing = missing_asset_ids truth pages

    go :
        (c : Result TypeError (Dict (ℕ × Reason) (List ℕ)))
        → group_checks truth routes missing [] checks ≡ c
        → retires a r k ds
          ≡ (contains a missing && missing_page == r) && attached a k checks
            || blamed truth routes missing a r k checks
    go (ok groups) e = ground (
      arith,
      e,
      retires-append a r k (page_decisions (checks_by_asset [] checks) missing)
          (group_decisions groups),
      retires-page_decisions a r k (checks_by_asset [] checks) missing,
      retires-group_decisions a r k groups,
      contains-checks_by_asset a k [] checks,
      holds-group_checks truth routes missing a r k [] checks e,
      holds_nil a r k,
      contains_nil a k,
    )
    go (raise x) e = absurd (ground (arith, e))
