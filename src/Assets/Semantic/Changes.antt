-- ===== src/Assets/Semantic/Changes.antt =====
-- When compare_semantic_states reports changes.
use runlet.Prelude.{
  false, ◌||◌, not, ◌≡◌, refl, sym, ◌∙◌, ap, ◌↔◌, Option, none, some, List, [], ◌∷◌, Text,
  text_beq_iff, ◌==◌, list_eq, nat_eq, option_eq, option_beq_iff, filter, contains, filter-empty,
  filter_none, contains-filter, Dict, keys, lookup, insert, lookup-insert, lookup_absent,
  contains-keys, is_some, Result, ok, raise, ◌>>=◌, arith,
}
use runlet.Assets.Semantic.Fingerprints.{
  PageSemanticFingerprint, fingerprint_eq, fingerprint_beq_iff,
}
use runlet.Assets.Semantic.Diff.{
  IndexError, has_key, index_from, index_by_route, SemanticStateDiff, has_changes, diff_of_indexes,
  compare_semantic_states,
}

abbrev Index : Type 0
Index = Dict Text PageSemanticFingerprint

-- Each fingerprint stands under its own route.
abbrev IsOwn : Index → Type 0
IsOwn d = (r : Text) (f : PageSemanticFingerprint) → lookup r d ≡ some f → f.route_path ≡ r

insert-IsOwn : (f : PageSemanticFingerprint) (d : Index) → IsOwn d → IsOwn (insert f.route_path f d)
insert-IsOwn f d h r g e =
    ground (arith, lookup-insert f.route_path r f d, text_beq_iff f.route_path r, h r g, e)

-- What one more fingerprint adds to an index that lacks its route.
holds-insert :
    (f g : PageSemanticFingerprint) (d : Index)
    → has_key g.route_path d ≡ false
    → lookup f.route_path (insert g.route_path g d) == some f
      ≡ lookup f.route_path d == some f || f == g
holds-insert f g d h = ground (
  arith,
  lookup-insert g.route_path f.route_path g d,
  text_beq_iff g.route_path f.route_path,
  lookup_absent g.route_path d h,
  fingerprint_beq_iff f g,
  fingerprint_beq_iff g f,
)

-- What an index that was built holds: what it started from, and the list.
index_from-holds :
    (index : Index) (xs : List PageSemanticFingerprint) (f : PageSemanticFingerprint) {d : Index}
    → index_from index xs ≡ ok d
    → lookup f.route_path d == some f ≡ lookup f.route_path index == some f || contains f xs
unfolding index_from contains
index_from-holds index [] f h = ground arith
index_from-holds index (g ∷ xs) f {d} h =
    ground
      (arith, holds-insert f g index, index_from-holds (insert g.route_path g index) xs f {d = d})

index_from-IsOwn :
    (index : Index) (xs : List PageSemanticFingerprint) {d : Index}
    → index_from index xs ≡ ok d
    → IsOwn index
    → IsOwn d
unfolding index_from
index_from-IsOwn index [] {d} h own = λ r f e. own r f (ground (arith, h, e))
index_from-IsOwn index (g ∷ xs) {d} h own =
    index_from-IsOwn (insert g.route_path g index) xs (ground arith) (insert-IsOwn g index own)

-- The two states hold the same fingerprints.
abbrev pub SameState : List PageSemanticFingerprint → List PageSemanticFingerprint → Type 0
SameState active draft = (f : PageSemanticFingerprint) → contains f active ≡ contains f draft

module _ (active draft : List PageSemanticFingerprint) (A D : Index)
    (a : index_by_route active ≡ ok A) (d : index_by_route draft ≡ ok D) where
  active-holds : (f : PageSemanticFingerprint) → lookup f.route_path A == some f ≡ contains f active
  unfolding index_by_route lookup
  active-holds f = index_from-holds [] active f a

  draft-holds : (f : PageSemanticFingerprint) → lookup f.route_path D == some f ≡ contains f draft
  unfolding index_by_route lookup
  draft-holds f = index_from-holds [] draft f d

  lookups_of_no_changes :
      has_changes (diff_of_indexes A D) ≡ false → (r : Text) → lookup r A ≡ lookup r D
  unfolding has_changes diff_of_indexes
  lookups_of_no_changes h r = ground (
    arith,
    lookup_absent r A,
    lookup_absent r D,
    option_beq_iff (lookup r A) (lookup r D),
    contains-filter r (λ route. has_key route D) (keys A),
    filter-empty (λ route. not (has_key route A)) (keys D) r,
    filter-empty (λ route. not (has_key route D)) (keys A) r,
    filter-empty (λ route. not (lookup route A == lookup route D))
        (filter (λ route. has_key route D) (keys A)) r,
  )

  SameState-of_no_changes : has_changes (diff_of_indexes A D) ≡ false → SameState active draft
  SameState-of_no_changes h f =
      sym (active-holds f)
      ∙ ap (λ (o : Option PageSemanticFingerprint). o == some f)
          (lookups_of_no_changes h f.route_path)
      ∙ draft-holds f

  active-to-draft :
      (r : Text) (f : PageSemanticFingerprint)
      → SameState active draft
      → lookup r A ≡ some f
      → lookup r D ≡ some f
  unfolding index_by_route lookup
  active-to-draft r f same e = ground (
    arith,
    index_from-IsOwn [] active a (λ r f e. cc) r f e,
    active-holds f,
    draft-holds f,
    same f,
    option_beq_iff (lookup r A) (some f),
    option_beq_iff (lookup r D) (some f),
  )

  draft-to-active :
      (r : Text) (f : PageSemanticFingerprint)
      → SameState active draft
      → lookup r D ≡ some f
      → lookup r A ≡ some f
  unfolding index_by_route lookup
  draft-to-active r f same e = ground (
    arith,
    index_from-IsOwn [] draft d (λ r f e. cc) r f e,
    active-holds f,
    draft-holds f,
    same f,
    option_beq_iff (lookup r A) (some f),
    option_beq_iff (lookup r D) (some f),
  )

  lookups_of_SameState : SameState active draft → (r : Text) → lookup r A ≡ lookup r D
  lookups_of_SameState same r = go (lookup r A) (lookup r D) refl refl
    where
      go :
          (x y : Option PageSemanticFingerprint)
          → lookup r A ≡ x
          → lookup r D ≡ y
          → lookup r A ≡ lookup r D
      go (some f) y e e' = e ∙ sym (active-to-draft r f same e)
      go none (some g) e e' = draft-to-active r g same e' ∙ sym e'
      go none none e e' = e ∙ sym e'

  keys_of_SameState : SameState active draft → (r : Text) → has_key r A ≡ has_key r D
  keys_of_SameState same r =
      contains-keys r A ∙ ap is_some (lookups_of_SameState same r) ∙ sym (contains-keys r D)

  no_changes_of_SameState : SameState active draft → has_changes (diff_of_indexes A D) ≡ false
  unfolding has_changes diff_of_indexes
  no_changes_of_SameState same = ground (
    arith,
    filter_none (λ route. not (has_key route A)) (keys D)
        (λ r m. ground (arith, keys_of_SameState same r, m)),
    filter_none (λ route. not (has_key route D)) (keys A)
        (λ r m. ground (arith, keys_of_SameState same r, m)),
    filter_none (λ route. not (lookup route A == lookup route D))
        (filter (λ route. has_key route D) (keys A))
        (λ r m.
          ground (arith, option_beq_iff (lookup r A) (lookup r D), lookups_of_SameState same r)),
  )

-- If both states index, the comparison reports changes exactly when some fingerprint stands in one
-- state and not in the other; the order of the pages does not matter.
pub no_changes-iff-SameState :
    (active draft : List PageSemanticFingerprint) {diff : SemanticStateDiff}
    → compare_semantic_states active draft ≡ ok diff
    → (has_changes diff ≡ false) ↔ SameState active draft
unfolding compare_semantic_states
no_changes-iff-SameState active draft {diff} h =
    go (index_by_route active) (index_by_route draft) refl refl h
  where
    go :
        (x y : Result IndexError Index)
        → index_by_route active ≡ x
        → index_by_route draft ≡ y
        → (x >>= λ A. y >>= λ D. ok (diff_of_indexes A D)) ≡ ok diff
        → (has_changes diff ≡ false) ↔ SameState active draft
    go (ok A) (ok D) a d e = (
      λ n. SameState-of_no_changes active draft A D a d (cc),
      λ s. cc (no_changes_of_SameState active draft A D a d s),
    )
    go (ok A) (raise y) a d e = absurd (ground arith)
    go (raise x) y a d e = absurd (ground arith)
