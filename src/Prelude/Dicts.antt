-- ===== src/Prelude/Dicts.antt =====
-- Python's `dict`: an association list in insertion order. A write to a key that is there keeps
-- its place.

use mathlib.Core.Path.{◌≡◌, refl}
use mathlib.Core.Bool.{Bool, true, false, ◌||◌, ◌&&◌}
use mathlib.Core.Option.{Option, none, some}
use mathlib.Core.List.{List, [], ◌∷◌, ◌++◌, map}
use native.Mathlib.Omega.{arith}
use runlet.Prelude.Tests.{if◌then◌else◌}
use runlet.Prelude.Equality.{Eq, ◌==◌}
use runlet.Prelude.Lists.{contains, contains-append}

abbrev pub Dict {ℓ κ} : Type ℓ → Type κ → Type (ℓ ⊔ κ)
Dict K V = List (K × V)

abbrev pub keys {ℓ κ} : {K : Type ℓ} {V : Type κ} → Dict K V → List K
keys d = map (λ e. e.0) d

abbrev pub values {ℓ κ} : {K : Type ℓ} {V : Type κ} → Dict K V → List V
values d = map (λ e. e.1) d

-- d.get(k, default)
abbrev pub get_or {ℓ} : {V : Type ℓ} → V → Option V → V
get_or v none = v
get_or v (some w) = w

abbrev pub is_some {ℓ} : {V : Type ℓ} → Option V → Bool
is_some none = false
is_some (some v) = true

module _ {ℓ κ} {K : Type ℓ} {V : Type κ} ⦃e : Eq K⦄ where
  -- d.get(k)
  unfoldable pub lookup : K → Dict K V → Option V
  lookup k [] = none
  lookup k ((j, v) ∷ d) = if j == k then some v else lookup k d

  -- d[k] = v
  unfoldable pub insert : K → V → Dict K V → Dict K V
  insert k v [] = (k, v) ∷ []
  insert k v ((j, w) ∷ d) = if j == k then (j, v) ∷ d else (j, w) ∷ insert k v d

  pub lookup-insert :
      (k j : K) (v : V) (d : Dict K V)
      → lookup j (insert k v d) ≡ (if k == j then some v else lookup j d)
  unfolding lookup insert
  lookup-insert k j v [] = refl
  lookup-insert k j v ((i, w) ∷ d) =
      ground (arith, e.equal_iff k j, e.equal_iff i k, e.equal_iff i j, lookup-insert k j v d)

  -- A key that is not there has no value.
  pub lookup_absent : (k : K) (d : Dict K V) → contains k (keys d) ≡ false → lookup k d ≡ none
  unfolding lookup contains
  lookup_absent k [] h = refl
  lookup_absent k ((j, v) ∷ d) h =
      ground (arith, e.equal_iff j k, e.equal_iff k j, lookup_absent k d)

  pub contains-keys : (k : K) (d : Dict K V) → contains k (keys d) ≡ is_some (lookup k d)
  unfolding lookup contains
  contains-keys k [] = refl
  contains-keys k ((j, w) ∷ d) = ground (arith, e.equal_iff j k, e.equal_iff k j, contains-keys k d)

-- d.setdefault(k, []).append(v)
module _ {ℓ κ} {K : Type ℓ} {V : Type κ} ⦃e : Eq K⦄ where
  unfoldable pub append_to : K → V → Dict K (List V) → Dict K (List V)
  append_to k v [] = (k, v ∷ []) ∷ []
  append_to k v ((j, vs) ∷ d) = if j == k then (j, vs ++ v ∷ []) ∷ d else (j, vs) ∷ append_to k v d

module _ {ℓ κ} {K : Type ℓ} {V : Type κ} ⦃e : Eq K⦄ ⦃f : Eq V⦄ where
  -- v stands in a list of the key k.
  unfoldable pub holds : K → V → Dict K (List V) → Bool
  holds k v [] = false
  holds k v ((j, vs) ∷ d) = j == k && contains v vs || holds k v d

  pub holds-append_to :
      (k q : K) (v w : V) (d : Dict K (List V))
      → holds q w (append_to k v d) ≡ k == q && w == v || holds q w d
  unfolding holds append_to contains
  holds-append_to k q v w [] = ground arith
  holds-append_to k q v w ((j, vs) ∷ d) = ground (
    arith,
    e.equal_iff j k,
    e.equal_iff j q,
    e.equal_iff k q,
    contains-append w vs (v ∷ []),
    holds-append_to k q v w d,
  )

  pub lookup-append_to :
      (k q : K) (v w : V) (d : Dict K (List V))
      → contains w (get_or [] (lookup q (append_to k v d)))
        ≡ k == q && w == v || contains w (get_or [] (lookup q d))
  unfolding lookup append_to contains
  lookup-append_to k q v w [] = ground arith
  lookup-append_to k q v w ((j, vs) ∷ d) = ground (
    arith,
    e.equal_iff j k,
    e.equal_iff j q,
    e.equal_iff k q,
    contains-append w vs (v ∷ []),
    lookup-append_to k q v w d,
  )
