-- ===== src/Prelude/Lists.antt =====
-- List operations over the native numbers and Boolean tests, as Python's comprehensions use them.
use Prim.Native.Nat.{ℕ, zero, suc, ◌+◌, ◌≤◌, ◌<◌}
use mathlib.Core.Path.{◌≡◌, refl}
use mathlib.Core.Bool.{Bool, true, false, ◌&&◌, ◌||◌, not}
use mathlib.Core.Option.{Option, none, some}
use mathlib.Core.List.{List, [], ◌∷◌, ◌++◌}
use native.Mathlib.Omega.{arith}
use mathlib.Core.Logic.{inl, inr}
use runlet.Prelude.Tests.{if◌then◌else◌, Bool-cases}
use runlet.Prelude.Equality.{Eq, ◌==◌}

-- not xs
abbrev pub is_empty {ℓ} : {A : Type ℓ} → List A → Bool
is_empty [] = true
is_empty (x ∷ xs) = false

module _ {ℓ} {A : Type ℓ} where
  abbrev pub length : List A → ℕ
  length [] = 0
  length (x ∷ xs) = suc (length xs)

  pub length-append : (xs ys : List A) → length (xs ++ ys) ≡ length xs + length ys
  length-append [] ys = omega arith
  length-append (x ∷ xs) ys = omega (arith, length-append xs ys)

  -- xs[i]
  unfoldable pub get_elem? : List A → ℕ → Option A
  get_elem? [] i = none
  get_elem? (x ∷ xs) zero = some x
  get_elem? (x ∷ xs) (suc i) = get_elem? xs i

  -- xs[:n]
  unfoldable pub take : ℕ → List A → List A
  take zero xs = []
  take (suc n) [] = []
  take (suc n) (x ∷ xs) = x ∷ take n xs

  -- xs[n:]
  unfoldable pub drop : ℕ → List A → List A
  drop zero xs = xs
  drop (suc n) [] = []
  drop (suc n) (x ∷ xs) = drop n xs

  -- result.first()
  abbrev pub first : List A → Option A
  first [] = none
  first (x ∷ xs) = some x

  -- [x for x in xs if p(x)]
  unfoldable pub filter : (A → Bool) → List A → List A
  filter p [] = []
  filter p (x ∷ xs) = let rest = filter p xs in if p x then x ∷ rest else rest

  -- any(p(x) for x in xs)
  unfoldable pub any : (A → Bool) → List A → Bool
  any p [] = false
  any p (x ∷ xs) = p x || any p xs

  -- all(p(x) for x in xs)
  unfoldable pub all : (A → Bool) → List A → Bool
  all p [] = true
  all p (x ∷ xs) = p x && all p xs

  pub filter-append :
      (p : A → Bool) (xs ys : List A) → filter p (xs ++ ys) ≡ filter p xs ++ filter p ys
  unfolding filter
  filter-append p [] ys = refl
  filter-append p (x ∷ xs) ys = ground (arith, filter-append p xs ys)

  pub any-filter : (p q : A → Bool) (xs : List A) → any q (filter p xs) ≡ any (λ x. p x && q x) xs
  unfolding any filter
  any-filter p q [] = refl
  any-filter p q (x ∷ xs) = ground (arith, any-filter p q xs)

  pub any-filter_self : (p : A → Bool) (xs : List A) → any p (filter p xs) ≡ any p xs
  unfolding any filter
  any-filter_self p [] = refl
  any-filter_self p (x ∷ xs) = ground (arith, any-filter_self p xs)

  pub any-filter-not : (p : A → Bool) (xs : List A) → any (λ x. not (p x)) (filter p xs) ≡ false
  unfolding any filter
  any-filter-not p [] = refl
  any-filter-not p (x ∷ xs) = ground (arith, any-filter-not p xs)

  -- What holds of an item that one test finds, another test finds too.
  pub any_mono :
      (p q : A → Bool) (xs : List A)
      → ((x : A) → p x ≡ true → q x ≡ true)
      → any p xs ≡ true
      → any q xs ≡ true
  unfolding any
  any_mono p q [] h k = k
  any_mono p q (x ∷ xs) h k = ground (arith, h x, any_mono p q xs h)

  -- An index in range is the head of what it drops.
  pub drop_in_range :
      (xs : List A) (i : ℕ)
      → i < length xs
      → (x : A) × (get_elem? xs i ≡ some x) × (drop i xs ≡ x ∷ drop (suc i) xs)
  unfolding get_elem? drop
  drop_in_range [] i h = absurd (omega arith)
  drop_in_range (x ∷ xs) zero h = (x, refl, refl)
  drop_in_range (x ∷ xs) (suc i) h = drop_in_range xs i (omega arith)

  pub drop_past_end : (xs : List A) (i : ℕ) → length xs ≤ i → drop i xs ≡ []
  unfolding drop
  drop_past_end [] zero h = refl
  drop_past_end [] (suc i) h = refl
  drop_past_end (x ∷ xs) zero h = absurd (omega arith)
  drop_past_end (x ∷ xs) (suc i) h = drop_past_end xs i (omega arith)

module _ {ℓ} {A : Type ℓ} ⦃e : Eq A⦄ where
  -- a in xs
  unfoldable pub contains : A → List A → Bool
  contains a [] = false
  contains a (x ∷ xs) = a == x || contains a xs

  -- The loop over `seen`: each value once, where it stands first.
  unfoldable pub dedupe_from : List A → List A → List A
  dedupe_from seen [] = []
  dedupe_from seen (x ∷ xs) =
      let rest = x ∷ dedupe_from (x ∷ seen) xs in
      let skipped = dedupe_from seen xs in if contains x seen then skipped else rest

  unfoldable pub dedupe : List A → List A
  unfolding dedupe_from
  dedupe xs = dedupe_from [] xs

  -- No value stands twice.
  unfoldable pub distinct : List A → Bool
  distinct [] = true
  distinct (x ∷ xs) = not (contains x xs) && distinct xs

  pub contains-append :
      (a : A) (xs ys : List A) → contains a (xs ++ ys) ≡ contains a xs || contains a ys
  unfolding contains
  contains-append a [] ys = refl
  contains-append a (x ∷ xs) ys = ground (arith, contains-append a xs ys)

  pub contains-filter :
      (a : A) (p : A → Bool) (xs : List A) → contains a (filter p xs) ≡ p a && contains a xs
  unfolding contains filter
  contains-filter a p [] = ground arith
  contains-filter a p (x ∷ xs) = ground (arith, e.equal_iff a x, contains-filter a p xs)

  pub contains-dedupe_from :
      (a : A) (seen xs : List A)
      → contains a (dedupe_from seen xs) ≡ not (contains a seen) && contains a xs
  unfolding contains dedupe_from
  contains-dedupe_from a seen [] = ground arith
  contains-dedupe_from a seen (x ∷ xs) =
      ground (
        arith,
        e.equal_iff a x,
        contains-dedupe_from a seen xs,
        contains-dedupe_from a (x ∷ seen) xs,
      )

  -- An empty filter passes over every item.
  pub filter-empty :
      (p : A → Bool) (xs : List A) (a : A)
      → is_empty (filter p xs) ≡ true
      → contains a xs ≡ true
      → p a ≡ false
  unfolding filter contains
  filter-empty p [] a h m = cc
  filter-empty p (x ∷ xs) a h m = ground (arith, e.equal_iff a x, filter-empty p xs a)

  pub filter_none :
      (p : A → Bool) (xs : List A)
      → ((a : A) → contains a xs ≡ true → p a ≡ false)
      → is_empty (filter p xs) ≡ true
  unfolding filter contains
  filter_none p [] h = refl
  filter_none p (x ∷ xs) h =
      ground (arith, h x, e.equal_iff x x, filter_none p xs (λ a m. h a (ground (arith, m))))

  -- What the loop keeps is what the list holds.
  pub distinct-append_one :
      (x : A) (xs : List A)
      → contains x xs ≡ false
      → distinct xs ≡ true
      → distinct (xs ++ x ∷ []) ≡ true
  unfolding distinct contains
  distinct-append_one x [] h k = refl
  distinct-append_one x (y ∷ xs) h k = ground (
    arith,
    e.equal_iff x y,
    e.equal_iff y x,
    contains-append y xs (x ∷ []),
    distinct-append_one x xs,
  )

  pub contains-dedupe : (a : A) (xs : List A) → contains a (dedupe xs) ≡ contains a xs
  unfolding dedupe contains
  contains-dedupe a xs = contains-dedupe_from a [] xs

-- Every item has the property.
abbrev pub All {ℓ κ} : {A : Type ℓ} → (A → Type κ) → List A → Type κ
All P [] = Unit
All P (x ∷ xs) = P x × All P xs

module _ {ℓ κ} {A : Type ℓ} (P : A → Type κ) where
  pub All-append : (xs ys : List A) → All P xs → All P ys → All P (xs ++ ys)
  All-append [] ys h k = k
  All-append (x ∷ xs) ys h k = (h.0, All-append xs ys h.1 k)

module _ {ℓ κ} {A : Type ℓ} (P : A → Type κ) ⦃e : Eq A⦄ where
  All-dedupe_from : (seen xs : List A) → All P xs → All P (dedupe_from seen xs)
  unfolding dedupe_from
  All-dedupe_from seen [] h = tt
  All-dedupe_from seen (x ∷ xs) h = elim (Bool-cases (contains x seen)) [
    | inl c ↦ rw c (All-dedupe_from seen xs h.1)
    | inr c ↦ rw c (h.0, All-dedupe_from (x ∷ seen) xs h.1)
  ]

  pub All-dedupe : (xs : List A) → All P xs → All P (dedupe xs)
  unfolding dedupe
  All-dedupe xs h = All-dedupe_from [] xs h
