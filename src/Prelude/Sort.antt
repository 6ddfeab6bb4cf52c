-- ===== src/Prelude/Sort.antt =====
-- Python's `sorted`: a stable sort, by a test for `a <= b` on the keys.
use mathlib.Core.Path.{◌≡◌, refl, sym, ap, ◌∙◌}
use mathlib.Core.Option.{some, none}
use mathlib.Core.Bool.{Bool, true, false, ◌&&◌, ◌||◌, not}
use mathlib.Core.List.{List, [], ◌∷◌}
use native.Mathlib.Omega.{arith}
use runlet.Prelude.Tests.{if◌then◌else◌, leb, nat_beq}
use runlet.Prelude.Equality.{Eq, ◌==◌}
use runlet.Prelude.Lists.{
  contains, any, filter, first, any-filter, any-filter_self, any-filter-not, any_mono,
}
use runlet.Prelude.Texts.{Text}

module _ {ℓ} {A : Type ℓ} (le : A → A → Bool) where
  unfoldable pub insert_sorted : A → List A → List A
  insert_sorted x [] = x ∷ []
  insert_sorted x (y ∷ ys) = if le x y then x ∷ (y ∷ ys) else y ∷ insert_sorted x ys

  unfoldable pub sort : List A → List A
  unfolding insert_sorted
  sort [] = []
  sort (x ∷ xs) = insert_sorted x (sort xs)

  pub any-insert_sorted :
      (p : A → Bool) (x : A) (ys : List A) → any p (insert_sorted x ys) ≡ p x || any p ys
  unfolding insert_sorted any
  any-insert_sorted p x [] = refl
  any-insert_sorted p x (y ∷ ys) = ground (arith, any-insert_sorted p x ys)

  -- Sorting keeps what the list holds.
  pub any-sort : (p : A → Bool) (xs : List A) → any p (sort xs) ≡ any p xs
  unfolding sort any
  any-sort p [] = refl
  any-sort p (x ∷ xs) = ground (arith, any-insert_sorted p x (sort xs), any-sort p xs)

-- ORDER BY … LIMIT 1 of a query.
module _ {ℓ} {A : Type ℓ} (le : A → A → Bool) (p : A → Bool) (xs : List A) where
  pub first-none : first (sort le (filter p xs)) ≡ none → any p xs ≡ false
  unfolding any
  first-none h = go (sort le (filter p xs)) refl
    where
      go : (r : List A) → sort le (filter p xs) ≡ r → any p xs ≡ false
      go [] e = sym (any-filter_self p xs) ∙ sym (any-sort le p (filter p xs)) ∙ ap (any p) e
      go (x ∷ r) e = absurd (ground (arith, e, h))

  pub first-some :
      (q : A → Bool) {a : A}
      → first (sort le (filter p xs)) ≡ some a
      → q a ≡ true
      → any (λ x. q x && p x) xs ≡ true
  unfolding any
  first-some q {a} h qa = go (sort le (filter p xs)) refl
    where
      both : A → Bool
      both x = q x && p x

      go : (r : List A) → sort le (filter p xs) ≡ r → any both xs ≡ true
      go [] e = absurd (ground (arith, e, h))
      go (x ∷ r) e =
          let none_fails : any (λ x. not (p x)) (x ∷ r) ≡ false =
            ap (any (λ x. not (p x))) (sym e)
            ∙ any-sort le (λ x. not (p x)) (filter p xs)
            ∙ any-filter-not p xs in
          let same : x ≡ a = cc (e, h) in
          let found : any both (filter p xs) ≡ true =
            sym (any-sort le both (filter p xs))
            ∙ ap (any both) e
            ∙ ground (arith, same, qa, none_fails) in
          any_mono (λ x. p x && both x) both xs (λ x k. ground (arith, k))
            (sym (any-filter p both xs) ∙ found)

module _ {ℓ} {A : Type ℓ} (le : A → A → Bool) ⦃e : Eq A⦄ where
  contains-insert_sorted :
      (a x : A) (ys : List A) → contains a (insert_sorted le x ys) ≡ a == x || contains a ys
  unfolding insert_sorted contains
  contains-insert_sorted a x [] = refl
  contains-insert_sorted a x (y ∷ ys) = ground (arith, contains-insert_sorted a x ys)

  pub contains-sort : (a : A) (xs : List A) → contains a (sort le xs) ≡ contains a xs
  unfolding sort contains
  contains-sort a [] = refl
  contains-sort a (x ∷ xs) =
      ground (arith, contains-insert_sorted a x (sort le xs), contains-sort a xs)

-- Texts are ordered by their code points.
unfoldable pub text_leb : Text → Text → Bool
text_leb [] t = true
text_leb (c ∷ s) [] = false
text_leb (c ∷ s) (d ∷ t) = let rest = text_leb s t in if nat_beq c d then rest else leb c d
