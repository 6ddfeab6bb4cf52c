-- ===== src/Prelude/Orders.antt =====
-- Total orders by Boolean tests, and that a sort by one forgets the order of its input.

use mathlib.Core.Path.{◌≡◌, refl, ◌∙◌}
use mathlib.Core.Bool.{Bool, true, false}
use mathlib.Core.List.{List, [], ◌∷◌, Permᴰ}
use mathlib.Core.Logic.{◌↔◌, inl, inr}
use native.Mathlib.Omega.{arith}
use runlet.Prelude.Tests.{if◌then◌else◌, leb, nat_beq, Bool-cases}
use runlet.Prelude.Equality.{Eq, ◌==◌, nat_eq}
use runlet.Prelude.Texts.{Text}
use runlet.Prelude.Sort.{sort, insert_sorted, text_leb}
use runlet.Prelude.Values.{ℤ, pos, negsuc}

pub record IsTotalOrder {ℓ} {A : Type ℓ} (le : A → A → Bool) : Type ℓ where
  pub total : (a b : A) → le a b ≡ false → le b a ≡ true
  pub trans : (a b c : A) → le a b ≡ true → le b c ≡ true → le a c ≡ true
  pub antisym : (a b : A) → le a b ≡ true → le b a ≡ true → a ≡ b

module _ {ℓ} {A : Type ℓ} (le : A → A → Bool) (o : IsTotalOrder le) where
  insert_comm :
      (x y : A) (l : List A)
      → insert_sorted le x (insert_sorted le y l) ≡ insert_sorted le y (insert_sorted le x l)
  unfolding insert_sorted
  insert_comm x y [] = elim (Bool-cases (le x y)) [
    | inl e ↦ elim (Bool-cases (le y x)) [
      | inl f ↦ rw (o.antisym x y e f) refl
      | inr f ↦ rw (e, f) refl
    ]
    | inr e ↦ rw (e, o.total x y e) refl
  ]
  insert_comm x y (z ∷ l) = ground (
    arith,
    o.total x y,
    o.total y x,
    o.antisym x y,
    o.trans x y z,
    o.trans y x z,
    insert_comm x y l,
  )

  pub sort-Permᴰ : {xs ys : List A} → Permᴰ xs ys → sort le xs ≡ sort le ys
  unfolding sort
  sort-Permᴰ Permᴰ.nil = refl
  sort-Permᴰ (Permᴰ.cons {a} {b} {l₁} {l₂} e p) = rw (e, sort-Permᴰ p) refl
  sort-Permᴰ (Permᴰ.swap {a} {b} {a'} {b'} {l} e f) = rw (e, f) (insert_comm b' a' (sort le l))
  sort-Permᴰ (Permᴰ.trans {l₁} {l₂} {l₃} p q) = sort-Permᴰ p ∙ sort-Permᴰ q

-- First by one test, then by another.
abbrev pub lex {ℓ κ} :
    {A : Type ℓ} {B : Type κ} ⦃i : Eq A⦄ → (A → A → Bool) → (B → B → Bool) → A × B → A × B → Bool
lex le le' (a, b) (c, d) = if a == c then le' b d else le a c

module _ {ℓ κ} {A : Type ℓ} {B : Type κ} ⦃i : Eq A⦄ (le : A → A → Bool) (le' : B → B → Bool) where
  pub lex-IsTotalOrder : IsTotalOrder le → IsTotalOrder le' → IsTotalOrder (lex le le')
  lex-IsTotalOrder o p = record {
    total = λ (a, b) (c, d) h.
        ground (arith, i.equal_iff a c, i.equal_iff c a, o.total a c, p.total b d);
    trans = λ (a, b) (c, d) (x, y) h k. ground (
      arith,
      i.equal_iff a c,
      i.equal_iff c x,
      i.equal_iff a x,
      o.trans a c x,
      p.trans b d y,
      o.antisym a c,
    );
    antisym = λ (a, b) (c, d) h k.
        ground (arith, i.equal_iff a c, i.equal_iff c a, o.antisym a c, p.antisym b d);
  }

text_leb-total : (s t : Text) → text_leb s t ≡ false → text_leb t s ≡ true
unfolding text_leb
text_leb-total [] t h = cc
text_leb-total (c ∷ s) [] h = refl
text_leb-total (c ∷ s) (d ∷ t) h = ground (arith, text_leb-total s t)

text_leb_trans : (s t u : Text) → text_leb s t ≡ true → text_leb t u ≡ true → text_leb s u ≡ true
unfolding text_leb
text_leb_trans [] t u h k = refl
text_leb_trans (c ∷ s) [] u h k = cc
text_leb_trans (c ∷ s) (d ∷ t) [] h k = cc
text_leb_trans (c ∷ s) (d ∷ t) (x ∷ u) h k = ground (arith, text_leb_trans s t u)

text_leb-antisym : (s t : Text) → text_leb s t ≡ true → text_leb t s ≡ true → s ≡ t
unfolding text_leb
text_leb-antisym [] [] h k = refl
text_leb-antisym [] (d ∷ t) h k = cc
text_leb-antisym (c ∷ s) [] h k = cc
text_leb-antisym (c ∷ s) (d ∷ t) h k = ground (arith, text_leb-antisym s t)

pub text_leb-IsTotalOrder : IsTotalOrder text_leb
text_leb-IsTotalOrder = record {
  total = text_leb-total;
  trans = text_leb_trans;
  antisym = text_leb-antisym;
}

-- a <= b
abbrev pub int_leb : ℤ → ℤ → Bool
int_leb (pos m) (pos n) = leb m n
int_leb (pos m) (negsuc n) = false
int_leb (negsuc m) (pos n) = true
int_leb (negsuc m) (negsuc n) = leb n m

pub int_leb-IsTotalOrder : IsTotalOrder int_leb
int_leb-IsTotalOrder = record {
  total = λ a b h. ground arith;
  trans = λ a b c h k. ground arith;
  antisym = λ a b h k. ground arith;
}

abbrev pub int_beq : ℤ → ℤ → Bool
int_beq (pos m) (pos n) = nat_beq m n
int_beq (negsuc m) (negsuc n) = nat_beq m n
int_beq _ _ = false

pub int_beq_iff : (a b : ℤ) → (int_beq a b ≡ true) ↔ (a ≡ b)
int_beq_iff a b = (λ h. ground arith, λ h. ground arith)

instance abbrev pub int_eq : Eq ℤ
int_eq = record { equal = int_beq; equal_iff = int_beq_iff }
