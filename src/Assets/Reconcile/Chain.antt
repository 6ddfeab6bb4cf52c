-- ===== src/Assets/Reconcile/Chain.antt =====
-- _menu_chain_satisfied of reconciliation.py against the subsequences of the current chain.
use mathlib.Core.List.{Sublist, Sublistᴰ}
use mathlib.Core.List.Sublistᴰ
use mathlib.Core.Logic.{∥∥₁_elim}
use native.Mathlib.Numerals.{add-one}
use runlet.Prelude.{
  ℕ, suc, ◌+◌, ◌<◌, Bool, true, false, ◌≡◌, refl, ◌↔◌, List, [], ◌∷◌, some, Text, if◌then◌else◌,
  ◌==◌, list_eq, nat_eq, drop, drop_in_range, drop_past_end, get_elem?, length, text_beq_iff, arith,
  Bool-cases, inl, inr,
}
use runlet.Assets.Reconcile.Decisions.{menu_chain_loop, menu_chain_satisfied}

-- The loop over what is left of the expected chain.
unfoldable pub is_subsequence : List Text → List Text → Bool
is_subsequence [] current = true
is_subsequence (x ∷ xs) [] = false
is_subsequence (x ∷ xs) (label ∷ current) =
    is_subsequence (if x == label then xs else x ∷ xs) current

-- One round of the loop, at the label that the index names.
loop_round :
    (expected : List Text) (index : ℕ) (label : Text) (current : List Text) (x : Text)
    → get_elem? expected index ≡ some x
    → menu_chain_loop expected index (label ∷ current) ≡ (
        if x == label
        then (if index + 1 == length expected
            then true
            else menu_chain_loop expected (index + 1) current)
        else menu_chain_loop expected index current)
unfolding menu_chain_loop
loop_round expected index label current x found = elim (Bool-cases (x == label)) [
  | inl e ↦
      rw (found, e)
        (elim (Bool-cases (index + 1 == length expected)) [ inl d ↦ rw d | inr d ↦ rw d ])
  | inr e ↦ rw (found, e)
]

loop-is_subsequence :
    (expected : List Text) (index : ℕ) (current : List Text)
    → index < length expected
    → menu_chain_loop expected index current ≡ is_subsequence (drop index expected) current
unfolding is_subsequence
loop-is_subsequence expected index [] h =
    let (x, found, rest) = drop_in_range expected index h in unfold menu_chain_loop in rw rest refl
loop-is_subsequence expected index (label ∷ current) h =
    let (x, found, rest) = drop_in_range expected index h in
    rw (loop_round expected index label current x found, rest)
      (elim (Bool-cases (x == label)) [
        | inl e ↦
            rw (e, is_subsequence)
              (elim (Bool-cases (index + 1 == length expected)) [
                | inl d ↦ rw (d, drop_past_end expected (suc index) (ground arith))
                | inr d ↦
                    rw (d, add-one index)
                      (loop-is_subsequence expected (suc index) current (ground arith))
              ])
        | inr e ↦ rw (e, is_subsequence, loop-is_subsequence expected index current h, rest)
      ])

-- A chain is satisfied without its first label too.
is_subsequence_tail :
    (x : Text) (xs ys : List Text) → is_subsequence (x ∷ xs) ys ≡ true → is_subsequence xs ys ≡ true
unfolding is_subsequence
is_subsequence_tail x xs [] h = cc
is_subsequence_tail x [] (y ∷ ys) h = refl
is_subsequence_tail x (x' ∷ xs) (y ∷ ys) h =
    ground (arith, is_subsequence_tail x (x' ∷ xs) ys, is_subsequence_tail x' xs ys)

is_subsequence-Sublistᴰ : (xs ys : List Text) → is_subsequence xs ys ≡ true → Sublistᴰ xs ys
unfolding is_subsequence
is_subsequence-Sublistᴰ [] ys h = Sublistᴰ.nil-sublist ys
is_subsequence-Sublistᴰ (x ∷ xs) [] h = absurd (ground arith)
is_subsequence-Sublistᴰ (x ∷ xs) (y ∷ ys) h = elim (Bool-cases (x == y)) [
  | inl e ↦
      Sublistᴰ.cons-cons ((text_beq_iff x y).0 e)
        (is_subsequence-Sublistᴰ xs ys (rw (e, is_subsequence) at h))
  | inr e ↦ Sublistᴰ.cons (is_subsequence-Sublistᴰ (x ∷ xs) ys (rw (e, is_subsequence) at h))
]

is_subsequence_cons :
    (y : Text) (xs ys : List Text) → is_subsequence xs ys ≡ true → is_subsequence xs (y ∷ ys) ≡ true
unfolding is_subsequence
is_subsequence_cons y [] ys h = refl
is_subsequence_cons y (x ∷ xs) ys h = ground (arith, is_subsequence_tail x xs ys)

Sublistᴰ-is_subsequence : {xs ys : List Text} → Sublistᴰ xs ys → is_subsequence xs ys ≡ true
unfolding is_subsequence
Sublistᴰ-is_subsequence Sublistᴰ.slnil = refl
Sublistᴰ-is_subsequence (Sublistᴰ.cons {a} {l₁} {l₂} s) =
    is_subsequence_cons a l₁ l₂ (Sublistᴰ-is_subsequence s)
Sublistᴰ-is_subsequence (Sublistᴰ.cons-cons {a} {b} e s) =
    rw ((text_beq_iff a b).1 e, is_subsequence) (Sublistᴰ-is_subsequence s)

pub satisfied-is_subsequence :
    (expected current : List Text)
    → menu_chain_satisfied expected current ≡ is_subsequence expected current
unfolding menu_chain_satisfied is_subsequence drop
satisfied-is_subsequence [] current = refl
satisfied-is_subsequence (x ∷ xs) [] = refl
satisfied-is_subsequence (x ∷ xs) (y ∷ ys) = loop-is_subsequence (x ∷ xs) 0 (y ∷ ys) (omega arith)

-- A menu chain is satisfied exactly when its labels stand in the current chain in this order, with
-- any others between them.
pub menu_chain_satisfied-iff-Sublist :
    (expected current : List Text)
    → (menu_chain_satisfied expected current ≡ true) ↔ Sublist expected current
menu_chain_satisfied-iff-Sublist expected current = rw (satisfied-is_subsequence expected current) (
  λ h. ∣ is_subsequence-Sublistᴰ expected current h ∣₁,
  λ s. ∥∥₁_elim s (hlevel) (λ d. Sublistᴰ-is_subsequence d),
)
