-- ===== src/Scheduling/Cron/Numbers.antt =====
-- int(str(n)) is n.
use mathlib.Core.List.{reverse, reverse-append}
use mathlib.Core.Path.{subst}
use runlet.Prelude.{
  ℕ, zero, suc, ◌+◌, ◌-◌, ◌*◌, ◌/◌, ◌%◌, ◌≤◌, ◌<◌, false, ◌≡◌, refl, sym, ◌∙◌, ap, some, [], ◌∷◌,
  ◌++◌, Text, All, All-reverse, IsSolid, strip_solid, is_space, ltb, arith, Bool-cases, inl, inr,
}
use runlet.Prelude.Values.{digits_rev, show_nat, pos}
use runlet.Scheduling.Cron.{digits_loop, parse_nat, parse_signed, parse_int}

abbrev pub IsDigit : ℕ → Type 0
IsDigit c = (48 ≤ c) × (c ≤ 57)

-- The number that a text of digits stands for.
value : ℕ → Text → ℕ
value acc [] = acc
value acc (c ∷ s) = value (acc * 10 + (c - 48)) s

value-append : (acc : ℕ) (s : Text) (c : ℕ) → value acc (s ++ c ∷ []) ≡ value acc s * 10 + (c - 48)
unfolding value
value-append acc [] c = refl
value-append acc (d ∷ s) c = value-append (acc * 10 + (d - 48)) s c

digits_loop-value :
    (acc : ℕ) (s : Text) → All IsDigit s → digits_loop acc false s ≡ some (value acc s)
unfolding digits_loop value
digits_loop-value acc [] h = refl
digits_loop-value acc (c ∷ s) h = ground (arith, h.0, digits_loop-value (acc * 10 + (c - 48)) s h.1)

digits_rev-IsDigit : (f n : ℕ) → All IsDigit (digits_rev f n)
unfolding digits_rev
digits_rev-IsDigit zero n = tt
digits_rev-IsDigit (suc f) n = elim (Bool-cases (ltb n 10)) [
  | inl h ↦ rw h ((ground arith, ground arith), tt)
  | inr h ↦ rw h ((omega arith, omega arith), digits_rev-IsDigit f (n / 10))
]

value-digits_rev : (f n : ℕ) → n < f → value 0 (reverse (digits_rev f n)) ≡ n
unfolding digits_rev value
value-digits_rev zero n h = elim h [ ]
value-digits_rev (suc f) n h = elim (Bool-cases (ltb n 10)) [
  | inl e ↦ rw e (omega arith)
  | inr e ↦
      let d = (n % 10) + 48 in
      let rest = digits_rev f (n / 10) in
      rw e (
        ap (value 0) (reverse-append (d ∷ []) rest)
        ∙ value-append 0 (reverse rest) d
        ∙ omega (arith, value-digits_rev f (n / 10) (ground (arith, e))))
]

pub show_nat-IsDigit : (n : ℕ) → All IsDigit (show_nat n)
unfolding show_nat
show_nat-IsDigit n = All-reverse IsDigit (digits_rev (suc n) n) (digits_rev-IsDigit (suc n) n)

value-show_nat : (n : ℕ) → value 0 (show_nat n) ≡ n
unfolding show_nat
value-show_nat n = value-digits_rev (suc n) n (omega arith)

-- A text of digits, of which there is at least one.
parse_signed-digits :
    (c : ℕ) (s : Text) → All IsDigit (c ∷ s) → parse_signed (c ∷ s) ≡ some (pos (value 0 (c ∷ s)))
unfolding parse_signed parse_nat value
parse_signed-digits c s h = ground (arith, h.0, digits_loop-value (c - 48) s h.1)

pub digit_not_space : (c : ℕ) → IsDigit c → is_space c ≡ false
unfolding is_space
digit_not_space c h = ground (arith, h)

pub digits-IsSolid : (s : Text) → All IsDigit s → All IsSolid s
digits-IsSolid [] h = tt
digits-IsSolid (c ∷ s) h = (digit_not_space c h.0, digits-IsSolid s h.1)

snoc_nonempty : (s : Text) (d : ℕ) → (c : ℕ) × (t : Text) × (s ++ d ∷ [] ≡ c ∷ t)
snoc_nonempty [] d = (d, [], refl)
snoc_nonempty (c ∷ s) d = (c, s ++ d ∷ [], refl)

digits_rev_nonempty : (f n : ℕ) → (c : ℕ) × (s : Text) × (digits_rev (suc f) n ≡ c ∷ s)
unfolding digits_rev
digits_rev_nonempty f n = elim (Bool-cases (ltb n 10)) [
  | inl e ↦ (n + 48, [], rw e)
  | inr e ↦ ((n % 10) + 48, digits_rev f (n / 10), rw e)
]

pub show_nat_nonempty : (n : ℕ) → (c : ℕ) × (s : Text) × (show_nat n ≡ c ∷ s)
unfolding show_nat
show_nat_nonempty n =
    let (d, s, e) = digits_rev_nonempty n n in
    let (c, t, e') = snoc_nonempty (reverse s) d in
    (c, t, ap reverse e ∙ reverse-append (d ∷ []) s ∙ e')

pub parse_int-show_nat : (n : ℕ) → parse_int (show_nat n) ≡ some (pos n)
unfolding parse_int
parse_int-show_nat n =
    let (c, s, e) = show_nat_nonempty n in
    let digits : All IsDigit (c ∷ s) = subst (All IsDigit) e (show_nat-IsDigit n) in
    ap parse_signed (strip_solid (show_nat n) (digits-IsSolid (show_nat n) (show_nat-IsDigit n)))
    ∙ rw e (parse_signed-digits c s digits)
    ∙ ap (λ (k : ℕ). some (pos k)) (ap (value 0) (sym e) ∙ value-show_nat n)
