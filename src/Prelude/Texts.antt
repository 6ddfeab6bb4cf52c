-- ===== src/Prelude/Texts.antt =====
-- Python's `str` as a list of code points, with the methods that the program calls.
use Prim.Native.Char.{code}
use Prim.Native.Nat.{ℕ, ◌≤◌}
use Prim.Native.String.{String}
use mathlib.Core.Path.{◌≡◌, refl, ap, sym, ◌∙◌}
use mathlib.Core.Bool.{Bool, true, false, ◌||◌, ◌&&◌}
use mathlib.Core.List.{List, [], ◌∷◌, ◌++◌, reverse, reverse-append, reverse-reverse}
use native.Mathlib.Omega.{arith}
use mathlib.Core.Logic.{inl, inr, ◌↔◌}
use runlet.Prelude.Equality.{◌==◌, nat_eq, list_eq, list_beq_iff}
use runlet.Prelude.Lists.{length, All, All-append}
use runlet.Prelude.Tests.{if◌then◌else◌, leb, nat_beq, Bool-cases}

abbrev pub Text : Type 0
Text = List ℕ

-- A literal of the source.
abbrev pub text : String → Text
text String.[] = []
text (String.◌∷◌ c s) = code c ∷ text s

-- str.isspace() on one code point: what str.strip() and str.split() take for white space.
unfoldable pub is_space : ℕ → Bool
is_space c =
    leb 9 c && leb c 13
    || leb 28 c && leb c 32
    || nat_beq c 0x85
    || nat_beq c 0xa0
    || nat_beq c 0x1680
    || leb 0x2000 c && leb c 0x200a
    || nat_beq c 0x2028
    || nat_beq c 0x2029
    || nat_beq c 0x202f
    || nat_beq c 0x205f
    || nat_beq c 0x3000

-- Drops the leading code points that pass the test.
unfoldable pub drop_while : (ℕ → Bool) → Text → Text
drop_while p [] = []
drop_while p (c ∷ s) = let rest = drop_while p s in if p c then rest else c ∷ s

-- str.strip()
unfoldable pub strip : Text → Text
unfolding drop_while is_space
strip s = reverse (drop_while is_space (reverse (drop_while is_space s)))

drop_while_idem : (p : ℕ → Bool) (s : Text) → drop_while p (drop_while p s) ≡ drop_while p s
unfolding drop_while
drop_while_idem p [] = refl
drop_while_idem p (c ∷ s) = ground (arith, drop_while_idem p s)

-- What was dropped from the front.
dropped : (p : ℕ → Bool) (s : Text) → (w : Text) × (s ≡ w ++ drop_while p s)
unfolding drop_while
dropped p [] = ([], refl)
dropped p (c ∷ s) =
    let (w, e) = dropped p s in
    elim (Bool-cases (p c)) [ inl h ↦ (c ∷ w, rw h (ap (◌∷◌ c) e)) | inr h ↦ ([], rw h) ]

length-drop_while-le : (p : ℕ → Bool) (s : Text) → length (drop_while p s) ≤ length s
unfolding drop_while
length-drop_while-le p [] = omega arith
length-drop_while-le p (c ∷ s) = ground (arith, length-drop_while-le p s)

-- A text that starts with no dropped code point still does so after a cut at its end.
drop_while_prefix :
    (p : ℕ → Bool) (s t : Text) → drop_while p (s ++ t) ≡ s ++ t → drop_while p s ≡ s
unfolding drop_while
drop_while_prefix p [] t h = refl
drop_while_prefix p (c ∷ s) t h = elim (Bool-cases (p c)) [
  | inl e ↦
      let same : drop_while p (s ++ t) ≡ c ∷ (s ++ t) = rw e at h in
      absurd (omega (arith, ap length same, length-drop_while-le p (s ++ t)))
  | inr e ↦ rw e
]

-- Both ends are free of white space after one pass.
strip_front : (s : Text) → drop_while is_space (strip s) ≡ strip s
unfolding strip
strip_front s =
    let t = drop_while is_space s in
    let (w, e) = dropped is_space (reverse t) in
    let u = drop_while is_space (reverse t) in
    let parts : t ≡ reverse u ++ reverse w =
      sym (reverse-reverse t) ∙ ap reverse e ∙ reverse-append w u in
    drop_while_prefix is_space (reverse u) (reverse w) (rw (← parts) (drop_while_idem is_space s))

pub strip_idem : (s : Text) → strip (strip s) ≡ strip s
unfolding strip
strip_idem s =
    let u = drop_while is_space (reverse (drop_while is_space s)) in
    ap (λ t. reverse (drop_while is_space (reverse t))) (strip_front s)
    ∙ ap reverse (
        ap (drop_while is_space) (reverse-reverse u)
        ∙ drop_while_idem is_space (reverse (drop_while is_space s)))

pub text_beq_iff : (s t : Text) → (s == t ≡ true) ↔ (s ≡ t)
text_beq_iff s t = list_beq_iff s t

abbrev pub IsSolid : ℕ → Type 0
IsSolid c = is_space c ≡ false

drop_while_solid : (s : Text) → All IsSolid s → drop_while is_space s ≡ s
unfolding drop_while
drop_while_solid [] h = refl
drop_while_solid (c ∷ s) h = rw h.0

pub All-reverse {ℓ κ} : {A : Type ℓ} (P : A → Type κ) (s : List A) → All P s → All P (reverse s)
All-reverse P [] h = tt
All-reverse P (c ∷ s) h =
    rw (reverse-append (c ∷ []) s)
      (All-append P (reverse s) (c ∷ []) (All-reverse P s h.1) (h.0, tt))

-- A text with no white space is not changed.
pub strip_solid : (s : Text) → All IsSolid s → strip s ≡ s
unfolding strip
strip_solid s h =
    ap (λ t. reverse (drop_while is_space (reverse t))) (drop_while_solid s h)
    ∙ ap reverse (drop_while_solid (reverse s) (All-reverse IsSolid s h))
    ∙ reverse-reverse s
