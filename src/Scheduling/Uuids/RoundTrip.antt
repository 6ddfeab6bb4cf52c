-- ===== src/Scheduling/Uuids/RoundTrip.antt =====
-- UUID(str(id)) is the UUID again.
use mathlib.Core.List.{reverse, reverse-reverse, append_assoc}
use runlet.Prelude.{
  ℕ, zero, suc, ◌+◌, ◌-◌, ◌*◌, ◌/◌, ◌%◌, ◌≤◌, ◌<◌, Bool, true, false, ◌&&◌, ◌||◌, not, ◌≡◌, refl,
  sym, ap, ◌∙◌, Option, none, some, List, [], ◌∷◌, ◌++◌, Text, text, if◌then◌else◌, ltb, leb,
  nat_beq, length, length-append, take, drop, filter, filter-append, is_space, strip, strip_solid,
  IsSolid, All, All-append, All-reverse, list_beq_iff, nat_eq, list_eq, ◌==◌, arith,
}
use runlet.Prelude.Texts.{drop_while}
use runlet.Scheduling.Jobs.Publish.{hex_text, uuid_text}
use runlet.Scheduling.Uuids.Parse.{
  remove_word, is_brace, strip_braces, hex_loop, unprefixed, unsigned, parse_uuid,
}
use runlet.Scheduling.Uuids.Digits.{
  IsHexDigit, hex_text-IsHexDigit, length-hex_text, pow16, hex_loop-hex_text, hex_loop_first,
}

-- A character of str(UUID).
abbrev IsUuidChar : ℕ → Type 0
IsUuidChar c = nat_beq c b'-' || (leb b'0' c && leb c b'9' || leb b'a' c && leb c b'f') ≡ true

All_map {ℓ κ μ} :
    {A : Type ℓ} (P : A → Type κ) (Q : A → Type μ) (xs : List A)
    → ((x : A) → P x → Q x)
    → All P xs
    → All Q xs
All_map P Q [] f h = tt
All_map P Q (x ∷ xs) f h = (f x h.0, All_map P Q xs f h.1)

All-take {ℓ κ} : {A : Type ℓ} (P : A → Type κ) (n : ℕ) (xs : List A) → All P xs → All P (take n xs)
unfolding take
All-take P zero xs h = tt
All-take P (suc n) [] h = tt
All-take P (suc n) (x ∷ xs) h = (h.0, All-take P n xs h.1)

All-drop {ℓ κ} : {A : Type ℓ} (P : A → Type κ) (n : ℕ) (xs : List A) → All P xs → All P (drop n xs)
unfolding drop
All-drop P zero xs h = h
All-drop P (suc n) [] h = tt
All-drop P (suc n) (x ∷ xs) h = All-drop P n xs h.1

take-append-drop {ℓ} : {A : Type ℓ} (n : ℕ) (xs : List A) → take n xs ++ drop n xs ≡ xs
unfolding take drop
take-append-drop zero xs = refl
take-append-drop (suc n) [] = refl
take-append-drop (suc n) (x ∷ xs) = ap (◌∷◌ x) (take-append-drop n xs)

drop-drop {ℓ} : {A : Type ℓ} (n m k : ℕ) (xs : List A) → n + m ≡ k → drop m (drop n xs) ≡ drop k xs
unfolding drop
drop-drop zero m k xs e = let same : m ≡ k = omega arith in ap (λ (i : ℕ). drop i xs) same
drop-drop (suc n) m zero xs e = absurd (omega arith)
drop-drop (suc n) zero (suc k) [] e = refl
drop-drop (suc n) (suc m) (suc k) [] e = refl
drop-drop (suc n) m (suc k) (x ∷ xs) e = drop-drop n m k xs (omega arith)

filter_all {ℓ} :
    {A : Type ℓ} (p : A → Bool) (xs : List A) → All (λ x. p x ≡ true) xs → filter p xs ≡ xs
unfolding filter
filter_all p [] h = refl
filter_all p (x ∷ xs) h = rw (h.0, filter_all p xs h.1)

abbrev not_hyphen : ℕ → Bool
not_hyphen c = not (nat_beq c b'-')

filter_hex : (s : Text) → All IsHexDigit s → filter not_hyphen s ≡ s
filter_hex s h =
    filter_all not_hyphen s
      (All_map IsHexDigit (λ c. not_hyphen c ≡ true) s (λ c k. ground arith) h)

filter_group :
    (s t : Text) → All IsHexDigit s → filter not_hyphen (s ++ (b'-' ∷ t)) ≡ s ++ filter not_hyphen t
filter_group s t h =
    filter-append not_hyphen s (b'-' ∷ t)
    ∙ unfold filter in ap (λ (r : Text). r ++ filter not_hyphen t) (filter_hex s h)

rest_of_group {ℓ} :
    {A : Type ℓ} (n m k : ℕ) (xs : List A) → n + m ≡ k → take m (drop n xs) ++ drop k xs ≡ drop n xs
rest_of_group n m k xs e =
    ap (λ r. take m (drop n xs) ++ r) (sym (drop-drop n m k xs e)) ∙ take-append-drop m (drop n xs)

regroup :
    (h : Text)
    → take 8 h ++ take 4 (drop 8 h) ++ take 4 (drop 12 h) ++ take 4 (drop 16 h) ++ drop 20 h ≡ h
regroup h = simp (
  append_assoc,
  rest_of_group 16 4 20 h (omega arith),
  rest_of_group 12 4 16 h (omega arith),
  rest_of_group 8 4 12 h (omega arith),
  take-append-drop 8 h,
)

-- The groups of digits without the hyphens are the digits.
ungroup :
    (h : Text)
    → All IsHexDigit h
    → filter not_hyphen (
        take 8 h
        ++ (b'-' ∷ take 4 (drop 8 h))
        ++ (b'-' ∷ take 4 (drop 12 h))
        ++ (b'-' ∷ take 4 (drop 16 h))
        ++ (b'-' ∷ drop 20 h))
      ≡ h
unfolding filter
ungroup h k =
    let keep = λ (n m : ℕ).
      filter_hex (take m (drop n h))
        (All-take IsHexDigit m (drop n h) (All-drop IsHexDigit n h k)) in
    simp
      (
        filter-append,
        filter_hex (take 8 h) (All-take IsHexDigit 8 h k),
        keep 8 4,
        keep 12 4,
        keep 16 4,
        filter_hex (drop 20 h) (All-drop IsHexDigit 20 h k),
      )
      (regroup h)

grouped :
    (h : Text)
    → All IsHexDigit h
    → All IsUuidChar (
        take 8 h
        ++ (b'-' ∷ take 4 (drop 8 h))
        ++ (b'-' ∷ take 4 (drop 12 h))
        ++ (b'-' ∷ take 4 (drop 16 h))
        ++ (b'-' ∷ drop 20 h))
grouped h k =
    let chars : All IsUuidChar h = All_map IsHexDigit IsUuidChar h (λ c q. ground arith) k in
    let part = λ (n m : ℕ). All-take IsUuidChar m (drop n h) (All-drop IsUuidChar n h chars) in
    let a = take 8 h in
    let b = b'-' ∷ take 4 (drop 8 h) in
    let c = b'-' ∷ take 4 (drop 12 h) in
    let d = b'-' ∷ take 4 (drop 16 h) in
    All-append IsUuidChar (a ++ b ++ c ++ d) (b'-' ∷ drop 20 h)
      (All-append IsUuidChar (a ++ b ++ c) d
        (All-append IsUuidChar (a ++ b) c
          (All-append IsUuidChar a b (All-take IsUuidChar 8 h chars) (refl, part 8 4))
          (refl, part 12 4))
        (refl, part 16 4))
      (refl, All-drop IsUuidChar 20 h chars)

-- Text with none of the first characters of a word does not hold the word.
remove_word_absent :
    (fuel w : ℕ) (word s : Text)
    → All (λ c. nat_beq c w ≡ false) s
    → remove_word fuel (w ∷ word) s ≡ s
unfolding remove_word take drop runlet.Prelude.list_beq
remove_word_absent zero w word s h = refl
remove_word_absent (suc fuel) w word [] h = refl
remove_word_absent (suc fuel) w word (c ∷ s) h =
    ground (arith, h.0, remove_word_absent fuel w word s h.1)

drop_while_none : (p : ℕ → Bool) (s : Text) → All (λ c. p c ≡ false) s → drop_while p s ≡ s
unfolding drop_while
drop_while_none p [] h = refl
drop_while_none p (c ∷ s) h = rw h.0

strip_braces_none : (s : Text) → All (λ c. is_brace c ≡ false) s → strip_braces s ≡ s
unfolding strip_braces
strip_braces_none s h =
    ap (λ t. reverse (drop_while is_brace (reverse t))) (drop_while_none is_brace s h)
    ∙ ap reverse (drop_while_none is_brace (reverse s) (All-reverse (λ c. is_brace c ≡ false) s h))
    ∙ reverse-reverse s

unsigned-hex_text :
    (s : Text) (n : ℕ)
    → All IsHexDigit s
    → hex_loop s 0 false ≡ some n
    → 1 ≤ length s
    → unsigned s ≡ some n
unfolding unsigned unprefixed
unsigned-hex_text [] n h e l = absurd (omega arith)
unsigned-hex_text (c ∷ []) n h e l = rw (hex_loop_first c [] h.0) (ground (arith, h.0))
unsigned-hex_text (c ∷ d ∷ s) n h e l =
    rw (hex_loop_first c (d ∷ s) h.0) (ground (arith, h.0, h.1.0))

strip_hex : (s : Text) → All IsHexDigit s → strip s ≡ s
unfolding is_space
strip_hex s h = strip_solid s (All_map IsHexDigit IsSolid s (λ c k. ground arith) h)

parse_chars :
    (u hex : Text) (n : ℕ)
    → All IsUuidChar u
    → filter not_hyphen u ≡ hex
    → All IsHexDigit hex
    → length hex ≡ 32
    → hex_loop hex 0 false ≡ some n
    → parse_uuid u ≡ some n
unfolding parse_uuid
parse_chars u hex n chars e digits l value =
    let no_u : All (λ c. nat_beq c b'u' ≡ false) u =
      All_map IsUuidChar (λ c. nat_beq c b'u' ≡ false) u (λ c k. ground arith) chars in
    let no_brace : All (λ c. is_brace c ≡ false) u =
      All_map IsUuidChar (λ c. is_brace c ≡ false) u (λ c k. ground arith) chars in
    rw
      (
        remove_word_absent (length u) b'u' (text "rn:") u no_u,
        remove_word_absent (length u) b'u' (text "uid:") u no_u,
        strip_braces_none u no_brace,
        e,
        l,
        strip_hex hex digits,
      )
      (unsigned-hex_text hex n digits value (omega arith))

-- A UUID is read back from its text.
pub parse_uuid-uuid_text : (id : ℕ) → id < pow16 32 → parse_uuid (uuid_text id) ≡ some id
unfolding uuid_text
parse_uuid-uuid_text id h =
    let digits = hex_text-IsHexDigit 32 id in
    parse_chars (uuid_text id) (hex_text 32 id) id (grouped (hex_text 32 id) digits)
      (ungroup (hex_text 32 id) digits) digits (length-hex_text 32 id) (hex_loop-hex_text 32 id h)
