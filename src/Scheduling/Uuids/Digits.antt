-- ===== src/Scheduling/Uuids/Digits.antt =====
-- The digits that str(UUID) writes.

use runlet.Prelude.{
  ℕ, zero, suc, ◌+◌, ◌-◌, ◌*◌, ◌/◌, ◌%◌, ◌<◌, Bool, true, false, ◌&&◌, ◌||◌, ◌≡◌, refl, ap, ◌∙◌,
  some, [], ◌∷◌, ◌++◌, Text, if◌then◌else◌, leb, length, length-append, All, All-append, arith,
}
use runlet.Prelude.Json.{hex_digit}
use runlet.Scheduling.Jobs.Publish.{hex_text}
use runlet.Scheduling.Uuids.Parse.{hex_value, hex_loop}

-- A digit from 0 to 9 or from a to f.
abbrev pub IsHexDigit : ℕ → Type 0
IsHexDigit c = leb b'0' c && leb c b'9' || leb b'a' c && leb c b'f' ≡ true

pub hex_text-IsHexDigit : (width n : ℕ) → All IsHexDigit (hex_text width n)
unfolding hex_text
hex_text-IsHexDigit zero n = tt
hex_text-IsHexDigit (suc width) n =
    All-append IsHexDigit (hex_text width (n / 16)) (hex_digit (n % 16) ∷ [])
      (hex_text-IsHexDigit width (n / 16)) (ground arith, tt)

pub length-hex_text : (width n : ℕ) → length (hex_text width n) ≡ width
unfolding hex_text
length-hex_text zero n = refl
length-hex_text (suc width) n =
    length-append (hex_text width (n / 16)) (hex_digit (n % 16) ∷ [])
    ∙ omega (arith, length-hex_text width (n / 16))

-- The powers of 16, by recursion on the exponent.
abbrev pub pow16 : ℕ → ℕ
pow16 zero = 1
pow16 (suc width) = pow16 width * 16

hex_value-hex_digit : (d : ℕ) → d < 16 → hex_value (hex_digit d) ≡ some d
unfolding hex_value
hex_value-hex_digit d h = ground arith

value_of : ℕ → ℕ
value_of c = if leb c b'9' then c - b'0' else c - 87

hex_value_digit : (c : ℕ) → IsHexDigit c → hex_value c ≡ some (value_of c)
unfolding hex_value value_of
hex_value_digit c h = ground arith

-- One more digit after digits that were read.
hex_loop_last :
    (s : Text) (acc d n : ℕ) (after : Bool)
    → d < 16
    → hex_loop s acc after ≡ some n
    → All IsHexDigit s
    → hex_loop (s ++ hex_digit d ∷ []) acc after ≡ some (n * 16 + d)
unfolding hex_loop
hex_loop_last [] acc d n after h e k = rw (hex_value-hex_digit d h) (ground arith)
hex_loop_last (c ∷ s) acc d n after h e k =
    rw (hex_value_digit c k.0)
      (hex_loop_last s (acc * 16 + value_of c) d n false h (rw (hex_value_digit c k.0) at e) k.1)

pub hex_loop-hex_text :
    (width n : ℕ) → n < pow16 width → hex_loop (hex_text width n) 0 false ≡ some n
unfolding hex_text hex_loop
hex_loop-hex_text zero n h = ground arith
hex_loop-hex_text (suc width) n h =
    hex_loop_last (hex_text width (n / 16)) 0 (n % 16) (n / 16) false (omega arith)
      (hex_loop-hex_text width (n / 16) (omega arith)) (hex_text-IsHexDigit width (n / 16))
    ∙ ap some (omega arith)

-- After the first digit, an underscore before it makes no difference.
pub hex_loop_first :
    (c : ℕ) (s : Text) → IsHexDigit c → hex_loop (c ∷ s) 0 true ≡ hex_loop (c ∷ s) 0 false
unfolding hex_loop
hex_loop_first c s h = rw (hex_value_digit c h)
