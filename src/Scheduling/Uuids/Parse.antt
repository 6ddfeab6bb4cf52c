-- ===== src/Scheduling/Uuids/Parse.antt =====
-- uuid.UUID(text): the number that a text in one of the accepted forms stands for.
use runlet.Prelude.{
  ℕ, zero, suc, ◌+◌, ◌-◌, ◌*◌, Bool, true, false, ◌&&◌, ◌||◌, not, Option, none, some, [], ◌∷◌,
  Text, text, if◌then◌else◌, leb, nat_beq, ◌==◌, nat_eq, list_eq, filter, strip, length, drop, take,
}
use mathlib.Core.List.{reverse}
use runlet.Prelude.Texts.{drop_while}

-- text.replace(word, ""), for a word that is not empty; the fuel is the length of the text.
unfoldable pub remove_word : ℕ → Text → Text → Text
remove_word zero word s = s
remove_word (suc fuel) word [] = []
remove_word (suc fuel) word (c ∷ s) =
    let cut = remove_word fuel word (drop (length word) (c ∷ s)) in
    let kept = c ∷ remove_word fuel word s in
    if take (length word) (c ∷ s) == word then cut else kept

abbrev pub is_brace : ℕ → Bool
is_brace c = nat_beq c b'{' || nat_beq c b'}'

-- text.strip("{}")
unfoldable pub strip_braces : Text → Text
unfolding drop_while
strip_braces s = reverse (drop_while is_brace (reverse (drop_while is_brace s)))

-- The value of a hexadecimal digit.
unfoldable pub hex_value : ℕ → Option ℕ
hex_value c =
    if leb b'0' c && leb c b'9'
    then some (c - b'0')
    else if leb b'a' c && leb c b'f'
    then some (c - 87)
    else if leb b'A' c && leb c b'F'
    then some (c - 55)
    else none

-- The digits of an int literal in base 16, with single underscores between them.
abbrev pub hex_step : (ℕ → Bool → Option ℕ) → ℕ → Bool → ℕ → Option ℕ → Option ℕ
hex_step rest acc after_underscore c (some d) = rest (acc * 16 + d) false
hex_step rest acc after_underscore c none =
    if nat_beq c b'_' && not after_underscore then rest acc true else none

unfoldable pub hex_loop : Text → ℕ → Bool → Option ℕ
unfolding hex_value
hex_loop [] acc after_underscore = if after_underscore then none else some acc
hex_loop (c ∷ s) acc after_underscore = hex_step (hex_loop s) acc after_underscore c (hex_value c)

-- After the prefix `0x` one underscore may stand; without it, the first is a digit.
abbrev pub after_prefix : Text → Option ℕ
unfolding hex_loop
after_prefix [] = none
after_prefix (c ∷ s) = hex_loop (c ∷ s) 0 false

unfoldable pub unprefixed : Text → Option ℕ
unfolding hex_loop
unprefixed (c ∷ (d ∷ s)) =
    if nat_beq c b'0' && (nat_beq d b'x' || nat_beq d b'X')
    then after_prefix s
    else hex_loop (c ∷ (d ∷ s)) 0 true
unprefixed s = hex_loop s 0 true

-- int(text, 16) for a text with no hyphen; digits of other scripts are left out.
unfoldable pub unsigned : Text → Option ℕ
unfolding unprefixed
unsigned [] = none
unsigned (c ∷ s) = if nat_beq c b'+' then unprefixed s else unprefixed (c ∷ s)

-- UUID(text): none is the ValueError.
unfoldable pub parse_uuid : Text → Option ℕ
unfolding remove_word strip_braces filter strip unsigned
parse_uuid s =
    let without_urn = remove_word (length s) (text "urn:") s in
    let without_uuid = remove_word (length without_urn) (text "uuid:") without_urn in
    let hex = filter (λ c. not (nat_beq c b'-')) (strip_braces without_uuid) in
    if nat_beq (length hex) 32 then unsigned (strip hex) else none
