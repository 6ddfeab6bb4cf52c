-- ===== src/Prelude/Search.antt =====
-- More of Python's `str`: lower, `in`, startswith; and the truth of a dynamic value.
use runlet.Prelude.Tests.{leb, nat_beq, if◌then◌else◌}
use runlet.Prelude.Equality.{◌==◌, nat_eq, list_eq}
use runlet.Prelude.Lists.{is_empty}
use runlet.Prelude.Texts.{Text, text}
use runlet.Prelude.Values.{
  Value, pos, negsuc, null, bool, int, float, str, list, dict, nil, cons, end, field, py_str,
}
use Prim.Native.Nat.{ℕ, zero, suc, ◌+◌}
use mathlib.Core.Bool.{Bool, true, false, ◌&&◌, ◌||◌, not}
use mathlib.Core.List.{[], ◌∷◌, map}

-- Of the letters, those of ASCII and of Latin-1 are lowered; other scripts are left as they are.
unfoldable pub lower_char : ℕ → ℕ
lower_char c =
    if leb b'A' c && leb c b'Z' || leb 0xc0 c && leb c 0xde && not (nat_beq c 0xd7)
    then c + 32
    else c

-- str.lower()
unfoldable pub lower : Text → Text
unfolding lower_char
lower s = map lower_char s

-- s.startswith(part)
unfoldable pub starts_with : Text → Text → Bool
starts_with [] s = true
starts_with (c ∷ part) [] = false
starts_with (c ∷ part) (d ∷ s) = nat_beq c d && starts_with part s

-- part in s
unfoldable pub has_part : Text → Text → Bool
unfolding starts_with
has_part part [] = is_empty part
has_part part (c ∷ s) = starts_with part (c ∷ s) || has_part part s

-- bool(value); a float is zero by its repr.
abbrev pub truthy : Value → Bool
truthy null = false
truthy (bool b) = b
truthy (int (pos zero)) = false
truthy (int (pos (suc n))) = true
truthy (int (negsuc n)) = true
truthy (float r) = not (r == text "0.0" || r == text "-0.0")
truthy (str s) = not (is_empty s)
truthy (list _ nil) = false
truthy (list _ (cons x xs)) = true
truthy (dict _ end) = false
truthy (dict _ (field k v fs)) = true

-- str(value or "")
unfoldable pub str_or_empty : Value → Text
unfolding py_str
str_or_empty value = if truthy value then py_str value else []
