-- ===== src/Prelude/Json.antt =====
-- Python's json.dumps with sorted keys, as far as the program calls it: `ensure_ascii` and the two
-- separators are parameters. A float is written by its repr.
use Prim.Native.Nat.{ℕ, ◌+◌, ◌-◌, ◌/◌, ◌%◌}
use mathlib.Core.Bool.{Bool, true, false, ◌&&◌, not}
use mathlib.Core.List.{List, [], ◌∷◌, ◌++◌, map}
use runlet.Prelude.Tests.{if◌then◌else◌, ltb, nat_beq}
use runlet.Prelude.Texts.{Text, text}
use runlet.Prelude.Values.{
  Value, Items, Fields, null, bool, int, float, str, list, dict, nil, cons, end, field, show_int,
}
use runlet.Prelude.Sort.{sort, text_leb}

abbrev pub hex_digit : ℕ → ℕ
hex_digit n = if ltb n 10 then n + b'0' else n + 87

-- \uXXXX
hex_escape : ℕ → Text
hex_escape n =
    text "\\u"
    ++ (hex_digit (n / 4096 % 16)
        ∷ (hex_digit (n / 256 % 16) ∷ (hex_digit (n / 16 % 16) ∷ (hex_digit (n % 16) ∷ []))))

-- One code point of a text, with the surrogate pair of those past 0xffff.
escape_char : Bool → ℕ → Text
unfolding hex_escape
escape_char ascii c =
    if nat_beq c b'"'
    then 92 ∷ 34 ∷ []
    else if nat_beq c 92
    then 92 ∷ 92 ∷ []
    else if nat_beq c 10
    then text "\\n"
    else if nat_beq c 13
    then text "\\r"
    else if nat_beq c 9
    then text "\\t"
    else if nat_beq c 12
    then text "\\f"
    else if nat_beq c 8
    then text "\\b"
    else if ltb c 32
    then hex_escape c
    else if not (ascii && ltb 126 c)
    then c ∷ []
    else if ltb c 0x10000
    then hex_escape c
    else hex_escape (0xd800 + (c - 0x10000) / 1024) ++ hex_escape (0xdc00 + (c - 0x10000) % 1024)

escape : Bool → Text → Text
unfolding escape_char
escape ascii [] = []
escape ascii (c ∷ s) = escape_char ascii c ++ escape ascii s

unfoldable pub quote : Bool → Text → Text
unfolding escape
quote ascii s = 34 ∷ (escape ascii s ++ 34 ∷ [])

-- separator.join(parts)
unfoldable pub join : Text → List Text → Text
join separator [] = []
join separator (x ∷ []) = x
join separator (x ∷ y ∷ xs) = x ++ (separator ++ join separator (y ∷ xs))

-- The style of a call: ensure_ascii, the item separator and the key separator.
pub record Style : Type 0 where
  pub ensure_ascii : Bool
  pub item_separator : Text
  pub key_separator : Text

-- A key and a value that is written already.
abbrev write_pair : Style → Text × Text → Text
write_pair style (key, written) = quote style.ensure_ascii key ++ (style.key_separator ++ written)

abbrev key_leb : Text × Text → Text × Text → Bool
key_leb (key, _) (other, _) = text_leb key other

unfoldable mutual
  unfolding quote join

  pub dumps : Style → Value → Text
  dumps style null = text "null"
  dumps style (bool true) = text "true"
  dumps style (bool false) = text "false"
  dumps style (int n) = show_int n
  dumps style (float r) = r
  dumps style (str s) = quote style.ensure_ascii s
  dumps style (list _ xs) =
      text "[" ++ (join style.item_separator (dump_items style xs) ++ text "]")
  dumps style (dict _ fs) =
      text "{"
      ++ (join style.item_separator (map (write_pair style) (sort key_leb (dump_fields style fs)))
          ++ text "}")

  pub dump_items : Style → Items → List Text
  dump_items style nil = []
  dump_items style (cons x xs) = dumps style x ∷ dump_items style xs

  pub dump_fields : Style → Fields → List (Text × Text)
  dump_fields style end = []
  dump_fields style (field k v fs) = (k, dumps style v) ∷ dump_fields style fs

-- json.dumps(value, ensure_ascii=False, sort_keys=True)
unfoldable pub dumps_plain : Value → Text
unfolding dumps
dumps_plain value =
    dumps (record { ensure_ascii = false; item_separator = text ", "; key_separator = text ": " })
      value

-- json.dumps(value, ensure_ascii=True, sort_keys=True, separators=(",", ":"))
unfoldable pub dumps_compact_ascii : Value → Text
unfolding dumps
dumps_compact_ascii value =
    dumps (record { ensure_ascii = true; item_separator = text ","; key_separator = text ":" })
      value

-- json.dumps(value, ensure_ascii=False, sort_keys=True, separators=(",", ":"))
unfoldable pub dumps_compact : Value → Text
unfolding dumps
dumps_compact value =
    dumps (record { ensure_ascii = false; item_separator = text ","; key_separator = text ":" })
      value
