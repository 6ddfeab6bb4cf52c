-- ===== src/Prelude/Values.antt =====
-- Python's dynamic values, as far as the program looks into them: what JSON columns, payloads and
-- `object` parameters hold. A float is given by its repr. A list or a dict carries the text that
-- `str()` gives for it, which matters only where a container stands in the place of a text.
use Prim.Native.Nat.{ℕ, zero, suc, ◌+◌, ◌/◌, ◌%◌}
use mathlib.Core.Path.{◌≡◌, refl, ap}
use mathlib.Core.Bool.{Bool, true, false}
use mathlib.Core.Option.{Option, none, some}
use mathlib.Core.List.{List, [], ◌∷◌, ◌++◌, map}
use runlet.Prelude.Tests.{ltb, if◌then◌else◌}
use runlet.Prelude.Dicts.{Dict, lookup, get_or}
use runlet.Prelude.Equality.{list_eq, nat_eq}
use runlet.Prelude.Texts.{Text, text, strip}
use runlet.Prelude.Results.{Result, ok, raise}

-- `negsuc n` is -(n + 1).
pub data ℤ : Type 0 where
  pos : ℕ → ℤ
  negsuc : ℕ → ℤ

mutual
  pub data Value : Type 0 where
    null : Value
    bool : Bool → Value
    int : ℤ → Value
    float : Text → Value
    str : Text → Value
    list : Text → Items → Value
    dict : Text → Fields → Value

  pub data Items : Type 0 where
    nil : Items
    cons : Value → Items → Items

  pub data Fields : Type 0 where
    end : Fields
    field : Text → Value → Fields → Fields

-- The least significant digit first; the fuel is above the number.
unfoldable pub digits_rev : ℕ → ℕ → Text
digits_rev zero n = []
digits_rev (suc f) n =
    let rest = ((n % 10) + b'0') ∷ digits_rev f (n / 10) in
    if ltb n 10 then (n + b'0') ∷ [] else rest

-- str(n) of a natural number, in decimal.
unfoldable pub show_nat : ℕ → Text
unfolding digits_rev
show_nat n = mathlib.Core.List.reverse (digits_rev (suc n) n)

unfoldable pub show_int : ℤ → Text
unfolding show_nat
show_int (pos n) = show_nat n
show_int (negsuc n) = b'-' ∷ show_nat (n + 1)

-- str(value)
unfoldable pub py_str : Value → Text
unfolding show_int
py_str null = text "None"
py_str (bool true) = text "True"
py_str (bool false) = text "False"
py_str (int n) = show_int n
py_str (float r) = r
py_str (str s) = s
py_str (list s _) = s
py_str (dict s _) = s

-- "" if value is None else str(value).strip()
unfoldable pub normalize_text : Value → Text
unfolding py_str strip
normalize_text null = []
normalize_text value = strip (py_str value)

unfoldable pub from_items : Items → List Value
from_items nil = []
from_items (cons x xs) = x ∷ from_items xs

unfoldable pub to_items : List Value → Items
to_items [] = nil
to_items (x ∷ xs) = cons x (to_items xs)

unfoldable pub from_fields : Fields → Dict Text Value
from_fields end = []
from_fields (field k v fs) = (k, v) ∷ from_fields fs

pub from_items-to_items : (xs : List Value) → from_items (to_items xs) ≡ xs
unfolding from_items to_items
from_items-to_items [] = refl
from_items-to_items (x ∷ xs) = ap (◌∷◌ x) (from_items-to_items xs)

pub data TypeError : Type 0 where
  not_iterable : TypeError

-- `for x in value`: a list gives its items, a str its code points, a dict its keys.
unfoldable pub iterate : Value → Result TypeError (List Value)
unfolding from_items from_fields
iterate (list _ xs) = ok (from_items xs)
iterate (str s) = ok (map (λ c. str (c ∷ [])) s)
iterate (dict _ fs) = ok (map (λ e. str e.0) (from_fields fs))
iterate _ = raise not_iterable

-- value.get(key), None if it is not there; only a dict is asked.
abbrev pub field_of : Text → Value → Value
field_of key (dict _ fields) = get_or null (lookup key (from_fields fields))
field_of key _ = null

-- None for a column that is NULL.
abbrev pub column : Option Text → Value
column none = null
column (some s) = str s

-- A list or a dict that the program builds carries no text of its own: nothing asks for it.
unfoldable pub to_fields : Dict Text Value → Fields
to_fields [] = end
to_fields ((key, value) ∷ d) = field key value (to_fields d)

abbrev pub new_dict : Dict Text Value → Value
new_dict d = dict [] (to_fields d)

abbrev pub new_list : List Value → Value
new_list xs = list [] (to_items xs)
