-- ===== src/Json.antt =====
-- The values that the program reads from and writes to JSON: Python's None, bool, int, float, str,
-- list and dict. A dict is its list of items in insertion order; a float is the text that Python
-- prints for it. `json_dumps` and `json_loads` (src/a2a_superhub/models.py) go through the standard
-- library and give such a value back, so a column that holds JSON text holds the value here.
use Prim.Native.Nat.{◌/◌}
use Prim.Native.Char.{Char, code}
use Prim.Native.String
use a2a_superhub.Prelude.{
  ℕ, zero, suc, ◌%◌, String, Bool, true, false, not, ◌||◌, ◌&&◌, none, some, ◌==◌, eqb, ltb, leb,
  List, [], ◌∷◌, get_elem?, if◌then◌else◌,
}

mutual
  pub data Value : Type 0 where
    null : Value
    bool : Bool → Value
    -- a number below zero is its sign and its absolute value
    int : Bool → ℕ → Value
    real : String → Value
    str : String → Value
    arr : Items → Value
    obj : Fields → Value

  pub data Items : Type 0 where
    no_items : Items
    item : Value → Items → Items

  pub data Fields : Type 0 where
    no_entries : Fields
    entry : String → Value → Fields → Fields

-- `d.get(key)`
unfoldable pub get : Fields → String → Value
get no_entries key = null
get (entry k v rest) key = if k == key then v else get rest key

-- `key in d`
unfoldable pub contains : Fields → String → Bool
contains no_entries key = false
contains (entry k v rest) key = k == key || contains rest key

-- `bool(value)`
unfoldable pub truthy : Value → Bool
truthy null = false
truthy (bool b) = b
truthy (int negative n) = not (eqb n 0)
truthy (real text) = not (text == "0.0" || text == "-0.0")
truthy (str text) = not (text == "")
truthy (arr no_items) = false
truthy (arr (item v vs)) = true
truthy (obj no_entries) = false
truthy (obj (entry k v rest)) = true

-- `a or b`
infixr 30 ◌or◌
unfoldable pub ◌or◌ : Value → Value → Value
unfolding truthy
a or b = if truthy a then a else b

abbrev digits : List String
digits = "0" ∷ "1" ∷ "2" ∷ "3" ∷ "4" ∷ "5" ∷ "6" ∷ "7" ∷ "8" ∷ "9" ∷ []

digit : ℕ → String
digit n = elim (get_elem? digits n) [ none ↦ "" | some text ↦ text ]

decimal_from : ℕ → ℕ → String → String
unfolding digit
decimal_from zero n acc = acc
decimal_from (suc fuel) n acc =
    let acc' = String.◌++◌ (digit (n % 10)) acc in
    let rest = decimal_from fuel (n / 10) acc' in if ltb n 10 then acc' else rest

-- A number in decimal; a number has at most as many digits as one more than its value.
unfoldable pub decimal : ℕ → String
unfolding decimal_from
decimal n = decimal_from (suc n) n ""

-- an integer in decimal
unfoldable pub int_text : Bool → ℕ → String
unfolding decimal
int_text negative n = if negative then String.◌++◌ "-" (decimal n) else decimal n

-- `str(value)`; `repr` prints a list or a dict.
unfoldable pub to_str : (Value → String) → Value → String
unfolding int_text
to_str repr null = "None"
to_str repr (bool b) = if b then "True" else "False"
to_str repr (int negative n) = int_text negative n
to_str repr (real text) = text
to_str repr (str text) = text
to_str repr v = repr v

-- `c.isspace()`
unfoldable pub is_space : Char → Bool
is_space c =
    let n = code c in
    (leb 9 n && leb n 13)
    || (leb 28 n && leb n 32)
    || eqb n 0x85
    || eqb n 0xa0
    || eqb n 0x1680
    || (leb 0x2000 n && leb n 0x200a)
    || eqb n 0x2028
    || eqb n 0x2029
    || eqb n 0x202f
    || eqb n 0x205f
    || eqb n 0x3000

unfoldable pub lstrip : String → String
unfolding is_space
lstrip String.[] = ""
lstrip (String.◌∷◌ c s) = let rest = lstrip s in if is_space c then rest else String.◌∷◌ c s

unfoldable pub rstrip : String → String
unfolding is_space
rstrip String.[] = ""
rstrip (String.◌∷◌ c s) =
    let rest = rstrip s in if is_space c && rest == "" then "" else String.◌∷◌ c rest

-- `text.strip()`
unfoldable pub strip : String → String
unfolding lstrip rstrip
strip text = lstrip (rstrip text)
