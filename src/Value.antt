-- ===== src/Value.antt =====
-- The values of a parsed JSON body and of the dictionaries that the program builds from them, with
-- the readings `app/events` makes of them: `dict.get`, `isinstance` and `in`.
use ssf_transmitter.Prelude.{
  Bool, List, Option, String, [], arith, eq_iff, false, if◌then◌else◌, is_empty, nat_eq, none, not,
  refl, some, string_eq, true, truthy, ℕ, ◌&&◌, ◌==◌, ◌||◌, ◌∷◌, ◌≡◌,
}

-- `int` is a natural number; `number` is any other number, by its text. `bytes` occurs only where
-- a caller passes Python bytes in place of a parsed text.
mutual
  pub data Value : Type 0 where
    null : Value
    boolean : Bool → Value
    int : ℕ → Value
    number : String → Value
    text : String → Value
    bytes : List ℕ → Value
    arr : Items → Value
    obj : Fields → Value

  -- A dictionary, in insertion order.
  pub data Fields : Type 0 where
    field : String → Value → Fields → Fields
    end : Fields

  pub data Items : Type 0 where
    cons : Value → Items → Items
    nil : Items

-- `d.get(key)`: a key that is absent and a key that holds `None` read alike.
unfoldable pub get : Fields → String → Value
get end key = null
get (field k v d) key = if k == key then v else get d key

-- `d.get(key, default)`, which tells an absent key from one that holds `None`.
unfoldable pub get_or : Fields → String → Value → Value
get_or end key default = default
get_or (field k v d) key default = if k == key then v else get_or d key default

-- `key in d`
unfoldable pub has_key : Fields → String → Bool
has_key end key = false
has_key (field k v d) key = k == key || has_key d key

-- Whether Python takes a value for true. A number that is not a natural is false as a float zero.
unfoldable pub is_true : Value → Bool
is_true null = false
is_true (boolean b) = b
is_true (int n) = not (n == 0)
is_true (number t) = not (t == "0.0" || t == "-0.0")
is_true (text s) = truthy s
is_true (bytes bs) = not (is_empty bs)
is_true (arr nil) = false
is_true (arr (cons _ _)) = true
is_true (obj end) = false
is_true (obj (field _ _ _)) = true

-- `isinstance(value, int) and not isinstance(value, bool)`, of a value that is not negative.
abbrev pub as_int : Value → Option ℕ
as_int (int n) = some n
as_int _ = none

abbrev pub as_dict : Value → Option Fields
as_dict (obj d) = some d
as_dict _ = none

-- `value == "..."`
abbrev pub is_text : Value → String → Bool
is_text (text s) t = s == t
is_text _ t = false

-- `isinstance(value, str)`
abbrev pub is_str : Value → Bool
is_str (text s) = true
is_str _ = false

abbrev pub is_null : Value → Bool
is_null null = true
is_null _ = false

-- `"..." in items`
unfoldable pub contains : Items → String → Bool
contains nil s = false
contains (cons v vs) s = is_text v s || contains vs s

-- A list of texts as a value, and back.
unfoldable pub items_of : List String → Items
items_of [] = nil
items_of (s ∷ ss) = cons (text s) (items_of ss)

-- `items == texts`, where the right side is a list of texts.
unfoldable pub items_eq : Items → List String → Bool
items_eq nil [] = true
items_eq nil (s ∷ ss) = false
items_eq (cons v vs) [] = false
items_eq (cons v vs) (s ∷ ss) = is_text v s && items_eq vs ss

-- `all(isinstance(v, str) for v in items)`
unfoldable pub all_str : Items → Bool
all_str nil = true
all_str (cons v vs) = is_str v && all_str vs

pub all_str-items_of : (ss : List String) → all_str (items_of ss) ≡ true
unfolding all_str items_of
all_str-items_of [] = refl
all_str-items_of (s ∷ ss) = all_str-items_of ss

pub items_eq-items_of : (ss : List String) → items_eq (items_of ss) ss ≡ true
unfolding items_eq items_of
items_eq-items_of [] = refl
items_eq-items_of (s ∷ ss) = ground (arith, eq_iff s s, items_eq-items_of ss)

-- A list value that equals a list of texts is that list.
pub items_eq_sound : (vs : Items) (ss : List String) → items_eq vs ss ≡ true → vs ≡ items_of ss
unfolding items_eq items_of
items_eq_sound nil [] h = refl
items_eq_sound nil (s ∷ ss) h = cc
items_eq_sound (cons v vs) [] h = cc
items_eq_sound (cons (text t) vs) (s ∷ ss) h = ground (arith, eq_iff t s, items_eq_sound vs ss)
items_eq_sound (cons _ vs) (s ∷ ss) h = cc
