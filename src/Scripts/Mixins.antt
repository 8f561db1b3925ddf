-- ===== src/Scripts/Mixins.antt =====
-- Server/Plugins/Common/mixins.js: `eachObject`, `arrayToObject` and `objectToArray`. A call of a callback is an entry
-- of a list of its arguments, in the order of the calls.
pub mod RoundTrip
use Prim.Native.Char.{code}
use Prim.Native.String.{String}
use starfall.Base.{
  ℕ, suc, ◌+◌, ◌==◌, leb, List, [], ◌∷◌, ◌++◌, Bool, true, false, ◌&&◌, ◌||◌, Option, none, some,
  if◌then◌else◌, ◌≡◌,
}
use starfall.Scripts.Json.{
  Key, index, name, Json, undefined, null, number, string, array, object, Items, nil, cons, Fields,
  end, field,
}

-- What `eachObject` relies on of Underscore: which element and key `_.some` hands to its function
-- first. A function that returns true gets no other.
pub record Underscore : Type 0 where
  pub some_first : Json → Option (Json × Key)
  pub some_first-object :
      (k : Key) (v : Json) (fs : Fields) → some_first (object (field k v fs)) ≡ some (v, k)

abbrev pub codes : String → List ℕ
codes String.[] = []
codes (String.◌∷◌ c s) = code c ∷ codes s

abbrev pub is_digit : ℕ → Bool
is_digit c = leb b'0' c && leb c b'9'

abbrev pub is_hex_digit : ℕ → Bool
is_hex_digit c = is_digit c || (leb b'a' c && leb c b'f') || (leb b'A' c && leb c b'F')

abbrev pub is_space : ℕ → Bool
is_space c = (leb 9 c && leb c 13) || c == 32 || c == 160

-- `!isNaN(parseInt(s))`: white space, a sign, and a digit or 0x with a hexadecimal one.
abbrev pub parses_digits : List ℕ → Bool
parses_digits [] = false
parses_digits (c ∷ []) = is_digit c
parses_digits (c ∷ (d ∷ [])) = if c == b'0' && (d == b'x' || d == b'X') then false else is_digit c
parses_digits (c ∷ (d ∷ (e ∷ cs))) =
    if c == b'0' && (d == b'x' || d == b'X') then is_hex_digit e else is_digit c

abbrev pub parses_sign : List ℕ → Bool
parses_sign [] = false
parses_sign (c ∷ cs) = if c == b'+' || c == b'-' then parses_digits cs else parses_digits (c ∷ cs)

unfoldable pub parses_int : List ℕ → Bool
parses_int [] = false
parses_int (c ∷ cs) = let rest = parses_int cs in if is_space c then rest else parses_sign (c ∷ cs)

unfoldable pub is_index : Key → Bool
is_index (index i) = true
is_index (name s) = parses_int (codes s)

-- `typeof v === "object"`
unfoldable pub is_object : Json → Bool
is_object null = true
is_object (array xs) = true
is_object (object fs) = true
is_object _ = false

abbrev pub one_call : Option (Json × Key) → List (Json × Key)
one_call none = []
one_call (some (v, k)) = (v, k) ∷ []

module _ (u : Underscore) where
  -- The body of the loop for a property, of a number or of another key.
  abbrev pub calls_of : Bool → Key → Json → List (Json × Key)
  calls_of true k v = one_call (u.some_first v)
  calls_of false k v = if is_object v then (v, k) ∷ [] else []

  unfoldable pub each_field : Fields → List (Json × Key)
  each_field end = []
  each_field (field k v fs) = calls_of (is_index k) k v ++ each_field fs

  unfoldable pub each_item : Items → List (Json × Key)
  each_item nil = []
  each_item (cons v xs) = one_call (u.some_first v) ++ each_item xs

  -- `eachObject(obj, func)`
  unfoldable pub each_object : Json → List (Json × Key)
  each_object (object fs) = each_field fs
  each_object (array xs) = each_item xs
  each_object _ = []

-- `objectToArray(obj)`. In `{ key : value }`, the key is the word.
unfoldable pub array_of : List (Json × Key) → Items
array_of [] = nil
array_of ((v, k) ∷ calls) = cons (object (field (name "key") v end)) (array_of calls)

abbrev pub object_to_array : Underscore → Json → Json
object_to_array u v = array (array_of (each_object u v))

unfoldable mutual
  -- `arrayToObject`: an array of one element becomes that element, and a longer one an object with
  -- the keys 0, 1 and so on.
  pub array_to_object : Json → Json
  array_to_object (array nil) = undefined
  array_to_object (array (cons x nil)) = x
  array_to_object (array (cons x (cons y xs))) = object (
      field (index 0) (array_to_object x)
        (field (index 1) (array_to_object y) (indexed_fields 2 xs)))
  array_to_object v = v

  pub indexed_fields : ℕ → Items → Fields
  indexed_fields i nil = end
  indexed_fields i (cons x xs) = field (index i) (array_to_object x) (indexed_fields (suc i) xs)
