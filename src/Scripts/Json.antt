-- ===== src/Scripts/Json.antt =====
-- The values of the scripts: JSON data, and objects with their properties in the order in which
-- `for(prop in obj)` goes through them, where the keys that are numbers come first, ascending.
pub mod Lookup
use Prim.Native.String.{String}
use text.Mathlib.Text
use starfall.Base.{ℕ, ltb, ◌==◌, Bool, true, false, if◌then◌else◌}

-- The key of a property: a number, which JavaScript writes as its digits, or another text.
pub data Key : Type 0 where
  index : ℕ → Key
  name : String → Key

mutual
  pub data Json : Type 0 where
    undefined null : Json
    boolean : Bool → Json
    number : ℕ → Json
    string : String → Json
    array : Items → Json
    object : Fields → Json

  pub data Items : Type 0 where
    nil : Items
    cons : Json → Items → Items

  pub data Fields : Type 0 where
    end : Fields
    field : Key → Json → Fields → Fields

abbrev pub same_key : Key → Key → Bool
same_key (index i) (index j) = i == j
same_key (name s) (name t) = Text.◌==◌ s t
same_key _ _ = false

-- `obj.hasOwnProperty(k)`
unfoldable pub has : Key → Fields → Bool
has k end = false
has k (field j v fs) = if same_key j k then true else has k fs

-- `obj[k]`
unfoldable pub get : Key → Fields → Json
get k end = undefined
get k (field j v fs) = if same_key j k then v else get k fs

-- `delete obj[k]`
unfoldable pub delete : Key → Fields → Fields
delete k end = end
delete k (field j v fs) = let rest = delete k fs in if same_key j k then fs else field j v rest

-- A new number goes behind the smaller ones, and a new text to the end.
abbrev pub comes_first : Key → Key → Bool
comes_first (index i) (index j) = ltb i j
comes_first (index i) (name t) = true
comes_first (name s) _ = false

-- `obj[k] = v`
unfoldable pub put : Key → Json → Fields → Fields
put k v end = field k v end
put k v (field j w fs) =
    let rest = put k v fs in
    if same_key j k
    then field j v fs
    else if comes_first k j
    then field k v (field j w fs)
    else field j w rest
