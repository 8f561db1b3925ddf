-- ===== src/Scripts/Xml.antt =====
-- `System.Xml2Json` of Server/Plugins/Script/main.js, on the elements of an xmldoc document.
pub mod Shape
pub mod Uniform
use Prim.Native.String.{String}
use starfall.Base.{ℕ, suc, ◌==◌, Bool, true, false, not, ◌&&◌, if◌then◌else◌}
use starfall.Scripts.Json.{
  Key, index, name, Json, object, Fields, end, field, has, get, delete, put,
}

-- The children of an element: each with its name, its `attr` and its own children.
pub data Elements : Type 0 where
  no_more : Elements
  child : String → Fields → Elements → Elements → Elements

-- `array.length` in the callback of `eachChild`
abbrev pub count : Elements → ℕ
count no_more = 0
count (child s attr cs rest) = suc (count rest)

abbrev pub single : String → Json → Json
single s v = object (field (name s) v end)

-- The end of the last call: the first element of the name joins those that are numbered.
unfoldable pub collect : String → Fields → Fields
collect s obj = delete (name s) (put (index 0) (single s (get (name s) obj)) obj)

-- What the callback does for the child `v` named `s` at `i` of `n`.
unfoldable pub add_child : ℕ → ℕ → String → Json → Fields → Fields
add_child i n s v obj =
    let numbered = put (index i) (single s v) obj in
    if not (has (name s) obj)
    then put (name s) v obj
    else if suc i == n && has (name s) numbered
    then collect s numbered
    else numbered

-- `recurse(obj, elem)`, for the children from `i` on, of `n`. It turns each child's `attr` into the
-- child's object.
unfoldable pub recurse : ℕ → ℕ → Elements → Fields → Fields
recurse i n no_more obj = obj
recurse i n (child s attr cs rest) obj =
    recurse (suc i) n rest (add_child i n s (object (recurse 0 (count cs) cs attr)) obj)

abbrev pub to_object : Fields → Elements → Json
to_object attr cs = object (recurse 0 (count cs) cs attr)

-- `Xml2Json(document)`
unfoldable pub xml_to_json : Elements → Json
xml_to_json cs = to_object end cs
