-- ===== src/Network/Runtime.antt =====
-- What Network.js takes from .NET and Unity: text in ASCII, the parsing of bytes, and
-- single-precision floats, which are values of an abstract type.
use Prim.Native.Char.{code}
use Prim.Native.String.{String}
use starfall.Base.{
  ℕ, ◌%◌, ◌^◌, ◌<◌, ◌≡◌, Bool, List, [], ◌∷◌, length, All, ltb, if◌then◌else◌, Option, none, some,
}

-- A string is the list of its UTF-16 code units.
abbrev pub Text : Type 0
Text = List ℕ

-- The code units of a literal.
abbrev pub text : String → Text
text String.[] = []
text (String.◌∷◌ c s) = code c ∷ text s

abbrev pub IsByte : ℕ → Type 0
IsByte b = b < 256

abbrev pub IsAscii : ℕ → Type 0
IsAscii c = c < 128

-- Assignment to a `uint` variable.
abbrev pub u32 : ℕ → ℕ
u32 n = n % 2 ^ 32

abbrev pub IsUint : ℕ → Type 0
IsUint n = n < 2 ^ 32

-- `Encoding.ASCII.GetBytes` at one character: what is not ASCII becomes a question mark.
abbrev pub ascii_byte : ℕ → ℕ
ascii_byte c = if ltb c 128 then c else b'?'

-- `Encoding.ASCII.GetChars` at one byte.
abbrev pub ascii_char : ℕ → ℕ
ascii_char b = if ltb b 128 then b else b'?'

-- `byte.TryParse(n.ToString(), b)`: the digits of a number are a byte's if it is below 256.
abbrev pub try_parse_byte : ℕ → Option ℕ
try_parse_byte n = if ltb n 256 then some n else none

-- The type `float` with `System.BitConverter`, and what their documentation says.
pub record Floats (F : Type 0) : Type 0 where
  pub zero_float : F
  pub one_float : F
  pub is_little_endian : Bool
  pub get_bytes : F → List ℕ
  pub to_single : List ℕ → F
  pub length-get_bytes : (f : F) → length (get_bytes f) ≡ 4
  pub get_bytes-IsByte : (f : F) → All IsByte (get_bytes f)
  pub to_single-get_bytes : (f : F) → to_single (get_bytes f) ≡ f

pub record Vector3 (F : Type 0) : Type 0 where
  pub x : F
  pub y : F
  pub z : F

pub record Quaternion (F : Type 0) : Type 0 where
  pub x : F
  pub y : F
  pub z : F
  pub w : F

module _ {F : Type 0} (fl : Floats F) where
  abbrev pub vector3_zero : Vector3 F
  vector3_zero = record { x = fl.zero_float; y = fl.zero_float; z = fl.zero_float }

  abbrev pub quaternion_identity : Quaternion F
  quaternion_identity = record {
    x = fl.zero_float;
    y = fl.zero_float;
    z = fl.zero_float;
    w = fl.one_float;
  }
