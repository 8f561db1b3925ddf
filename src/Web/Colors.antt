-- ===== src/Web/Colors.antt =====
-- `Color.toHex` of Server/Plugins/Web/app/components.appearance.js, on what `parseInt` makes of the three
-- values, where `none` is NaN.
pub mod Reading
use starfall.Base.{
  ℕ, zero, suc, ◌+◌, ◌/◌, ◌%◌, ◌==◌, ltb, List, [], ◌∷◌, ◌++◌, length, Bool, true, false, Option,
  none, some, if◌then◌else◌, ℤ, pos, negsuc, ◌-◌,
}

abbrev pub digit : ℕ → ℕ
digit d = if ltb d 10 then b'0' + d else b'a' + d - 10

-- The digits of `n` in base 16, which are fewer than `fuel`.
unfoldable pub digits : ℕ → ℕ → List ℕ
digits zero n = []
digits (suc fuel) n =
    let front = digits fuel (n / 16) in
    if ltb n 16 then digit n ∷ [] else front ++ (digit (n % 16) ∷ [])

-- `toString(16)`
abbrev pub to_string_16 : ℤ → List ℕ
to_string_16 (pos n) = digits (suc n) n
to_string_16 (negsuc n) = b'-' ∷ digits (suc (suc n)) (suc n)

abbrev pub or_zero : Option ℤ → ℤ
or_zero none = pos 0
or_zero (some n) = n

abbrev pub padded : List ℕ → List ℕ
padded s = if length s == 1 then b'0' ∷ s else s

-- The body of the loop of `toHex`.
unfoldable pub channel : Option ℤ → List ℕ
channel v = padded (to_string_16 (or_zero v))

-- `toHex`
unfoldable pub to_hex : Option ℤ → Option ℤ → Option ℤ → List ℕ
to_hex red green blue = b'#' ∷ (channel red ++ (channel green ++ channel blue))
