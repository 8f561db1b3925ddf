-- ===== src/Web/Colors/Reading.antt =====
-- Reading back the colors that `toHex` of components.appearance.js writes.
use starfall.Base.{
  ℕ, zero, suc, ◌+◌, ◌-◌, ◌*◌, ◌/◌, ◌%◌, ◌<◌, ltb, ◌≡◌, refl, ap₂, ◌∙◌, List, [], ◌∷◌, ◌++◌, Option,
  none, some, if◌then◌else◌, ℤ, pos, arith, inl, inr, Bool-cases,
}
use starfall.Web.Colors.{digit, digits}

abbrev pub value_of : ℕ → ℕ
value_of c = if ltb c 58 then c - 48 else c - 87

value_of-digit : (d : ℕ) → d < 16 → value_of (digit d) ≡ d
value_of-digit d h = ground (arith, h)

-- The number of a row of digits.
abbrev pub read_digits : ℕ → List ℕ → ℕ
read_digits acc [] = acc
read_digits acc (c ∷ cs) = read_digits (acc * 16 + value_of c) cs

read_digits-append :
    (acc : ℕ) (s : List ℕ) (c : ℕ)
    → read_digits acc (s ++ (c ∷ [])) ≡ read_digits acc s * 16 + value_of c
read_digits-append acc [] c = refl
read_digits-append acc (d ∷ s) c = read_digits-append (acc * 16 + value_of d) s c

-- Any fuel above the number gives all digits of it.
pub read_digits-digits : (fuel n : ℕ) → n < fuel → read_digits 0 (digits fuel n) ≡ n
unfolding digits
read_digits-digits zero n h = absurd (omega (arith, h))
read_digits-digits (suc fuel) n h = elim (Bool-cases (ltb n 16)) [
  | inl e ↦ rw e (omega (arith, value_of-digit n (ground (arith, e))))
  | inr e ↦ rw e (
      read_digits-append 0 (digits fuel (n / 16)) (digit (n % 16))
      ∙ ap₂ (λ a b. a * 16 + b) (read_digits-digits fuel (n / 16) (ground (arith, e, h)))
          (value_of-digit (n % 16) (omega arith))
      ∙ omega arith)
]

-- A channel: what `parseInt` makes of it, with 0 for NaN.
abbrev pub byte_of : Option ℕ → ℕ
byte_of none = 0
byte_of (some n) = n

abbrev pub parsed : Option ℕ → Option ℤ
parsed none = none
parsed (some n) = some (pos n)

-- A color of a style sheet: `#` and six digits.
abbrev pub read_color : List ℕ → Option (ℕ × (ℕ × ℕ))
read_color (h ∷ (a ∷ (b ∷ (c ∷ (d ∷ (e ∷ (f ∷ []))))))) =
    some
      (read_digits 0 (a ∷ (b ∷ [])), (read_digits 0 (c ∷ (d ∷ [])), read_digits 0 (e ∷ (f ∷ []))))
read_color s = none
