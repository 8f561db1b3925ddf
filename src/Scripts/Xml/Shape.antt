-- ===== src/Scripts/Xml/Shape.antt =====
-- How the properties of an object stand while its children are added.
use Prim.Native.String.{String}
use text.Mathlib.Text
use text.Mathlib.TextPositions.{eq_refl}
use starfall.Base.{
  ℕ, suc, ◌+◌, ◌≡◌, refl, ap, ◌∙◌, List, [], ◌∷◌, ◌++◌, length, true, false, arith, map,
}
use starfall.Scripts.Json.{index, name, Json, Fields, end, field, has, get, delete, put}
use starfall.Scripts.Mixins.{
  Underscore, codes, parses_int, is_index, is_object, one_call, each_field,
}
use starfall.Scripts.Xml.{single, collect}

-- Attributes: texts under names that are no numbers, none of them called `s`.
abbrev pub Plain : String → Fields → Type 0
Plain s end = Unit {0}
Plain s (field (index i) v fs) = ⊥
Plain s (field (name t) v fs) =
    (Text.◌==◌ t s ≡ false) × (parses_int (codes t) ≡ false) × (is_object v ≡ false) × Plain s fs

-- The attributes with the first child behind them, and the later children, from `i` on, before them.
abbrev pub with_first : String → Json → Fields → Fields
with_first s v end = field (name s) v end
with_first s v (field k w fs) = field k w (with_first s v fs)

abbrev pub numbered : ℕ → String → List Json → Fields → Fields
numbered i s [] fs = fs
numbered i s (v ∷ vs) fs = field (index i) (single s v) (numbered (suc i) s vs fs)

module _ (s : String) where
  pub has-Plain : (fs : Fields) → Plain s fs → has (name s) fs ≡ false
  unfolding has
  has-Plain end h = refl
  has-Plain (field (index i) v fs) h = absurd h
  has-Plain (field (name t) v fs) (ht, _, _, hs) = rw ht (has-Plain fs hs)

  pub put-Plain : (v : Json) (fs : Fields) → Plain s fs → put (name s) v fs ≡ with_first s v fs
  unfolding put
  put-Plain v end h = refl
  put-Plain v (field (index i) w fs) h = absurd h
  put-Plain v (field (name t) w fs) (ht, _, _, hs) =
      rw ht (ap (field (name t) w) (put-Plain v fs hs))

  pub has-numbered :
      (i : ℕ) (vs : List Json) (v : Json) (fs : Fields)
      → has (name s) (numbered i s vs (with_first s v fs)) ≡ true
  unfolding has
  has-numbered i [] v end = rw (eq_refl s)
  has-numbered i [] v (field (index j) w fs) = has-numbered i [] v fs
  has-numbered i [] v (field (name t) w fs) = ground (arith, has-numbered i [] v fs)
  has-numbered i (w ∷ vs) v fs = has-numbered (suc i) vs v fs

  get-numbered :
      (i : ℕ) (vs : List Json) (v : Json) (fs : Fields)
      → Plain s fs
      → get (name s) (numbered i s vs (with_first s v fs)) ≡ v
  unfolding get
  get-numbered i [] v end h = rw (eq_refl s)
  get-numbered i [] v (field (index j) w fs) h = absurd h
  get-numbered i [] v (field (name t) w fs) (ht, _, _, hs) = rw ht (get-numbered i [] v fs hs)
  get-numbered i (w ∷ vs) v fs h = get-numbered (suc i) vs v fs h

  delete-numbered :
      (i : ℕ) (vs : List Json) (v : Json) (fs : Fields)
      → Plain s fs
      → delete (name s) (numbered i s vs (with_first s v fs)) ≡ numbered i s vs fs
  unfolding delete
  delete-numbered i [] v end h = rw (eq_refl s)
  delete-numbered i [] v (field (index j) w fs) h = absurd h
  delete-numbered i [] v (field (name t) w fs) (ht, _, _, hs) =
      rw ht (ap (field (name t) w) (delete-numbered i [] v fs hs))
  delete-numbered i (w ∷ vs) v fs h =
      ap (field (index i) (single s w)) (delete-numbered (suc i) vs v fs h)

  put_index :
      (i : ℕ) (x v : Json) (fs : Fields)
      → Plain s fs
      → put (index i) x (with_first s v fs) ≡ field (index i) x (with_first s v fs)
  unfolding put
  put_index i x v end h = refl
  put_index i x v (field (index j) w fs) h = absurd h
  put_index i x v (field (name t) w fs) h = refl

  -- A later child goes behind those that are numbered.
  pub put-numbered :
      (i : ℕ) (m : ℕ) (vs : List Json) (x v : Json) (fs : Fields)
      → Plain s fs
      → i ≡ m + length vs
      → put (index i) (single s x) (numbered m s vs (with_first s v fs))
        ≡ numbered m s (vs ++ (x ∷ [])) (with_first s v fs)
  unfolding put
  put-numbered i m [] x v fs h e =
      rw (put_index i (single s x) v fs h) (let e' : i ≡ m = omega arith in rw e')
  put-numbered i m (w ∷ vs) x v fs h e = ground (arith, put-numbered i (suc m) vs x v fs h)

  put_first :
      (vs : List Json) (v : Json) (fs : Fields)
      → Plain s fs
      → put (index 0) (single s v) (numbered 1 s vs (with_first s v fs))
        ≡ field (index 0) (single s v) (numbered 1 s vs (with_first s v fs))
  unfolding put
  put_first [] v fs h = put_index 0 (single s v) v fs h
  put_first (w ∷ vs) v fs h = refl

  -- The end of the last call: the first child gets the number 0.
  pub collect-numbered :
      (vs : List Json) (v : Json) (fs : Fields)
      → Plain s fs
      → collect s (numbered 1 s vs (with_first s v fs)) ≡ numbered 0 s (v ∷ vs) fs
  unfolding collect
  collect-numbered vs v fs h =
      ap (λ w. delete (name s) (put (index 0) (single s w) (numbered 1 s vs (with_first s v fs))))
        (get-numbered 1 vs v fs h)
      ∙ ap (delete (name s)) (put_first vs v fs h)
      ∙ unfold delete in ap (field (index 0) (single s v)) (delete-numbered 1 vs v fs h)

  -- `eachObject` passes over attributes, and sees through the numbers.
  pub each_field-Plain : (u : Underscore) (fs : Fields) → Plain s fs → each_field u fs ≡ []
  unfolding each_field is_index
  each_field-Plain u end h = refl
  each_field-Plain u (field (index i) v fs) h = absurd h
  each_field-Plain u (field (name t) v fs) (_, ht, hv, hs) = rw (ht, hv) (each_field-Plain u fs hs)

  pub each_field-numbered :
      (u : Underscore) (i : ℕ) (vs : List Json) (fs : Fields)
      → Plain s fs
      → each_field u (numbered i s vs fs) ≡ map (λ v. (v, name s)) vs
  unfolding each_field is_index
  each_field-numbered u i [] fs h = each_field-Plain u fs h
  each_field-numbered u i (v ∷ vs) fs h =
      ap (λ o. one_call o ++ each_field u (numbered (suc i) s vs fs))
        (u.some_first-object (name s) v end)
      ∙ ap (λ t. (v, name s) ∷ t) (each_field-numbered u (suc i) vs fs h)

  -- A single child is no number.
  pub each_field-with_first :
      (u : Underscore) (v : Json) (fs : Fields)
      → Plain s fs
      → parses_int (codes s) ≡ false
      → is_object v ≡ true
      → each_field u (with_first s v fs) ≡ (v, name s) ∷ []
  unfolding each_field is_index
  each_field-with_first u v end h k o = rw (k, o)
  each_field-with_first u v (field (index i) w fs) h k o = absurd h
  each_field-with_first u v (field (name t) w fs) (_, ht, hw, hs) k o =
      rw (ht, hw) (each_field-with_first u v fs hs k o)
