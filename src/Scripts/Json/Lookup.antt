-- ===== src/Scripts/Json/Lookup.antt =====
-- Reading back what was written to an object of the scripts.
use text.Mathlib.TextEquality.{eq_iff}
use starfall.Base.{
  ◌≡◌, refl, ap, subst, sym, ◌∙◌, Bool, true, false, inl, inr, Bool-cases, if◌then◌else◌, arith,
}
use starfall.Scripts.Json.{
  Key, index, name, Json, Fields, end, field, same_key, get, put, comes_first,
}

pub same_key-eq : (j k : Key) → same_key j k ≡ true → j ≡ k
same_key-eq (index i) (index j) h = ap index (ground (arith, h))
same_key-eq (index i) (name t) h = cc h
same_key-eq (name s) (index j) h = cc h
same_key-eq (name s) (name t) h = let (eq, _) = eq_iff s t in ap name (eq h)

pub same_key_refl : (k : Key) → same_key k k ≡ true
same_key_refl (index i) = ground arith
same_key_refl (name s) = let (_, same) = eq_iff s s in same refl

-- Two keys that are not the same are not both the same as a third.
same_key-swap {ℓ} :
    {A : Type ℓ} (i j k : Key) (a b c : A)
    → same_key i k ≡ false
    → (if same_key i j then a else (if same_key k j then b else c))
      ≡ (if same_key k j then b else (if same_key i j then a else c))
same_key-swap i j k a b c h = elim (Bool-cases (same_key i j)) [
  | inr e ↦ rw e refl
  | inl e ↦ elim (Bool-cases (same_key k j)) [
    | inr z ↦ rw z refl
    | inl z ↦
        absurd
          (cc (h, ap (same_key i) (same_key-eq k j z ∙ sym (same_key-eq i j e)), same_key_refl i))
  ]
]

if_twice {ℓ} :
    {A : Type ℓ} (b : Bool) (x y z : A)
    → (if b then x else z) ≡ (if b then x else (if b then y else z))
if_twice true x y z = refl
if_twice false x y z = refl

pub get-put :
    (j k : Key) (v : Json) (fs : Fields)
    → get j (put k v fs) ≡ (if same_key k j then v else get j fs)
unfolding get put
get-put j k v end = refl
get-put j k v (field i w fs) = elim (Bool-cases (same_key i k)) [
  | inl e ↦ rw e (
      subst
        (λ m.
          (if same_key m j then v else get j fs)
          ≡ (if same_key k j then v else (if same_key m j then w else get j fs)))
        (sym (same_key-eq i k e)) (if_twice (same_key k j) v w (get j fs)))
  | inr e ↦ elim (Bool-cases (comes_first k i)) [
    | inl z ↦ rw (e, z) refl
    | inr z ↦
        rw (e, z)
          (ap (λ r. if same_key i j then w else r) (get-put j k v fs)
            ∙ same_key-swap i j k w v (get j fs) e)
  ]
]
