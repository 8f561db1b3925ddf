-- ===== src/World/Destroying/Scans.antt =====
-- What the loop of `UpdateDestroyEntities` over `objects` keeps.
use starfall.Base.{
  ℕ, ◌≡◌, ◌≢◌, refl, ap, List, [], ◌∷◌, Bool, true, false, not, arith, Bool-cases, inl, inr, All,
  All-map, filter, filter-All, filter-id,
}
use starfall.World.Entities.{Entity}
use starfall.World.Destroying.{condemned, remove_scan}

-- No session id occurs twice.
abbrev pub Distinct : {F : Type 0} → List (Entity F) → Type 0
Distinct [] = Unit {0}
Distinct (o ∷ os) = All (λ x. x.sessionid ≢ o.sessionid) os × Distinct os

pub filter-Distinct :
    {F : Type 0} (p : Entity F → Bool) (os : List (Entity F)) → Distinct os → Distinct (filter p os)
filter-Distinct p [] h = tt
filter-Distinct p (o ∷ os) (ho, hs) = elim (Bool-cases (p o)) [
  | inl e ↦ rw e (filter-All _ p os ho, filter-Distinct p os hs)
  | inr e ↦ rw e (filter-Distinct p os hs)
]

module _ {F : Type 0} (d : ℕ) (me : Entity F) where
  -- No element that the test `p` takes is condemned.
  abbrev pub Safe : (Entity F → Bool) → List (Entity F) → Type 0
  Safe p os = All (λ o. p o ≡ true → condemned d me o ≡ false) os

  -- The loop leaves a sublist alone when none of it is condemned.
  pub filter-remove_scan :
      (p : Entity F → Bool) (os : List (Entity F))
      → Safe p os
      → filter p (remove_scan d me os) ≡ filter p os
  unfolding remove_scan
  filter-remove_scan p [] h = refl
  filter-remove_scan p (o ∷ []) (h, _) = elim (Bool-cases (condemned d me o)) [
    | inl e ↦ elim (Bool-cases (p o)) [ inl e' ↦ cc (h e') | inr e' ↦ rw (e, e') ]
    | inr e ↦ rw e
  ]
  filter-remove_scan p (o ∷ (o' ∷ os)) (h, (h', hs)) = elim (Bool-cases (condemned d me o)) [
    | inl e ↦ elim (Bool-cases (p o)) [
      | inl e' ↦ cc (h e')
      | inr e' ↦ rw (e, e', filter-remove_scan p os hs)
    ]
    | inr e ↦ rw (e, filter-remove_scan p (o' ∷ os) (h', hs))
  ]

  pub remove_scan-All :
      (P : Entity F → Type 0) (os : List (Entity F)) → All P os → All P (remove_scan d me os)
  unfolding remove_scan
  remove_scan-All P [] h = tt
  remove_scan-All P (o ∷ []) h = elim (Bool-cases (condemned d me o)) [
    | inl e ↦ rw e tt
    | inr e ↦ rw e h
  ]
  remove_scan-All P (o ∷ (o' ∷ os)) (h, (h', hs)) = elim (Bool-cases (condemned d me o)) [
    | inl e ↦ rw e (h', remove_scan-All P os hs)
    | inr e ↦ rw e (h, remove_scan-All P (o' ∷ os) (h', hs))
  ]

  -- The elements that are not condemned.
  abbrev pub spared : Entity F → Bool
  spared o = not (condemned d me o)

  others_spared :
      (o x : Entity F)
      → condemned d me o ≡ true
      → x.sessionid ≢ o.sessionid
      → condemned d me x ≡ false
  others_spared o x e h = ground arith

  remove_none :
      (os : List (Entity F)) → All (λ o. condemned d me o ≡ false) os → remove_scan d me os ≡ os
  unfolding remove_scan
  remove_none [] h = refl
  remove_none (o ∷ []) (h, _) = rw h
  remove_none (o ∷ (o' ∷ os)) (h, hs) = rw (h, remove_none (o' ∷ os) hs)

  -- With distinct session ids no condemned entity is passed over.
  pub remove_scan-Distinct :
      (os : List (Entity F)) → Distinct os → remove_scan d me os ≡ filter spared os
  unfolding remove_scan
  remove_scan-Distinct [] h = refl
  remove_scan-Distinct (o ∷ []) h = elim (Bool-cases (condemned d me o)) [
    | inl e ↦ rw e
    | inr e ↦ rw e
  ]
  remove_scan-Distinct (o ∷ (o' ∷ os)) (h, hs) = elim (Bool-cases (condemned d me o)) [
    | inl e ↦
        let (h', free) = All-map (λ x hx. others_spared o x e hx) (o' ∷ os) h in
        rw (e, h', remove_none os free, filter-id spared os (All-map (λ x hx. ap not hx) os free))
    | inr e ↦ rw (e, remove_scan-Distinct (o' ∷ os) hs)
  ]
