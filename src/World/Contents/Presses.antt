-- ===== src/World/Contents/Presses.antt =====
-- Which item of `Item.ForEach` in Client/Assets/Scenes/WorldScene/WorldScript.js a press belongs to.
use starfall.Base.{
  ℕ, suc, ◌+◌, ◌==◌, ◌≡◌, refl, subst, List, [], ◌∷◌, ◌++◌, length, Bool, true, false, Option, none,
  some, if◌then◌else◌, arith,
}
use starfall.World.Contents.{
  Properties, end, text_property, item_property, is_open, Row, label, button, Drawn, press, closed,
  for_each,
}
use starfall.World.Contents.Rows.{
  changes, shape, presses, shown, for_each-Consistent, for_each-presses,
}

-- The states before and after of the items that a tree shows, at the places of their rows.
abbrev pub states : Properties → Properties → List (Option (ℕ × ℕ))
states (text_property k v r) (text_property k' v' r') = none ∷ states r r'
states (item_property k o ps r) (item_property k' o' ps' r') =
    let inner = states ps ps' in
    let rest = states r r' in some (o, o') ∷ ((if is_open o' then inner else []) ++ rest)
states _ _ = []

-- A button's item is turned over if the button is pressed, and else is as before.
abbrev pub IsTurned : (ℕ → Bool) → ℕ → List Row → List (Option (ℕ × ℕ)) → Type 0
IsTurned p idx [] [] = Unit {0}
IsTurned p idx (label t ∷ rows) (none ∷ cs) = IsTurned p (suc idx) rows cs
IsTurned p idx (button t ∷ rows) (some (o, o') ∷ cs) =
    (o' ≡ (if p idx then (if o == 0 then 1 else 0) else o)) × IsTurned p (suc idx) rows cs
IsTurned p idx _ _ = ⊥

IsTurned-append :
    (p : ℕ → Bool) (idx : ℕ) (xs ys : List Row) (cs ds : List (Option (ℕ × ℕ)))
    → IsTurned p idx xs cs
    → IsTurned p (idx + length xs) ys ds
    → IsTurned p idx (xs ++ ys) (cs ++ ds)
IsTurned-append p idx [] ys [] ds h k = subst (λ i. IsTurned p i ys ds) {y = idx} (omega arith) k
IsTurned-append p idx [] ys (c ∷ cs) ds h k = absurd h
IsTurned-append p idx (label t ∷ xs) ys [] ds h k = absurd h
IsTurned-append p idx (label t ∷ xs) ys (none ∷ cs) ds h k =
    IsTurned-append p (suc idx) xs ys cs ds h
      (subst (λ i. IsTurned p i ys ds) {y = suc idx + length xs} (omega arith) k)
IsTurned-append p idx (label t ∷ xs) ys (some c ∷ cs) ds h k = absurd h
IsTurned-append p idx (button t ∷ xs) ys [] ds h k = absurd h
IsTurned-append p idx (button t ∷ xs) ys (none ∷ cs) ds h k = absurd h
IsTurned-append p idx (button t ∷ xs) ys (some (o, o') ∷ cs) ds (e, h) k = (
  e,
  IsTurned-append p (suc idx) xs ys cs ds h
      (subst (λ i. IsTurned p i ys ds) {y = suc idx + length xs} (omega arith) k),
)

inner-IsTurned :
    (p : ℕ → Bool) (idx : ℕ) (ps : Properties) (b : Bool) (d : Drawn)
    → IsTurned p idx d.rows (states ps d.left)
    → IsTurned p idx
        (if b then d else closed ps idx).rows
        (if b then states ps (if b then d else closed ps idx).left else [])
inner-IsTurned p idx ps true d h = h
inner-IsTurned p idx ps false d h = tt

inner-next :
    (p : ℕ → Bool) (idx : ℕ) (ps : Properties) (b : Bool)
    → (if b then for_each p idx ps else closed ps idx).next
      ≡ idx + length (if b then for_each p idx ps else closed ps idx).rows
inner-next p idx ps true = (for_each-Consistent p idx ps).0
inner-next p idx ps false = omega arith

for_each-IsTurned :
    (p : ℕ → Bool) (idx : ℕ) (ps : Properties)
    → IsTurned p idx (for_each p idx ps).rows (states ps (for_each p idx ps).left)
unfolding for_each
for_each-IsTurned p idx end = tt
for_each-IsTurned p idx (text_property k v r) = for_each-IsTurned p (suc idx) r
for_each-IsTurned p idx (item_property k o ps r) =
    let b = is_open (press (p idx) o) in
    let d = for_each p (suc idx) ps in
    let inner = if b then d else closed ps (suc idx) in
    let after = for_each p inner.next r in
    (
      refl,
      IsTurned-append p (suc idx) inner.rows after.rows (if b then states ps inner.left else [])
          (states r after.left)
          (inner-IsTurned p (suc idx) ps b d (for_each-IsTurned p (suc idx) ps))
          (subst (λ i. IsTurned p i after.rows (states r after.left)) (inner-next p (suc idx) ps b)
            (for_each-IsTurned p inner.next r)),
    )

-- In a frame every button of an item's rows that is pressed turns the state of its own item over, from 0
-- to 1 and else to 0, and the items of the other buttons keep theirs. As many states differ in all as
-- rows are pressed buttons. The texts, the keys and the nesting stay. The rows are those of the items as
-- the presses leave them, one under the other from `idx` on.
pub for_each-turns :
    (p : ℕ → Bool) (idx : ℕ) (ps : Properties)
    → IsTurned p idx (for_each p idx ps).rows (states ps (for_each p idx ps).left)
      × (changes ps (for_each p idx ps).left ≡ presses p idx (for_each p idx ps).rows)
      × (shape (for_each p idx ps).left ≡ shape ps)
      × ((for_each p idx ps).rows ≡ shown (for_each p idx ps).left)
      × ((for_each p idx ps).next ≡ idx + length (for_each p idx ps).rows)
for_each-turns p idx ps =
    let (c, s, r, n) = for_each-presses p idx ps in (for_each-IsTurned p idx ps, c, s, r, n)
