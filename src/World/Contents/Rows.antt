-- ===== src/World/Contents/Rows.antt =====
-- The rows that `Item.ForEach` draws, and how many presses of their buttons change.
use starfall.Base.{
  ℕ, suc, ◌+◌, ◌==◌, ◌≡◌, refl, ap, ap₂, sym, ◌∙◌, List, [], ◌∷◌, ◌++◌, length, length-append, Bool,
  true, false, if◌then◌else◌, arith,
}
use starfall.Network.Runtime.{Text, text}
use starfall.World.Contents.{
  Properties, end, text_property, item_property, is_open, same_key, name_of, Row, label, button,
  Drawn, press, closed, for_each,
}

-- How many openers differ between two trees of one shape.
abbrev pub differ : ℕ → ℕ → ℕ
differ a b = if a == b then 0 else 1

abbrev pub changes : Properties → Properties → ℕ
changes (text_property k v r) (text_property k' v' r') = changes r r'
changes (item_property k o ps r) (item_property k' o' ps' r') =
    differ o o' + (changes ps ps' + changes r r')
changes _ _ = 0

-- The texts and the keys of a tree, without the states.
abbrev pub shape : Properties → Properties
shape end = end
shape (text_property k v r) = text_property k v (shape r)
shape (item_property k o ps r) = item_property k 0 (shape ps) (shape r)

-- How many of the rows from `idx` on are buttons that are pressed.
abbrev pub presses : (ℕ → Bool) → ℕ → List Row → ℕ
presses pressed idx [] = 0
presses pressed idx (label t ∷ rows) = presses pressed (suc idx) rows
presses pressed idx (button t ∷ rows) =
    (if pressed idx then 1 else 0) + presses pressed (suc idx) rows

presses-append :
    (p : ℕ → Bool) (idx : ℕ) (xs ys : List Row)
    → presses p idx (xs ++ ys) ≡ presses p idx xs + presses p (idx + length xs) ys
presses-append p idx [] ys = ap (λ n. presses p n ys) {y = idx + 0} (omega arith) ∙ omega arith
presses-append p idx (label t ∷ xs) ys =
    presses-append p (suc idx) xs ys
    ∙ ap (λ n. presses p (suc idx) xs + presses p n ys) {y = idx + suc (length xs)} (omega arith)
presses-append p idx (button t ∷ xs) ys =
    ap (λ n. (if p idx then 1 else 0) + n)
      (presses-append p (suc idx) xs ys
        ∙ ap (λ n. presses p (suc idx) xs + presses p n ys) {y = idx + suc (length xs)}
            (omega arith))
    ∙ omega arith

changes_refl : (ps : Properties) → changes ps ps ≡ 0
changes_refl end = refl
changes_refl (text_property k v r) = changes_refl r
changes_refl (item_property k o ps r) = ground (arith, changes_refl ps, changes_refl r)

-- Each row is drawn under the one before, as many states differ as buttons are pressed, and the texts,
-- the keys and the nesting stay.
abbrev pub Consistent : (ℕ → Bool) → ℕ → Properties → Drawn → Type 0
Consistent p idx ps d =
    (d.next ≡ idx + length d.rows)
    × (changes ps d.left ≡ presses p idx d.rows)
    × (shape d.left ≡ shape ps)

closed-Consistent : (p : ℕ → Bool) (idx : ℕ) (ps : Properties) → Consistent p idx ps (closed ps idx)
closed-Consistent p idx ps = (omega arith, changes_refl ps, refl)

-- The rows of an item are drawn if it is open.
inner-Consistent :
    (p : ℕ → Bool) (idx : ℕ) (ps : Properties) (b : Bool) (d : Drawn)
    → Consistent p idx ps d
    → Consistent p idx ps (if b then d else closed ps idx)
inner-Consistent p idx ps true d h = h
inner-Consistent p idx ps false d h = closed-Consistent p idx ps

differ-press : (b : Bool) (o : ℕ) → differ o (press b o) ≡ (if b then 1 else 0)
differ-press true o = ground arith
differ-press false o = ground arith

item-Consistent :
    (p : ℕ → Bool) (idx o : ℕ) (k : Text) (ps r : Properties) (inner after : Drawn)
    → Consistent p (suc idx) ps inner
    → Consistent p inner.next r after
    → Consistent p idx (item_property k o ps r) (record {
      left = item_property k (press (p idx) o) inner.left after.left;
      rows = button (name_of ps) ∷ (inner.rows ++ after.rows);
      next = after.next;
    })
item-Consistent p idx o k ps r inner after (n, c, s) (m, d, t) = (
  omega (arith, n, m, length-append inner.rows after.rows),
  ap (λ x. x + (changes ps inner.left + changes r after.left)) (differ-press (p idx) o)
      ∙ ap (λ x. (if p idx then 1 else 0) + x)
          (ap (λ x. x + changes r after.left) c
            ∙ ap (λ x. presses p (suc idx) inner.rows + x) (d ∙ ap (λ i. presses p i after.rows) n)
            ∙ sym (presses-append p (suc idx) inner.rows after.rows)),
  ap (λ x. item_property k 0 x (shape after.left)) s ∙ ap (λ x. item_property k 0 (shape ps) x) t,
)

pub for_each-Consistent :
    (p : ℕ → Bool) (idx : ℕ) (ps : Properties) → Consistent p idx ps (for_each p idx ps)
unfolding for_each
for_each-Consistent p idx end = closed-Consistent p idx end
for_each-Consistent p idx (text_property k v r) =
    let (n, c, s) = for_each-Consistent p (suc idx) r in
    (omega (arith, n), c, ap (text_property k v) s)
for_each-Consistent p idx (item_property k o ps r) =
    let inner =
      if is_open (press (p idx) o) then for_each p (suc idx) ps else closed ps (suc idx) in
    item-Consistent p idx o k ps r inner (for_each p inner.next r)
      (inner-Consistent p (suc idx) ps (is_open (press (p idx) o)) (for_each p (suc idx) ps)
        (for_each-Consistent p (suc idx) ps))
      (for_each-Consistent p inner.next r)

-- The rows of a tree: its own, and those of its open items under their buttons.
abbrev pub shown : Properties → List Row
shown end = []
shown (text_property k v r) = label (k ++ (text ":" ++ v)) ∷ shown r
shown (item_property k o ps r) =
    let inner = shown ps in button (name_of ps) ∷ ((if is_open o then inner else []) ++ shown r)

for_each-name :
    (p : ℕ → Bool) (idx : ℕ) (ps : Properties) → name_of (for_each p idx ps).left ≡ name_of ps
unfolding for_each name_of
for_each-name p idx end = refl
for_each-name p idx (text_property k v r) =
    ap (λ n. if same_key k (text "name") then v else n) (for_each-name p (suc idx) r)
for_each-name p idx (item_property k o ps r) =
    let inner =
      if is_open (press (p idx) o) then for_each p (suc idx) ps else closed ps (suc idx) in
    ap (λ n. if same_key k (text "name") then text "Undefined" else n)
      (for_each-name p inner.next r)

item-rows :
    (b : Bool) (ps : Properties) (idx : ℕ) (d : Drawn) (after : List Row)
    → name_of d.left ≡ name_of ps
    → d.rows ≡ shown d.left
    → button (name_of ps) ∷ ((if b then d else closed ps idx).rows ++ after)
      ≡ button (name_of (if b then d else closed ps idx).left)
        ∷ ((if b then shown (if b then d else closed ps idx).left else []) ++ after)
item-rows true ps idx d after n h = ap₂ (λ m rows. button m ∷ (rows ++ after)) (sym n) h
item-rows false ps idx d after n h = refl

-- The rows are those of the tree as the presses leave it.
for_each-rows :
    (p : ℕ → Bool) (idx : ℕ) (ps : Properties)
    → (for_each p idx ps).rows ≡ shown (for_each p idx ps).left
unfolding for_each
for_each-rows p idx end = refl
for_each-rows p idx (text_property k v r) =
    ap (λ rows. label (k ++ (text ":" ++ v)) ∷ rows) (for_each-rows p (suc idx) r)
for_each-rows p idx (item_property k o ps r) =
    let b = is_open (press (p idx) o) in
    let d = for_each p (suc idx) ps in
    let after = for_each p (if b then d else closed ps (suc idx)).next r in
    item-rows b ps (suc idx) d after.rows (for_each-name p (suc idx) ps)
      (for_each-rows p (suc idx) ps)
    ∙ ap
        (λ rows.
          button (name_of (if b then d else closed ps (suc idx)).left)
          ∷ ((if b then shown (if b then d else closed ps (suc idx)).left else []) ++ rows))
        (for_each-rows p (if b then d else closed ps (suc idx)).next r)

-- As many states differ as rows are pressed buttons, while the texts, the keys and the nesting stay. The
-- rows are those of the items as the presses leave them, one under the other from `idx` on.
pub for_each-presses :
    (p : ℕ → Bool) (idx : ℕ) (ps : Properties)
    → (changes ps (for_each p idx ps).left ≡ presses p idx (for_each p idx ps).rows)
      × (shape (for_each p idx ps).left ≡ shape ps)
      × ((for_each p idx ps).rows ≡ shown (for_each p idx ps).left)
      × ((for_each p idx ps).next ≡ idx + length (for_each p idx ps).rows)
for_each-presses p idx ps =
    let (n, c, s) = for_each-Consistent p idx ps in (c, s, for_each-rows p idx ps, n)
