-- ===== src/World/Contents/Layout.antt =====
-- Where `OnContents` draws the items of an entity.
use starfall.Base.{
  ℕ, suc, ◌+◌, ◌*◌, ◌^◌, ◌<◌, ◌≡◌, refl, subst, ap, List, [], ◌∷◌, length, Bool, true, false,
  if◌then◌else◌, Bool-cases, inl, inr, arith, none, some,
}
use starfall.Network.Runtime.{u32}
use starfall.World.Contents.{
  Properties, Item, Entry, is_open, press, for_each, draw_group, offset_after, draw_items,
  on_contents,
}
use starfall.World.Contents.Rows.{shown, for_each-presses}

-- An entry for each item, from `y` on: its rows follow it if it is open, in a group of 100 between this
-- button and the next, and another height stays free behind the group.
abbrev pub height_of : Item → ℕ
height_of it = if is_open it.open_state then 140 else 20

abbrev pub Shown : Item → Entry → Type 0
Shown it e = e.group ≡ (if is_open it.open_state then some (shown it.properties) else none)

abbrev pub Spaced : ℕ → List Item → List Entry → Type 0
Spaced y [] [] = Unit {0}
Spaced y (it ∷ its) (e ∷ es) = (e.y ≡ y) × Shown it e × Spaced (y + height_of it) its es
Spaced y _ _ = ⊥

-- The height of the last entry.
abbrev pub last_y : ℕ → List Entry → ℕ
last_y y [] = y
last_y y (e ∷ es) = last_y e.y es

draw_group-shown :
    (b : Bool) (inside : ℕ → Bool) (ps : Properties)
    → let (left, group) = draw_group b (for_each inside 0 ps) ps in
      group ≡ (if b then some (shown left) else none)
draw_group-shown true inside ps = let (_, _, rows, _) = for_each-presses inside 0 ps in ap some rows
draw_group-shown false inside ps = refl

offset-height :
    (i offset o n : ℕ)
    → i * 20 + offset + 140 * suc n < 2 ^ 32
    → suc i * 20 + offset_after offset o ≡ i * 20 + offset + (if is_open o then 140 else 20)
offset-height i offset o n h = elim (Bool-cases (is_open o)) [
  | inl e ↦ rw e (omega (arith, h))
  | inr e ↦ rw e (omega arith)
]

room :
    (b : Bool) (m n : ℕ) → m + 140 * suc n < 2 ^ 32 → m + (if b then 140 else 20) + 140 * n < 2 ^ 32
room true m n h = omega (arith, h)
room false m n h = omega (arith, h)

draw_items-Spaced :
    (pressed : ℕ → Bool) (inside : ℕ → ℕ → Bool) (i offset y : ℕ) (items : List Item)
    → i * 20 + offset + 140 * length items < 2 ^ 32
    → Spaced
        (i * 20 + offset)
        (draw_items pressed inside i offset y items).items
        (draw_items pressed inside i offset y items).entries
      × ((draw_items pressed inside i offset y items).scroll_height
          ≡ last_y y (draw_items pressed inside i offset y items).entries)
unfolding draw_items
draw_items-Spaced pressed inside i offset y [] h = (tt, refl)
draw_items-Spaced pressed inside i offset y (it ∷ its) h =
    let o = press (pressed i) it.open_state in
    let z = offset-height i offset o (length its) h in
    let (s, l) =
      draw_items-Spaced pressed inside (suc i) (offset_after offset o) (u32 (i * 20 + offset)) its
        (omega (arith, z, room (is_open o) (i * 20 + offset) (length its) h)) in
    (
      (
        omega (arith, h),
        draw_group-shown (is_open o) (inside i) it.properties,
        subst
            (λ n.
              Spaced n
                (draw_items pressed inside (suc i) (offset_after offset o) (u32 (i * 20 + offset))
                  its).items
                (draw_items pressed inside (suc i) (offset_after offset o) (u32 (i * 20 + offset))
                  its).entries)
            z s,
      ),
      l,
    )

-- If the heights of all items stay below 2^32, the item's buttons are drawn in their order from 0 on, each
-- below the one before and, if that is open after the presses, below the group with its rows, which are
-- those of the item. The height that the view scrolls over ends where the last button begins.
pub on_contents-Spaced :
    (pressed : ℕ → Bool) (inside : ℕ → ℕ → Bool) (items : List Item)
    → 140 * length items < 2 ^ 32
    → Spaced 0 (on_contents pressed inside items).items (on_contents pressed inside items).entries
      × ((on_contents pressed inside items).scroll_height
          ≡ last_y 0 (on_contents pressed inside items).entries)
unfolding on_contents
on_contents-Spaced pressed inside items h =
    draw_items-Spaced pressed inside 0 0 0 items (omega (arith, h))
