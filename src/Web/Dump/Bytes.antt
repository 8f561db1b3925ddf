-- ===== src/Web/Dump/Bytes.antt =====
-- The bytes that a dump of Server/Plugins/Web/app/app.js shows.
use starfall.Base.{
  ℕ, zero, suc, ◌<◌, ◌≡◌, refl, ap, ap₂, sym, subst, ◌∙◌, List, [], ◌∷◌, ◌++◌, append-nil, map,
  length, All, Option, none, some, arith, inl, inr, Bool-cases,
}
use starfall.Network.Runtime.{Text, text}
use starfall.Web.Dump.{
  Cell, hex, whitespace, begin_label, end_label, row_inside_label, row_outside_label, begin_table,
  end_table, Mark, split, drop_empty, cells_of, modify_at, unshift, push, first_color, turned,
  mark_one, mark_all, end_last, in_table, Found, nothing, inside, outside, search, dotted, or_same,
  name_at, insert, is_break, format_lines, flatten, dump,
}

-- The bytes among cells.
abbrev pub hexes : List Cell → List Text
hexes [] = []
hexes (hex w ∷ cs) = w ∷ hexes cs
hexes (_ ∷ cs) = hexes cs

hexes-append : (xs ys : List Cell) → hexes (xs ++ ys) ≡ hexes xs ++ hexes ys
hexes-append [] ys = refl
hexes-append (hex w ∷ xs) ys = ap (λ t. w ∷ t) (hexes-append xs ys)
hexes-append (whitespace ∷ xs) ys = hexes-append xs ys
hexes-append (begin_label i c e ∷ xs) ys = hexes-append xs ys
hexes-append (end_label n ∷ xs) ys = hexes-append xs ys
hexes-append (row_inside_label n c ∷ xs) ys = hexes-append xs ys
hexes-append (row_outside_label ∷ xs) ys = hexes-append xs ys
hexes-append (begin_table ∷ xs) ys = hexes-append xs ys
hexes-append (end_table ∷ xs) ys = hexes-append xs ys

-- A change of an element that keeps its bytes.
abbrev pub Keeps : (List Cell → List Cell) → Type 0
Keeps f = (cs : List Cell) → hexes (f cs) ≡ hexes cs

push-Keeps : (c : Cell) → hexes (c ∷ []) ≡ [] → Keeps (push c)
push-Keeps c h cs = hexes-append cs (c ∷ []) ∙ ap (λ t. hexes cs ++ t) h ∙ append-nil (hexes cs)

dotted-Keeps : Keeps dotted
dotted-Keeps [] = refl
dotted-Keeps (hex w ∷ xs) = ap (λ t. w ∷ t) (dotted-Keeps xs)
dotted-Keeps (whitespace ∷ xs) = dotted-Keeps xs
dotted-Keeps (begin_label i c e ∷ xs) = dotted-Keeps xs
dotted-Keeps (end_label n ∷ xs) = dotted-Keeps xs
dotted-Keeps (row_inside_label n c ∷ xs) = dotted-Keeps xs
dotted-Keeps (row_outside_label ∷ xs) = dotted-Keeps xs
dotted-Keeps (begin_table ∷ xs) = dotted-Keeps xs
dotted-Keeps (end_table ∷ xs) = dotted-Keeps xs

-- The bytes of all elements.
abbrev pub bytes : List (List Cell) → List Text
bytes rows = hexes (flatten rows)

bytes-cons : (x : List Cell) (xs : List (List Cell)) → bytes (x ∷ xs) ≡ hexes x ++ bytes xs
unfolding flatten
bytes-cons x xs = hexes-append x (flatten xs)

-- Elements with the same bytes, and as many.
abbrev pub Same : List (List Cell) → List (List Cell) → Type 0
Same rows rows' = (bytes rows' ≡ bytes rows) × (length rows' ≡ length rows)

Same-trans : (a b c : List (List Cell)) → Same a b → Same b c → Same a c
Same-trans a b c (h, l) (k, m) = (k ∙ h, m ∙ l)

Same-cons :
    (x y : List Cell) (xs ys : List (List Cell))
    → hexes y ≡ hexes x
    → Same xs ys
    → Same (x ∷ xs) (y ∷ ys)
Same-cons x y xs ys e (h, l) =
    (bytes-cons y ys ∙ ap₂ (λ s t. s ++ t) e h ∙ sym (bytes-cons x xs), ap suc l)

-- A change in range happens, and another is a TypeError.
modify_at-Same :
    (i : ℕ) (f : List Cell → List Cell) (rows : List (List Cell))
    → Keeps f
    → i < length rows
    → (rows' : List (List Cell)) × (modify_at i f rows ≡ some rows') × Same rows rows'
unfolding modify_at
modify_at-Same i f [] k h = absurd (omega (arith, h))
modify_at-Same zero f (x ∷ xs) k h = (f x ∷ xs, refl, Same-cons x (f x) xs xs (k x) (refl, refl))
modify_at-Same (suc i) f (x ∷ xs) k h =
    let (ys, e, s) = modify_at-Same i f xs k (omega (arith, h)) in
    (x ∷ ys, rw e refl, Same-cons x x xs ys refl s)

or_same-cons :
    (x : List Cell) (xs : List (List Cell)) (o : Option (List (List Cell)))
    → Same xs (or_same xs o)
    → Same (x ∷ xs) (or_same (x ∷ xs) (elim o [ none ↦ none | some ys ↦ some (x ∷ ys) ]))
or_same-cons x xs none s = (refl, refl)
or_same-cons x xs (some ys) s = Same-cons x x xs ys refl s

or_same-Same :
    (i : ℕ) (f : List Cell → List Cell) (rows : List (List Cell))
    → Keeps f
    → Same rows (or_same rows (modify_at i f rows))
unfolding modify_at
or_same-Same i f [] k = (refl, refl)
or_same-Same zero f (x ∷ xs) k = Same-cons x (f x) xs xs (k x) (refl, refl)
or_same-Same (suc i) f (x ∷ xs) k = or_same-cons x xs (modify_at i f xs) (or_same-Same i f xs k)

-- What `insert` does after its search.
inserted-Same :
    (idx : ℕ) (f : Found) (rows : List (List Cell))
    → Same rows (elim f [
      | nothing ↦ rows
      | outside ↦ or_same rows (modify_at idx (push row_outside_label) rows)
      | inside color e ↦
          let renamed = or_same rows (modify_at e dotted rows) in
          or_same renamed (modify_at idx (push (row_inside_label (name_at e rows) color)) renamed)
    ])
inserted-Same idx nothing rows = (refl, refl)
inserted-Same idx outside rows =
    or_same-Same idx (push row_outside_label) rows (push-Keeps row_outside_label refl)
inserted-Same idx (inside color e) rows =
    let renamed = or_same rows (modify_at e dotted rows) in
    let label = row_inside_label (name_at e rows) color in
    Same-trans rows renamed (or_same renamed (modify_at idx (push label) renamed))
      (or_same-Same e dotted rows dotted-Keeps)
      (or_same-Same idx (push label) renamed (push-Keeps label refl))

insert-Same : (idx : ℕ) (rows : List (List Cell)) → Same rows (insert idx rows)
unfolding insert
insert-Same idx rows = inserted-Same idx (search idx rows) rows

format_lines-Same : (i k n : ℕ) (rows : List (List Cell)) → Same rows (format_lines i k n rows)
unfolding format_lines
format_lines-Same i zero n rows = (refl, refl)
format_lines-Same i (suc k) n rows = elim (Bool-cases (is_break i n)) [
  | inl e ↦ rw e (
      Same-trans rows (insert i rows) (format_lines (suc i) k n (insert i rows))
        (insert-Same i rows) (format_lines-Same (suc i) k n (insert i rows)))
  | inr e ↦ rw e (format_lines-Same (suc i) k n rows)
]

-- A mark whose ends are bytes of `n`.
abbrev pub IsInside : ℕ → Mark → Type 0
IsInside n m = (m.begin_idx < n) × (m.end_idx < n)

mark_one-Same :
    (sub : ℕ) (color : Text) (m : Mark) (rows : List (List Cell))
    → IsInside (length rows) m
    → (rows' : List (List Cell)) × (mark_one sub color m rows ≡ some rows') × Same rows rows'
mark_one-Same sub color m rows (b, e) =
    let begin = unshift (begin_label sub color m.end_idx) in
    let (begun, z, s) = modify_at-Same m.begin_idx begin rows (λ cs. refl) b in
    let (_, l) = s in
    let (marked, z', s') =
      modify_at-Same m.end_idx (push (end_label m.name)) begun (push-Keeps (end_label m.name) refl)
        (omega (arith, e, l)) in
    (
      marked,
      ap
            (λ o. elim o [
              | none ↦ none
              | some begun' ↦ modify_at m.end_idx (push (end_label m.name)) begun'
            ])
            z
          ∙ z',
      Same-trans rows begun marked s s',
    )

mark_all-Same :
    (sub : ℕ) (colors : List Text) (ms : List Mark) (rows : List (List Cell))
    → All (IsInside (length rows)) ms
    → (rows' : List (List Cell)) × (mark_all sub colors ms rows ≡ some rows') × Same rows rows'
unfolding mark_all
mark_all-Same sub colors [] rows h = (rows, refl, (refl, refl))
mark_all-Same sub colors (m ∷ ms) rows (h, hs) =
    let (marked, z, s) = mark_one-Same sub (first_color colors) m rows h in
    let (_, l) = s in
    let (rest, z', s') =
      mark_all-Same (suc sub) (turned colors) ms marked
        (subst (λ n. All (IsInside n) ms) (sym l) hs) in
    (
      rest,
      ap
            (λ o. elim o [
              | none ↦ none
              | some marked' ↦ mark_all (suc sub) (turned colors) ms marked'
            ])
            z
          ∙ z',
      Same-trans rows marked rest s s',
    )

end_last-Same : (rows : List (List Cell)) → Same rows (end_last rows)
end_last-Same [] = (refl, refl)
end_last-Same (x ∷ []) =
    Same-cons x (push end_table x) [] [] (push-Keeps end_table refl x) (refl, refl)
end_last-Same (x ∷ (y ∷ xs)) =
    Same-cons x x (y ∷ xs) (end_last (y ∷ xs)) refl (end_last-Same (y ∷ xs))

in_table-Same : (rows : List (List Cell)) → Same rows (in_table rows)
in_table-Same [] = (refl, refl)
in_table-Same (x ∷ xs) =
    Same-trans (x ∷ xs) (unshift begin_table x ∷ xs) (in_table (x ∷ xs))
      (Same-cons x (unshift begin_table x) xs xs refl (refl, refl))
      (end_last-Same (unshift begin_table x ∷ xs))

bytes-cells_of : (ws : List Text) → bytes (map cells_of ws) ≡ ws
unfolding flatten
bytes-cells_of [] = refl
bytes-cells_of (w ∷ ws) = ap (λ t. w ∷ t) (bytes-cells_of ws)

length-map_cells : (ws : List Text) → length (map cells_of ws) ≡ length ws
length-map_cells [] = refl
length-map_cells (w ∷ ws) = ap suc (length-map_cells ws)

-- What a dump does after its marks.
abbrev finished : Option (List (List Cell)) → Option (List Cell)
finished o = elim o [
  | none ↦ none
  | some rows ↦
      let tabled = in_table rows in
      some (flatten (format_lines 0 (length tabled) (length tabled) tabled))
]

-- A dump shows the bytes of the text, all of them and in their order, whatever rows and labels it is
-- given, if both ends of every mark are bytes; then nothing is thrown.
pub dump-hexes :
    (s : Text) (ms : List Mark)
    → All (IsInside (length (drop_empty (split s)))) ms
    → (cells : List Cell) × (dump s ms ≡ some cells) × (hexes cells ≡ drop_empty (split s))
unfolding dump
dump-hexes s ms h =
    let ws = drop_empty (split s) in
    let start = map cells_of ws in
    let colors = text "#FF0000" ∷ (text "#00FF00" ∷ []) in
    let (rows, z, sm) =
      mark_all-Same 0 colors ms start
        (subst (λ n. All (IsInside n) ms) (sym (length-map_cells ws)) h) in
    let tabled = in_table rows in
    let n = length tabled in
    let (b, l) = Same-trans start rows (format_lines 0 n n tabled) sm (
      Same-trans rows tabled (format_lines 0 n n tabled) (in_table-Same rows)
        (format_lines-Same 0 n n tabled)) in
    (flatten (format_lines 0 n n tabled), ap finished z, b ∙ bytes-cells_of ws)
