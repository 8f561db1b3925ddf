-- ===== src/Web/Dump.antt =====
-- The hexadecimal dump of a message in `render` of Server/Plugins/Web/app/app.js: the bytes, with the
-- marks of the structures that they hold, in rows of sixteen. A TypeError is `none`.
pub mod Bytes
pub mod Words
mod Tests
use starfall.Base.{
  ℕ, zero, suc, ◌+◌, ◌-◌, ◌%◌, ◌==◌, ltb, List, [], ◌∷◌, ◌++◌, map, length, get_elem?, Bool, true,
  false, not, ◌&&◌, ◌||◌, Option, none, some, if◌then◌else◌,
}
use starfall.Network.Runtime.{Text, text}

-- An object of `hexValues`, by its type.
pub data Cell : Type 0 where
  hex : Text → Cell
  whitespace : Cell
  begin_label : ℕ → Text → ℕ → Cell
  end_label : Text → Cell
  row_inside_label : Text → Text → Cell
  row_outside_label : Cell
  begin_table : Cell
  end_table : Cell

-- An entry of `msg.foot.maps`
pub record Mark : Type 0 where
  pub begin_idx : ℕ
  pub end_idx : ℕ
  pub name : Text

-- `split(/ |\n/)`, less the empty texts
abbrev pub add_char : ℕ → List Text → List Text
add_char c [] = (c ∷ []) ∷ []
add_char c (w ∷ ws) = (c ∷ w) ∷ ws

unfoldable pub split : Text → List Text
split [] = [] ∷ []
split (c ∷ cs) = let rest = split cs in if c == b' ' || c == 10 then [] ∷ rest else add_char c rest

abbrev pub is_empty : Text → Bool
is_empty [] = true
is_empty (c ∷ cs) = false

unfoldable pub drop_empty : List Text → List Text
drop_empty [] = []
drop_empty (w ∷ ws) = let rest = drop_empty ws in if is_empty w then rest else w ∷ rest

abbrev pub cells_of : Text → List Cell
cells_of w = hex w ∷ (whitespace ∷ [])

-- A change of the array's element `i`, which must be there.
unfoldable pub modify_at :
    ℕ → (List Cell → List Cell) → List (List Cell) → Option (List (List Cell))
modify_at i f [] = none
modify_at zero f (x ∷ xs) = some (f x ∷ xs)
modify_at (suc i) f (x ∷ xs) = elim (modify_at i f xs) [ none ↦ none | some ys ↦ some (x ∷ ys) ]

abbrev pub unshift : Cell → List Cell → List Cell
unshift c cs = c ∷ cs

abbrev pub push : Cell → List Cell → List Cell
push c cs = cs ++ (c ∷ [])

-- `colors`, a ring whose first color is shifted out and pushed behind the others
abbrev pub first_color : List Text → Text
first_color [] = []
first_color (c ∷ cs) = c

abbrev pub turned : List Text → List Text
turned [] = []
turned (c ∷ cs) = cs ++ (c ∷ [])

-- The loop over the marks.
abbrev pub mark_one : ℕ → Text → Mark → List (List Cell) → Option (List (List Cell))
mark_one sub color m rows =
    elim (modify_at m.begin_idx (unshift (begin_label sub color m.end_idx)) rows) [
      | none ↦ none
      | some begun ↦ modify_at m.end_idx (push (end_label m.name)) begun
    ]

unfoldable pub mark_all : ℕ → List Text → List Mark → List (List Cell) → Option (List (List Cell))
mark_all sub colors [] rows = some rows
mark_all sub colors (m ∷ ms) rows = elim (mark_one sub (first_color colors) m rows) [
  | none ↦ none
  | some marked ↦ mark_all (suc sub) (turned colors) ms marked
]

-- The table around all bytes.
abbrev pub end_last : List (List Cell) → List (List Cell)
end_last [] = []
end_last (x ∷ []) = push end_table x ∷ []
end_last (x ∷ (y ∷ xs)) = x ∷ end_last (y ∷ xs)

abbrev pub in_table : List (List Cell) → List (List Cell)
in_table [] = []
in_table (x ∷ xs) = end_last (unshift begin_table x ∷ xs)

-- What `insert` finds in an element: the label that begins there, or the end of one.
pub data Found : Type 0 where
  nothing : Found
  inside : Text → ℕ → Found
  outside : Found

abbrev pub find_label : List Cell → Found
find_label [] = nothing
find_label (begin_label sub color e ∷ cs) = inside color e
find_label (end_label name ∷ cs) = outside
find_label (_ ∷ cs) = find_label cs

-- The loop of `insert` from `j` down to 1.
unfoldable pub search : ℕ → List (List Cell) → Found
search zero rows = nothing
search (suc j) rows =
    let before = search j rows in
    elim (get_elem? rows (suc j)) [
      | none ↦ before
      | some cs ↦ elim (find_label cs) [ nothing ↦ before | f ↦ f ]
    ]

-- The name of the last end of a label, and the element with dots for such names.
abbrev pub last_name : Text → List Cell → Text
last_name n [] = n
last_name n (end_label name ∷ cs) = last_name name cs
last_name n (_ ∷ cs) = last_name n cs

abbrev pub dotted : List Cell → List Cell
dotted [] = []
dotted (end_label name ∷ cs) = end_label (text "...") ∷ dotted cs
dotted (c ∷ cs) = c ∷ dotted cs

abbrev pub or_same : List (List Cell) → Option (List (List Cell)) → List (List Cell)
or_same rows none = rows
or_same rows (some r) = r

abbrev pub name_at : ℕ → List (List Cell) → Text
name_at e rows = elim (get_elem? rows e) [ none ↦ [] | some cs ↦ last_name [] cs ]

-- `insert(idx)`; the indices of labels are in range after `mark_all`
unfoldable pub insert : ℕ → List (List Cell) → List (List Cell)
insert idx rows = elim (search idx rows) [
  | nothing ↦ rows
  | outside ↦ or_same rows (modify_at idx (push row_outside_label) rows)
  | inside color e ↦
      let renamed = or_same rows (modify_at e dotted rows) in
      or_same renamed (modify_at idx (push (row_inside_label (name_at e rows) color)) renamed)
]

-- The loop that formats lines, over `k` elements from `i` on, of `n`.
abbrev pub is_break : ℕ → ℕ → Bool
is_break i n = ltb 0 i && ltb i (n - 1) && suc i % 16 == 0

unfoldable pub format_lines : ℕ → ℕ → ℕ → List (List Cell) → List (List Cell)
format_lines i zero n rows = rows
format_lines i (suc k) n rows =
    format_lines (suc i) k n (if is_break i n then insert i rows else rows)

unfoldable pub flatten : List (List Cell) → List Cell
flatten [] = []
flatten (x ∷ xs) = x ++ flatten xs

-- The cells of a dump.
unfoldable pub dump : Text → List Mark → Option (List Cell)
dump s marks =
    elim (mark_all 0 (text "#FF0000" ∷ (text "#00FF00" ∷ [])) marks
      (map cells_of (drop_empty (split s)))) [
        | none ↦ none
        | some rows ↦
            let tabled = in_table rows in
            some (flatten (format_lines 0 (length tabled) (length tabled) tabled))
      ]
