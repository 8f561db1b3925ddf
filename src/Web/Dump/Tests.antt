-- ===== src/Web/Dump/Tests.antt =====
-- Dumps of a few bytes, and the theorem about them at two marks.
use starfall.Base.{ℕ, ◌≡◌, refl, [], ◌∷◌, List, none, some, length, arith}
use starfall.Network.Runtime.{Text, text}
use starfall.Web.Dump.{
  Cell, Mark, hex, whitespace, begin_table, end_table, split, drop_empty, dump, mark_all, modify_at,
  format_lines, insert, search, flatten,
}
use starfall.Web.Dump.Bytes.{hexes}
use starfall.Web.Dump.Words.{dump-words}

-- Seventeen bytes, with a new line after the sixteenth.
abbrev dumped : Text
dumped = text "00 11 02 03 04 05 06 07 08 09 0A 0B 0C 0D 0E 0F\n10"

abbrev type_mark : Mark
type_mark = record { begin_idx = 0; end_idx = 1; name = text "type" }

abbrev body_mark : Mark
body_mark = record { begin_idx = 2; end_idx = 16; name = text "body" }

length_of_packet : length (drop_empty (split dumped)) ≡ 17
unfolding split drop_empty
length_of_packet = refl

-- Two spaces and a new line in a row make no bytes.
split_blank : drop_empty (split (text "AA  \nBB")) ≡ text "AA" ∷ (text "BB" ∷ [])
unfolding split drop_empty
split_blank = refl

-- A dump with no marks has no place to break a row.
dump_unmarked :
    dump (text "AA BB") []
    ≡ some (
        begin_table
        ∷ (hex (text "AA") ∷ (whitespace ∷ (hex (text "BB") ∷ (whitespace ∷ (end_table ∷ []))))))
unfolding dump split drop_empty mark_all modify_at format_lines insert search flatten
dump_unmarked = refl

-- A mark that ends behind the last byte is a TypeError.
dump_outside : dump (text "AA BB") (type_mark ∷ (record type_mark { end_idx = 2 } ∷ [])) ≡ none
unfolding dump split drop_empty mark_all modify_at
dump_outside = refl

-- Two spaces and a new line between the first two bytes, and a new line at the end.
abbrev separated : List (Text × ℕ)
separated = (text "0A", 32) ∷ ((text "", 32) ∷ ((text "", 10) ∷ ((text "ff", 10) ∷ [])))

dump-words_example :
    (cells : List Cell) × (dump (text "0A  \nff\n") (type_mark ∷ (type_mark ∷ [])) ≡ some cells)
    × (hexes cells ≡ text "0A" ∷ (text "ff" ∷ []))
dump-words_example =
    dump-words separated [] (type_mark ∷ (type_mark ∷ []))
      (((refl, (refl, tt)), refl), ((tt, refl), ((tt, refl), (((refl, (refl, tt)), refl), tt)))) tt
      (omega arith)
