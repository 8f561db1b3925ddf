-- ===== src/Web/Dump/Words.antt =====
-- Which bytes a text holds for the dump of Server/Plugins/Web/app/app.js: those that its spaces and new
-- lines separate.
use starfall.Base.{
  ℕ, ◌==◌, ltb, ◌≡◌, refl, ap, subst, sym, ◌∙◌, List, [], ◌∷◌, ◌++◌, length, filter, All, Bool,
  true, false, ◌||◌, some, arith,
}
use starfall.Network.Runtime.{Text}
use starfall.Web.Dump.{Cell, Mark, split, drop_empty, add_char, dump}
use starfall.Web.Dump.Bytes.{hexes, IsInside, dump-hexes}

abbrev pub is_separator : ℕ → Bool
is_separator c = c == b' ' || c == 10

-- A text without separators, and one with the separator behind it.
abbrev pub IsWord : Text → Type 0
IsWord w = All (λ c. is_separator c ≡ false) w

abbrev pub IsSeparated : Text × ℕ → Type 0
IsSeparated (w, c) = IsWord w × (is_separator c ≡ true)

-- The text of words with a separator behind each, and of a last word. Some words can be empty: so every
-- text is of this form, and of one only.
abbrev pub spelled : List (Text × ℕ) → Text → Text
spelled [] last = last
spelled ((w, c) ∷ ws) last = w ++ (c ∷ spelled ws last)

abbrev pub words_of : List (Text × ℕ) → Text → List Text
words_of [] last = last ∷ []
words_of ((w, c) ∷ ws) last = w ∷ words_of ws last

abbrev pub nonempty : List Text → List Text
nonempty ws = filter (λ w. ltb 0 (length w)) ws

split-word : (w : Text) → IsWord w → split w ≡ w ∷ []
unfolding split
split-word [] h = refl
split-word (c ∷ w) (h, hs) = rw h (ap (add_char c) (split-word w hs))

split-separated :
    (w : Text) (c : ℕ) (rest : Text)
    → IsWord w
    → is_separator c ≡ true
    → split (w ++ (c ∷ rest)) ≡ w ∷ split rest
unfolding split
split-separated [] c rest h e = rw e refl
split-separated (x ∷ w) c rest (h, hs) e = rw h (ap (add_char x) (split-separated w c rest hs e))

split-spelled :
    (ws : List (Text × ℕ)) (last : Text)
    → All IsSeparated ws
    → IsWord last
    → split (spelled ws last) ≡ words_of ws last
split-spelled [] last h l = split-word last l
split-spelled ((w, c) ∷ ws) last ((h, e), hs) l =
    split-separated w c (spelled ws last) h e ∙ ap (λ t. w ∷ t) (split-spelled ws last hs l)

drop_empty_lem : (ws : List Text) → drop_empty ws ≡ nonempty ws
unfolding drop_empty
drop_empty_lem [] = refl
drop_empty_lem ([] ∷ ws) = drop_empty_lem ws
drop_empty_lem ((c ∷ w) ∷ ws) =
    let filled : ltb 0 (length (c ∷ w)) ≡ true = ground arith in
    rw filled (ap (λ t. (c ∷ w) ∷ t) (drop_empty_lem ws))

-- A dump shows the bytes of a text, all of them and in their order, whatever rows and labels it is given:
-- its words between spaces and new lines, less the empty ones. Both ends of every mark have to be bytes;
-- then nothing is thrown.
pub dump-words :
    (ws : List (Text × ℕ)) (last : Text) (ms : List Mark)
    → All IsSeparated ws
    → IsWord last
    → All (IsInside (length (nonempty (words_of ws last)))) ms
    → (cells : List Cell) × (dump (spelled ws last) ms ≡ some cells)
      × (hexes cells ≡ nonempty (words_of ws last))
dump-words ws last ms h l i =
    let e : drop_empty (split (spelled ws last)) ≡ nonempty (words_of ws last) =
      ap drop_empty (split-spelled ws last h l) ∙ drop_empty_lem (words_of ws last) in
    let (cells, d, b) =
      dump-hexes (spelled ws last) ms (subst (λ bs. All (IsInside (length bs)) ms) (sym e) i) in
    (cells, d, b ∙ e)
