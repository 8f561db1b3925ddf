-- ===== src/Editor/Mesh.antt =====
-- What OnDestroy of EditCharacterGuiScript.js leaves on the mesh.
use starfall.Base.{ℕ, ◌==◌, ◌≡◌, List, [], ◌∷◌, All, Bool, true, false, ◌||◌, Option, none, some}
use starfall.Editor.{Item}

abbrev pub is_on : ℕ → Option ℕ → Bool
is_on n none = false
is_on n (some m) = m == n

module _ {C : Type 0} where
  abbrev pub any_on : ℕ → List (Item C) → Bool
  any_on n [] = false
  any_on n (i ∷ parts) = is_on n i.rendered || any_on n parts

  -- The parts that are drawn with the material `n` were made with the color `c`.
  abbrev pub MadeWith : ℕ → C → List (Item C) → Type 0
  MadeWith n c parts = All (λ i. is_on n i.rendered ≡ true → i.original ≡ c) parts
