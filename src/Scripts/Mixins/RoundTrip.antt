-- ===== src/Scripts/Mixins/RoundTrip.antt =====
-- `eachObject` after `arrayToObject`.
use starfall.Base.{ℕ, suc, ◌≡◌, refl, ap, ◌∙◌, List, [], ◌∷◌, ◌++◌, true, false, All}
use starfall.Scripts.Json.{Key, Json, array, object, Items, nil, cons, end, field}
use starfall.Scripts.Mixins.{
  Underscore, is_index, is_object, one_call, each_field, each_object, array_to_object,
  indexed_fields,
}

-- `{ k : v }`, and an array of such objects.
abbrev pub single : Json × Key → Json
single (v, k) = object (field k v end)

abbrev pub singles : List (Json × Key) → Items
singles [] = nil
singles (p ∷ ps) = cons (single p) (singles ps)

-- The property is an object under a key that is no number.
abbrev pub IsNested : Json × Key → Type 0
IsNested (v, k) = (is_object v ≡ true) × (is_index k ≡ false)

module _ (u : Underscore) where
  indexed_calls :
      (i : ℕ) (ps : List (Json × Key)) → each_field u (indexed_fields i (singles ps)) ≡ ps
  unfolding each_field is_index indexed_fields array_to_object
  indexed_calls i [] = refl
  indexed_calls i ((v, k) ∷ ps) =
      ap (λ o. one_call o ++ each_field u (indexed_fields (suc i) (singles ps)))
        (u.some_first-object k v end)
      ∙ ap (λ t. (v, k) ∷ t) (indexed_calls (suc i) ps)

  -- `eachObject` calls its function for the properties of the objects of an array that
  -- `arrayToObject` has turned into an object, in the array's order, be there none, one or more, as
  -- long as each object has a single property, whose value is an object and whose key is no number.
  pub each_object-array_to_object :
      (ps : List (Json × Key))
      → All IsNested ps
      → each_object u (array_to_object (array (singles ps))) ≡ ps
  unfolding each_object array_to_object
  each_object-array_to_object [] h = refl
  each_object-array_to_object ((v, k) ∷ []) ((hv, hk), _) = unfold each_field in rw (hk, hv)
  each_object-array_to_object (p ∷ (q ∷ ps)) h = indexed_calls 0 (p ∷ (q ∷ ps))
