-- ===== src/Base/Sublists.antt =====
-- Lists with some elements left out.
use mathlib.Core.List.{List, [], ◌∷◌}

-- The first list is the second with some elements left out.
pub data Sub {T : Type 0} : List T → List T → Type 0 where
  nil : Sub [] []
  keep : {xs ys : List T} (x : T) → Sub xs ys → Sub (x ∷ xs) (x ∷ ys)
  skip : {xs ys : List T} (y : T) → Sub xs ys → Sub xs (y ∷ ys)
