-- ===== src/Cache/Arena.antt =====
-- What the code relies on of the crate `generational_arena`, which is not part of the repository: an
-- arena hands out an index for each value, and never one that is in use.
use fibre.Base.{◌≡◌, Option, none, some, ite}

pub record ArenaLib (Index N : Type 0) : Type 1 where
  pub Repr : Type 0
  pub same_index : Discrete Index
  pub new : Repr
  pub get : Index → Repr → Option N
  -- A write through `&mut arena[index]`.
  pub put : Index → N → Repr → Repr
  pub insert : N → Repr → Index × Repr
  pub remove : Index → Repr → Option N × Repr
  pub clear : Repr → Repr
  pub get-new : (i : Index) → get i new ≡ none
  pub get-put :
      (i j : Index) (n m : N) (a : Repr)
      → get i a ≡ some m
      → get j (put i n a) ≡ ite (same_index i j) (some n) (get j a)
  pub insert_fresh : (n : N) (a : Repr) → get (insert n a).0 a ≡ none
  pub get-insert :
      (n : N) (j : Index) (a : Repr)
      → get j (insert n a).1 ≡ ite (same_index (insert n a).0 j) (some n) (get j a)
  pub remove_lem : (i : Index) (a : Repr) → (remove i a).0 ≡ get i a
  pub get-remove :
      (i j : Index) (a : Repr) → get j (remove i a).1 ≡ ite (same_index i j) none (get j a)
  pub get-clear : (i : Index) (a : Repr) → get i (clear a) ≡ none
