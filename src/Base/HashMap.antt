-- ===== src/Base/HashMap.antt =====
-- `std::collections::HashMap` as an association list that holds each key once.
pub mod Values
use mathlib.Core.Logic.{ite}
use mathlib.Core.Path.{◌≡◌}
use mathlib.Core.List.{List, [], ◌∷◌}
use mathlib.Core.Option.{Option, none, some}
use mathlib.Core.Bool.{Bool}
use native.Mathlib.Omega.{arith}
use Prim.Native.Nat.{◌≤◌, ◌<◌}
use fibre.Base.Tests.{is_some}
use fibre.Base.Lists.{length}

abbrev pub HashMap {ℓ} : Type ℓ → Type ℓ → Type ℓ
HashMap K V = List (K × V)

module _ {ℓ} {K V : Type ℓ} (dec : Discrete K) where
  unfoldable pub get : K → HashMap K V → Option V
  get k [] = none
  get k ((j, v) ∷ m) = ite (dec j k) (some v) (get k m)

  unfoldable pub remove : K → HashMap K V → HashMap K V
  remove k [] = []
  remove k ((j, v) ∷ m) = ite (dec j k) (remove k m) ((j, v) ∷ remove k m)

  unfoldable pub insert : K → V → HashMap K V → HashMap K V
  insert k v m = (k, v) ∷ remove k m

  abbrev pub contains_key : K → HashMap K V → Bool
  contains_key k m = is_some (get k m)

  pub get-remove : (q k : K) (m : HashMap K V) → get q (remove k m) ≡ ite (dec k q) none (get q m)
  unfolding get remove
  get-remove q k [] = ground arith
  get-remove q k ((j, v) ∷ m) = ground (arith, get-remove q k m)

  pub get-insert :
      (q k : K) (v : V) (m : HashMap K V) → get q (insert k v m) ≡ ite (dec k q) (some v) (get q m)
  unfolding get insert
  get-insert q k v m = ground (arith, get-remove q k m)

  pub length-remove-le : (k : K) (m : HashMap K V) → length (remove k m) ≤ length m
  unfolding remove
  length-remove-le k [] = omega arith
  length-remove-le k ((j, v) ∷ m) = ground (arith, length-remove-le k m)

  pub length-remove-lt :
      (k : K) (m : HashMap K V) (v : V) → get k m ≡ some v → length (remove k m) < length m
  unfolding get remove
  length-remove-lt k [] v e = cc
  length-remove-lt k ((j, w) ∷ m) v e = ground (arith, length-remove-lt k m v, length-remove-le k m)
