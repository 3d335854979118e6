-- ===== src/Cache/Tests/Slots.antt =====
-- An arena as a table from numbers: the least index above all that are in use is handed out next.
use Prim.Native.Nat.{max}
use fibre.Base.{ℕ, suc, ◌≡◌, ◌≤◌, [], ◌∷◌, none, arith, refl, ℕ_discrete}
use fibre.Base.HashMap
use fibre.Base.HashMap.{HashMap, get-insert, get-remove}
use fibre.Cache.Arena.{ArenaLib}

module _ {N : Type 0} where
  abbrev pub bound : HashMap ℕ N → ℕ
  bound [] = 0
  bound ((i, n) ∷ m) = max (suc i) (bound m)

  pub get-bound : (j : ℕ) (m : HashMap ℕ N) → bound m ≤ j → HashMap.get ℕ_discrete j m ≡ none
  unfolding HashMap.get ℕ_discrete
  get-bound j [] h = refl
  get-bound j ((i, n) ∷ m) h = elim (ℕ_discrete i j) [
    | yes p ↦ absurd (omega arith)
    | no p ↦ ground (arith, p, get-bound j m (omega arith))
  ]

pub get_nothing : {N : Type 0} (j : ℕ) → HashMap.get {V = N} ℕ_discrete j [] ≡ none
unfolding HashMap.get
get_nothing j = refl

abbrev pub slots : (N : Type 0) → ArenaLib ℕ N
slots N = record {
  Repr = HashMap ℕ N;
  same_index = ℕ_discrete;
  new = [];
  get = HashMap.get ℕ_discrete;
  put = HashMap.insert ℕ_discrete;
  insert = λ n a. (bound a, HashMap.insert ℕ_discrete (bound a) n a);
  remove = λ i a. (HashMap.get ℕ_discrete i a, HashMap.remove ℕ_discrete i a);
  clear = λ a. [];
  get-new = get_nothing;
  get-put = λ i j n m a e. get-insert ℕ_discrete j i n a;
  insert_fresh = λ n a. get-bound (bound a) a (omega arith);
  get-insert = λ n j a. get-insert ℕ_discrete j (bound a) n a;
  remove_lem = λ i a. refl;
  get-remove = λ i j a. get-remove ℕ_discrete j i a;
  get-clear = λ i a. get_nothing i;
}
