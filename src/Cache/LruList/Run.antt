-- ===== src/Cache/LruList/Run.antt =====
-- Sequences of calls on an `LruList`.
use fibre.Base.{
  ℕ, ◌+◌, ◌<◌, ◌≤◌, ◌≡◌, refl, Option, some, List, [], ◌∷◌, arith, u64_mod, tail, ap, ◌∙◌,
}
use fibre.Cache.Arena.{ArenaLib}
use fibre.Cache.Recency.{Entries, total, without, refresh, promote, Distinct}
use fibre.Cache.Recency.Entries.{total-without-le, total-promote, total-refresh}
use fibre.Cache.LruList
use fibre.Cache.LruList.{Node, LruList, List', ◌>>=◌}
use fibre.Cache.LruList.Cells.{entries}
use fibre.Cache.LruList.Chain.{Cell}
use fibre.Cache.LruList.Refine.{Holds}
use fibre.Cache.LruList.Ops.{new-Holds, clear-Holds, push_front-Shown}
use fibre.Cache.LruList.Takes.{move_to_front-Shown, remove-Removed}
use fibre.Cache.LruList.Fill.{pop_back-Popped}

-- A call of one of the public operations.
pub data ListCall (K : Type 0) : Type 0 where
  push : K → ℕ → ListCall K
  move : K → ListCall K
  pop : ListCall K
  take_out : K → ListCall K
  wipe : ListCall K

abbrev pub pushed : {K : Type 0} → List (ListCall K) → ℕ
pushed [] = 0
pushed (push k c ∷ calls) = c + pushed calls
pushed (call ∷ calls) = pushed calls

module _ {K Index : Type 0} (dec : Discrete K) (A : ArenaLib Index (Node K Index)) where
  unfoldable pub step : ListCall K → List' A → Option (List' A)
  step (push k c) l = LruList.push_front dec A k c l
  step (move k) l = LruList.move_to_front dec A k l
  step pop l = do (_, rest) ← LruList.pop_back dec A l; some rest
  step (take_out k) l = do (_, rest) ← LruList.remove dec A k l; some rest
  step wipe l = some (LruList.clear A l)

  unfoldable pub run : List (ListCall K) → List' A → Option (List' A)
  run [] l = some l
  run (call ∷ calls) l = do next ← step call l; run calls next

  -- The same calls on entries, oldest first.
  unfoldable pub note : ListCall K → Entries K → Entries K
  note (push k c) xs = refresh dec k c xs
  note (move k) xs = promote dec k xs
  note pop xs = tail xs
  note (take_out k) xs = without dec k xs
  note wipe xs = []

  unfoldable pub replay : List (ListCall K) → Entries K → Entries K
  replay [] xs = xs
  replay (call ∷ calls) xs = replay calls (note call xs)

  -- A step that does not panic and shows given entries.
  record Steps (out : Option (List' A)) (xs : Entries K) : Type 0 where
    list : List' A
    returns : out ≡ some list
    cells : List (Cell K Index)
    holds : Holds dec A list cells
    shows : entries cells ≡ xs

  step-Steps :
      (call : ListCall K) (l : List' A) (cells : List (Cell K Index))
      → Holds dec A l cells
      → total (entries cells) + pushed (call ∷ []) < u64_mod
      → Steps (step call l) (note call (entries cells))
  unfolding step note
  step-Steps (push k c) l cells g room =
      let r =
        push_front-Shown dec A k c l cells g
          (omega (arith, total-without-le dec k (entries cells))) in
      record {
        list = r.list;
        returns = r.returns;
        cells = r.cells;
        holds = r.holds;
        shows = r.shows;
      }
  step-Steps (move k) l cells g room =
      let r = move_to_front-Shown dec A k l cells g in
      record {
        list = r.list;
        returns = r.returns;
        cells = r.cells;
        holds = r.holds;
        shows = r.shows;
      }
  step-Steps pop l cells g room =
      let r = pop_back-Popped dec A l cells g in
      record {
        list = r.list;
        returns = rw r.returns;
        cells = r.cells;
        holds = r.holds;
        shows = r.shows;
      }
  step-Steps (take_out k) l cells g room =
      let r = remove-Removed dec A k l cells g in
      record {
        list = r.list;
        returns = rw r.returns;
        cells = r.cells;
        holds = r.holds;
        shows = r.shows;
      }
  step-Steps wipe l cells g room = record {
    list = LruList.clear A l;
    returns = refl;
    cells = [];
    holds = clear-Holds dec A l;
    shows = refl;
  }

  total-note-le :
      (call : ListCall K) (xs : Entries K)
      → Distinct dec xs
      → total (note call xs) ≤ total xs + pushed (call ∷ [])
  unfolding note
  total-note-le (push k c) xs d = omega (arith, total-refresh dec k c xs, total-without-le dec k xs)
  total-note-le (move k) xs d = omega (arith, total-promote dec k xs d)
  total-note-le pop [] d = omega arith
  total-note-le pop ((k, c) ∷ xs) d = omega arith
  total-note-le (take_out k) xs d = omega (arith, total-without-le dec k xs)
  total-note-le wipe xs d = omega arith

  pushed-cons :
      (call : ListCall K) (calls : List (ListCall K))
      → pushed (call ∷ calls) ≡ pushed (call ∷ []) + pushed calls
  pushed-cons (push k c) calls = omega arith
  pushed-cons (move k) calls = omega arith
  pushed-cons pop calls = omega arith
  pushed-cons (take_out k) calls = omega arith
  pushed-cons wipe calls = omega arith

  run-Steps :
      (calls : List (ListCall K)) (l : List' A) (cells : List (Cell K Index))
      → Holds dec A l cells
      → total (entries cells) + pushed calls < u64_mod
      → Steps (run calls l) (replay calls (entries cells))
  unfolding run replay
  run-Steps [] l cells g room = record {
    list = l;
    returns = refl;
    cells = cells;
    holds = g;
    shows = refl;
  }
  run-Steps (call ∷ calls) l cells g room =
      let split = pushed-cons call calls in
      let r = step-Steps call l cells g (omega arith) in
      let bound : total (entries r.cells) + pushed calls < u64_mod =
        omega (arith, ap total r.shows, total-note-le call (entries cells) g.distinct) in
      let s = run-Steps calls r.list r.cells r.holds bound in
      record {
        list = s.list;
        returns = rw r.returns s.returns;
        cells = s.cells;
        holds = s.holds;
        shows = s.shows ∙ ap (replay calls) r.shows;
      }

  -- No sequence of calls from the empty list that pushes less than 2^64 of cost panics, and the list
  -- that it leaves holds exactly the entries of the replay: linked both ways in their order, found by
  -- key, each key once, with their total cost.
  pub run_refines :
      (calls : List (ListCall K))
      → pushed calls < u64_mod
      → (l : List' A) × (run calls (LruList.new A) ≡ some l)
        × (cells : List (Cell K Index)) × Holds dec A l cells
        × (entries cells ≡ replay calls [])
  run_refines calls room =
      let r = run-Steps calls (LruList.new A) [] (new-Holds dec A) (omega arith) in
      (r.list, r.returns, r.cells, r.holds, r.shows)
