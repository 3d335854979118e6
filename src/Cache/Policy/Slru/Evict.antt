-- ===== src/Cache/Policy/Slru/Evict.antt =====
-- Evicting from an SLRU.
use fibre.Base.{
  ℕ, zero, suc, ◌+◌, ◌-◌, ◌<◌, ◌≡◌, List, [], ◌∷◌, ◌++◌, arith, length, u64_mod, append_assoc,
  append-nil, add64_lem, ap, ◌∙◌, sym, subst,
}
use fibre.Cache.Recency.{Entries, total, keys, RecencyList}
use fibre.Cache.Recency.Entries.{total-append, keys-append}
use fibre.Cache.Recency.Eviction.{
  due, kept, Evicts, due-Evicts, due-append, kept-append, total-due-le,
}
use fibre.Cache.Policy.Slru.{SlruState, maintain_capacities, drain, evict_items}
use fibre.Cache.Policy.Slru.Maintain.{Segments, demoted, stays, maintain_capacities-Segments}

module _ {K : Type 0} {dec : Discrete K} (R : RecencyList K dec) where
  open R use {Repr, Shows}

  drain_lem :
      (xs : Entries K) (fuel need : ℕ) (victims : List K) (freed : ℕ) (list : Repr)
      → Shows list xs
      → length xs < fuel
      → freed + total xs < u64_mod
      → let (left, vs, f, l) = drain R fuel need victims freed list in
        (left ≡ need - total (due need xs))
        × (vs ≡ victims ++ keys (due need xs))
        × (f ≡ freed + total (due need xs))
        × Shows l (kept need xs)
  unfolding drain due kept
  drain_lem [] (suc fuel) need victims freed list h lt fits =
      ground (arith, R.pop_back_lem list [] h, append-nil victims)
  drain_lem ((k, c) ∷ xs) (suc fuel) need victims freed list h lt fits = ground (
    arith,
    R.pop_back_lem list ((k, c) ∷ xs) h,
    append-nil victims,
    add64_lem freed c,
    append_assoc victims (k ∷ []) (keys (due (need - c) xs)),
    drain_lem xs fuel (need - c) (victims ++ k ∷ []) (freed + c) (R.pop_back list).1,
  )
  drain_lem xs zero need victims freed list h lt fits = absurd (omega arith)

  both_Evicts :
      (need : ℕ) (old young : Entries K) (left : ℕ) {vs ws : List K} {f g : ℕ}
      → left ≡ need - total (due need old)
      → vs ≡ keys (due need old)
      → ws ≡ vs ++ keys (due left young)
      → f ≡ 0 + total (due need old)
      → g ≡ f + total (due left young)
      → Evicts need (old ++ young) ws g (kept need old ++ kept left young)
  both_Evicts need old young left {vs} {ws} {f} {g} l n n' c c' =
      let split : due need (old ++ young) ≡ due need old ++ due left young =
        due-append need old young ∙ ap (λ t. due need old ++ due t young) (sym l) in
      let rest : kept need old ++ kept left young ≡ kept need (old ++ young) =
        sym (kept-append need old young ∙ ap (λ t. kept need old ++ kept t young) (sym l)) in
      let names : ws ≡ keys (due need (old ++ young)) =
        rw (split, keys-append) (n' ∙ ap (λ t. t ++ keys (due left young)) n) in
      let costs : g ≡ total (due need (old ++ young)) =
        rw split (omega (arith, c, c', total-append (due need old) (due left young))) in
      rw (names, costs, rest) (due-Evicts need (old ++ young))

  -- On segments that show their entries, `evict_items` first demotes what does not fit the protected share. Of the entries in the order
  -- that this leaves, the probationary ones before the protected ones and each oldest first, it
  -- returns the shortest run from the start that costs what was asked, with its cost. Each segment
  -- keeps exactly its others: the probationary one what the run left of it, with the demoted entries
  -- at its young end, and the protected one what the run left of the entries that stayed in it.
  pub evict_items_lem :
      (need cap : ℕ) (s : SlruState Repr) (xs ys : Entries K)
      → Segments R s xs ys
      → let (victims, freed, t) = evict_items R need cap s in
        let old = xs ++ demoted cap ys in
        let young = stays cap ys in
        let xs' = kept need old in
        let ys' = kept (need - total (due need old)) young in
        Shows t.probationary xs'
        × Shows t.protected ys'
        × Evicts need (old ++ young) victims freed (xs' ++ ys')
  unfolding evict_items
  evict_items_lem need cap s xs ys g =
      let m = maintain_capacities R cap s in
      let old = xs ++ demoted cap ys in
      let young = stays cap ys in
      let segments = maintain_capacities-Segments R cap s xs ys g in
      let d = drain R (suc (R.size m.probationary)) need [] 0 m.probationary in
      let (left, named, cost, shows) =
        drain_lem old (suc (R.size m.probationary)) need [] 0 m.probationary segments.prob
          (omega (arith, R.size_lem m.probationary old segments.prob))
          (omega (arith, segments.fits)) in
      let (_, named', cost', shows') =
        drain_lem young (suc (R.size m.protected)) d.0 d.1 d.2 m.protected segments.prot
          (omega (arith, R.size_lem m.protected young segments.prot))
          (omega (arith, segments.fits, cost, total-due-le need old)) in
      let asked : d.0 ≡ need - total (due need old) = left in
      (
        shows,
        subst
            (λ n.
              Shows (drain R (suc (R.size m.protected)) d.0 d.1 d.2 m.protected).3 (kept n young))
            asked shows',
        subst
            (λ n.
              Evicts need (old ++ young)
                (drain R (suc (R.size m.protected)) d.0 d.1 d.2 m.protected).1
                (drain R (suc (R.size m.protected)) d.0 d.1 d.2 m.protected).2
                (kept need old ++ kept n young))
            asked (both_Evicts need old young d.0 left named named' cost cost'),
      )
