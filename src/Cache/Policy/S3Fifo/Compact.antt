-- ===== src/Cache/Policy/S3Fifo/Compact.antt =====
-- `compact` of cache/src/policy/s3fifo.rs.
use fibre.Base.{
  ℕ, ◌+◌, ◌*◌, ◌≤◌, ◌<◌, ◌≡◌, ◌⊎◌, refl, List, [], ◌∷◌, some, arith, true, false, Bool, inl, inr,
  length, Bool-cases, Option-cases, leb,
}
use fibre.Base.HashMap.{HashMap, get}
use fibre.Cache.Policy.S3Fifo.{
  Queue, small, main, same_queue, Meta, State, is_live, retain, compact,
}
use fibre.Cache.Policy.S3Fifo.Queues.{queue_of, queued}
use fibre.Cache.Policy.S3Fifo.Front.{IsValid}

module _ {K : Type 0} (dec : Discrete K) where
  -- A queue entry is live when the record of its key has its stamp and names its queue.
  abbrev pub Live : HashMap K Meta → Queue → K × ℕ → Type 0
  Live metas queue e =
      (m : Meta) × (get dec e.0 metas ≡ some m) × (m.stamp ≡ e.1) × (m.queue ≡ queue)

  same_queue-true : (p q : Queue) → same_queue p q ≡ true → p ≡ q
  same_queue-true small small h = refl
  same_queue-true main main h = refl
  same_queue-true small main h = absurd cc
  same_queue-true main small h = absurd cc

  same_queue_refl : (queue : Queue) → same_queue queue queue ≡ true
  same_queue_refl small = refl
  same_queue_refl main = refl

  is_live-Live :
      (metas : HashMap K Meta) (queue : Queue) (e : K × ℕ)
      → is_live dec metas queue e ≡ true
      → Live metas queue e
  unfolding is_live
  is_live-Live metas queue (k, stamp) h = elim (Option-cases (get dec k metas)) [
    | inl n ↦ absurd (ground (arith, n, h))
    | inr (m, n) ↦
        (m, n, ground (arith, n, h), same_queue-true m.queue queue (ground (arith, n, h)))
  ]

  not-Live :
      (metas : HashMap K Meta) (queue : Queue) (e : K × ℕ)
      → is_live dec metas queue e ≡ false
      → ¬ Live metas queue e
  unfolding is_live
  not-Live metas queue (k, stamp) h (m, n, stamps, same) =
      let same' : same_queue m.queue queue ≡ true = rw same (same_queue_refl queue) in
      absurd (ground (arith, n, h, stamps, same'))

  -- The second list is the first without exactly the entries that `P` does not hold of.
  pub data Filtered (P : K × ℕ → Type 0) : List (K × ℕ) → List (K × ℕ) → Type 0 where
    nil : Filtered P [] []
    live :
        {es fs : List (K × ℕ)} (e : K × ℕ) → P e → Filtered P es fs → Filtered P (e ∷ es) (e ∷ fs)
    stale : {es fs : List (K × ℕ)} (e : K × ℕ) → ¬ P e → Filtered P es fs → Filtered P (e ∷ es) fs

  retain-Filtered :
      (metas : HashMap K Meta) (queue : Queue) (es : List (K × ℕ))
      → Filtered (Live metas queue) es (retain dec (is_live dec metas queue) es)
  unfolding retain
  retain-Filtered metas queue [] = nil
  retain-Filtered metas queue (e ∷ es) = elim (Bool-cases (is_live dec metas queue e)) [
    | inl y ↦ rw y (live e (is_live-Live metas queue e y) (retain-Filtered metas queue es))
    | inr n ↦ rw n (stale e (not-Live metas queue e n) (retain-Filtered metas queue es))
  ]

  -- The queues have lost exactly their stale entries, and nothing else has changed.
  pub record Compacted (s t : State K) : Type 0 where
    pub smalls : Filtered (Live s.metas small) s.smalls t.smalls
    pub mains : Filtered (Live s.metas main) s.mains t.mains
    pub rest : t ≡ record s { smalls = t.smalls; mains = t.mains }

  queued-retain :
      (keep : K × ℕ → Bool) (k : K) (stamp : ℕ) (es : List (K × ℕ))
      → keep (k, stamp) ≡ true
      → queued dec k stamp es ≡ true
      → queued dec k stamp (retain dec keep es) ≡ true
  unfolding queued retain
  queued-retain keep k stamp [] y h = h
  queued-retain keep k stamp (e ∷ es) y h = elim (Bool-cases (keep e)) [
    | inl kept ↦ ground (arith, kept, queued-retain keep k stamp es y)
    | inr gone ↦ ground (arith, gone, queued-retain keep k stamp es y)
  ]

  -- While the queues have at most 64 entries more than twice as many as there are keys, `compact` changes
  -- nothing. Once they have more, it takes out exactly the stale entries, those whose key has no record
  -- with their stamp and queue: the live ones stay, in their order, and nothing else changes.
  pub compact_lem :
      (s : State K)
      → ((length s.smalls + length s.mains ≤ 2 * length s.metas + 64) × (compact dec s ≡ s))
        ⊎ ((2 * length s.metas + 64 < length s.smalls + length s.mains)
            × Compacted s (compact dec s))
  unfolding compact
  compact_lem s =
      elim (Bool-cases (leb (length s.smalls + length s.mains) (2 * length s.metas + 64))) [
        | inl y ↦ inl (ground (arith, y), rw y refl)
        | inr n ↦ inr (
          ground (arith, n),
          rw n (record {
            smalls = retain-Filtered s.metas small s.smalls;
            mains = retain-Filtered s.metas main s.mains;
            rest = refl;
          }),
        )
      ]

  pub metas-compact : (s : State K) → (compact dec s).metas ≡ s.metas
  unfolding compact
  metas-compact s = ground arith

  queued-compact :
      (queue : Queue) (s : State K) (k : K) (stamp : ℕ)
      → is_live dec s.metas queue (k, stamp) ≡ true
      → queued dec k stamp (queue_of queue s) ≡ true
      → queued dec k stamp (queue_of queue (compact dec s)) ≡ true
  unfolding compact
  queued-compact small s k stamp y q =
      ground (arith, q, queued-retain (is_live dec s.metas small) k stamp s.smalls y)
  queued-compact main s k stamp y q =
      ground (arith, q, queued-retain (is_live dec s.metas main) k stamp s.mains y)

  pub compact-IsValid : (s : State K) → IsValid dec s → IsValid dec (compact dec s)
  unfolding is_live
  compact-IsValid s v =
      let metas = metas-compact s in
      record {
        listed = λ k m at.
            let found : get dec k s.metas ≡ some m = ground (arith, metas, at) in
            queued-compact m.queue s k m.stamp (ground (arith, found, same_queue_refl m.queue))
              (v.listed k m found);
        fits = rw metas v.fits;
      }
