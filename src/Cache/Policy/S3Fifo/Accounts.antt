-- ===== src/Cache/Policy/S3Fifo/Accounts.antt =====
-- The running costs of S3-FIFO, `total_cost` and `small_cost`, under `on_access` and `on_admit`.
use fibre.Base.{
  ℕ, ◌+◌, ◌<◌, ◌≡◌, refl, none, some, arith, inl, inr, Option-cases, Bool-cases, u64_mod,
  if◌then◌else◌, [], ◌∷◌, ◌++◌, ◌∙◌, sym, subst, add64, add64_lem, sub64, sub64_lem, ◌-◌, ◌%◌, ◌^◌,
}
use fibre.Base.HashMap.{HashMap, get, insert, get-insert}
use fibre.Base.HashMap.Values.{
  Distinct, Distinct-insert, Distinct-modify, sum_of, modify, remove_absent, sum_of-modify,
  sum_of-modify-get, sum_of-remove,
}
use fibre.Base.Keys.{contains, retain_ne}
use fibre.Cache.Policy.{admit}
use fibre.Cache.Policy.S3Fifo.{
  Queue, small, main, same_queue, Meta, State, new, raise_freq, push, on_access, on_admit, compact,
}
use fibre.Cache.Policy.S3Fifo.Queues.{cost_sum}
use fibre.Cache.Policy.S3Fifo.Front.{IsValid}
use fibre.Cache.Policy.S3Fifo.Compact.{compact_lem}
use fibre.Cache.Policy.S3Fifo.Methods.{Accounts, small_share, small_share-le}

module _ {K : Type 0} (dec : Discrete K) where
  new-Accounts : Accounts dec new
  unfolding new
  new-Accounts = record { distinct = tt; total = refl; small_queue = refl }

  on_access-Accounts :
      (k : K) (c : ℕ) (s : State K) → Accounts dec s → Accounts dec (on_access dec k c s)
  unfolding on_access
  on_access-Accounts k c s a = record {
    distinct = Distinct-modify dec k (raise_freq dec) s.metas a.distinct;
    total =
        a.total
        ∙ sym (sum_of-modify dec k (λ (x : Meta). x.cost) (raise_freq dec) s.metas (λ x. refl));
    small_queue =
        a.small_queue
        ∙ sym (sum_of-modify dec k (small_share dec) (raise_freq dec) s.metas (λ x. refl));
  }

  compact-Accounts : (s : State K) → Accounts dec s → Accounts dec (compact dec s)
  compact-Accounts s a = elim (compact_lem dec s) [
    | inl (few, same) ↦ subst (Accounts dec) (sym same) a
    | inr (many, c) ↦
        subst (Accounts dec) (sym c.rest)
          (record { distinct = a.distinct; total = a.total; small_queue = a.small_queue })
  ]

  -- A record that `on_admit` makes and `push` stamps.
  abbrev listed : K → ℕ → Queue → ℕ → HashMap K Meta → HashMap K Meta
  listed k c queue stamp metas =
      modify dec k (λ m. record m { stamp = stamp; queue = queue })
        (insert dec k (record { cost = c; freq = 0; queue = small; stamp = 0 }) metas)

  listed-sums :
      (k : K) (c : ℕ) (queue : Queue) (stamp : ℕ) (metas : HashMap K Meta)
      → get dec k metas ≡ none
      → (cost_sum (listed k c queue stamp metas) ≡ cost_sum metas + c)
        × (sum_of (small_share dec) (listed k c queue stamp metas)
            ≡ sum_of (small_share dec) metas + (if same_queue queue small then c else 0))
  unfolding insert
  listed-sums k c queue stamp metas n =
      let m : Meta = record { cost = c; freq = 0; queue = small; stamp = 0 } in
      let change = λ (x : Meta). record x { stamp = stamp; queue = queue } in
      let metas' = insert dec k m metas in
      let here : get dec k metas' ≡ some m = ground (arith, get-insert dec k k m metas) in
      (
        omega (
          arith,
          sum_of-modify-get dec k (λ (x : Meta). x.cost) change metas' m here,
          remove_absent dec k (λ (x : Meta). x.cost) metas n,
        ),
        omega (
          arith,
          sum_of-modify-get dec k (small_share dec) change metas' m here,
          remove_absent dec k (small_share dec) metas n,
        ),
      )

  -- A tracked key at a new cost.
  repriced-Accounts :
      (k : K) (c : ℕ) (m : Meta) (s : State K)
      → IsValid dec s
      → Accounts dec s
      → cost_sum s.metas + c < u64_mod
      → get dec k s.metas ≡ some m
      → Accounts dec (record s {
        metas = modify dec k (λ x. record x { cost = c }) s.metas;
        total_cost = add64 (sub64 s.total_cost m.cost) c;
        small_cost =
            if same_queue m.queue small then add64 (sub64 s.small_cost m.cost) c else s.small_cost;
      })
  repriced-Accounts k c m s v a fits n =
      let change = λ (x : Meta). record x { cost = c } in
      let whole = sum_of-modify-get dec k (λ (x : Meta). x.cost) change s.metas m n in
      let share = sum_of-modify-get dec k (small_share dec) change s.metas m n in
      let part = sum_of-remove dec k (λ (x : Meta). x.cost) s.metas m n in
      let part' = sum_of-remove dec k (small_share dec) s.metas m n in
      let below = small_share-le dec s.metas in
      let less : sub64 s.total_cost m.cost ≡ s.total_cost - m.cost =
        sub64_lem s.total_cost m.cost (omega (arith, a.total, part))
          (omega (arith, a.total, v.fits)) in
      let sum : add64 (s.total_cost - m.cost) c ≡ s.total_cost - m.cost + c =
        add64_lem (s.total_cost - m.cost) c (omega (arith, a.total, fits)) in
      record {
        distinct = Distinct-modify dec k change s.metas a.distinct;
        total = rw less (sum ∙ omega (arith, whole, a.total, part));
        small_queue = elim (Bool-cases (same_queue m.queue small)) [
          | inl y ↦
              let own : small_share dec m ≡ m.cost = rw y refl in
              let own' : small_share dec (change m) ≡ c = rw y refl in
              let less' : sub64 s.small_cost m.cost ≡ s.small_cost - m.cost =
                sub64_lem s.small_cost m.cost (omega (arith, a.small_queue, part', own))
                  (omega (arith, a.small_queue, below, v.fits)) in
              let sum' : add64 (s.small_cost - m.cost) c ≡ s.small_cost - m.cost + c =
                add64_lem (s.small_cost - m.cost) c (omega (arith, a.small_queue, below, fits)) in
              rw (y, less') (sum' ∙ omega (arith, share, own, own', a.small_queue, part'))
          | inr z ↦
              let own : small_share dec m ≡ 0 = rw z refl in
              let own' : small_share dec (change m) ≡ 0 = rw z refl in
              rw z (omega (arith, share, own, own', a.small_queue))
        ];
      }

  -- The state before the key is queued.
  abbrev inserted : K → ℕ → State K → State K
  inserted k c s = record s {
    ghost_set = retain_ne dec k s.ghost_set;
    metas = insert dec k (record { cost = c; freq = 0; queue = small; stamp = 0 }) s.metas;
    total_cost = add64 s.total_cost c;
  }

  listed-Distinct :
      (k : K) (c : ℕ) (queue : Queue) (stamp : ℕ) (metas : HashMap K Meta)
      → Distinct dec metas
      → Distinct dec (listed k c queue stamp metas)
  listed-Distinct k c queue stamp metas d =
      Distinct-modify dec k _ _ (Distinct-insert dec k _ metas d)

  module _ (k : K) (c : ℕ) (s : State K) (a : Accounts dec s)
      (fits : cost_sum s.metas + c < u64_mod) (n : get dec k s.metas ≡ none) where
    found :
        get dec k (inserted k c s).metas
        ≡ some (record { cost = c; freq = 0; queue = small; stamp = 0 })
    found =
        let m : Meta = record { cost = c; freq = 0; queue = small; stamp = 0 } in
        ground (arith, get-insert dec k k m s.metas)

    total-inserted :
        (queue : Queue) (stamp : ℕ)
        → add64 s.total_cost c ≡ cost_sum (listed k c queue stamp s.metas)
    total-inserted queue stamp =
        add64_lem s.total_cost c (omega (arith, a.total, fits))
        ∙ omega (arith, a.total, (listed-sums k c queue stamp s.metas n).0)

    pushed-Accounts :
        (queue : Queue)
        → (t : State K) × (push dec k queue (inserted k c s) ≡ some t) × Accounts dec t
    unfolding push
    pushed-Accounts small =
        let stamp = (s.next_stamp + 1) % 2 ^ 32 in
        (
          record (inserted k c s) {
            next_stamp = stamp;
            metas = listed k c small stamp s.metas;
            small_cost = add64 s.small_cost c;
            smalls = s.smalls ++ (k, stamp) ∷ [];
          },
          rw (push, found) refl,
          record {
            distinct = listed-Distinct k c small stamp s.metas a.distinct;
            total = total-inserted small stamp;
            small_queue =
                add64_lem s.small_cost c
                  (omega (arith, a.small_queue, small_share-le dec s.metas, fits))
                ∙ omega (arith, a.small_queue, (listed-sums k c small stamp s.metas n).1);
          },
        )
    pushed-Accounts main =
        let stamp = (s.next_stamp + 1) % 2 ^ 32 in
        (
          record (inserted k c s) {
            next_stamp = stamp;
            metas = listed k c main stamp s.metas;
            mains = s.mains ++ (k, stamp) ∷ [];
          },
          rw (push, found) refl,
          record {
            distinct = listed-Distinct k c main stamp s.metas a.distinct;
            total = total-inserted main stamp;
            small_queue = omega (arith, a.small_queue, (listed-sums k c main stamp s.metas n).1);
          },
        )

  -- On a valid state whose running costs are right, and that has room for the cost in a `u64`,
  -- `on_admit` keeps them right, whether the key is tracked, a ghost or new: `total_cost` is the cost of
  -- all keys, and `small_cost` that of the keys whose record names the small queue.
  pub on_admit-Accounts :
      (k : K) (c : ℕ) (s : State K)
      → IsValid dec s
      → Accounts dec s
      → cost_sum s.metas + c < u64_mod
      → (t : State K) × (on_admit dec k c s ≡ some (admit, t)) × Accounts dec t
  unfolding on_admit
  on_admit-Accounts k c s v a fits = elim (Option-cases (get dec k s.metas)) [
    | inr (m, n) ↦ (_, ground (arith, n), repriced-Accounts k c m s v a fits n)
    | inl n ↦
        let (t, pushes, after) =
          pushed-Accounts k c s a fits n (if contains dec k s.ghost_set then main else small) in
        (compact dec t, ground (arith, n, pushes), compact-Accounts t after)
  ]
