-- ===== src/Cache/Policy/S3Fifo/Methods.antt =====
-- `on_access`, `on_admit` and `on_remove` of cache/src/policy/s3fifo.rs.
use fibre.Base.{
  ℕ, ◌+◌, ◌<◌, ◌≡◌, refl, none, some, arith, ite, inl, inr, Option-cases, u64_mod, if◌then◌else◌,
  ap, ◌∙◌, ◌-◌, ◌≤◌, [], ◌∷◌, Bool-cases, subst, add64, sub64, sub64_lem,
}
use fibre.Base.HashMap.{HashMap, get, remove, insert, get-remove, get-insert}
use fibre.Base.HashMap.Values.{
  Distinct, Distinct-remove, sum_of-remove-eq, sum_of, modify, get-modify, sum_of-modify,
  sum_of-modify-get, sum_of-remove-le, sum_of-insert-le,
}
use fibre.Base.Keys.{contains, retain_ne}
use fibre.Cache.Policy.{admit}
use fibre.Cache.Policy.S3Fifo.{
  Queue, small, main, same_queue, Meta, State, raise_freq, on_access, on_admit, on_remove, compact,
}
use fibre.Cache.Policy.S3Fifo.Queues.{cost_sum, costs, IsQueued, Pushed, push-Pushed}
use fibre.Cache.Policy.S3Fifo.Front.{IsValid, queue_of-same}
use fibre.Cache.Policy.S3Fifo.Compact.{metas-compact, compact-IsValid}

module _ {K : Type 0} (dec : Discrete K) where
  -- A change that keeps the stamp and the queue of a record keeps the entries in their queues.
  modify-IsQueued :
      (key j : K) (f : Meta → Meta) (s t : State K)
      → ((m : Meta) → (f m).stamp ≡ m.stamp)
      → ((m : Meta) → (f m).queue ≡ m.queue)
      → t.metas ≡ modify dec key f s.metas
      → t.smalls ≡ s.smalls
      → t.mains ≡ s.mains
      → IsQueued dec s j
      → IsQueued dec t j
  modify-IsQueued key j f s t stamps queues metas smalls mains q w at =
      elim (Option-cases (get dec j s.metas)) [
        | inl n ↦ absurd (ground (arith, n, at, metas, get-modify dec j key f s.metas))
        | inr (m, n) ↦ ground (
          arith,
          n,
          at,
          metas,
          get-modify dec j key f s.metas,
          stamps m,
          queues m,
          q m n,
          queue_of-same dec m.queue s t smalls mains,
        )
      ]

  -- `on_access` keeps the state valid and the cost of every key.
  on_access_s3fifo :
      (k : K) (c : ℕ) (s : State K)
      → IsValid dec s
      → IsValid dec (on_access dec k c s)
        × ((j : K) → costs dec (on_access dec k c s) j ≡ costs dec s j)
  unfolding on_access
  on_access_s3fifo k c s v = (
    record {
      listed = λ j.
          modify-IsQueued k j (raise_freq dec) s (on_access dec k c s) (λ m. refl) (λ m. refl) refl
            refl refl (v.listed j);
      fits =
          rw (sum_of-modify dec k (λ (x : Meta). x.cost) (raise_freq dec) s.metas (λ x. refl))
            v.fits;
    },
    λ j. elim (Option-cases (get dec j s.metas)) [
      | inl n ↦ ground (arith, n, get-modify dec j k (raise_freq dec) s.metas)
      | inr (m, n) ↦ ground (arith, n, get-modify dec j k (raise_freq dec) s.metas)
    ],
  )

  -- A valid state without the key, and otherwise with the same costs.
  abbrev pub Removed : K → State K → State K → Type 0
  Removed k s t = IsValid dec t × ((j : K) → costs dec t j ≡ ite (dec k j) none (costs dec s j))

  remove-Removed :
      (k : K) (s t : State K)
      → IsValid dec s
      → t.metas ≡ remove dec k s.metas
      → t.smalls ≡ s.smalls
      → t.mains ≡ s.mains
      → Removed k s t
  remove-Removed k s t v metas smalls mains = (
    record {
      listed = λ j w at. ground (
        arith,
        at,
        metas,
        get-remove dec j k s.metas,
        queue_of-same dec w.queue s t smalls mains,
        v.listed j w,
      );
      fits =
          omega (
            arith,
            v.fits,
            ap cost_sum metas,
            sum_of-remove-le dec k (λ (x : Meta). x.cost) s.metas,
          );
    },
    λ j. ground (arith, metas, get-remove dec j k s.metas),
  )

  -- What a record counts in the cost of the small queue.
  abbrev pub small_share : Meta → ℕ
  small_share m = if same_queue m.queue small then m.cost else 0

  -- Each key has one record, and the two running costs are the sums that they stand for.
  pub record Accounts (s : State K) : Type 0 where
    pub distinct : Distinct dec s.metas
    pub total : s.total_cost ≡ cost_sum s.metas
    pub small_queue : s.small_cost ≡ sum_of small_share s.metas

  pub small_share-le : (metas : HashMap K Meta) → sum_of small_share metas ≤ cost_sum metas
  small_share-le [] = omega arith
  small_share-le ((k, m) ∷ metas) = ground (arith, small_share-le metas)

  -- What removing a key leaves: the state without it, with its running costs right again, and with
  -- both queues and the ghosts as they were, so that the queue entry of the key stays behind.
  pub record Released (k : K) (s t : State K) : Type 0 where
    pub removed : Removed k s t
    pub accounts : Accounts t
    pub smalls : t.smalls ≡ s.smalls
    pub mains : t.mains ≡ s.mains
    pub ghost : t.ghost ≡ s.ghost
    pub ghost_set : t.ghost_set ≡ s.ghost_set
    pub next_stamp : t.next_stamp ≡ s.next_stamp

  -- On a valid state whose running costs are right, `on_remove` stops tracking its key and no other,
  -- and takes its cost out of the running costs: the state is valid again and its running costs are
  -- right. It leaves the queue entry of the key behind: the queues and the ghosts do not change.
  pub on_remove_s3fifo :
      (k : K) (s : State K) → IsValid dec s → Accounts s → Released k s (on_remove dec k s)
  unfolding on_remove
  on_remove_s3fifo k s v a = elim (Option-cases (get dec k s.metas)) [
    | inl n ↦ subst (Released k s) (ground (arith, n)) (record {
      removed = (v, λ j. ground (arith, n));
      accounts = a;
      smalls = refl;
      mains = refl;
      ghost = refl;
      ghost_set = refl;
      next_stamp = refl;
    })
    | inr (m, n) ↦
        let t : State K = record s {
          metas = remove dec k s.metas;
          total_cost = sub64 s.total_cost m.cost;
          small_cost = if same_queue m.queue small then sub64 s.small_cost m.cost else s.small_cost;
        } in
        let whole = sum_of-remove-eq dec k (λ (x : Meta). x.cost) s.metas m a.distinct n in
        let share = sum_of-remove-eq dec k small_share s.metas m a.distinct n in
        let below = small_share-le s.metas in
        let total : sub64 s.total_cost m.cost ≡ s.total_cost - m.cost =
          sub64_lem s.total_cost m.cost (omega (arith, a.total, whole))
            (omega (arith, a.total, v.fits)) in
        subst (Released k s) (ground (arith, n)) (record {
          removed = remove-Removed k s t v refl refl refl;
          accounts = record {
            distinct = Distinct-remove dec k s.metas a.distinct;
            total = omega (arith, total, whole, a.total);
            small_queue = elim (Bool-cases (same_queue m.queue small)) [
              | inl y ↦
                  let counted : small_share m ≡ m.cost = rw y refl in
                  rw y (
                    sub64_lem s.small_cost m.cost (omega (arith, a.small_queue, share, counted))
                      (omega (arith, a.small_queue, below, v.fits))
                    ∙ omega (arith, a.small_queue, share, counted))
              | inr z ↦
                  let counted : small_share m ≡ 0 = rw z refl in
                  rw z (omega (arith, a.small_queue, share, counted))
            ];
          };
          smalls = refl;
          mains = refl;
          ghost = refl;
          ghost_set = refl;
          next_stamp = refl;
        })
  ]

  -- A valid state with the key at its cost, and otherwise with the same costs.
  abbrev pub Admitted : K → ℕ → State K → State K → Type 0
  Admitted k c s t =
      IsValid dec t × ((j : K) → costs dec t j ≡ ite (dec k j) (some c) (costs dec s j))

  reprice-Admitted :
      (k : K) (c : ℕ) (m : Meta) (s t : State K)
      → IsValid dec s
      → cost_sum s.metas + c < u64_mod
      → get dec k s.metas ≡ some m
      → t.metas ≡ modify dec k (λ x. record x { cost = c }) s.metas
      → t.smalls ≡ s.smalls
      → t.mains ≡ s.mains
      → Admitted k c s t
  reprice-Admitted k c m s t v fits found metas smalls mains =
      let change : Meta → Meta = λ x. record x { cost = c } in
      (
        record {
          listed = λ j.
              modify-IsQueued k j change s t (λ x. refl) (λ x. refl) metas smalls mains
                (v.listed j);
          fits = omega (
            arith,
            ap cost_sum metas,
            sum_of-modify-get dec k (λ (x : Meta). x.cost) change s.metas m found,
          );
        },
        λ j. elim (Option-cases (get dec j s.metas)) [
          | inl n ↦ ground (arith, n, metas, found, get-modify dec j k change s.metas)
          | inr (w, n) ↦ ground (arith, n, metas, get-modify dec j k change s.metas)
        ],
      )

  compact-Admitted :
      (k : K) (c : ℕ) (s t : State K) → Admitted k c s t → Admitted k c s (compact dec t)
  compact-Admitted k c s t a =
      (compact-IsValid dec t a.0, λ j. ground (arith, metas-compact dec t, a.1 j))

  push-Admitted :
      (k : K) (c : ℕ) (queue : Queue) (m : Meta) (s s1 t : State K)
      → IsValid dec s
      → cost_sum s.metas + c < u64_mod
      → m.cost ≡ c
      → s1.metas ≡ insert dec k m s.metas
      → s1.smalls ≡ s.smalls
      → s1.mains ≡ s.mains
      → Pushed dec k queue m s1 t
      → Admitted k c s t
  push-Admitted k c queue m s s1 t v fits cost metas smalls mains p =
      let get' = λ (j : K). get-insert dec j k m s.metas in
      (
        record {
          listed = λ j. elim (dec k j) [
            | yes e ↦ λ w at. ground (arith, e, at, p.entry w)
            | no ne ↦ p.others j ne (λ w at. ground (
              arith,
              ne,
              at,
              metas,
              get' j,
              queue_of-same dec w.queue s s1 smalls mains,
              v.listed j w,
            ))
          ];
          fits = omega (
            arith,
            p.weight,
            cost,
            ap cost_sum metas,
            sum_of-insert-le dec k (λ (x : Meta). x.cost) m s.metas,
          );
        },
        λ j. ground (arith, p.same j, metas, get' j, cost),
      )

  -- `on_admit` does not panic on a valid state that has room for the cost in a `u64`, whether the key
  -- is tracked, a ghost or new: the key is tracked at its new cost, no other key changes its cost, and
  -- the state is valid again.
  pub on_admit_s3fifo :
      (k : K) (c : ℕ) (s : State K)
      → IsValid dec s
      → cost_sum s.metas + c < u64_mod
      → (t : State K) × (on_admit dec k c s ≡ some (admit, t)) × Admitted k c s t
  unfolding on_admit
  on_admit_s3fifo k c s v fits = elim (Option-cases (get dec k s.metas)) [
    | inr (m, n) ↦
        let t : State K = record s {
          metas = modify dec k (λ x. record x { cost = c }) s.metas;
          total_cost = add64 (sub64 s.total_cost m.cost) c;
          small_cost =
              if same_queue m.queue small
              then add64 (sub64 s.small_cost m.cost) c
              else s.small_cost;
        } in
        (t, ground (arith, n), reprice-Admitted k c m s t v fits n refl refl refl)
    | inl n ↦
        let queue = if contains dec k s.ghost_set then main else small in
        let m : Meta = record { cost = c; freq = 0; queue = small; stamp = 0 } in
        let s1 : State K = record s {
          ghost_set = retain_ne dec k s.ghost_set;
          metas = insert dec k m s.metas;
          total_cost = add64 s.total_cost c;
        } in
        let (t, pushes, p) =
          push-Pushed dec k queue s1 m (ground (arith, get-insert dec k k m s.metas)) in
        (
          compact dec t,
          ground (arith, n, pushes),
          compact-Admitted k c s t (push-Admitted k c queue m s s1 t v fits refl refl refl refl p),
        )
  ]
