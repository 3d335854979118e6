-- ===== src/Cache/Policy/S3Fifo.antt =====
-- `S3FifoPolicy` of cache/src/policy/s3fifo.rs. A missing key at an `expect` or `unwrap` is a panic of
-- the code: `none` here.
pub mod Queues
pub mod Front
pub mod Rounds
pub mod Evict
pub mod Compact
pub mod Methods
pub mod Accounts
use fibre.Base.{
  ℕ, zero, suc, ◌+◌, ◌-◌, ◌*◌, ◌/◌, ◌%◌, ◌^◌, min, max, List, [], ◌∷◌, ◌++◌, Option, none, some,
  if◌then◌else◌, true, false, Bool, length, ltb, leb, add64, sub64, ◌==◌, ◌&&◌, ◌||◌, head?, tail,
}
use fibre.Base.HashMap
use fibre.Base.HashMap.{HashMap, get}
use fibre.Base.HashMap.Values.{modify, sum_of}
use fibre.Base.Keys.{contains, retain_ne}
use fibre.Cache.Policy.{AdmissionDecision, admit}

abbrev pub freq_max : ℕ
freq_max = 3

pub data Queue : Type 0 where
  small main : Queue

abbrev pub same_queue : Queue → Queue → Bool
same_queue small small = true
same_queue main main = true
same_queue _ _ = false

pub record Meta : Type 0 where
  pub cost : ℕ
  pub freq : ℕ
  pub queue : Queue
  pub stamp : ℕ

-- The front of a queue is its first element. `ghost_set` is a list of keys.
pub record State (K : Type 0) : Type 0 where
  pub metas : HashMap K Meta
  pub smalls : List (K × ℕ)
  pub mains : List (K × ℕ)
  pub small_cost : ℕ
  pub total_cost : ℕ
  pub ghost : List K
  pub ghost_set : List K
  pub next_stamp : ℕ

pub record S3FifoPolicy : Type 0 where
  pub small_target : ℕ
  pub ghost_cap : ℕ

pub new_policy : ℕ → S3FifoPolicy
new_policy capacity = record { small_target = max (capacity / 10) 1; ghost_cap = max capacity 1 }

pub new : {K : Type 0} → State K
new = record {
  metas = [];
  smalls = [];
  mains = [];
  small_cost = 0;
  total_cost = 0;
  ghost = [];
  ghost_set = [];
  next_stamp = 0;
}

module _ {K : Type 0} (dec : Discrete K) where
  unfoldable pub push : K → Queue → State K → Option (State K)
  push key queue s =
      let stamp = (s.next_stamp + 1) % 2 ^ 32 in
      let metas = modify dec key (λ m. record m { stamp = stamp; queue = queue }) s.metas in
      elim (get dec key s.metas) [
        | none ↦ none
        | some m ↦ elim queue [
          | small ↦ some (record s {
            next_stamp = stamp;
            metas = metas;
            small_cost = add64 s.small_cost m.cost;
            smalls = s.smalls ++ (key, stamp) ∷ [];
          })
          | main ↦
              some (record s {
                next_stamp = stamp;
                metas = metas;
                mains = s.mains ++ (key, stamp) ∷ [];
              })
        ]
      ]

  -- The oldest ghost leaves when the list is full.
  unfoldable pub drop_ghost : ℕ → State K → State K
  drop_ghost limit s = elim (leb limit (length s.ghost)) [
    | false ↦ s
    | true ↦ elim (head? s.ghost) [
      | none ↦ s
      | some old ↦ record s { ghost = tail s.ghost; ghost_set = retain_ne dec old s.ghost_set }
    ]
  ]

  unfoldable pub remember_ghost : K → ℕ → State K → State K
  remember_ghost key limit s =
      let t = drop_ghost limit s in
      if contains dec key t.ghost_set
      then t
      else record t { ghost_set = key ∷ t.ghost_set; ghost = t.ghost ++ key ∷ [] }

  -- Whether a queue entry is the one that its key stands for now.
  unfoldable pub is_live : HashMap K Meta → Queue → K × ℕ → Bool
  is_live metas queue (key, stamp) = elim (get dec key metas) [
    | none ↦ false
    | some m ↦ m.stamp == stamp && same_queue m.queue queue
  ]

  unfoldable pub retain : (K × ℕ → Bool) → List (K × ℕ) → List (K × ℕ)
  retain keep [] = []
  retain keep (e ∷ es) = let rest = retain keep es in if keep e then e ∷ rest else rest

  unfoldable pub compact : State K → State K
  compact s =
      if leb (length s.smalls + length s.mains) (2 * length s.metas + 64) then s else record s {
        smalls = retain (is_live s.metas small) s.smalls;
        mains = retain (is_live s.metas main) s.mains;
      }

  -- `freq` is a `u8`.
  abbrev pub raise_freq : Meta → Meta
  raise_freq m = record m { freq = min ((m.freq + 1) % 256) freq_max }

  unfoldable pub on_access : K → ℕ → State K → State K
  on_access key cost s = record s { metas = modify dec key raise_freq s.metas }

  unfoldable pub on_admit : K → ℕ → State K → Option (AdmissionDecision K × State K)
  on_admit key cost s = elim (get dec key s.metas) [
    | some m ↦ some (
      admit,
      record s {
        metas = modify dec key (λ x. record x { cost = cost }) s.metas;
        total_cost = add64 (sub64 s.total_cost m.cost) cost;
        small_cost =
            if same_queue m.queue small
            then add64 (sub64 s.small_cost m.cost) cost
            else s.small_cost;
      },
    )
    | none ↦
        let queue = if contains dec key s.ghost_set then main else small in
        elim (push key queue (record s {
          ghost_set = retain_ne dec key s.ghost_set;
          metas =
              HashMap.insert dec key (record { cost = cost; freq = 0; queue = small; stamp = 0 })
                s.metas;
          total_cost = add64 s.total_cost cost;
        })) [ none ↦ none | some t ↦ some (admit, compact t) ]
  ]

  unfoldable pub on_remove : K → State K → State K
  on_remove key s = elim (get dec key s.metas) [
    | none ↦ s
    | some m ↦ record s {
      metas = HashMap.remove dec key s.metas;
      total_cost = sub64 s.total_cost m.cost;
      small_cost = if same_queue m.queue small then sub64 s.small_cost m.cost else s.small_cost;
    }
  ]

  -- What a round of the eviction loop comes to: the loop breaks, goes on, or has a victim.
  pub data Round : Type 0 where
    broke : Round
    continues : State K → Round
    victim : K → ℕ → State K → Round

  abbrev pub set_freq : ℕ → Meta → Meta
  set_freq n m = record m { freq = n }

  -- The branch of a live entry popped from the small queue, and from the main one.
  unfoldable pub from_small_queue : S3FifoPolicy → K → Meta → State K → Option Round
  from_small_queue policy key m s =
      let t = record s { small_cost = sub64 s.small_cost m.cost } in
      if ltb 1 m.freq
      then elim (push key main (record t { metas = modify dec key (set_freq 0) t.metas })) [
        | none ↦ none
        | some u ↦ some (continues u)
      ]
      else some (
          victim key m.cost (
            remember_ghost key policy.ghost_cap (record t {
              metas = HashMap.remove dec key t.metas;
              total_cost = sub64 t.total_cost m.cost;
            })))

  unfoldable pub from_main_queue : K → Meta → State K → Option Round
  from_main_queue key m s =
      if ltb 0 m.freq
      then elim (push key main
          (record s { metas = modify dec key (set_freq (m.freq - 1)) s.metas })) [
            | none ↦ none
            | some u ↦ some (continues u)
          ]
      else some (
          victim key m.cost (record s {
            metas = HashMap.remove dec key s.metas;
            total_cost = sub64 s.total_cost m.cost;
          }))

  unfoldable pub takes_small : S3FifoPolicy → State K → Bool
  takes_small policy s =
      ltb 0 (length s.smalls) && (ltb policy.small_target s.small_cost || length s.mains == 0)

  -- The entry of a popped key if it is live in the queue that it came from.
  unfoldable pub live_meta : K × ℕ → Queue → State K → Option Meta
  live_meta e queue s = if is_live s.metas queue e then get dec e.0 s.metas else none

  unfoldable pub round : S3FifoPolicy → State K → Option Round
  round policy s = elim (takes_small policy s) [
    | true ↦ elim (head? s.smalls) [
      | none ↦ some broke
      | some e ↦
          let t = record s { smalls = tail s.smalls } in
          elim (live_meta e small t) [
            | none ↦ some (continues t)
            | some m ↦ from_small_queue policy e.0 m t
          ]
    ]
    | false ↦ elim (head? s.mains) [
      | none ↦ some broke
      | some e ↦
          let t = record s { mains = tail s.mains } in
          elim (live_meta e main t) [ none ↦ some (continues t) | some m ↦ from_main_queue e.0 m t ]
    ]
  ]

  -- The `while`, on fuel; `none` is a panic or the end of the fuel.
  unfoldable pub evict_loop :
      S3FifoPolicy → ℕ → ℕ → List K → ℕ → State K → Option (List K × ℕ × State K)
  evict_loop policy zero cost_to_free victims freed s = none
  evict_loop policy (suc fuel) cost_to_free victims freed s = elim (ltb freed cost_to_free) [
    | false ↦ some (victims, freed, s)
    | true ↦ elim (round policy s) [
      | none ↦ none
      | some r ↦ elim r [
        | broke ↦ some (victims, freed, s)
        | continues t ↦ evict_loop policy fuel cost_to_free victims freed t
        | victim key cost t ↦
            evict_loop policy fuel cost_to_free (victims ++ key ∷ []) (add64 freed cost) t
      ]
    ]
  ]

  -- A round lowers this: a small entry counts two, a main one one, and each key its frequency.
  abbrev pub work : State K → ℕ
  work s = 2 * length s.smalls + length s.mains + sum_of (λ (m : Meta). m.freq) s.metas

  unfoldable pub evict : S3FifoPolicy → ℕ → State K → Option (List K × ℕ × State K)
  evict policy cost_to_free s = evict_loop policy (suc (work s)) cost_to_free [] 0 s

  pub clear : State K → State K
  clear s = record s {
    metas = [];
    smalls = [];
    mains = [];
    ghost = [];
    ghost_set = [];
    small_cost = 0;
    total_cost = 0;
  }
