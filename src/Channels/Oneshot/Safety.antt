-- ===== src/Channels/Oneshot/Safety.antt =====
-- What the threads of a oneshot channel can rely on, in every order of their steps.
use fibre.Base.{ℕ, ◌≡◌, refl, subst, List, [], ◌∷◌, ◌++◌, none, some}
use fibre.Channels.Oneshot.{OneShotShared, idle, Choice, Result, received, drop}
use fibre.Channels.Oneshot.Claims.{
  Hold, free, hold, Ok, is_empty, is_closed, is_writing, is_written, is_sent, is_taking, is_taken,
}
use fibre.Channels.Oneshot.Moves.{Honest, no_value, the_value}
use fibre.Channels.Oneshot.System.{System, step, Counted, Reach, Reach-Owned, Owned-step}

module _ {T : Type 0} where
  -- Nothing was published, or one value; and this one is gone from the slot at most once.
  pub data Once (published consumed : List T) : Type 0 where
    nothing : published ≡ [] → consumed ≡ [] → Once published consumed
    there : (v : T) → published ≡ v ∷ [] → consumed ≡ [] → Once published consumed
    gone : (v : T) → published ≡ v ∷ [] → consumed ≡ v ∷ [] → Once published consumed

  Ok-Once : (h : Hold T) (s : OneShotShared T) → Ok h s → Once s.published s.consumed
  Ok-Once h s (is_empty a p b c d) = nothing c d
  Ok-Once h s (is_closed a p b c d) = nothing c d
  Ok-Once h s (is_writing a p b c d) = nothing c d
  Ok-Once h s (is_written v a p b c d) = nothing c d
  Ok-Once h s (is_sent v a p b c d) = there v c d
  Ok-Once h s (is_taking v a p b c d) = there v c d
  Ok-Once h s (is_taken v a p b c d) = gone v c d

  -- In every state that a new channel comes to, whatever steps its threads took in whatever order, any
  -- thread can take any step (it drops a sender only while the count of senders is positive) without a
  -- fault: no uninitialised slot is read or dropped, and no `debug_assert` fails. After the step at
  -- most one value was published, and it left the slot at most once; and a step that returns a value
  -- from `try_recv` returns the published one, which nothing had taken or dropped.
  pub sent-Once :
      (s : System T) (i : ℕ) (c : Choice T)
      → Reach s
      → Counted c s
      → (r : Result T) × (t : System T) × (step i c s ≡ some (r, t))
        × Once t.shared.published t.shared.consumed
        × ((v : T)
            → r ≡ received v
            → (s.shared.published ≡ v ∷ [])
              × (s.shared.consumed ≡ [])
              × (t.shared.consumed ≡ v ∷ []))
  sent-Once s i c reach counted =
      let o = Owned-step i c s counted (Reach-Owned reach) in
      (
        o.result,
        o.after,
        o.runs,
        Ok-Once (hold (o.after.places o.owned.owner)) o.after.shared o.owned.core,
        λ v is_received. value o.after o.result o.honest v is_received,
      )
    where
      value :
          (t : System T) (r : Result T)
          → Honest s.shared r t.shared
          → (v : T) → r ≡ received v
          → (s.shared.published ≡ v ∷ []) × (s.shared.consumed ≡ []) × (t.shared.consumed ≡ v ∷ [])
      value t r (no_value none_got) v e = absurd cc
      value t r (the_value w got pub_eq con after) v e = (cc, con, cc)

  -- In every state that a new channel comes to, once no operation is under way, dropping the core does
  -- not fault, and every value that was published has then been taken or dropped, exactly once.
  pub drop_lem :
      (s : System T)
      → Reach s
      → ((i : ℕ) → s.places i ≡ idle)
      → (t : OneShotShared T) × (drop s.shared ≡ some t)
        × (t.value_slot ≡ none)
        × (t.published ≡ s.shared.published)
        × (t.consumed ≡ t.published)
  unfolding drop
  drop_lem s reach quiet =
      let o = Reach-Owned reach in
      go s.shared (subst (λ pc. Ok (hold pc) s.shared) (quiet o.owner) o.core)
    where
      go :
          (u : OneShotShared T)
          → Ok free u
          → (t : OneShotShared T) × (drop u ≡ some t)
            × (t.value_slot ≡ none)
            × (t.published ≡ u.published)
            × (t.consumed ≡ t.published)
      go u (is_empty a p b c d) = (u, rw p refl, b, refl, cc)
      go u (is_closed a p b c d) = (u, rw p refl, b, refl, cc)
      go u (is_writing a p b c d) = absurd cc
      go u (is_written v a p b c d) = absurd cc
      go u (is_sent v a p b c d) = (
        record u { value_slot = none; consumed = u.consumed ++ v ∷ [] },
        rw (p, b) refl,
        refl,
        refl,
        rw (c, d) refl,
      )
      go u (is_taking v a p b c d) = absurd cc
      go u (is_taken v a p b c d) = (u, rw p refl, b, refl, cc)
