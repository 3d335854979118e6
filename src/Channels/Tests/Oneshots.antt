-- ===== src/Channels/Tests/Oneshots.antt =====
-- A thread that sends 7 and leaves, and a thread that receives.
use fibre.Base.{ℕ, add64, Bool-cases, inl, inr, ◌==◌, ◌≡◌, refl, List, [], ◌∷◌, Option, none, some}
use fibre.Channels.Oneshot.{
  OneShotShared, send, try_recv, go, spurious, Result, continues, sent, received, begin, send_step,
  close_step, recv_step, publish, consume, advance, drop, idle, sending, claimed, writing, written,
  receiving, taking,
}
use fibre.Channels.Oneshot.System.{System, start, moved, step, place, Reach, here, next}
use fibre.Channels.Oneshot.Safety.{Once, sent-Once, drop_lem}

abbrev core : ℕ → Option ℕ → List ℕ → OneShotShared ℕ
core word slot published = record {
  state = word;
  value_slot = slot;
  published = published;
  consumed = [];
}

abbrev s1 : System ℕ
s1 = moved start 0 (core 16 none []) (sending 7 16)

abbrev s2 : System ℕ
s2 = moved s1 0 (core 16 none []) (sending 7 16)

abbrev s3 : System ℕ
s3 = moved s2 0 (core 17 none []) (claimed 7)

abbrev s4 : System ℕ
s4 = moved s3 0 (core 17 none []) (writing 7)

abbrev s5 : System ℕ
s5 = moved s4 0 (core 17 (some 7) []) (written 7)

abbrev s6 : System ℕ
s6 = moved s5 0 (core 18 (some 7) (7 ∷ [])) idle

abbrev s7 : System ℕ
s7 = moved s6 1 (core 18 (some 7) (7 ∷ [])) (receiving 18)

abbrev s8 : System ℕ
s8 = moved s7 1 (core 19 (some 7) (7 ∷ [])) taking

s1-Reach : Reach s1
unfolding step place advance begin send_step close_step recv_step publish consume add64
s1-Reach = next 0 (send 7) (continues) here (λ e. absurd cc) refl

s2-Reach : Reach s2
unfolding step place advance begin send_step close_step recv_step publish consume add64
s2-Reach = next 0 (spurious) (continues) s1-Reach (λ e. absurd cc) refl

s3-Reach : Reach s3
unfolding step place advance begin send_step close_step recv_step publish consume add64
s3-Reach = next 0 (go) (continues) s2-Reach (λ e. absurd cc) refl

s4-Reach : Reach s4
unfolding step place advance begin send_step close_step recv_step publish consume add64
s4-Reach = next 0 (go) (continues) s3-Reach (λ e. absurd cc) refl

s5-Reach : Reach s5
unfolding step place advance begin send_step close_step recv_step publish consume add64
s5-Reach = next 0 (go) (continues) s4-Reach (λ e. absurd cc) refl

s6-Reach : Reach s6
unfolding step place advance begin send_step close_step recv_step publish consume add64
s6-Reach = next 0 (go) (sent) s5-Reach (λ e. absurd cc) refl

s7-Reach : Reach s7
unfolding step place advance begin send_step close_step recv_step publish consume add64
s7-Reach = next 1 (try_recv) (continues) s6-Reach (λ e. absurd cc) refl

s8-Reach : Reach s8
unfolding step place advance begin send_step close_step recv_step publish consume add64
s8-Reach = next 1 (go) (continues) s7-Reach (λ e. absurd cc) refl

-- The receiver is given the value.
sent-Once_example :
    (r : Result ℕ) × (t : System ℕ) × (step 1 go s8 ≡ some (r, t))
    × Once t.shared.published t.shared.consumed
    × ((v : ℕ)
        → r ≡ received v
        → (s8.shared.published ≡ v ∷ []) × (s8.shared.consumed ≡ []) × (t.shared.consumed ≡ v ∷ []))
sent-Once_example = sent-Once s8 1 go s8-Reach (λ e. absurd cc)

-- Without a receiver, the core drops the value itself.
s6-idle : (i : ℕ) → s6.places i ≡ idle
s6-idle i = elim (Bool-cases (i == 0)) [ inl first ↦ rw first refl | inr other ↦ rw other refl ]

drop_lem_example :
    (t : OneShotShared ℕ) × (drop s6.shared ≡ some t)
    × (t.value_slot ≡ none)
    × (t.published ≡ s6.shared.published)
    × (t.consumed ≡ t.published)
drop_lem_example = drop_lem s6 s6-Reach s6-idle
