-- ===== src/Channels/Oneshot/Moves.antt =====
-- A step of the thread that has the claim on the slot.
use fibre.Base.{
  ◌≡◌, refl, List, [], ◌∷◌, ◌++◌, Option, none, some, Bool-cases, inl, inr, add64, sub64, ◌⊎◌,
}
use fibre.Channels.Oneshot.{
  OneShotShared, Pc, claimed, withdrawing, writing, written, idle, Choice, Result, received,
  finished, continues, sent, send_closed, send_sent, recv_empty, recv_disconnected, advance,
  publish, consume, rx_dropped,
}
use fibre.Channels.Oneshot.Claims.{
  to_write, to_empty, to_publish, hold, Ok, is_empty, is_written, is_sent, is_taken, Ok-to_write,
  Ok-to_publish, Ok-to_empty, phase-publish, phase-withdraw,
}

-- The step ends without a fault, in a state and at a place that `Q` tells of.
pub record Moves {T : Type 0} (Q : Result T → OneShotShared T → Pc T → Type 0)
    (o : Option (Result T × OneShotShared T × Pc T)) : Type 0 where
  pub result : Result T
  pub state : OneShotShared T
  pub place : Pc T
  pub runs : o ≡ some (result, state, place)
  pub keeps : Q result state place

module _ {T : Type 0} where
  -- The value that a result hands to the receiver.
  abbrev pub gets : Result T → List T
  gets (received v) = v ∷ []
  gets finished = []
  gets continues = []
  gets sent = []
  gets (send_closed v) = []
  gets (send_sent v) = []
  gets recv_empty = []
  gets recv_disconnected = []

  -- A result with a value has the published one, which nothing took or dropped before.
  pub data Honest (s : OneShotShared T) (r : Result T) (t : OneShotShared T) : Type 0 where
    no_value : gets r ≡ [] → Honest s r t
    the_value :
        (v : T)
        → r ≡ received v
        → s.published ≡ v ∷ []
        → s.consumed ≡ []
        → t.consumed ≡ v ∷ []
        → Honest s r t

  abbrev pub Own : OneShotShared T → Result T → OneShotShared T → Pc T → Type 0
  Own s r t pc = Ok (hold pc) t × Honest s r t

  pub claimed-Own :
      (c : Choice T) (s : OneShotShared T) (v : T)
      → Ok to_write s
      → Moves (Own s) (advance c s (claimed v))
  unfolding advance
  claimed-Own c s v ok = elim (Bool-cases (rx_dropped s.state)) [
    | inl gone ↦ record {
      result = continues;
      state = s;
      place = withdrawing v;
      runs = rw gone refl;
      keeps = (ok, no_value refl);
    }
    | inr alive ↦ record {
      result = continues;
      state = s;
      place = writing v;
      runs = rw alive refl;
      keeps = (ok, no_value refl);
    }
  ]

  pub withdrawing-Own :
      (c : Choice T) (s : OneShotShared T) (v : T)
      → Ok to_write s
      → Moves (Own s) (advance c s (withdrawing v))
  unfolding advance
  withdrawing-Own c s v ok =
      let (p, slot, pub_eq, con) = Ok-to_write s ok in
      record {
        result = send_closed v;
        state = record s { state = sub64 s.state 1 };
        place = idle;
        runs = refl;
        keeps = (is_empty refl (phase-withdraw s.state p) slot pub_eq con, no_value refl);
      }

  pub writing-Own :
      (c : Choice T) (s : OneShotShared T) (v : T)
      → Ok to_write s
      → Moves (Own s) (advance c s (writing v))
  unfolding advance
  writing-Own c s v ok =
      let (p, slot, pub_eq, con) = Ok-to_write s ok in
      record {
        result = continues;
        state = record s { value_slot = some v };
        place = written v;
        runs = refl;
        keeps = (is_written v refl p refl pub_eq con, no_value refl);
      }

  pub written-Own :
      (c : Choice T) (s : OneShotShared T) (v : T)
      → Ok (to_publish v) s
      → Moves (Own s) (advance c s (written v))
  unfolding advance publish
  written-Own c s v ok =
      let (p, slot, pub_eq, con) = Ok-to_publish s ok in
      record {
        result = sent;
        state = record s { state = add64 s.state 1; published = s.published ++ v ∷ [] };
        place = idle;
        runs = rw p refl;
        keeps = (is_sent v refl (phase-publish s.state p) slot (rw pub_eq refl) con, no_value refl);
      }

  -- Dropping or taking a claimed value: `received` is the result in the second case.
  pub consume-Own :
      (result : T → Result T) (s : OneShotShared T)
      → ((v : T) → (gets (result v) ≡ []) ⊎ (result v ≡ received v))
      → Ok to_empty s
      → Moves (Own s) (consume result s)
  unfolding consume
  consume-Own result s tells ok =
      let (v, p, slot, pub_eq, con) = Ok-to_empty s ok in
      let t = record s { value_slot = none; consumed = s.consumed ++ v ∷ [] } in
      let after : t.consumed ≡ v ∷ [] = rw con refl in
      record {
        result = result v;
        state = t;
        place = idle;
        runs = rw slot refl;
        keeps = (
          is_taken v refl p refl pub_eq after,
          elim (tells v) [
            | inl nothing ↦ no_value nothing
            | inr value ↦ the_value v value pub_eq con after
          ],
        );
      }
