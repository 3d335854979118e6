-- ===== src/Channels/Mailbox/Calls.antt =====
-- Sequences of the critical sections of a mailbox, each with its reply.
use fibre.Base.{ℕ, Bool, List, [], ◌∷◌}
use fibre.Channels.Mailbox
use fibre.Channels.Mailbox.{MailboxInternal, Reply, done}

-- The critical sections.
pub data Call (T : Type 0) : Type 0 where
  deliver : T → Call T
  disconnect try_recv : Call T
  recv_sync poll : ℕ → Call T
  recv_timeout_sync : ℕ → Bool → Call T

module _ {T : Type 0} where
  unfoldable pub call : Call T → MailboxInternal T → Reply T × MailboxInternal T
  call (Call.deliver v) s = (done, Mailbox.deliver v s)
  call Call.disconnect s = (done, Mailbox.disconnect s)
  call Call.try_recv s = Mailbox.try_recv s
  call (Call.recv_sync current) s = Mailbox.recv_sync current s
  call (Call.poll task) s = Mailbox.poll task s
  call (Call.recv_timeout_sync current expired) s = Mailbox.recv_timeout_sync current expired s

  unfoldable pub run : List (Call T) → MailboxInternal T → List (Reply T) × MailboxInternal T
  run [] s = ([], s)
  run (c ∷ calls) s =
      let (reply, t) = call c s in let (replies, u) = run calls t in (reply ∷ replies, u)
