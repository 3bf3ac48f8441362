-- ===== src/Nfs/Session.antt =====
-- crates/nfs-mount/src/adapter.rs: whether a session is installed, and whether it answers.
use pereprava.Prelude.{Bool, true, false, Option, none, some, if◌then◌else◌}
use pereprava.Core.Error.{Result, ok, err, is_retryable, is_stale}
use pereprava.Core.Names.{Unicode}
use pereprava.Core.Actor.Device.{Device}
use pereprava.Core.Actor.State.{ActorState}
use pereprava.Core.Actor.Dispatch.{ping_device}
use pereprava.Nfs.State.{MtpNfs}

-- The arms of the `match` on an answer that came in time.
unfoldable pub keeps_session : Result (Unit {0}) → Bool
keeps_session (ok _) = true
keeps_session (err e) = if is_retryable e then true else is_stale e

module _ (u : Unicode) (D : Device) where
  -- `is_attached`
  unfoldable pub is_attached : MtpNfs D → Bool
  is_attached s = elim s.sess [ none ↦ false | some a ↦ true ]

  unfoldable pub tested : Bool → MtpNfs D → Option (ActorState D) → Bool × MtpNfs D
  tested in_time s none = (false, s)
  tested in_time s (some a) =
      let (r, a') = ping_device u D a in
      (if in_time then keeps_session r else true, record s { sess = some a' })

  -- `test_session`. An answer that does not come within five seconds keeps the session.
  unfoldable pub test_session : Bool → MtpNfs D → Bool × MtpNfs D
  unfolding tested
  test_session in_time s = tested in_time s s.sess
