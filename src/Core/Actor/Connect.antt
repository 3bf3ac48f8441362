-- ===== src/Core/Actor/Connect.antt =====
-- crates/core/src/actor.rs: `connect_first`, `spawn_actor` and `read_storages`.
pub mod Claims
use pereprava.Prelude.{ℕ, Bool, Option, none, some, List, [], ◌∷◌, map}
use pereprava.Prelude.Text.{Text}
use pereprava.Core.Error.{Error, Result, ok, err, from}
use pereprava.Core.Cache.{new}
use pereprava.Core.Actor.Device.{Device, Reply, done, failed}
use pereprava.Core.Actor.State.{ActorState, StorageRec}

-- `mtp_rs`'s description of a storage.
pub record StorageInfo : Type 0 where
  pub id : ℕ
  pub description : Text
  pub total_capacity : ℕ
  pub free_space : ℕ
  pub is_writable : Bool

-- How the task that reads the storage table ends: with an answer in time, by a panic, or too late.
pub data Probe (D : Device) : Type 0 where
  answered : Reply (List StorageInfo) → D.State → Probe D
  panicked late : Probe D

-- What connecting uses of the crate `mtp_rs` and of the runtime.
pub record Usb (D : Device) : Type 1 where
  pub State : Type 0
  pub Candidate : Type 0
  pub list_devices : State → Reply (List Candidate) × State
  pub open_by_location : Candidate → State → Reply D.State × State
  -- `device.storages()`, bounded by `PROBE_TIMEOUT`
  pub probe : D.State → Probe D
  -- A device that goes out of scope, in the state in which it was last seen.
  pub drop : D.State → State → State

pub rec_of : StorageInfo → StorageRec
rec_of i = record {
  id = i.id;
  description = i.description;
  capacity = i.total_capacity;
  free = i.free_space;
  writable = i.is_writable;
}

-- A failed answer is an empty table.
pub table_of : Reply (List StorageInfo) → List StorageRec
unfolding rec_of
table_of (done list) = map rec_of list
table_of (failed e) = []

module _ {D : Device} (B : Usb D) where
  -- `spawn_actor`, with the device and the storage table that were read.
  unfoldable pub spawned : D.State → List StorageRec → B.State → Result (ActorState D) × B.State
  spawned d [] s = let (_, d') = D.close d in (err Error.mtp, B.drop d' s)
  spawned d (r ∷ rs) s = (ok (record { device = d; storages = r ∷ rs; cache = new }), s)

  unfoldable pub probed : D.State → Probe D → B.State → Result (ActorState D) × B.State
  unfolding spawned table_of
  probed d (answered r d') s = spawned d' (table_of r) s
  probed d panicked s = (err Error.actor_closed, B.drop d s)
  probed d late s = (err Error.mtp, B.drop d s)

  -- `spawn_actor`
  unfoldable pub spawn_actor : D.State → B.State → Result (ActorState D) × B.State
  unfolding probed
  spawn_actor d s = probed d (B.probe d) s

  unfoldable pub tried : Reply D.State × B.State → Result (ActorState D) × B.State
  unfolding spawn_actor
  tried (done d, s) = spawn_actor d s
  tried (failed e, s) = (err Error.mtp, s)

  -- The candidate is kept if it can be used; otherwise `rest` goes on with the last error.
  unfoldable pub or_next :
      Result (ActorState D) × B.State
      → (Error → B.State → Result (ActorState D) × B.State)
      → Result (ActorState D) × B.State
  or_next (ok a, s) rest = (ok a, s)
  or_next (err e, s) rest = rest e s

  -- The loop over the candidates, with the last error.
  unfoldable pub connect_each : List B.Candidate → Error → B.State → Result (ActorState D) × B.State
  unfolding tried or_next
  connect_each [] last s = (err last, s)
  connect_each (c ∷ cs) last s = or_next (tried (B.open_by_location c s)) (connect_each cs)

  unfoldable pub connect_listed :
      Reply (List B.Candidate) × B.State → Result (ActorState D) × B.State
  unfolding connect_each
  connect_listed (failed e, s) = (err (from e), s)
  connect_listed (done cs, s) = connect_each cs Error.mtp s

  -- `connect_first`. Without a candidate the error is that of an empty list.
  unfoldable pub connect_first : B.State → Result (ActorState D) × B.State
  unfolding connect_listed
  connect_first s = connect_listed (B.list_devices s)
