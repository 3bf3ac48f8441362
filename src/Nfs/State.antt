-- ===== src/Nfs/State.antt =====
-- crates/nfs-mount/src/adapter.rs: the adapter's state, and its requests to the actor. The session is
-- the actor's own state: the adapter sends one request at a time and waits for the answer. A staged
-- file's temporary file is its `content`; failures of the local disk and poisoned locks are left out.
use pereprava.Prelude.{
  ℕ, ◌+◌, ◌-◌, ◌*◌, ◌^◌, Bool, Option, none, some, List, [], map, ltb, if◌then◌else◌,
}
use pereprava.Prelude.Maps.{Map, get, insert}
use pereprava.Prelude.Text.{Text}
use pereprava.Core.Error.{Result}
use pereprava.Core.Model.{StorageSummary}
use pereprava.Core.Actor.Device.{Device}
use pereprava.Core.Actor.State.{ActorState, Handler, summary_of}
use pereprava.Nfs.Status.{Status, nfserr, io}

-- `Stage`
pub record Stage : Type 0 where
  pub content : List ℕ
  pub storage_index : ℕ
  pub parent_id : ℕ
  pub name : Text
  pub size : ℕ
  pub origin_dev : Option ℕ
  pub flushed_dev : Option ℕ
  pub dirty : Bool

pub record AttrCache : Type 0 where
  pub size : ℕ
  pub is_dir : Bool
  pub at : ℕ

-- `MtpNfs`. The clock is moved on by the world, in nanoseconds.
pub record MtpNfs (D : Device) : Type 0 where
  pub sess : Option (ActorState D)
  pub storages : List StorageSummary
  pub writable : Bool
  pub staged : Map Stage
  pub virt_seq : ℕ
  pub attrs : Map AttrCache
  pub rx : ℕ
  pub tx : ℕ
  pub clock : ℕ

-- `Result<_, nfsstat3>`
pub data Answer {ℓ} (A : Type ℓ) : Type ℓ where
  good : A → Answer A
  bad : Status → Answer A

abbrev pub Serve {ℓ} : Type ℓ → Type ℓ → Type ℓ
Serve S A = S → Answer A × S

module _ {ℓ} {S A : Type ℓ} where
  abbrev pub reply : A → Serve S A
  reply a s = (good a, s)

  abbrev pub refuse : Status → Serve S A
  refuse e s = (bad e, s)

  -- `ok_or(e)?`
  abbrev pub need : Option A → Status → Serve S A
  need none e = refuse e
  need (some a) e = reply a

module _ {ℓ} {S A B : Type ℓ} where
  abbrev pub go_on : Answer A × S → (A → Serve S B) → Answer B × S
  go_on (bad e, s) f = (bad e, s)
  go_on (good a, s) f = f a s

  infixl 5 ◌>>=◌ ◌>>◌
  abbrev pub ◌>>=◌ : Serve S A → (A → Serve S B) → Serve S B
  ◌>>=◌ m f s = go_on (m s) f

  abbrev pub ◌>>◌ : Serve S A → Serve S B → Serve S B
  m >> n = m >>= λ _. n

-- `u64::saturating_add`
abbrev pub saturating_add : ℕ → ℕ → ℕ
saturating_add a b = if ltb (a + b) (2 ^ 64) then a + b else 2 ^ 64 - 1

-- `ATTR_TTL`, in nanoseconds.
abbrev pub attr_ttl : ℕ
attr_ttl = 2 * 10 ^ 9

abbrev pub mapped : {A : Type 0} → Result A → Answer A
mapped (Result.ok a) = good a
mapped (Result.err e) = bad (nfserr e)

module _ (D : Device) where
  abbrev pub Op : Type 0 → Type 0
  Op A = Serve (MtpNfs D) A

  -- `self.dev()?` and a request to it, its error mapped by `nfserr`.
  unfoldable pub ask : {A : Type 0} → Handler D A → Op A
  ask h s = elim s.sess [
    | none ↦ (bad io, s)
    | some a ↦ (let (r, a') = h a in (mapped r, record s { sess = some a' }))
  ]

  -- `dev.hX(..).await` where the caller looks at the outcome itself.
  unfoldable pub ask_raw : {A : Type 0} → Handler D A → Op (Result A)
  ask_raw h s = elim s.sess [
    | none ↦ (bad io, s)
    | some a ↦ (let (r, a') = h a in (good r, record s { sess = some a' }))
  ]

  unfoldable pub change : (MtpNfs D → MtpNfs D) → Op (Unit {0})
  change f s = (good tt, f s)

  -- `new_detached`
  unfoldable pub new_detached : ℕ → Bool → MtpNfs D
  new_detached clock writable = record {
    sess = none;
    storages = [];
    writable = writable;
    staged = [];
    virt_seq = 0;
    attrs = [];
    rx = 0;
    tx = 0;
    clock = clock;
  }

  -- `attach`
  unfoldable pub attach : ActorState D → MtpNfs D → MtpNfs D
  attach dev s = record s { storages = map summary_of dev.storages; attrs = []; sess = some dev }

  -- `detach`
  unfoldable pub detach : MtpNfs D → MtpNfs D
  detach s = record s { sess = none }

  -- `attr_cache_get`
  unfoldable pub attr_cache_get : ℕ → MtpNfs D → Option (ℕ × Bool)
  attr_cache_get id s = elim (get id s.attrs) [
    | none ↦ none
    | some hit ↦ if ltb attr_ttl (s.clock - hit.at) then none else some (hit.size, hit.is_dir)
  ]

  -- `attr_cache_put`
  unfoldable pub attr_cache_put : ℕ → ℕ → Bool → Op (Unit {0})
  attr_cache_put id size is_dir = change λ s. record s {
    attrs = insert id (record { size = size; is_dir = is_dir; at = s.clock }) s.attrs;
  }

  -- `attr_cache_clear`
  unfoldable pub attr_cache_clear : Op (Unit {0})
  attr_cache_clear = change λ s. record s { attrs = [] }

  -- `staged.lock().get(&id)`
  abbrev pub stage_of : ℕ → MtpNfs D → Option Stage
  stage_of id s = get id s.staged

  unfoldable pub put_stage : ℕ → Stage → Op (Unit {0})
  put_stage id st = change λ s. record s { staged = insert id st s.staged }
