-- ===== src/Core/Actor/Device.antt =====
-- What the actor uses of the crate `mtp_rs` (`MtpDevice`, `Storage`), which is not part of the
-- repository: an interface over an unknown session state, which also holds the monotonic clock.
use pereprava.Prelude.{ℕ, Bool, Option, List}
use pereprava.Prelude.Text.{Text}
use pereprava.Core.Error.{MtpError, Result, ok, err, from}

-- The fields of an object's metadata that the source reads.
pub record ObjectInfo : Type 0 where
  pub handle : ℕ
  pub parent : ℕ
  pub filename : Text
  pub is_folder : Bool
  pub size : ℕ

pub record DeviceInfo : Type 0 where
  pub manufacturer : Text
  pub model : Text
  pub serial_number : Text
  pub device_version : Text

-- `mtp_rs::mtp::NewObjectInfo::file(name, size)`
pub record NewObjectInfo : Type 0 where
  pub name : Text
  pub size : ℕ

-- The result of a call of `mtp_rs`.
pub data Reply (A : Type 0) : Type 0 where
  done : A → Reply A
  failed : MtpError → Reply A

-- A failed upload names the object that it left behind, if it left one.
pub data UploadReply : Type 0 where
  uploaded : ℕ → UploadReply
  failed : MtpError → Option ℕ → UploadReply

-- `map_err(Error::from)`
unfoldable pub map_err : {A : Type 0} → Reply A → Result A
unfolding from
map_err (done a) = ok a
map_err (failed e) = err (from e)

-- One item of a stream of bytes: a chunk, or an I/O failure.
pub data Item : Type 0 where
  chunk : List ℕ → Item
  broken : Item

pub record Device : Type 1 where
  pub State : Type 0
  pub Storage : Type 0
  -- `Instant::now()`, in nanoseconds
  pub now : State → ℕ
  -- `ObjectHandle::ROOT`
  pub root : ℕ
  pub device_info : State → DeviceInfo
  pub storage : ℕ → State → Reply Storage × State
  pub list_objects : Storage → Option ℕ → State → Reply (List ObjectInfo) × State
  pub get_object_info : Storage → ℕ → State → Reply ObjectInfo × State
  pub read_range : Storage → ℕ → ℕ → ℕ → State → Reply (List ℕ) × State
  pub delete : Storage → ℕ → State → Reply (Unit {0}) × State
  pub create_folder : Storage → Option ℕ → Text → State → Reply ℕ × State
  pub move_object : Storage → ℕ → ℕ → ℕ → State → Reply (Unit {0}) × State
  pub rename : Storage → ℕ → Text → State → Reply (Unit {0}) × State
  -- The size that the device declares, and the chunks that it then delivers.
  pub download :
      Storage → ℕ → State → Reply (record { size : ℕ; chunks : List (Reply (List ℕ)) }) × State
  -- The outcome, and how many items of the stream were taken.
  pub upload :
      Storage
      → Option ℕ
      → NewObjectInfo
      → List Item
      → State
      → record { outcome : UploadReply; taken : ℕ } × State
  pub close : State → Reply (Unit {0}) × State
