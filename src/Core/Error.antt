-- ===== src/Core/Error.antt =====
-- crates/core/src/error.rs. The texts that the errors carry for the reader are left out.
use pereprava.Prelude.{◌≡◌, Bool, true, false}

-- `mtp_rs::Error`, by the variants that the source matches; `other` stands for all the rest.
pub data MtpError : Type 0 where
  not_found stale_handle access_denied storage_full busy unsupported : MtpError
  exclusive_access disconnected device_reset timeout other : MtpError

pub data Error : Type 0 where
  mtp not_found stale_handle invalid_argument wrong_kind access_denied storage_full : Error
  busy unsupported exclusive_access io actor_closed disconnected session_reset timeout : Error

-- `impl From<mtp_rs::Error> for Error`
unfoldable pub from : MtpError → Error
from MtpError.not_found = Error.not_found
from MtpError.stale_handle = Error.stale_handle
from MtpError.access_denied = Error.access_denied
from MtpError.storage_full = Error.storage_full
from MtpError.busy = Error.busy
from MtpError.unsupported = Error.unsupported
from MtpError.exclusive_access = Error.exclusive_access
from MtpError.disconnected = Error.disconnected
from MtpError.device_reset = Error.session_reset
from MtpError.timeout = Error.timeout
from MtpError.other = Error.mtp

unfoldable pub is_retryable : Error → Bool
is_retryable Error.busy = true
is_retryable Error.timeout = true
is_retryable _ = false

unfoldable pub is_disconnect : Error → Bool
is_disconnect Error.disconnected = true
is_disconnect _ = false

unfoldable pub is_stale : Error → Bool
is_stale Error.stale_handle = true
is_stale _ = false

-- `Result<T>`
pub data Result {ℓ} (A : Type ℓ) : Type ℓ where
  ok : A → Result A
  err : Error → Result A

infixl 5 ◌>>◌ ◌>>=◌
-- `?` in a block: a failure ends it.
abbrev pub ◌>>=◌ {ℓ κ} : {T : Type ℓ} {U : Type κ} → Result T → (T → Result U) → Result U
err x >>= next = err x
ok t >>= next = next t

-- A check whose value is of no use.
abbrev pub ◌>>◌ {ℓ} : {U : Type ℓ} → Result (Unit {0}) → Result U → Result U
check >> rest = check >>= λ _. rest

pub ok-injective {ℓ} : {A : Type ℓ} {a b : A} → ok a ≡ ok b → a ≡ b
ok-injective h = cc
