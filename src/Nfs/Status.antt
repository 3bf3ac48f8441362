-- ===== src/Nfs/Status.antt =====
-- crates/nfs-mount/src/adapter.rs: the NFS statuses that the adapter answers, and its mapping of the
-- core's errors.
use pereprava.Core.Error.{Error}

-- `nfsstat3`, by the statuses that the adapter uses.
pub data Status : Type 0 where
  noent stale acces nospc notsupp inval notdir io rofs badhandle exist isdir : Status

-- `nfserr`
unfoldable pub nfserr : Error → Status
nfserr Error.not_found = noent
nfserr Error.stale_handle = stale
nfserr Error.access_denied = acces
nfserr Error.storage_full = nospc
nfserr Error.unsupported = notsupp
nfserr Error.invalid_argument = inval
nfserr Error.wrong_kind = notdir
nfserr _ = io
