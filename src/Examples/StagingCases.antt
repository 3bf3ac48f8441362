-- ===== src/Examples/StagingCases.antt =====
-- The NFS adapter over the phone.
use pereprava.Prelude.{ℕ, ◌≡◌, refl, Bool, true, false, none, some, [], ◌∷◌, length}
use pereprava.Prelude.Maps.{get, insert, remove}
use pereprava.Prelude.Text.{codes, eq_ignore_ascii_case, to_ascii_lowercase}
use pereprava.Core.Names.{names_eq_ci}
use pereprava.Core.Cache.{invalidate, slot, put_slot}
use pereprava.Core.Actor.Device.{map_err}
use pereprava.Core.Actor.State.{open_storage, storage, call, change_cache}
use pereprava.Core.Actor.Tree.{forget, entry_on}
use pereprava.Core.Actor.Transfer.{stream_of, count_bytes, send, finish_upload, upload_into}
use pereprava.Nfs.Ids.{decode}
use pereprava.Nfs.Status.{noent}
use pereprava.Nfs.State.{Stage, MtpNfs, good, bad, ask, change, put_stage, attr_cache_clear}
use pereprava.Nfs.Staging.{
  staged_lookup, stage_for_writes, file_reads, parent_of_id, drop_old, flushed, upload_stage,
  flush_stage, parent_handle_of,
}
use pereprava.Nfs.Files.{Attr, write, overwrite, read}
use pereprava.Nfs.Names.{create, mkdir}
use pereprava.Nfs.Names
use pereprava.Nfs.Writes.{write-read}
use pereprava.Nfs.Flushing.{flush_stage_twice}
use pereprava.Nfs.Renames.{rename-staged_existing}
use pereprava.Examples.CacheCases.{ascii}
use pereprava.Examples.Phone.{phone_device}
use pereprava.Examples.Phone.Camera.{camera_state}
use pereprava.Examples.TransferCases.{taking_device, taking_state}

-- The photo, staged under its own id in the directory of the camera.
abbrev photo_stage : Stage
photo_stage = record {
  content = 1 ∷ 2 ∷ 3 ∷ [];
  storage_index = 0;
  parent_id = 9223372036854775818;
  name = codes "a";
  size = 3;
  origin_dev = some 5;
  flushed_dev = none;
  dirty = false;
}

abbrev staging : MtpNfs phone_device
staging = record {
  sess = some camera_state;
  storages = [];
  writable = true;
  staged = (9223372036854775813, photo_stage) ∷ [];
  virt_seq = 0;
  attrs = [];
  rx = 3;
  tx = 0;
  clock = 0;
}

written :
    (r : Attr × ℕ) × (s : MtpNfs phone_device) × (write ascii phone_device 9223372036854775813 5
        (9 ∷ 8 ∷ [])
        staging
      ≡ (good r, s))
unfolding write stage_for_writes overwrite put_stage change attr_cache_clear get
written = (_, _, refl)

write-read_example :
    (eof : Bool) × (read ascii phone_device 9223372036854775813 5
        (length {A = ℕ} (9 ∷ 8 ∷ []))
        written.1
      ≡ (good (9 ∷ 8 ∷ [], eof), written.1))
write-read_example =
    write-read ascii phone_device 9223372036854775813 5 (9 ∷ 8 ∷ []) staging written.1 written.0
      written.2

found_photo :
    staged_lookup ascii phone_device 9223372036854775818 (codes "A") staging
    ≡ some 9223372036854775813
unfolding staged_lookup names_eq_ci eq_ignore_ascii_case to_ascii_lowercase
found_photo = refl

staged_photo : get 9223372036854775813 staging.staged ≡ some photo_stage
unfolding get
staged_photo = refl

rename-staged_existing_example :
    Names.rename ascii phone_device 9223372036854775818
      (codes "A")
      9223372036854775818
      (codes "b")
      staging
    ≡ (bad noent, staging)
rename-staged_existing_example =
    rename-staged_existing ascii phone_device staging 9223372036854775818 9223372036854775818
      9223372036854775813 5 (codes "A") (codes "b") photo_stage refl found_photo staged_photo refl
      refl

abbrev new_file : MtpNfs taking_device
new_file = record {
  sess = some taking_state;
  storages = [];
  writable = true;
  staged = (4611686018427387905, record photo_stage { dirty = true; origin_dev = none }) ∷ [];
  virt_seq = 1;
  attrs = [];
  rx = 0;
  tx = 0;
  clock = 0;
}

flushed_file :
    (s : MtpNfs taking_device) × (flush_stage ascii taking_device 4611686018427387905 new_file
      ≡ (good tt, s))
unfolding flush_stage upload_stage parent_of_id parent_handle_of decode drop_old flushed ask change
    file_reads upload_into send finish_upload taking_state taking_device phone_device open_storage
    storage call map_err stream_of count_bytes forget entry_on change_cache invalidate slot put_slot
    get insert remove
flushed_file = (_, refl)

flush_stage_twice_example :
    flush_stage ascii taking_device 4611686018427387905 flushed_file.0 ≡ (good tt, flushed_file.0)
flush_stage_twice_example =
    flush_stage_twice ascii taking_device 4611686018427387905 new_file flushed_file.0 flushed_file.1
