-- ===== src/Nfs/Staging.antt =====
-- crates/nfs-mount/src/adapter.rs: which object an id stands for, and the files that are staged on the
-- local disk. File names are taken as decoded text.
use pereprava.Prelude.{
  ◌^◌, ℕ, zero, suc, ◌+◌, ◌-◌, ◌/◌, ◌%◌, Bool, false, not, ◌&&◌, Option, none, some, List, [], ◌∷◌,
  ◌++◌, length, take, drop, ltb, ◌==◌, if◌then◌else◌,
}
use pereprava.Prelude.Maps.{Map, insert}
use pereprava.Prelude.Text.{Text}
use pereprava.Core.Error.{Result}
use pereprava.Core.Names.{Unicode, names_eq_ci}
use pereprava.Core.Model.{Entry}
use pereprava.Core.Path.{is_empty}
use pereprava.Core.Actor.Device.{Device}
use pereprava.Core.Actor.Tree.{hinfo, hread_range, hdelete}
use pereprava.Core.Actor.Transfer.{Read, bytes, upload_into}
use pereprava.Nfs.Ids.{Decoded, storage_root, real, storage_base_id, encode_real, decode}
use pereprava.Nfs.Status.{noent, inval, io, rofs, isdir}
use pereprava.Nfs.State.{
  Stage, MtpNfs, Answer, good, bad, reply, refuse, ◌>>=◌, ◌>>◌, Op, ask, change, stage_of,
  put_stage,
}

-- `s.flushed_dev.or(s.origin_dev)`
abbrev pub on_device : Stage → Option ℕ
on_device st = elim st.flushed_dev [ none ↦ st.origin_dev | some h ↦ some h ]

-- The digits of a number, by fuel: 20 digits are enough for a storage's number.
decimal_from : ℕ → ℕ → Text → Text
decimal_from zero n acc = acc
decimal_from (suc fuel) n acc =
    let rest = decimal_from fuel (n / 10) ((b'0' + n % 10) ∷ acc) in
    if ltb n 10 then (b'0' + n) ∷ acc else rest

-- `format!("{}", n)`
unfoldable pub decimal : ℕ → Text
unfolding decimal_from
decimal n = decimal_from 20 n []

-- The reads of a temporary file, by `UPLOAD_CHUNK` bytes.
file_reads_from : ℕ → List ℕ → List Read
file_reads_from zero bs = []
file_reads_from (suc fuel) [] = []
file_reads_from (suc fuel) (b ∷ bs) =
    bytes (take 262144 (b ∷ bs)) ∷ file_reads_from fuel (drop 262144 (b ∷ bs))

unfoldable pub file_reads : List ℕ → List Read
unfolding file_reads_from
file_reads bs = file_reads_from (length bs) bs

module _ (D : Device) where
  -- `device_handle_of`: a staged file has a handle once it is flushed.
  unfoldable pub device_handle_of : ℕ → MtpNfs D → Option Decoded
  device_handle_of id s = elim (stage_of D id s) [
    | some st ↦ (elim st.flushed_dev [
      | none ↦ none
      | some h ↦ some (record { storage_index = st.storage_index; handle = h })
    ])
    | none ↦ (elim (decode id) [ some (real d) ↦ some d | _ ↦ none ])
  ]

  -- `parent_handle_of`
  unfoldable pub parent_handle_of : ℕ → Answer Decoded
  parent_handle_of dir_id = elim (decode dir_id) [
    | some (storage_root idx) ↦ good (record { storage_index = idx; handle = D.root })
    | some (real d) ↦ good d
    | _ ↦ bad inval
  ]

  unfoldable pub parent_of_id : ℕ → Op D Decoded
  unfolding parent_handle_of
  parent_of_id dir_id s = (parent_handle_of dir_id, s)

  -- `self.inner.stats.rx.fetch_add(n)`
  unfoldable pub add_rx : ℕ → Op D (Unit {0})
  add_rx n = change D λ s. record s { rx = (s.rx + n) % 2 ^ 64 }

  -- A clamped read of the object, at most 1 MiB.
  abbrev window : ℕ → ℕ
  window left = if ltb left 1048576 then left else 1048576

  -- The loop of `ensure_staged_existing`. Each turn that goes on reads a byte at least, so as many turns
  -- as there are bytes left are enough.
  pull : (u : Unicode) → ℕ → Decoded → ℕ → List ℕ → Op D (List ℕ)
  unfolding add_rx
  pull u zero d size out = reply out
  pull u (suc fuel) d size out =
      if ltb (length out) size
      then (do
        data_read ←
            ask D
              (hread_range u D d.storage_index d.handle (length out) (window (size - length out)))
        if is_empty data_read
            then reply out
            else do add_rx (length data_read); pull u fuel d size (out ++ data_read))
      else reply out

module _ (u : Unicode) (D : Device) where
  abbrev is_named : ℕ → Text → Stage → Bool
  is_named dir_id name st = st.parent_id == dir_id && names_eq_ci u st.name name

  staged_in : ℕ → Text → Map Stage → Option ℕ
  staged_in dir_id name [] = none
  staged_in dir_id name ((id, st) ∷ m) =
      if is_named dir_id name st then some id else staged_in dir_id name m

  -- `staged_lookup`
  unfoldable pub staged_lookup : ℕ → Text → MtpNfs D → Option ℕ
  unfolding staged_in
  staged_lookup dir_id name s = staged_in dir_id name s.staged

  -- `ensure_staged_existing`
  unfoldable pub ensure_staged_existing : ℕ → Decoded → Text → ℕ → ℕ → Op D (Unit {0})
  unfolding pull
  ensure_staged_existing id d name parent_id size s = elim (stage_of D id s) [
    | some _ ↦ (good tt, s)
    | none ↦
        (do
          out ← pull D u size d size []
          if length out == size
              then put_stage D id (record {
                content = out;
                storage_index = d.storage_index;
                parent_id = parent_id;
                name = name;
                size = size;
                origin_dev = some d.handle;
                flushed_dev = none;
                dirty = false;
              })
              else refuse io)
          s
  ]

  -- The parent's id from the object's metadata.
  abbrev parent_id_of : Decoded → Entry → ℕ
  parent_id_of d info =
      if info.parent == 0
      then storage_base_id + d.storage_index
      else encode_real d.storage_index info.parent

  stage_real : ℕ → Decoded → Op D (Unit {0})
  stage_real id d = do
    info ← ask D (hinfo u D d.storage_index d.handle)
    if info.is_dir
        then refuse isdir
        else ensure_staged_existing id d info.name (parent_id_of d info) info.size

  -- `stage_for_writes`
  unfoldable pub stage_for_writes : ℕ → Op D (Unit {0})
  unfolding stage_real
  stage_for_writes id s = if not s.writable then (bad rofs, s) else (elim (stage_of D id s) [
    | some _ ↦ (good tt, s)
    | none ↦ (elim (decode id) [ some (real d) ↦ stage_real id d s | _ ↦ (bad noent, s) ])
  ])

  -- `let _ = dev.hdelete(..).await`: its outcome does not matter.
  unfoldable pub drop_old : ℕ → Option ℕ → Op D (Unit {0})
  drop_old idx none s = (good tt, s)
  drop_old idx (some h) s = elim s.sess [
    | none ↦ (bad io, s)
    | some a ↦ (good tt, record s { sess = some (hdelete u D idx h a).1 })
  ]

  unfoldable pub flushed : ℕ → Decoded → Stage → Entry → MtpNfs D → MtpNfs D
  flushed id p st e s = elim (stage_of D id s) [
    | none ↦ record s { tx = (s.tx + st.size) % 2 ^ 64 }
    | some now_st ↦ record s {
      tx = (s.tx + st.size) % 2 ^ 64;
      attrs = [];
      staged =
          insert id
            (record now_st {
              origin_dev = none;
              flushed_dev = some e.handle;
              storage_index = p.storage_index;
              dirty = false;
              size = st.size;
            })
            s.staged;
    }
  ]

  unfoldable pub upload_stage : ℕ → Stage → Op D (Unit {0})
  unfolding parent_of_id drop_old flushed
  upload_stage id st = do
    p ← parent_of_id D st.parent_id
    ask D (λ a. (Result.ok tt, a))
    drop_old p.storage_index (on_device st)
    e ← ask D (upload_into u D p.storage_index p.handle st.name st.size (file_reads st.content))
    change D (flushed id p st e)

  -- `flush_stage`
  unfoldable pub flush_stage : ℕ → Op D (Unit {0})
  unfolding upload_stage
  flush_stage id s = elim (stage_of D id s) [
    | none ↦ (good tt, s)
    | some st ↦ if not st.dirty then (good tt, s) else upload_stage id st s
  ]
