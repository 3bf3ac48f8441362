-- ===== src/Nfs/Names.antt =====
-- crates/nfs-mount/src/adapter.rs: the operations that make, remove and rename files by name.
use pereprava.Prelude.{ℕ, ◌+◌, true, not, ◌||◌, Option, none, some, [], ◌==◌, if◌then◌else◌}
use pereprava.Prelude.Maps.{insert}
use pereprava.Prelude.Maps
use pereprava.Prelude.Text.{Text, trim, contains, slash}
use pereprava.Core.Names.{Unicode}
use pereprava.Core.Path.{is_empty}
use pereprava.Core.Actor.Device.{Device}
use pereprava.Core.Actor.Tree.{hinfo, hdelete, hmkdir, rename_handle}
use pereprava.Nfs.Ids.{Decoded, encode_real, virt_id}
use pereprava.Nfs.Status.{noent, inval, rofs, exist}
use pereprava.Nfs.State.{
  Stage, Answer, good, bad, reply, refuse, ◌>>=◌, ◌>>◌, Op, ask, change, attr_cache_clear, stage_of,
}
use pereprava.Nfs.Staging.{
  on_device, device_handle_of, parent_handle_of, staged_lookup, ensure_staged_existing,
}
use pereprava.Nfs.Files.{Attr, attr_for, lookup, getattr, setattr}

module _ (D : Device) where
  -- `parent_handle_of(dirid)?`
  parent_by_id : ℕ → Op D Decoded
  parent_by_id dirid s = (parent_handle_of D dirid, s)

  -- An empty stage under the next virtual id.
  unfoldable pub stage_empty : ℕ → Text → Op D ℕ
  stage_empty dirid name s =
      let id = virt_id (s.virt_seq + 1) in
      (
        good id,
        record s {
          virt_seq = s.virt_seq + 1;
          staged =
              insert id
                (record {
                  content = [];
                  storage_index = 0;
                  parent_id = dirid;
                  name = name;
                  size = 0;
                  origin_dev = none;
                  flushed_dev = none;
                  dirty = true;
                })
                s.staged;
        },
      )

  -- A stage is dropped, and its temporary file with it.
  drop_stage : ℕ → Op D (Unit {0})
  drop_stage id = change D λ s. record s { staged = Maps.remove id s.staged }

module _ (u : Unicode) (D : Device) where
  stage_found : ℕ → ℕ → Decoded → Op D ℕ
  stage_found dirid id d = do
    info ← ask D (hinfo u D d.storage_index d.handle)
    if info.is_dir
        then refuse exist
        else do ensure_staged_existing u D id d info.name dirid info.size; reply id

  -- After the lookup: the object on the device, or a new file.
  stage_looked_up : ℕ → Text → Answer ℕ → Op D ℕ
  unfolding stage_found stage_empty
  stage_looked_up dirid name (bad e) s = stage_empty D dirid name s
  stage_looked_up dirid name (good id) s = elim (device_handle_of D id s) [
    | some d ↦ stage_found dirid id d s
    | none ↦ stage_empty D dirid name s
  ]

  stage_checked : ℕ → Text → Op D ℕ
  unfolding stage_looked_up
  stage_checked dirid name s = elim (staged_lookup u D dirid name s) [
    | some id ↦ (good id, s)
    | none ↦ (let (r, s') = lookup u D dirid name s in stage_looked_up dirid name r s')
  ]

  -- `stage_new`
  unfoldable pub stage_new : ℕ → Text → Op D ℕ
  unfolding parent_by_id stage_checked
  stage_new dirid name s =
      if not s.writable
      then (bad rofs, s)
      else (do
        parent_by_id D dirid
        if contains slash name || is_empty (trim name)
            then refuse inval
            else stage_checked dirid name)
          s

  -- `create`, by the size that it asks for
  unfoldable pub create : ℕ → Text → Option ℕ → Op D (ℕ × Attr)
  create dirid name size = do
    id ← stage_new dirid name
    elim size [ none ↦ reply tt | some n ↦ (do setattr u D id (some n); reply tt) ]
    a ← getattr u D id
    reply (id, a)

  exclusive_after : ℕ → Text → Answer ℕ → Op D ℕ
  exclusive_after dirid name (good id) = refuse exist
  exclusive_after dirid name (bad e) = λ s. elim (staged_lookup u D dirid name s) [
    | some id ↦ (bad exist, s)
    | none ↦ stage_new dirid name s
  ]

  -- `create_exclusive`
  unfoldable pub create_exclusive : ℕ → Text → Op D ℕ
  unfolding exclusive_after
  create_exclusive dirid name s =
      let (r, s') = lookup u D dirid name s in exclusive_after dirid name r s'

  -- `mkdir`
  unfoldable pub mkdir : ℕ → Text → Op D (ℕ × Attr)
  unfolding parent_by_id
  mkdir dirid name s =
      if not s.writable
      then (bad rofs, s)
      else (do
        p ← parent_by_id D dirid
        e ← ask D (hmkdir u D p.storage_index p.handle name)
        let id = encode_real p.storage_index e.handle
        reply (id, attr_for id true 0))
          s

  delete_staged : Stage → Op D (Unit {0})
  delete_staged st = elim (on_device st) [
    | none ↦ reply tt
    | some h ↦ ask D (hdelete u D st.storage_index h)
  ]

  remove_staged : ℕ → Op D (Unit {0})
  unfolding delete_staged drop_stage
  remove_staged id s = elim (stage_of D id s) [
    | none ↦ (good tt, s)
    | some st ↦ (do delete_staged st; drop_stage D id; attr_cache_clear D) s
  ]

  remove_found : ℕ → Op D (Unit {0})
  unfolding drop_stage
  remove_found fid s = elim (device_handle_of D fid s) [
    | none ↦ (bad noent, s)
    | some d ↦
        (do ask D (hdelete u D d.storage_index d.handle); drop_stage D fid; attr_cache_clear D) s
  ]

  -- `remove`
  unfoldable pub remove : ℕ → Text → Op D (Unit {0})
  unfolding remove_staged remove_found
  remove dirid name s =
      if not s.writable then (bad rofs, s) else (elim (staged_lookup u D dirid name s) [
        | some id ↦ remove_staged id s
        | none ↦ (lookup u D dirid name >>= λ fid. remove_found fid) s
      ])

  relabel : ℕ → ℕ → Text → Op D (Unit {0})
  relabel id to_dirid to_name s = elim (stage_of D id s) [
    | none ↦ (good tt, s)
    | some st ↦ (
      good tt,
      record s { staged = insert id (record st { parent_id = to_dirid; name = to_name }) s.staged },
    )
  ]

  unfoldable pub device_handle : ℕ → Op D Decoded
  device_handle id s = elim (device_handle_of D id s) [
    | none ↦ (bad noent, s)
    | some d ↦ (good d, s)
  ]

  -- The renaming on the device, and then of the stage, if there is one.
  unfoldable pub rename_on_device : ℕ → Text → ℕ → Text → Op D (Unit {0})
  unfolding parent_by_id relabel device_handle
  rename_on_device from_dirid from_name to_dirid to_name = do
    fid ← lookup u D from_dirid from_name
    d ← device_handle fid
    fp ← parent_by_id D from_dirid
    tp ← parent_by_id D to_dirid
    if not (fp.storage_index == tp.storage_index) then refuse inval else do
      ask D (rename_handle u D d.storage_index fp.handle from_name tp.handle to_name)
      relabel fid to_dirid to_name

  unfoldable pub stage_on_device : Option Stage → Option ℕ
  stage_on_device none = none
  stage_on_device (some st) = on_device st

  -- `rename`
  unfoldable pub rename : ℕ → Text → ℕ → Text → Op D (Unit {0})
  unfolding rename_on_device stage_on_device
  rename from_dirid from_name to_dirid to_name s =
      if not s.writable then (bad rofs, s) else (elim (staged_lookup u D from_dirid from_name s) [
        | none ↦ rename_on_device from_dirid from_name to_dirid to_name s
        | some id ↦ (elim (stage_on_device (stage_of D id s)) [
          | none ↦ relabel id to_dirid to_name s
          | some _ ↦ rename_on_device from_dirid from_name to_dirid to_name s
        ])
      ])
