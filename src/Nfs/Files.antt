-- ===== src/Nfs/Files.antt =====
-- crates/nfs-mount/src/adapter.rs: the operations of `NFSFileSystem` on one file. The operations that
-- always refuse are left out.
use pereprava.Prelude.{
  ℕ, zero, suc, ◌+◌, ◌-◌, ◌*◌, ◌/◌, Bool, true, false, not, ◌||◌, Option, none, some, List, [], ◌∷◌,
  ◌++◌, length, take, drop, find?, get_elem?, leb, ltb, ◌==◌, if◌then◌else◌,
}
use pereprava.Prelude.Text.{Text, text_eq}
use pereprava.Core.Error.{Error, ok, err}
use pereprava.Core.Names.{Unicode, names_eq_ci}
use pereprava.Core.Model.{Entry, StorageSummary}
use pereprava.Core.Actor.Device.{Device}
use pereprava.Core.Actor.State.{children_of}
use pereprava.Core.Actor.Tree.{hinfo, hread_range}
use pereprava.Nfs.Ids.{
  Decoded, Kind, device_root, storage_root, real, storage_base_id, encode_real, decode,
}
use pereprava.Nfs.Status.{nfserr, noent, rofs, badhandle, isdir}
use pereprava.Nfs.State.{
  Stage, good, bad, reply, refuse, need, ◌>>=◌, ◌>>◌, Op, ask, ask_raw, attr_cache_get,
  attr_cache_put, attr_cache_clear, stage_of, put_stage, saturating_add,
}
use pereprava.Nfs.Staging.{decimal, add_rx, staged_lookup, stage_for_writes, flush_stage}

abbrev pub min : ℕ → ℕ → ℕ
min a b = if ltb a b then a else b

abbrev pub max : ℕ → ℕ → ℕ
max a b = if ltb a b then b else a

-- The fields of `fattr3` that depend on the file.
pub record Attr : Type 0 where
  pub is_dir : Bool
  pub size : ℕ
  pub used : ℕ
  pub fileid : ℕ

-- `attr_for`; `used` is the size up to the next multiple of 512.
unfoldable pub attr_for : ℕ → Bool → ℕ → Attr
attr_for id is_dir size = record {
  is_dir = is_dir;
  size = size;
  used = (size + 511) / 512 * 512;
  fileid = id;
}

unfoldable pub zeros : ℕ → List ℕ
zeros zero = []
zeros (suc n) = 0 ∷ zeros n

-- `File::set_len`: cut, or filled up with zeros.
unfoldable pub set_len : ℕ → List ℕ → List ℕ
unfolding zeros
set_len n bs = take n bs ++ zeros (n - length bs)

-- `seek` and `write_all`: a gap is filled up with zeros, and no bytes change nothing.
unfoldable pub write_at : ℕ → List ℕ → List ℕ → List ℕ
unfolding set_len
write_at offset [] bs = bs
write_at offset (b ∷ new) bs =
    set_len offset bs ++ ((b ∷ new) ++ drop (offset + length (b ∷ new)) bs)

module _ (u : Unicode) (D : Device) where
  -- The index of a storage, counted from `i`, by its description or its number.
  find_storage : ℕ → Text → List StorageSummary → Option ℕ
  find_storage i name [] = none
  find_storage i name (s ∷ ss) =
      if names_eq_ci u s.description name || text_eq name (decimal (i + 1))
      then some i
      else find_storage (suc i) name ss

  lookup_in : ℕ → ℕ → Text → Op D ℕ
  lookup_in idx dir name = do
    entries ← ask D (children_of D idx dir false)
    e ← need (find? (λ e. names_eq_ci u e.name name) entries) noent
    reply (encode_real idx e.handle)

  lookup_kind : Option Kind → Text → Op D ℕ
  unfolding find_storage lookup_in
  lookup_kind none name = refuse badhandle
  lookup_kind (some device_root) name = λ s. elim (find_storage 0 name s.storages) [
    | none ↦ (bad noent, s)
    | some i ↦ (good (storage_base_id + i), s)
  ]
  lookup_kind (some (storage_root idx)) name = lookup_in idx D.root name
  lookup_kind (some (real d)) name = lookup_in d.storage_index d.handle name

  -- `lookup`
  unfoldable pub lookup : ℕ → Text → Op D ℕ
  unfolding lookup_kind
  lookup dirid name s = elim (staged_lookup u D dirid name s) [
    | some id ↦ (good id, s)
    | none ↦ lookup_kind (decode dirid) name s
  ]

  getattr_real : ℕ → Decoded → Op D Attr
  getattr_real id d = do
    info ← ask D (hinfo u D d.storage_index d.handle)
    attr_cache_put D id info.size info.is_dir
    reply (attr_for id info.is_dir info.size)

  getattr_kind : ℕ → Option Kind → Op D Attr
  unfolding getattr_real
  getattr_kind id none s = (bad badhandle, s)
  getattr_kind id (some device_root) s = (good (attr_for id true 0), s)
  getattr_kind id (some (storage_root idx)) s = elim (get_elem? s.storages idx) [
    | some st ↦ (good (attr_for id true (st.capacity - st.free)), s)
    | none ↦ (bad badhandle, s)
  ]
  getattr_kind id (some (real d)) s = elim (attr_cache_get D id s) [
    | some (size, is_dir) ↦ (good (attr_for id is_dir size), s)
    | none ↦ getattr_real id d s
  ]

  -- `getattr`
  unfoldable pub getattr : ℕ → Op D Attr
  unfolding getattr_kind
  getattr id s = elim (stage_of D id s) [
    | some st ↦ (good (attr_for id false st.size), s)
    | none ↦ getattr_kind id (decode id) s
  ]

  resize : ℕ → ℕ → Op D Attr
  resize id new_size s = elim (stage_of D id s) [
    | none ↦ (bad noent, s)
    | some st ↦
        (do
          put_stage D id
              (record st { content = set_len new_size st.content; size = new_size; dirty = true })
          attr_cache_clear D
          reply (attr_for id false new_size))
          s
  ]

  -- `setattr`, by the size that it asks for
  unfoldable pub setattr : ℕ → Option ℕ → Op D Attr
  unfolding resize
  setattr id none s = if not s.writable then (bad rofs, s) else getattr id s
  setattr id (some new_size) s =
      if not s.writable then (bad rofs, s) else (stage_for_writes u D id >> resize id new_size) s

  unfoldable pub overwrite : ℕ → ℕ → List ℕ → Op D (Attr × ℕ)
  overwrite id offset new s = elim (stage_of D id s) [
    | none ↦ (bad noent, s)
    | some st ↦
        (let size = max st.size (saturating_add offset (length new)) in
            (do
              put_stage D id (record st {
                content = write_at offset new st.content;
                size = size;
                dirty = true;
              })
              attr_cache_clear D
              reply (attr_for id false size, length new)))
          s
  ]

  -- `write`, with the attributes and the count; what it writes is always unstable.
  unfoldable pub write : ℕ → ℕ → List ℕ → Op D (Attr × ℕ)
  unfolding overwrite
  write id offset new s =
      if not s.writable
      then (bad rofs, s)
      else (stage_for_writes u D id >> overwrite id offset new) s

  -- The bytes of a staged file, and whether they reach its end.
  unfoldable pub read_staged : Stage → ℕ → ℕ → List ℕ × Bool
  read_staged st offset count =
      let buf = take count (drop offset st.content) in
      (buf, leb (length st.content) (saturating_add offset (length buf)))

  read_short : Decoded → ℕ → List ℕ → Op D (List ℕ × Bool)
  read_short d offset got = do
    info ← ask D (hinfo u D d.storage_index d.handle)
    if info.is_dir then refuse isdir else do
      add_rx D (length got)
      reply (got, leb info.size (saturating_add offset (length got)))

  read_clamped : Decoded → ℕ → ℕ → Entry → Op D (List ℕ × Bool)
  read_clamped d offset count info =
      if info.is_dir then refuse isdir else if leb info.size offset then reply ([], true) else do
        got ←
            ask D (hread_range u D d.storage_index d.handle offset (min count (info.size - offset)))
        add_rx D (length got)
        reply (got, leb info.size (saturating_add offset (length got)))

  read_rejected : Decoded → ℕ → ℕ → Error → Op D (List ℕ × Bool)
  unfolding read_clamped
  read_rejected d offset count e = do
    r ← ask_raw D (hinfo u D d.storage_index d.handle)
    elim r [ ok info ↦ read_clamped d offset count info | err _ ↦ refuse (nfserr e) ]

  read_real : Decoded → ℕ → ℕ → Op D (List ℕ × Bool)
  unfolding read_short read_rejected
  read_real d offset count = do
    first ← ask_raw D (hread_range u D d.storage_index d.handle offset count)
    elim first [
      | ok got ↦
          (if length got == count
            then (do add_rx D (length got); reply (got, false))
            else read_short d offset got)
      | err e ↦ read_rejected d offset count e
    ]

  -- `read`
  unfoldable pub read : ℕ → ℕ → ℕ → Op D (List ℕ × Bool)
  unfolding read_real read_staged
  read id offset count s = elim (stage_of D id s) [
    | some st ↦ (good (read_staged st offset count), s)
    | none ↦ (elim (decode id) [ some (real d) ↦ read_real d offset count s | _ ↦ (bad isdir, s) ])
  ]

  -- `commit`
  unfoldable pub commit : ℕ → Op D Attr
  commit id s = if not s.writable then (bad rofs, s) else (flush_stage u D id >> getattr id) s
