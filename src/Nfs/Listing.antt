-- ===== src/Nfs/Listing.antt =====
-- crates/nfs-mount/src/adapter.rs: `readdir`. Hash maps are listed in the order of the association list.
use pereprava.Prelude.{
  ℕ, suc, ◌+◌, ◌-◌, ◌&&◌, Bool, true, false, Option, none, some, List, [], ◌∷◌, ◌++◌, map, length,
  take, drop, leb, ltb, ◌==◌, if◌then◌else◌,
}
use pereprava.Prelude.Maps.{Map, insert}
use pereprava.Prelude.Text.{Text}
use pereprava.Core.Names.{Unicode, names_eq_ci}
use pereprava.Core.Model.{Entry, StorageSummary}
use pereprava.Core.Actor.Device.{Device}
use pereprava.Core.Actor.State.{children_of}
use pereprava.Nfs.Ids.{Kind, device_root, storage_root, real, storage_base_id, encode_real, decode}
use pereprava.Nfs.Status.{badhandle}
use pereprava.Nfs.State.{Stage, AttrCache, good, bad, reply, ◌>>=◌, ◌>>◌, Op, ask, change}
use pereprava.Nfs.Files.{Attr, attr_for, min}

-- `(id, name, is_dir, size)`
pub record Child : Type 0 where
  pub id : ℕ
  pub name : Text
  pub is_dir : Bool
  pub size : ℕ

pub record DirEntry : Type 0 where
  pub fileid : ℕ
  pub name : Text
  pub attr : Attr

pub record ReadDirResult : Type 0 where
  pub entries : List DirEntry
  pub end : Bool

-- Texts in the order of their code points.
text_le : Text → Text → Bool
text_le [] t = true
text_le (c ∷ s) [] = false
text_le (c ∷ s) (d ∷ t) = let rest = text_le s t in if c == d then rest else ltb c d

unfoldable pub dir_entry_of : Child → DirEntry
dir_entry_of c = record { fileid = c.id; name = c.name; attr = attr_for c.id c.is_dir c.size }

-- The part of the children that a call answers, and whether it is the last one.
unfoldable pub page : List Child → ℕ → ℕ → ReadDirResult
unfolding dir_entry_of
page children start_after max_entries =
    let total = length children in
    let skip = min start_after total in
    let count = min max_entries (total - skip) in
    record {
      entries = map dir_entry_of (take count (drop skip children));
      end = leb total (skip + count);
    }

module _ (u : Unicode) (D : Device) where
  abbrev key_le : Child → Child → Bool
  key_le a b = text_le (u.to_lowercase a.name) (u.to_lowercase b.name)

  insert_child : Child → List Child → List Child
  unfolding text_le
  insert_child c [] = c ∷ []
  insert_child c (d ∷ ds) =
      let rest = insert_child c ds in if key_le c d then c ∷ d ∷ ds else d ∷ rest

  -- `sort_by_key`, which is stable
  unfoldable pub sort_by_name : List Child → List Child
  unfolding insert_child
  sort_by_name [] = []
  sort_by_name (c ∷ cs) = insert_child c (sort_by_name cs)

  dedup_after : Child → List Child → List Child
  dedup_after kept [] = []
  dedup_after kept (c ∷ cs) =
      let skipped = dedup_after kept cs in
      let taken = dedup_after c cs in if names_eq_ci u c.name kept.name then skipped else c ∷ taken

  -- `dedup_by`: of neighbours with one name the first stays.
  unfoldable pub dedup_by_name : List Child → List Child
  unfolding dedup_after
  dedup_by_name [] = []
  dedup_by_name (c ∷ cs) = c ∷ dedup_after c cs

  storage_children : ℕ → List StorageSummary → List Child
  storage_children i [] = []
  storage_children i (s ∷ ss) =
      record {
        id = storage_base_id + i;
        name = s.description;
        is_dir = true;
        size = s.capacity - s.free;
      }
      ∷ storage_children (suc i) ss

  abbrev child_of : ℕ → Entry → Child
  child_of idx e = record {
    id = encode_real idx e.handle;
    name = e.name;
    is_dir = e.is_dir;
    size = e.size;
  }

  seeded : ℕ → List Child → Map AttrCache → Map AttrCache
  seeded clock [] m = m
  seeded clock (c ∷ cs) m =
      seeded clock cs (insert c.id (record { size = c.size; is_dir = c.is_dir; at = clock }) m)

  -- `seed_attrs`
  unfoldable pub seed_attrs : List Child → Op D (Unit {0})
  unfolding seeded
  seed_attrs cs = change D λ s. record s { attrs = seeded s.clock cs s.attrs }

  device_children : ℕ → ℕ → Op D (List Child)
  device_children idx dir = do
    entries ← ask D (children_of D idx dir false)
    seed_attrs (map (child_of idx) entries)
    reply (map (child_of idx) entries)

  children_in : Option Kind → Op D (List Child)
  unfolding storage_children device_children
  children_in none s = (bad badhandle, s)
  children_in (some device_root) s = (good (storage_children 0 s.storages), s)
  children_in (some (storage_root idx)) s = device_children idx D.root s
  children_in (some (real d)) s = device_children d.storage_index d.handle s

  abbrev is_unflushed_in : ℕ → Stage → Bool
  is_unflushed_in dirid st =
      st.parent_id == dirid && (elim st.flushed_dev [ none ↦ true | some _ ↦ false ])

  staged_children : ℕ → Map Stage → List Child
  staged_children dirid [] = []
  staged_children dirid ((id, st) ∷ m) =
      let rest = staged_children dirid m in
      if is_unflushed_in dirid st
      then record { id = id; name = st.name; is_dir = false; size = st.size } ∷ rest
      else rest

  with_staged : ℕ → List Child → Op D (List Child)
  unfolding staged_children
  with_staged dirid cs s =
      (good (sort_by_name (dedup_by_name (sort_by_name (cs ++ staged_children dirid s.staged)))), s)

  -- `readdir`
  unfoldable pub readdir : ℕ → ℕ → ℕ → Op D ReadDirResult
  unfolding children_in with_staged
  readdir dirid start_after max_entries = do
    cs ← children_in (decode dirid)
    all ← with_staged dirid cs
    reply (page all start_after max_entries)
