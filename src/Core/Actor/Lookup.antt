-- ===== src/Core/Actor/Lookup.antt =====
-- Finding objects by path: `resolve`, `list`, `walk_to_parent`.
use pereprava.Prelude.{
  ℕ, suc, ◌-◌, Bool, true, false, none, some, List, [], ◌∷◌, length, take, last?, if◌then◌else◌,
}
use pereprava.Prelude.Text.{Text}
use pereprava.Core.Error.{ok, invalid_argument, not_found, wrong_kind}
use pereprava.Core.Names.{Unicode}
use pereprava.Core.Model.{Entry}
use pereprava.Core.Path.{DevPath, parse, is_root}
use pereprava.Core.Actor.Device.{Device}
use pereprava.Core.Actor.Monad.{pure, fail, lift, ok_or, ◌>>=◌}
use pereprava.Core.Actor.State.{
  StorageRec, Handler, entry_of, find_storage_index, child_by_name, call, storage, open_storage,
  children_of,
}

pub record Resolved : Type 0 where
  pub storage_index : ℕ
  pub handle : ℕ
  pub entry : Entry

-- A directory's entry as the handlers write it for a storage root and for a created directory.
abbrev pub dir_entry : ℕ → ℕ → Text → Entry
dir_entry handle parent name = record {
  handle = handle;
  parent = parent;
  name = name;
  is_dir = true;
  size = 0;
}

-- `enumerate` over the storages, with handles counted down from u32::MAX.
storage_entries : ℕ → List StorageRec → List Entry
storage_entries i [] = []
storage_entries i (s ∷ ss) = dir_entry (4294967295 - i) 0 s.description ∷ storage_entries (suc i) ss

-- `segments.last().cloned().unwrap_or_default()`
abbrev pub last_or_empty : List Text → Text
last_or_empty segs = elim (last? segs) [ none ↦ [] | some s ↦ s ]

abbrev pub has_no_segments : DevPath → Bool
has_no_segments p = elim p.segments [ [] ↦ true | _ ∷ _ ↦ false ]

module _ (u : Unicode) (D : Device) where
  -- `find_storage_index`, on the actor's table
  unfoldable pub storage_index : Text → Handler D ℕ
  storage_index reference s = lift (find_storage_index u s.storages reference) s

  -- From `cur`, one segment after the other.
  unfoldable pub walk : ℕ → Bool → ℕ → List Text → Handler D ℕ
  walk idx refresh cur [] = pure cur
  walk idx refresh cur (seg ∷ segs) = do
    entries ← children_of D idx cur refresh
    e ← ok_or (child_by_name u entries seg) not_found
    walk idx refresh e.handle segs

  -- As `walk`, but every segment must name a directory.
  unfoldable pub walk_dirs : ℕ → Bool → ℕ → List Text → Handler D ℕ
  walk_dirs idx refresh cur [] = pure cur
  walk_dirs idx refresh cur (seg ∷ segs) = do
    entries ← children_of D idx cur refresh
    e ← ok_or (child_by_name u entries seg) not_found
    if e.is_dir then walk_dirs idx refresh e.handle segs else fail wrong_kind

  -- Metadata straight from the device.
  unfoldable pub object_entry : ℕ → ℕ → Handler D Entry
  object_entry idx handle = do
    st ← open_storage D idx
    oi ← call D (D.get_object_info st handle)
    pure (entry_of oi)

  unfoldable pub resolve_below : ℕ → Bool → List Text → Handler D Resolved
  resolve_below idx refresh [] = do
    rec ← storage D idx
    pure (record {
      storage_index = idx;
      handle = D.root;
      entry = dir_entry D.root 0 rec.description;
    })
  resolve_below idx refresh (seg ∷ segs) = do
    cur ← walk idx refresh D.root (seg ∷ segs)
    entry ← object_entry idx cur
    pure (record { storage_index = idx; handle = cur; entry = entry })

  -- `resolve`
  unfoldable pub resolve : Text → Bool → Handler D Resolved
  unfolding resolve_below
  resolve raw refresh = do
    p ← lift (parse raw)
    if is_root p
        then fail invalid_argument
        else do idx ← storage_index p.storage_ref; resolve_below idx refresh p.segments

  unfoldable pub list_storages : Handler D (List Entry)
  unfolding storage_entries
  list_storages s = (ok (storage_entries 0 s.storages), s)

  -- `list`
  unfoldable pub list : Text → Bool → Handler D (List Entry)
  unfolding list_storages
  list raw refresh = do
    p ← lift (parse raw)
    if is_root p then list_storages else do
      idx ← storage_index p.storage_ref
      cur ← walk_dirs idx refresh D.root p.segments
      children_of D idx cur refresh

  -- `walk_to_parent`
  unfoldable pub walk_to_parent : DevPath → ℕ → Handler D ℕ
  walk_to_parent p idx = walk idx false D.root (take (length p.segments - 1) p.segments)

  -- The last segment's entry in the parent directory, as `remove`, `rename` and `move_into` find it.
  unfoldable pub find_target : DevPath → ℕ → ℕ → Handler D Entry
  find_target p idx parent = do
    entries ← children_of D idx parent false
    ok_or (child_by_name u entries (last_or_empty p.segments)) not_found
