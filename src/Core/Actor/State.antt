-- ===== src/Core/Actor/State.antt =====
-- The actor's state, its storage table, and the cached listing of a directory.
pub mod Storages
use pereprava.Prelude.{
  ℕ, ◌+◌, ◌-◌, ◌*◌, ◌^◌, Bool, true, false, ◌&&◌, Option, none, some, List, [], ◌∷◌, map, length,
  get_elem?, find?, position_from, leb, ltb, ◌==◌, if◌then◌else◌,
}
use pereprava.Prelude.Text.{Text}
use pereprava.Core.Error.{Result, ok, err, invalid_argument, not_found}
use pereprava.Core.Names.{Unicode, names_eq_ci}
use pereprava.Core.Model.{Entry, StorageSummary, DeviceSummary}
use pereprava.Core.Cache.{MetaCache, listing, store_listing}
use pereprava.Core.Actor.Device.{Device, ObjectInfo, Reply, map_err}
use pereprava.Core.Actor.Monad.{Act, pure, ok_or, ◌>>=◌, ◌>>◌}

-- An id has 32 bits, as MTP gives it, so that `id.0 as u32`, the key of the cache, is the id.
pub record StorageRec : Type 0 where
  pub id : ℕ
  pub description : Text
  pub capacity : ℕ
  pub free : ℕ
  pub writable : Bool

pub record ActorState (D : Device) : Type 0 where
  pub device : D.State
  pub storages : List StorageRec
  pub cache : MetaCache

-- The `Entry` that the handlers build from an object's metadata.
abbrev pub entry_of : ObjectInfo → Entry
entry_of o = record {
  handle = o.handle;
  parent = o.parent;
  name = o.filename;
  is_dir = o.is_folder;
  size = o.size;
}

abbrev pub summary_of : StorageRec → StorageSummary
summary_of s = record {
  id = s.id;
  description = s.description;
  capacity = s.capacity;
  free = s.free;
  writable = s.writable;
}

non_empty : Text → Option Text
non_empty [] = none
non_empty (c ∷ s) = some (c ∷ s)

-- The value of a text of digits; `none` at any other character.
digits_value : ℕ → Text → Option ℕ
digits_value n [] = some n
digits_value n (c ∷ s) =
    let rest = digits_value (n * 10 + (c - b'0')) s in
    if leb b'0' c && leb c b'9' then rest else none

below_usize : Option ℕ → Option ℕ
below_usize none = none
below_usize (some n) = if ltb n (2 ^ 64) then some n else none

parse_digits : Text → Option ℕ
unfolding digits_value below_usize
parse_digits [] = none
parse_digits (c ∷ s) = below_usize (digits_value 0 (c ∷ s))

-- `str::parse::<usize>`
unfoldable pub parse_usize : Text → Option ℕ
unfolding parse_digits
parse_usize [] = none
parse_usize (c ∷ s) = if c == b'+' then parse_digits s else parse_digits (c ∷ s)

pub index_from_number : ℕ → Option ℕ → Result ℕ
index_from_number count none = err not_found
index_from_number count (some n) = if leb 1 n && leb n count then ok (n - 1) else err not_found

-- `find_storage_index`: by description first, then by the 1-based index.
unfoldable pub find_storage_index : Unicode → List StorageRec → Text → Result ℕ
unfolding index_from_number parse_usize
find_storage_index u storages reference =
    elim (position_from 0 (λ s. names_eq_ci u s.description reference) storages) [
      | some i ↦ ok i
      | none ↦ index_from_number (length storages) (parse_usize reference)
    ]

-- `child_by_name`
unfoldable pub child_by_name : Unicode → List Entry → Text → Option Entry
child_by_name u entries seg = find? (λ e. names_eq_ci u e.name seg) entries

module _ (D : Device) where
  abbrev pub Handler : Type 0 → Type 0
  Handler A = Act (ActorState D) A

  -- A call of the device: its session moves on, and its errors are mapped.
  unfoldable pub call : {A : Type 0} → (D.State → Reply A × D.State) → Handler A
  call op s = let (r, d) = op s.device in (map_err r, record s { device = d })

  -- `storage`
  unfoldable pub storage : ℕ → Handler StorageRec
  storage idx s = ok_or (get_elem? s.storages idx) invalid_argument s

  -- `open_storage`
  unfoldable pub open_storage : ℕ → Handler D.Storage
  open_storage idx = do rec ← storage idx; call (D.storage rec.id)

  -- The root of a storage is listed, and written to, as `None`.
  abbrev pub parent_arg : ℕ → Option ℕ
  parent_arg dir = if dir == D.root then none else some dir

  -- `self.cache.listing(sid, dir)`, at the present time
  unfoldable pub cached : ℕ → ℕ → ActorState D → Option (List Entry)
  cached sid dir s = listing (D.now s.device) s.cache sid dir

  unfoldable pub remember : ℕ → ℕ → List Entry → Handler (Unit {0})
  remember sid dir entries s =
      (ok tt, record s { cache = store_listing (D.now s.device) s.cache sid dir entries })

  unfoldable pub change_cache : (MetaCache → MetaCache) → Handler (Unit {0})
  change_cache f s = (ok tt, record s { cache = f s.cache })

  -- The listing from the device, which is then remembered.
  unfoldable pub fetch_children : ℕ → ℕ → ℕ → Handler (List Entry)
  fetch_children idx sid dir = do
    st ← open_storage idx
    objs ← call (D.list_objects st (parent_arg dir))
    remember sid dir (map entry_of objs)
    pure (map entry_of objs)

  unfoldable pub use_cache :
      Bool → Option (List Entry) → Handler (List Entry) → Handler (List Entry)
  use_cache true hit fetch = fetch
  use_cache false none fetch = fetch
  use_cache false (some entries) fetch = pure entries

  -- `children_of`
  unfoldable pub children_of : ℕ → ℕ → Bool → Handler (List Entry)
  unfolding use_cache
  children_of idx dir refresh = do
    rec ← storage idx
    λ s. use_cache refresh (cached rec.id dir s) (fetch_children idx rec.id dir) s

  -- `summary`
  unfoldable pub summary : ActorState D → DeviceSummary
  unfolding non_empty
  summary s =
      let d = D.device_info s.device in
      record {
        vendor_id = 0;
        product_id = 0;
        manufacturer = non_empty d.manufacturer;
        product = non_empty d.model;
        serial = non_empty d.serial_number;
        speed = none;
        firmware = non_empty d.device_version;
        storages = map summary_of s.storages;
      }
