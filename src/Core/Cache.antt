-- ===== src/Core/Cache.antt =====
-- crates/core/src/cache.rs: directory listings with their age, per storage. A time is a number of
-- nanoseconds on the monotonic clock; each operation is given the time at which it runs.
pub mod Each
pub mod Reads
pub mod Bounds
pub mod Parents
pub mod LastSeen
pub mod Eviction
pub mod Exact
use pereprava.Prelude.{
  ℕ, ◌-◌, ◌*◌, ◌^◌, Bool, true, false, not, ◌&&◌, Option, none, some, List, [], ◌∷◌, length, leb,
  ltb, if◌then◌else◌,
}
use pereprava.Prelude.Maps.{Map, get, insert, remove, retain}
use pereprava.Core.Model.{Entry}

-- `LIST_TTL`, in nanoseconds.
abbrev pub list_ttl : ℕ
list_ttl = 60 * 10 ^ 9

abbrev pub max_listings : ℕ
max_listings = 256

pub record Listing : Type 0 where
  pub fetched_at : ℕ
  pub children : List Entry

pub record StorageCache : Type 0 where
  pub listings : Map Listing
  pub parents : Map ℕ

pub record MetaCache : Type 0 where
  pub storages : Map StorageCache

abbrev pub new : MetaCache
new = record { storages = [] }

abbrev pub empty_storage : StorageCache
empty_storage = record { listings = []; parents = [] }

abbrev or_default : Option StorageCache → StorageCache
or_default none = empty_storage
or_default (some st) = st

-- `slot`: the entry of a storage, made where it is missing.
unfoldable pub slot : MetaCache → ℕ → StorageCache
slot c storage_id = or_default (get storage_id c.storages)

unfoldable pub put_slot : MetaCache → ℕ → StorageCache → MetaCache
put_slot c storage_id st = record { storages = insert storage_id st c.storages }

-- `fetched_at.elapsed() <= LIST_TTL`
unfoldable pub is_fresh : ℕ → Listing → Bool
is_fresh now l = leb (now - l.fetched_at) list_ttl

unfresh_to_none : ℕ → Listing → Option (List Entry)
unfolding is_fresh
unfresh_to_none now l = if is_fresh now l then some l.children else none

listing_in : ℕ → ℕ → StorageCache → Option (List Entry)
unfolding unfresh_to_none
listing_in now dir st = elim (get dir st.listings) [ none ↦ none | some l ↦ unfresh_to_none now l ]

-- `MetaCache::listing`
unfoldable pub listing : ℕ → MetaCache → ℕ → ℕ → Option (List Entry)
unfolding listing_in
listing now c storage_id dir = elim (get storage_id c.storages) [
  | none ↦ none
  | some st ↦ listing_in now dir st
]

older : ℕ × ℕ → Option (ℕ × ℕ) → Option (ℕ × ℕ)
older a none = some a
older (k, t) (some (j, u)) = if ltb u t then some (j, u) else some (k, t)

-- `min_by_key(fetched_at)`: the key and the time of the first of the oldest listings.
pub oldest : Map Listing → Option (ℕ × ℕ)
unfolding older
oldest [] = none
oldest ((k, l) ∷ m) = older (k, l.fetched_at) (oldest m)

pub is_some {ℓ} : {A : Type ℓ} → Option A → Bool
is_some none = false
is_some (some a) = true

-- The oldest listing goes if the cap is reached and `dir` is not among them.
unfoldable pub evict : ℕ → Map Listing → Map Listing
unfolding oldest is_some
evict dir m =
    if leb max_listings (length m) && not (is_some (get dir m))
    then (elim (oldest m) [ none ↦ m | some (k, _) ↦ remove k m ])
    else m

unfoldable pub learn_parents : ℕ → List Entry → Map ℕ → Map ℕ
learn_parents dir [] m = m
learn_parents dir (child ∷ children) m = learn_parents dir children (insert child.handle dir m)

unfoldable pub stored : ℕ → ℕ → List Entry → StorageCache → StorageCache
unfolding evict learn_parents is_fresh
stored now dir children st = record {
  listings =
      insert dir (record { fetched_at = now; children = children })
        (evict dir (retain (λ _ l. is_fresh now l) st.listings));
  parents = learn_parents dir children st.parents;
}

-- `MetaCache::store_listing`
unfoldable pub store_listing : ℕ → MetaCache → ℕ → ℕ → List Entry → MetaCache
unfolding slot put_slot stored
store_listing now c storage_id dir children =
    put_slot c storage_id (stored now dir children (slot c storage_id))

-- `MetaCache::parent_of`
unfoldable pub parent_of : MetaCache → ℕ → ℕ → Option ℕ
parent_of c storage_id handle = elim (get storage_id c.storages) [
  | none ↦ none
  | some st ↦ get handle st.parents
]

-- `MetaCache::invalidate`
unfoldable pub invalidate : MetaCache → ℕ → ℕ → MetaCache
unfolding slot put_slot
invalidate c storage_id parent =
    let st = slot c storage_id in
    put_slot c storage_id (record st { listings = remove parent st.listings })

-- `MetaCache::clear_storage`
unfoldable pub clear_storage : MetaCache → ℕ → MetaCache
clear_storage c storage_id = record { storages = remove storage_id c.storages }

-- `MetaCache::invalidate_handle`
unfoldable pub invalidate_handle : MetaCache → ℕ → ℕ → MetaCache
invalidate_handle c storage_id handle = elim (parent_of c storage_id handle) [
  | some parent ↦ invalidate c storage_id parent
  | none ↦ clear_storage c storage_id
]
