-- ===== src/Core/Cache/Reads.antt =====
-- What a read of the cache returns after each operation.
use pereprava.Prelude.{
  ℕ, ◌-◌, ◌≡◌, ap, ◌∙◌, ◌≢◌, ◌&&◌, none, some, List, arith, leb, ◌==◌, ==_iff, if◌then◌else◌,
}
use pereprava.Prelude.Maps.{get, retain, get-insert, get-remove}
use pereprava.Core.Model.{Entry}
use pereprava.Core.Cache.{
  MetaCache, StorageCache, list_ttl, slot, put_slot, is_fresh, listing_in, listing, evict, stored,
  store_listing, invalidate, clear_storage,
}

-- A listing that has just been stored is served for exactly `list_ttl`, and not after.
pub listing-store_listing_self :
    (now later : ℕ) (c : MetaCache) (s dir : ℕ) (children : List Entry)
    → listing later (store_listing now c s dir children) s dir
      ≡ (if leb (later - now) list_ttl then some children else none)
unfolding listing store_listing is_fresh
listing-store_listing_self now later c s dir children = ground (
  arith,
  get-insert s s (stored now dir children (slot c s)) c.storages,
  get-insert dir dir (record { fetched_at = now; children = children })
      (evict dir (retain (λ _ l. is_fresh now l) (slot c s).listings)),
)

listing-put_slot :
    (now : ℕ) (c : MetaCache) (s j dir : ℕ) (st : StorageCache)
    → listing now (put_slot c s st) j dir
      ≡ (if s == j then listing_in now dir st else listing now c j dir)
unfolding listing put_slot
listing-put_slot now c s j dir st = ground (arith, get-insert s j st c.storages)

listing-slot :
    (now : ℕ) (c : MetaCache) (s dir : ℕ) → listing now c s dir ≡ listing_in now dir (slot c s)
unfolding listing slot listing_in get
listing-slot now c s dir = ground arith

-- A dropped listing is a miss at any time, and every other read is what it was.
pub listing-invalidate :
    (now : ℕ) (c : MetaCache) (s dir j d : ℕ)
    → listing now (invalidate c s dir) j d
      ≡ (if (s == j) && (dir == d) then none else listing now c j d)
unfolding invalidate
listing-invalidate now c s dir j d = rw listing-put_slot (
    unfold listing_in in
    ground (arith, get-remove dir d (slot c s).listings, listing-slot now c s d, ==_iff s j))

-- Clearing a storage makes every read of it a miss, and leaves the other storages alone.
pub listing-clear_storage :
    (now : ℕ) (c : MetaCache) (s j d : ℕ)
    → listing now (clear_storage c s) j d ≡ (if s == j then none else listing now c j d)
unfolding listing clear_storage
listing-clear_storage now c s j d = ground (arith, get-remove s j c.storages)

slot-put_slot : (c : MetaCache) (s : ℕ) (st : StorageCache) → slot (put_slot c s st) s ≡ st
unfolding slot put_slot
slot-put_slot c s st = ground (arith, get-insert s s st c.storages)

get-stored_other :
    (now dir d : ℕ) (children : List Entry) (st : StorageCache)
    → dir ≢ d
    → get d (stored now dir children st).listings
      ≡ get d (evict dir (retain (λ _ x. is_fresh now x) st.listings))
unfolding stored
get-stored_other now dir d children st other = ground (
  arith,
  get-insert dir d (record { fetched_at = now; children = children })
      (evict dir (retain (λ _ x. is_fresh now x) st.listings)),
)

pub slot-store_listing :
    (now : ℕ) (c : MetaCache) (s dir : ℕ) (children : List Entry)
    → slot (store_listing now c s dir children) s ≡ stored now dir children (slot c s)
slot-store_listing now c s dir children =
    unfold store_listing in slot-put_slot c s (stored now dir children (slot c s))

pub get-store_listing_other :
    (now : ℕ) (c : MetaCache) (s dir d : ℕ) (children : List Entry)
    → dir ≢ d
    → get d (slot (store_listing now c s dir children) s).listings
      ≡ get d (evict dir (retain (λ _ x. is_fresh now x) (slot c s).listings))
get-store_listing_other now c s dir d children other =
    ap (λ (st : StorageCache). get d st.listings) (slot-store_listing now c s dir children)
    ∙ get-stored_other now dir d children (slot c s) other
