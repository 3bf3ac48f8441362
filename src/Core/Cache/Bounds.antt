-- ===== src/Core/Cache/Bounds.antt =====
-- The size of the cache, and what goes when the cap is reached.
use pereprava.Prelude.{
  ℕ, ◌≤◌, ◌<◌, ◌≡◌, refl, inl, inr, true, not, ◌&&◌, none, some, List, [], ◌∷◌, arith, length, leb,
  Bool-cases, Option-cases,
}
use pereprava.Prelude.Maps.{
  Map, get, insert, remove, retain, NodupKeys, remove-NodupKeys, insert-NodupKeys, retain-NodupKeys,
  length-retain-le, length-remove-lt, length-remove-le, Every, map-Every, insert-Every,
  remove-Every, get-Every,
}
use pereprava.Core.Model.{Entry}
use pereprava.Core.Cache.{
  MetaCache, StorageCache, Listing, new, max_listings, slot, put_slot, is_fresh, older, oldest,
  is_some, evict, stored, store_listing, parent_of, invalidate, clear_storage, invalidate_handle,
}

-- At most `max_listings` listings, and no directory listed twice.
pub record IsBounded (st : StorageCache) : Type 0 where
  pub within : length st.listings ≤ max_listings
  pub nodup : NodupKeys st.listings

abbrev pub AllBounded : MetaCache → Type 0
AllBounded c = Every (λ _ st. IsBounded st) c.storages

-- The oldest listing is one of the map.
pub oldest-get : (m : Map Listing) (k t : ℕ) → oldest m ≡ some (k, t) → is_some (get k m) ≡ true
unfolding oldest older get is_some
oldest-get [] k t h = cc
oldest-get ((j, l) ∷ m) k t h = elim (Option-cases (oldest m)) [
  | inl e ↦ ground arith
  | inr ((i, u), e) ↦ ground (arith, oldest-get m i u e)
]

pub oldest-none : (m : Map Listing) → oldest m ≡ none → length m ≡ 0
unfolding oldest older
oldest-none [] h = refl
oldest-none ((j, l) ∷ m) h = ground arith

is_some-cases :
    (m : Map Listing) (k : ℕ) → is_some (get k m) ≡ true → length (remove k m) < length m
unfolding is_some
is_some-cases m k h = elim (Option-cases (get k m)) [
  | inl e ↦ ground arith
  | inr (l, e) ↦ length-remove-lt k l m e
]

evict-NodupKeys : (dir : ℕ) (m : Map Listing) → NodupKeys m → NodupKeys (evict dir m)
unfolding evict
evict-NodupKeys dir m u =
    elim (Bool-cases (leb max_listings (length m) && not (is_some (get dir m)))) [
      | inl full ↦ rw full (elim (Option-cases (oldest m)) [
        | inl e ↦ rw e u
        | inr ((k, t), e) ↦ rw e (remove-NodupKeys k m u)
      ])
      | inr room ↦ rw room u
    ]

-- With `dir` written there is room for it.
length-insert-evict :
    (dir : ℕ) (l : Listing) (m : Map Listing)
    → length m ≤ max_listings
    → length (insert dir l (evict dir m)) ≤ max_listings
unfolding evict insert
length-insert-evict dir l m h =
    elim (Bool-cases (leb max_listings (length m) && not (is_some (get dir m)))) [
      | inl full ↦ rw full (elim (Option-cases (oldest m)) [
        | inl e ↦ rw e (omega (arith, oldest-none m e, length-remove-le dir m))
        | inr ((k, t), e) ↦ rw e (
            omega
              (arith, length-remove-le dir (remove k m), is_some-cases m k (oldest-get m k t e)))
      ])
      | inr room ↦ rw room (ground (arith, is_some-cases m dir, length-remove-le dir m))
    ]

stored-IsBounded :
    (now dir : ℕ) (children : List Entry) (st : StorageCache)
    → IsBounded st
    → IsBounded (stored now dir children st)
unfolding stored
stored-IsBounded now dir children st b = record {
  within =
      length-insert-evict dir _ (retain (λ _ l. is_fresh now l) st.listings)
        (omega (arith, length-retain-le (λ _ l. is_fresh now l) st.listings, b.within));
  nodup = insert-NodupKeys dir _ _ (evict-NodupKeys dir _ (retain-NodupKeys _ _ b.nodup));
}

slot-IsBounded : (c : MetaCache) (s : ℕ) → AllBounded c → IsBounded (slot c s)
unfolding slot
slot-IsBounded c s h = elim (Option-cases (get s c.storages)) [
  | inl e ↦ rw e (record { within = omega arith; nodup = tt })
  | inr (st, e) ↦ rw e (get-Every _ s st c.storages h e)
]

-- The operations that change the cache.
pub data Op : Type 0 where
  store : ℕ → ℕ → ℕ → List Entry → Op
  drop_listing drop_handle : ℕ → ℕ → Op
  drop_storage : ℕ → Op

unfoldable pub run_op : Op → MetaCache → MetaCache
run_op (store now s dir children) c = store_listing now c s dir children
run_op (drop_listing s dir) c = invalidate c s dir
run_op (drop_handle s handle) c = invalidate_handle c s handle
run_op (drop_storage s) c = clear_storage c s

unfoldable pub run_ops : List Op → MetaCache → MetaCache
run_ops [] c = c
run_ops (o ∷ os) c = run_ops os (run_op o c)

put_slot-AllBounded :
    (c : MetaCache) (s : ℕ) (st : StorageCache)
    → AllBounded c
    → IsBounded st
    → AllBounded (put_slot c s st)
unfolding put_slot
put_slot-AllBounded c s st h b = insert-Every _ _ s st (λ j w _ p. p) b c.storages h

invalidate-AllBounded : (c : MetaCache) (s dir : ℕ) → AllBounded c → AllBounded (invalidate c s dir)
unfolding invalidate
invalidate-AllBounded c s dir h =
    let b = slot-IsBounded c s h in
    put_slot-AllBounded c s _ h (record {
      within = omega (arith, length-remove-le dir (slot c s).listings, b.within);
      nodup = remove-NodupKeys dir _ b.nodup;
    })

clear_storage-AllBounded : (c : MetaCache) (s : ℕ) → AllBounded c → AllBounded (clear_storage c s)
unfolding clear_storage
clear_storage-AllBounded c s h = remove-Every _ _ s (λ j w _ p. p) c.storages h

invalidate_handle-AllBounded :
    (c : MetaCache) (s handle : ℕ) → AllBounded c → AllBounded (invalidate_handle c s handle)
invalidate_handle-AllBounded c s handle h = elim (Option-cases (parent_of c s handle)) [
  | inl e ↦ unfold invalidate_handle in rw (e, invalidate_handle) (clear_storage-AllBounded c s h)
  | inr (p, e) ↦
      unfold invalidate_handle in rw (e, invalidate_handle) (invalidate-AllBounded c s p h)
]

pub run_op-AllBounded : (o : Op) (c : MetaCache) → AllBounded c → AllBounded (run_op o c)
unfolding run_op store_listing invalidate_handle
run_op-AllBounded (store now s dir children) c h =
    put_slot-AllBounded c s _ h (stored-IsBounded now dir children _ (slot-IsBounded c s h))
run_op-AllBounded (drop_listing s dir) c h = invalidate-AllBounded c s dir h
run_op-AllBounded (drop_handle s handle) c h = invalidate_handle-AllBounded c s handle h
run_op-AllBounded (drop_storage s) c h = clear_storage-AllBounded c s h

run_ops-AllBounded : (os : List Op) (c : MetaCache) → AllBounded c → AllBounded (run_ops os c)
unfolding run_ops
run_ops-AllBounded [] c h = h
run_ops-AllBounded (o ∷ os) c h = run_ops-AllBounded os (run_op o c) (run_op-AllBounded o c h)

-- Whatever is stored and dropped, in any order and at any times, a cache that started empty holds at
-- most 256 listings for each storage, and lists no directory of a storage twice.
pub run_ops-new-AllBounded : (os : List Op) → AllBounded (run_ops os new)
run_ops-new-AllBounded os = run_ops-AllBounded os new tt

-- `t` is not above the time of any listing.
abbrev pub NotBefore : ℕ → Map Listing → Type 0
NotBefore t m = Every (λ _ l. t ≤ l.fetched_at) m

oldest-none-NotBefore : (t : ℕ) (m : Map Listing) → oldest m ≡ none → NotBefore t m
unfolding oldest older
oldest-none-NotBefore t [] h = tt
oldest-none-NotBefore t ((j, l) ∷ m) h = absurd (ground arith)

oldest-key :
    (j : ℕ) (l : Listing) (m : Map Listing) (k t : ℕ)
    → oldest m ≡ none
    → oldest ((j, l) ∷ m) ≡ some (k, t)
    → t ≡ l.fetched_at
unfolding oldest older
oldest-key j l m k t e h = ground arith

pub oldest-NotBefore : (m : Map Listing) (k t : ℕ) → oldest m ≡ some (k, t) → NotBefore t m
unfolding oldest older
oldest-NotBefore [] k t h = tt
oldest-NotBefore ((j, l) ∷ m) k t h = elim (Option-cases (oldest m)) [
  | inl e ↦
      let same : t ≡ l.fetched_at = oldest-key j l m k t e (unfold oldest older in h) in
      (omega arith, oldest-none-NotBefore t m e)
  | inr ((i, u), e) ↦ (
    ground arith,
    map-Every _ _ (λ _ w (q : u ≤ w.fetched_at). ground arith) m (oldest-NotBefore m i u e),
  )
]

-- The time that `oldest` reports is that of the listing under its key.
pub oldest-fetched_at :
    (m : Map Listing) (k t : ℕ) (l : Listing)
    → NodupKeys m
    → oldest m ≡ some (k, t)
    → get k m ≡ some l
    → l.fetched_at ≡ t
unfolding oldest older get is_some
oldest-fetched_at [] k t l u h e = cc
oldest-fetched_at ((j, w) ∷ m) k t l u h e = elim (Option-cases (oldest m)) [
  | inl none_left ↦ ground arith
  | inr ((i, v), first) ↦
      ground (arith, oldest-fetched_at m i v l u.1 first, oldest-get m i v first)
]
