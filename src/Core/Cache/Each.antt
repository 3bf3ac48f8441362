-- ===== src/Core/Cache/Each.antt =====
-- A predicate on every cached listing, and how the operations keep it.
use pereprava.Prelude.{
  ℕ, ◌≡◌, ◌≢◌, inl, inr, true, some, List, arith, length, leb, Bool-cases, Option-cases, not, ◌&&◌,
}
use pereprava.Prelude.Maps.{
  Map, get, Every, get-Every, retain-Every, map-Every, remove-Every, insert-Every,
}
use pereprava.Core.Model.{Entry}
use pereprava.Core.Cache.{
  MetaCache, Listing, max_listings, slot, is_fresh, listing, oldest, is_some, evict, stored,
  store_listing, invalidate, clear_storage,
}

-- `P` of every listing: its storage, its directory and the listing.
abbrev pub Each {κ} : (ℕ → ℕ → Listing → Type κ) → MetaCache → Type κ
Each P c = Every (λ s st. Every (P s) st.listings) c.storages

module _ {κ} (P : ℕ → ℕ → Listing → Type κ) where
  pub slot-Every : (c : MetaCache) (s : ℕ) → Each P c → Every (P s) (slot c s).listings
  unfolding slot
  slot-Every c s h = elim (Option-cases (get s c.storages)) [
    | inl e ↦ rw e tt
    | inr (st, e) ↦ rw e (get-Every _ s st c.storages h e)
  ]

  pub evict-Every : (dir s : ℕ) (m : Map Listing) → Every (P s) m → Every (P s) (evict dir m)
  unfolding evict
  evict-Every dir s m h =
      elim (Bool-cases (leb max_listings (length m) && not (is_some (get dir m)))) [
        | inl full ↦ rw full (elim (Option-cases (oldest m)) [
          | inl e ↦ rw e h
          | inr ((k, t), e) ↦ rw e (remove-Every _ _ k (λ j v _ p. p) m h)
        ])
        | inr room ↦ rw room h
      ]

  -- What is served is a cached listing, and it is fresh.
  pub listing-Each :
      (now : ℕ) (c : MetaCache) (s dir : ℕ) (children : List Entry)
      → Each P c
      → listing now c s dir ≡ some children
      → (l : Listing) × P s dir l × (l.children ≡ children) × (is_fresh now l ≡ true)
  unfolding listing
  listing-Each now c s dir children h e = elim (Option-cases (get s c.storages)) [
    | inl missing ↦ absurd (ground arith)
    | inr (st, found) ↦ elim (Option-cases (get dir st.listings)) [
      | inl missing ↦ absurd (ground arith)
      | inr (l, cached) ↦ (
        l,
        get-Every (P s) dir l st.listings (get-Every _ s st c.storages h found) cached,
        ground arith,
        ground arith,
      )
    ]
  ]

  pub store_listing-Each :
      (now : ℕ) (c : MetaCache) (s dir : ℕ) (children : List Entry)
      → Each P c
      → P s dir (record { fetched_at = now; children = children })
      → Each P (store_listing now c s dir children)
  unfolding store_listing
  store_listing-Each now c s dir children h p =
      insert-Every _ _ s (stored now dir children (slot c s)) (λ j st _ q. q)
        (insert-Every _ _ dir _ (λ j l _ q. q) p _
          (evict-Every dir s _ (retain-Every (P s) _ _ (slot-Every c s h))))
        c.storages h

module _ {κ ν} (P : ℕ → ℕ → Listing → Type κ) (Q : ℕ → ℕ → Listing → Type ν) where
  pub map-Each :
      ((s dir : ℕ) (l : Listing) → P s dir l → Q s dir l) → (c : MetaCache) → Each P c → Each Q c
  map-Each f c h = map-Every _ _ (λ s st. map-Every _ _ (f s) st.listings) c.storages h

  -- The listings of the other storages, and of the other directories of this one, stay.
  pub invalidate-Each :
      (s dir : ℕ)
      → ((j : ℕ) (d : ℕ) (l : Listing) → j ≢ s → P j d l → Q j d l)
      → ((d : ℕ) (l : Listing) → d ≢ dir → P s d l → Q s d l)
      → (c : MetaCache) → Each P c
      → Each Q (invalidate c s dir)
  unfolding invalidate
  invalidate-Each s dir f g c h =
      insert-Every _ _ s _ (λ j st n. map-Every _ _ (λ d l. f j d l n) st.listings)
        (remove-Every _ _ dir g (slot c s).listings (slot-Every P c s h)) c.storages h

  pub clear_storage-Each :
      (s : ℕ)
      → ((j : ℕ) (d : ℕ) (l : Listing) → j ≢ s → P j d l → Q j d l)
      → (c : MetaCache) → Each P c
      → Each Q (clear_storage c s)
  unfolding clear_storage
  clear_storage-Each s f c h =
      remove-Every _ _ s (λ j st n. map-Every _ _ (λ d l. f j d l n) st.listings) c.storages h
