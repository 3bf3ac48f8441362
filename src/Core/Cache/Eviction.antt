-- ===== src/Core/Cache/Eviction.antt =====
-- Which listings of a storage remain when another one is stored.
use mathlib.Core.Path.{subst}
use pereprava.Prelude.{
  ℕ, ◌≤◌, ◌<◌, ◌≡◌, sym, ap, ◌∙◌, refl, ◌≢◌, ◌⊎◌, inl, inr, true, none, some, List, arith, length,
  leb, ◌==◌, Bool-cases, Option-cases, if◌then◌else◌,
}
use pereprava.Prelude.Maps.{
  Map, NodupKeys, retain-NodupKeys, get, retain, remove, get-remove, get-insert,
}
use pereprava.Core.Model.{Entry}
use pereprava.Core.Cache.{
  MetaCache, StorageCache, Listing, stored, max_listings, slot, is_fresh, oldest, is_some, evict,
  store_listing,
}
use pereprava.Core.Cache.Bounds.{
  NotBefore, oldest-NotBefore, oldest-fetched_at, oldest-get, oldest-none,
}
use pereprava.Core.Cache.Reads.{get-store_listing_other, slot-store_listing}

-- The listing under `k` went, which was an oldest one, and no other but that of `dir`.
pub record Gone (left after : Map Listing) (dir k : ℕ) (l : Listing) : Type 0 where
  pub was : get k left ≡ some l
  pub oldest_of_all : NotBefore l.fetched_at left
  pub others : (d : ℕ) → dir ≢ d → get d after ≡ (if k == d then none else get d left)

evict_full :
    (dir k t : ℕ) (m : Map Listing)
    → max_listings ≤ length m
    → get dir m ≡ none
    → oldest m ≡ some (k, t)
    → evict dir m ≡ remove k m
unfolding evict is_some
evict_full dir k t m full out e = ground arith

evict-Gone :
    (dir : ℕ) (m : Map Listing)
    → NodupKeys m
    → max_listings ≤ length m
    → get dir m ≡ none
    → (k : ℕ) × (l : Listing) × Gone m (evict dir m) dir k l
evict-Gone dir m u full out = elim (Option-cases (oldest m)) [
  | inl e ↦ absurd (omega (arith, oldest-none m e))
  | inr ((k, t), e) ↦ elim (Option-cases (get k m)) [
    | inl missing ↦ absurd (unfold is_some in ground (arith, oldest-get m k t e))
    | inr (l, found) ↦ (
      k,
      l,
      record {
        was = found;
        oldest_of_all =
            subst (λ v. NotBefore v m) (sym (oldest-fetched_at m k t l u e found))
              (oldest-NotBefore m k t e);
        others = λ d other. ap (get d) (evict_full dir k t m full out e) ∙ get-remove k d m;
      },
    )
  ]
]

evict_stays :
    (dir : ℕ) (m : Map Listing)
    → (length m < max_listings) ⊎ (is_some (get dir m) ≡ true)
    → evict dir m ≡ m
unfolding evict
evict_stays dir m h = ground arith

get-store_listing_self :
    (now : ℕ) (c : MetaCache) (s dir : ℕ) (children : List Entry)
    → get dir (slot (store_listing now c s dir children) s).listings
      ≡ some (record { fetched_at = now; children = children })
unfolding stored
get-store_listing_self now c s dir children =
    ap (λ (st : StorageCache). get dir st.listings) (slot-store_listing now c s dir children)
    ∙ ground (
      arith,
      get-insert dir dir (record { fetched_at = now; children = children })
          (evict dir (retain (λ _ x. is_fresh now x) (slot c s).listings)),
    )

-- There is room where the cap is not reached or `dir` is among the listings.
abbrev pub HasRoom : ℕ → Map Listing → Type 0
HasRoom dir m = (length m < max_listings) ⊎ (is_some (get dir m) ≡ true)

room_or_full :
    (dir : ℕ) (m : Map Listing) → HasRoom dir m ⊎ ((max_listings ≤ length m) × (get dir m ≡ none))
unfolding is_some
room_or_full dir m = elim (Bool-cases (leb max_listings (length m))) [
  | inr room ↦ inl (inl (ground arith))
  | inl full ↦ elim (Option-cases (get dir m)) [
    | inl e ↦ inr (ground arith, e)
    | inr (l, e) ↦ inl (inr (rw e refl))
  ]
]

-- Storing a listing first drops the listings of the storage that are not fresh. If there are fewer than
-- the cap then, or the directory is among them, no other listing goes. Otherwise exactly one goes, and
-- none of the others is older. The new listing is there in both cases.
pub store_listing_evicts :
    (now : ℕ) (c : MetaCache) (s dir : ℕ) (children : List Entry)
    → NodupKeys (slot c s).listings
    → let left = retain (λ _ x. is_fresh now x) (slot c s).listings in
      let after = (slot (store_listing now c s dir children) s).listings in
      (get dir after ≡ some (record { fetched_at = now; children = children }))
      × ((HasRoom dir left × ((d : ℕ) → dir ≢ d → get d after ≡ get d left))
          ⊎ ((max_listings ≤ length left)
              × (get dir left ≡ none)
              × (k : ℕ) × (l : Listing) × Gone left after dir k l))
store_listing_evicts now c s dir children u =
    let left = retain (λ _ x. is_fresh now x) (slot c s).listings in
    (
      get-store_listing_self now c s dir children,
      elim (room_or_full dir left) [
        | inl room ↦ inl (
          room,
          λ d other.
              get-store_listing_other now c s dir d children other
              ∙ ap (get d) (evict_stays dir left room),
        )
        | inr (full, out) ↦
            let (k, l, gone) = evict-Gone dir left (retain-NodupKeys _ _ u) full out in
            inr (
              full,
              out,
              k,
              l,
              record {
                was = gone.was;
                oldest_of_all = gone.oldest_of_all;
                others = λ d other.
                    get-store_listing_other now c s dir d children other ∙ gone.others d other;
              },
            )
      ],
    )
