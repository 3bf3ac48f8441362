-- ===== src/Examples/CacheCases.antt =====
-- The cache and the names.
use pereprava.Prelude.{
  ℕ, ◌≡◌, refl, true, false, ◌⊎◌, ◌≢◌, inl, ◌&&◌, ◌↔◌, none, some, [], ◌∷◌, ◌≤◌, length, map, arith,
  ◌==◌, if◌then◌else◌,
}
use pereprava.Prelude.Maps.{Map, get, insert, retain}
use pereprava.Prelude.Text.{Text, codes, to_ascii_lowercase, eq_ignore_ascii_case}
use pereprava.Core.Names.{Unicode, names_eq_ci, names_eq_ci-iff-fold_name, fold_name}
use pereprava.Core.Model.{Entry}
use pereprava.Core.Cache.{
  MetaCache, Listing, new, max_listings, slot, put_slot, stored, is_fresh, listing, evict,
  learn_parents, store_listing, invalidate_handle,
}
use pereprava.Core.Cache.Eviction.{HasRoom, Gone, store_listing_evicts}
use pereprava.Core.Cache.Bounds.{
  store, drop_listing, run_op, run_ops, AllBounded, run_ops-new-AllBounded,
}
use pereprava.Core.Cache.LastSeen.{last_seen, invalidate_handle_shown}

-- The tables of a world in which only ASCII letters have case and every text is in normal form.
abbrev pub ascii : Unicode
ascii = record { to_lowercase = map to_ascii_lowercase; nfc = λ t. t }

ascii-folds :
    (a b : Text)
    → eq_ignore_ascii_case a b ≡ true
    → map to_ascii_lowercase a ≡ map to_ascii_lowercase b
unfolding eq_ignore_ascii_case
ascii-folds [] [] h = refl
ascii-folds [] (d ∷ t) h = absurd (ground arith)
ascii-folds (c ∷ s) [] h = absurd (ground arith)
ascii-folds (c ∷ s) (d ∷ t) h = ground (arith, ascii-folds s t)

names_eq_ci-iff-fold_name_example :
    (names_eq_ci ascii (codes "DCIM") (codes "dcim") ≡ true)
    ↔ (fold_name ascii (codes "DCIM") ≡ fold_name ascii (codes "dcim"))
names_eq_ci-iff-fold_name_example =
    names_eq_ci-iff-fold_name ascii (record { folds_ascii = ascii-folds }) (codes "DCIM")
      (codes "dcim")

abbrev file : ℕ → Entry
file h = record { handle = h; parent = 10; name = codes "a"; is_dir = false; size = 3 }

abbrev one_listing : MetaCache
one_listing = run_ops (store 5 1 10 (file 7 ∷ []) ∷ []) new

run_ops-new-AllBounded_example :
    AllBounded (run_ops (store 5 1 10 (file 7 ∷ []) ∷ drop_listing 1 10 ∷ []) new)
run_ops-new-AllBounded_example =
    run_ops-new-AllBounded (store 5 1 10 (file 7 ∷ []) ∷ drop_listing 1 10 ∷ [])

served : listing 6 one_listing 1 10 ≡ some (file 7 ∷ [])
unfolding run_ops run_op store_listing slot put_slot stored listing is_fresh evict learn_parents get
    insert retain
served = refl

invalidate_handle_shown_example :
    (p : ℕ) × (last_seen (store 5 1 10 (file 7 ∷ []) ∷ []) 1 7 ≡ some p)
    × ((j e : ℕ)
        → listing 6 (invalidate_handle one_listing 1 7) j e
          ≡ (if (1 == j) && (p == e) then none else listing 6 one_listing j e))
invalidate_handle_shown_example =
    invalidate_handle_shown (store 5 1 10 (file 7 ∷ []) ∷ []) 6 1 10 7 (file 7 ∷ []) served
      (inl refl)

abbrev kept : Listing
kept = record { fetched_at = 5; children = file 7 ∷ [] }

abbrev small_cache : MetaCache
small_cache = record { storages = (1, record { listings = (10, kept) ∷ []; parents = [] }) ∷ [] }

abbrev small_left : Map Listing
small_left = retain (λ _ x. is_fresh 6 x) (slot small_cache 1).listings

abbrev small_after : Map Listing
small_after = (slot (store_listing 6 small_cache 1 11 []) 1).listings

store_listing_evicts_example :
    (get 11 small_after ≡ some (record { fetched_at = 6; children = [] }))
    × ((HasRoom 11 small_left × ((d : ℕ) → 11 ≢ d → get d small_after ≡ get d small_left))
        ⊎ ((max_listings ≤ length small_left)
            × (get 11 small_left ≡ none)
            × (k : ℕ) × (l : Listing) × Gone small_left small_after 11 k l))
unfolding slot get
store_listing_evicts_example = store_listing_evicts 6 small_cache 1 11 [] (refl, tt)
