-- ===== src/Core/Cache/LastSeen.antt =====
-- Where an object was last listed, read off the history of the cache alone, and what deleting the
-- object drops.
use pereprava.Prelude.{
  ℕ, ◌≡◌, refl, sym, ap, ◌∙◌, ◌&&◌, ◌||◌, Bool, false, inl, inr, Option, none, some, List, [], ◌∷◌,
  arith, ◌==◌, Option-cases, Bool-cases, ==_iff, if◌then◌else◌,
}
use pereprava.Prelude.Maps.{Map, get, insert, get-insert, get-remove}
use pereprava.Core.Model.{Entry}
use pereprava.Core.Cache.{
  MetaCache, StorageCache, new, slot, put_slot, listing, is_some, learn_parents, stored,
  store_listing, parent_of, invalidate, clear_storage, invalidate_handle,
}
use pereprava.Core.Cache.Reads.{listing-invalidate}
use pereprava.Core.Cache.Parents.{Shows, shown_parent, run_ops-AllKnow}
use pereprava.Core.Cache.Bounds.{
  Op, store, drop_listing, drop_handle, drop_storage, run_op, run_ops,
}

-- Whether a list has the object.
abbrev pub has_handle : ℕ → List Entry → Bool
has_handle h [] = false
has_handle h (e ∷ es) = has_handle h es || e.handle == h

-- The directory, by storage and handle, in which each object was last listed.
abbrev pub Sightings : Type 0
Sightings = ℕ → ℕ → Option ℕ

abbrev pub forget_storage : ℕ → Sightings → Sightings
forget_storage s f j h = if s == j then none else f j h

abbrev pub see_op : Op → Sightings → Sightings
see_op (store now s dir es) f j h = if s == j && has_handle h es then some dir else f j h
see_op (drop_listing s dir) f j h = f j h
see_op (drop_storage s) f j h = forget_storage s f j h
see_op (drop_handle s handle) f j h = elim (f s handle) [
  | none ↦ forget_storage s f j h
  | some d ↦ f j h
]

abbrev pub see_ops : List Op → Sightings → Sightings
see_ops [] f = f
see_ops (o ∷ os) f = see_ops os (see_op o f)

-- The directory in which a history last listed the object, if it did not drop the storage since.
abbrev pub last_seen : List Op → Sightings
last_seen os = see_ops os (λ _ _. none)

get-learn_parents :
    (dir h : ℕ) (es : List Entry) (m : Map ℕ)
    → get h (learn_parents dir es m) ≡ (if has_handle h es then some dir else get h m)
unfolding learn_parents
get-learn_parents dir h [] m = refl
get-learn_parents dir h (e ∷ es) m =
    ground (arith, get-learn_parents dir h es (insert e.handle dir m), get-insert e.handle h dir m)

parent_of-slot : (c : MetaCache) (s h : ℕ) → parent_of c s h ≡ get h (slot c s).parents
unfolding parent_of slot get
parent_of-slot c s h = ground arith

parent_of-put_slot :
    (c : MetaCache) (s j h : ℕ) (st : StorageCache)
    → parent_of (put_slot c s st) j h ≡ (if s == j then get h st.parents else parent_of c j h)
unfolding parent_of put_slot
parent_of-put_slot c s j h st = ground (arith, get-insert s j st c.storages)

abbrev Knows : MetaCache → Sightings → Type 0
Knows c f = (j h : ℕ) → parent_of c j h ≡ f j h

invalidate-Knows :
    (c : MetaCache) (f : Sightings) (s dir : ℕ) → Knows c f → Knows (invalidate c s dir) f
unfolding invalidate
invalidate-Knows c f s dir k j h = rw parent_of-put_slot (elim (Bool-cases (s == j)) [
  | inl here ↦
      rw here
        (sym (parent_of-slot c s h) ∙ (ap (λ i. parent_of c i h) ((==_iff s j).0 here) ∙ k j h))
  | inr other ↦ rw other (k j h)
])

clear_storage-Knows :
    (c : MetaCache) (f : Sightings) (s : ℕ)
    → Knows c f
    → Knows (clear_storage c s) (forget_storage s f)
unfolding clear_storage parent_of
clear_storage-Knows c f s k j h = ground (arith, get-remove s j c.storages, k j h)

store_listing-Knows :
    (now s dir : ℕ) (es : List Entry) (c : MetaCache) (f : Sightings)
    → Knows c f
    → Knows (store_listing now c s dir es) (see_op (store now s dir es) f)
unfolding store_listing stored
store_listing-Knows now s dir es c f k j h = rw parent_of-put_slot (
    rw get-learn_parents (elim (Bool-cases (s == j)) [
      | inl here ↦ rw here (
          ap (λ x. if has_handle h es then some dir else x)
            (sym (parent_of-slot c s h)
              ∙ (ap (λ i. parent_of c i h) ((==_iff s j).0 here) ∙ k j h)))
      | inr other ↦ rw other (k j h)
    ]))

invalidate_handle-Knows :
    (c : MetaCache) (f : Sightings) (s handle : ℕ)
    → Knows c f
    → Knows (invalidate_handle c s handle) (see_op (drop_handle s handle) f)
invalidate_handle-Knows c f s handle k j h = elim (Option-cases (parent_of c s handle)) [
  | inl e ↦
      unfold invalidate_handle in
      rw (e, invalidate_handle)
        (rw (sym (k s handle) ∙ e, see_op) (clear_storage-Knows c f s k j h))
  | inr (p, e) ↦
      unfold invalidate_handle in
      rw (e, invalidate_handle) (rw (sym (k s handle) ∙ e, see_op) (invalidate-Knows c f s p k j h))
]

run_op-Knows :
    (o : Op) (c : MetaCache) (f : Sightings) → Knows c f → Knows (run_op o c) (see_op o f)
unfolding run_op
run_op-Knows (store now s dir es) c f k = store_listing-Knows now s dir es c f k
run_op-Knows (drop_listing s dir) c f k = invalidate-Knows c f s dir k
run_op-Knows (drop_handle s handle) c f k = invalidate_handle-Knows c f s handle k
run_op-Knows (drop_storage s) c f k = clear_storage-Knows c f s k

run_ops-Knows :
    (os : List Op) (c : MetaCache) (f : Sightings) → Knows c f → Knows (run_ops os c) (see_ops os f)
unfolding run_ops
run_ops-Knows [] c f k = k
run_ops-Knows (o ∷ os) c f k = run_ops-Knows os (run_op o c) (see_op o f) (run_op-Knows o c f k)

new-Knows : Knows new (λ _ _. none)
unfolding parent_of get
new-Knows j h = refl

-- In a cache built by any history of operations, deleting an object that some served listing shows
-- drops the listing of exactly one directory: the one in which the history last listed the object.
-- Reading that directory is a miss, and every other read returns what it returned before.
pub invalidate_handle_shown :
    (os : List Op) (now s d h : ℕ) (children : List Entry)
    → let c = run_ops os new in
      listing now c s d ≡ some children
      → Shows h children
      → (p : ℕ) × (last_seen os s h ≡ some p)
        × ((j e : ℕ)
            → listing now (invalidate_handle c s h) j e
              ≡ (if (s == j) && (p == e) then none else listing now c j e))
invalidate_handle_shown os now s d h children served shows =
    let c = run_ops os new in
    let known = shown_parent now c s d h children (run_ops-AllKnow os new tt) served shows in
    elim (Option-cases (parent_of c s h)) [
      | inl e ↦ absurd (unfold is_some in ground arith)
      | inr (p, e) ↦ (
        p,
        sym (run_ops-Knows os new _ new-Knows s h) ∙ e,
        λ j f.
            unfold invalidate_handle in
            rw (e, invalidate_handle) (listing-invalidate now c s p j f),
      )
    ]
