-- ===== src/Core/Cache/Parents.antt =====
-- Which listings a deleted object can still show in.
use pereprava.Prelude.{ℕ, ◌≡◌, ◌⊎◌, inl, inr, true, some, List, [], ◌∷◌, arith, All, Option-cases}
use pereprava.Prelude.Maps.{
  Map, get, insert, get-insert, Every, get-Every, map-Every, insert-Every, remove-Every,
  retain-Every,
}
use mathlib.Core.Path.{subst}
use pereprava.Core.Model.{Entry}
use pereprava.Core.Cache.{
  MetaCache, StorageCache, slot, put_slot, listing, is_some, learn_parents, stored, store_listing,
  parent_of, invalidate, clear_storage, invalidate_handle,
}
use pereprava.Core.Cache.Each.{evict-Every}
use pereprava.Core.Cache.Bounds.{
  Op, store, drop_listing, drop_handle, drop_storage, run_op, run_ops,
}

-- The directory of the object is known.
abbrev pub HasParent : Map ℕ → Entry → Type 0
HasParent parents e = is_some (get e.handle parents) ≡ true

-- Every object that a listing shows has a known directory.
abbrev pub KnowsParents : StorageCache → Type 0
KnowsParents st = Every (λ _ l. All (HasParent st.parents) l.children) st.listings

abbrev pub AllKnow : MetaCache → Type 0
AllKnow c = Every (λ _ st. KnowsParents st) c.storages

insert-HasParent :
    (h dir : ℕ) (m : Map ℕ) (e : Entry) → HasParent m e → HasParent (insert h dir m) e
unfolding is_some
insert-HasParent h dir m e p = ground (arith, get-insert h e.handle dir m)

learn_parents-HasParent :
    (dir : ℕ) (es : List Entry) (m : Map ℕ) (e : Entry)
    → HasParent m e
    → HasParent (learn_parents dir es m) e
unfolding learn_parents
learn_parents-HasParent dir [] m e p = p
learn_parents-HasParent dir (x ∷ es) m e p =
    learn_parents-HasParent dir es _ e (insert-HasParent x.handle dir m e p)

insert-HasParent_self : (dir : ℕ) (m : Map ℕ) (e : Entry) → HasParent (insert e.handle dir m) e
unfolding is_some
insert-HasParent_self dir m e = ground (arith, get-insert e.handle e.handle dir m)

learn_parents-All :
    (dir : ℕ) (es : List Entry) (m : Map ℕ) → All (HasParent (learn_parents dir es m)) es
unfolding learn_parents
learn_parents-All dir [] m = tt
learn_parents-All dir (x ∷ es) m = (
  learn_parents-HasParent dir es _ x (insert-HasParent_self dir m x),
  learn_parents-All dir es (insert x.handle dir m),
)

map-All :
    {P Q : Entry → Type 0} (f : (e : Entry) → P e → Q e) (es : List Entry) → All P es → All Q es
map-All f [] h = tt
map-All f (e ∷ es) h = (f e h.0, map-All f es h.1)

stored-KnowsParents :
    (now dir : ℕ) (children : List Entry) (st : StorageCache)
    → KnowsParents st
    → KnowsParents (stored now dir children st)
unfolding stored
stored-KnowsParents now dir children st k =
    insert-Every _ _ dir _ (λ j l _ p. p) (learn_parents-All dir children st.parents) _
      (evict-Every (λ _ _ l. All (HasParent (learn_parents dir children st.parents)) l.children) dir
        0 _
        (retain-Every _ _ _ (
          map-Every _ _
            (λ _ l. map-All (λ e. learn_parents-HasParent dir children st.parents e) l.children)
            st.listings k)))

slot-KnowsParents : (c : MetaCache) (s : ℕ) → AllKnow c → KnowsParents (slot c s)
unfolding slot
slot-KnowsParents c s h = elim (Option-cases (get s c.storages)) [
  | inl e ↦ rw e tt
  | inr (st, e) ↦ rw e (get-Every _ s st c.storages h e)
]

put_slot-AllKnow :
    (c : MetaCache) (s : ℕ) (st : StorageCache)
    → AllKnow c
    → KnowsParents st
    → AllKnow (put_slot c s st)
unfolding put_slot
put_slot-AllKnow c s st h k = insert-Every _ _ s st (λ j w _ p. p) k c.storages h

invalidate-AllKnow : (c : MetaCache) (s dir : ℕ) → AllKnow c → AllKnow (invalidate c s dir)
unfolding invalidate
invalidate-AllKnow c s dir h =
    put_slot-AllKnow c s _ h
      (remove-Every _ _ dir (λ j l _ p. p) (slot c s).listings (slot-KnowsParents c s h))

clear_storage-AllKnow : (c : MetaCache) (s : ℕ) → AllKnow c → AllKnow (clear_storage c s)
unfolding clear_storage
clear_storage-AllKnow c s h = remove-Every _ _ s (λ j w _ p. p) c.storages h

invalidate_handle-AllKnow :
    (c : MetaCache) (s handle : ℕ) → AllKnow c → AllKnow (invalidate_handle c s handle)
invalidate_handle-AllKnow c s handle h = elim (Option-cases (parent_of c s handle)) [
  | inl e ↦ unfold invalidate_handle in rw (e, invalidate_handle) (clear_storage-AllKnow c s h)
  | inr (p, e) ↦ unfold invalidate_handle in rw (e, invalidate_handle) (invalidate-AllKnow c s p h)
]

run_op-AllKnow : (o : Op) (c : MetaCache) → AllKnow c → AllKnow (run_op o c)
unfolding run_op store_listing
run_op-AllKnow (store now s dir children) c h =
    put_slot-AllKnow c s _ h (stored-KnowsParents now dir children _ (slot-KnowsParents c s h))
run_op-AllKnow (drop_listing s dir) c h = invalidate-AllKnow c s dir h
run_op-AllKnow (drop_handle s handle) c h = invalidate_handle-AllKnow c s handle h
run_op-AllKnow (drop_storage s) c h = clear_storage-AllKnow c s h

pub run_ops-AllKnow : (os : List Op) (c : MetaCache) → AllKnow c → AllKnow (run_ops os c)
unfolding run_ops
run_ops-AllKnow [] c h = h
run_ops-AllKnow (o ∷ os) c h = run_ops-AllKnow os (run_op o c) (run_op-AllKnow o c h)

-- The object stands in the list.
abbrev pub Shows : ℕ → List Entry → Type 0
Shows h [] = ⊥
Shows h (e ∷ es) = (e.handle ≡ h) ⊎ Shows h es

Shows-HasParent :
    (m : Map ℕ) (h : ℕ) (es : List Entry)
    → All (HasParent m) es
    → Shows h es
    → is_some (get h m) ≡ true
Shows-HasParent m h [] k shows = elim shows [ ]
Shows-HasParent m h (e ∷ es) k (inl same) = subst (λ i. is_some (get i m) ≡ true) same k.0
Shows-HasParent m h (e ∷ es) k (inr later) = Shows-HasParent m h es k.1 later

parent_of-of_storage :
    (c : MetaCache) (s h : ℕ) (st : StorageCache)
    → get s c.storages ≡ some st
    → parent_of c s h ≡ get h st.parents
unfolding parent_of
parent_of-of_storage c s h st e = ground arith

-- A handle that a served listing shows has a known directory.
pub shown_parent :
    (now : ℕ) (c : MetaCache) (s d h : ℕ) (children : List Entry)
    → AllKnow c
    → listing now c s d ≡ some children
    → Shows h children
    → is_some (parent_of c s h) ≡ true
unfolding listing
shown_parent now c s d h children k served shows = elim (Option-cases (get s c.storages)) [
  | inl missing ↦ absurd (ground arith)
  | inr (st, found) ↦ elim (Option-cases (get d st.listings)) [
    | inl missing ↦ absurd (ground arith)
    | inr (l, cached) ↦ rw (parent_of-of_storage c s h st found) (
        Shows-HasParent st.parents h l.children
          (get-Every _ d l st.listings (get-Every _ s st c.storages k found) cached)
          (subst (Shows h) (ground arith) shows))
  ]
]
