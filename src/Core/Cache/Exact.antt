-- ===== src/Core/Cache/Exact.antt =====
-- Each object of the cached listings is recorded under the directory of its listing.
use pereprava.Prelude.{
  ℕ, ◌≡◌, refl, sym, ap, ◌∙◌, ◌⊎◌, inl, inr, some, List, [], ◌∷◌, arith, All, Bool-cases,
  Option-cases, ◌==◌,
}
use pereprava.Prelude.Maps.{
  Map, get, insert, get-insert, Every, get-Every, map-Every, insert-Every, retain-Every,
  remove-Every,
}
use pereprava.Core.Model.{Entry}
use pereprava.Core.Cache.{
  MetaCache, StorageCache, Listing, slot, store_listing, stored, learn_parents, invalidate,
  clear_storage,
}
use pereprava.Core.Cache.Each.{evict-Every}
use pereprava.Core.Cache.Parents.{Shows}

abbrev pub ExactParents : StorageCache → Type 0
ExactParents st = Every (λ d l. All (λ e. get e.handle st.parents ≡ some d) l.children) st.listings

abbrev pub AllExact : MetaCache → Type 0
AllExact c = Every (λ _ st. ExactParents st) c.storages

-- After learning from a listing, an object is recorded under its directory, or under what it was.
learn_parents-get :
    (dir : ℕ) (es : List Entry) (m : Map ℕ) (h : ℕ)
    → (Shows h es × (get h (learn_parents dir es m) ≡ some dir))
      ⊎ ((¬ Shows h es) × (get h (learn_parents dir es m) ≡ get h m))
unfolding learn_parents
learn_parents-get dir [] m h = inr (λ x. x, refl)
learn_parents-get dir (e ∷ es) m h = elim (learn_parents-get dir es (insert e.handle dir m) h) [
  | inl (s, found) ↦ inl (inr s, found)
  | inr (absent, same) ↦ elim (Bool-cases (e.handle == h)) [
    | inl hit ↦ inl (inl (ground arith), same ∙ (get-insert e.handle h dir m ∙ rw hit))
    | inr miss ↦ inr (
      λ s. elim s [ inl q ↦ absurd (ground arith) | inr q ↦ absent q ],
      same ∙ (get-insert e.handle h dir m ∙ rw miss),
    )
  ]
]

learn_parents-shown :
    (dir : ℕ) (es : List Entry) (m : Map ℕ) (h : ℕ)
    → Shows h es
    → get h (learn_parents dir es m) ≡ some dir
learn_parents-shown dir es m h s = elim (learn_parents-get dir es m h) [
  | inl (_, e) ↦ e
  | inr (absent, _) ↦ absurd (absent s)
]

All-of_shown :
    {P Q : Entry → Type 0} (es : List Entry)
    → ((e : Entry) → Shows e.handle es → P e → Q e)
    → All P es
    → All Q es
All-of_shown [] f h = tt
All-of_shown (e ∷ es) f h = (f e (inl refl) h.0, All-of_shown es (λ x s. f x (inr s)) h.1)

All-shown :
    {Q : Entry → Type 0} (es : List Entry) → ((e : Entry) → Shows e.handle es → Q e) → All Q es
All-shown [] f = tt
All-shown (e ∷ es) f = (f e (inl refl), All-shown es (λ x s. f x (inr s)))

pub Every-both :
    {V : Type 0} (P Q : ℕ → V → Type 0) (m : Map V)
    → Every P m
    → Every Q m
    → Every (λ k v. P k v × Q k v) m
Every-both P Q [] h k = tt
Every-both P Q ((i, v) ∷ m) h k = ((h.0, k.0), Every-both P Q m h.1 k.1)

pub slot-ExactParents : (c : MetaCache) (s : ℕ) → AllExact c → ExactParents (slot c s)
unfolding slot
slot-ExactParents c s h = elim (Option-cases (get s c.storages)) [
  | inl e ↦ rw e tt
  | inr (st, e) ↦ rw e (get-Every _ s st c.storages h e)
]

-- Storing a listing keeps the records exact, if no other listing shows one of its objects.
module _ (now dir : ℕ) (children : List Entry) (R : ℕ → Listing → Type 0)
    (apart : (d : ℕ) (l : Listing)
      → R d l
      → (h : ℕ) → Shows h l.children
      → Shows h children
      → d ≡ dir) where
  relearned :
      (st : StorageCache) (d : ℕ) (l : Listing)
      → R d l × All (λ e. get e.handle st.parents ≡ some d) l.children
      → All (λ e. get e.handle (learn_parents dir children st.parents) ≡ some d) l.children
  relearned st d l (r, known) =
      All-of_shown l.children
        (λ e shown p. elim (learn_parents-get dir children st.parents e.handle) [
          | inl (again, found) ↦ found ∙ ap some (sym (apart d l r e.handle shown again))
          | inr (_, same) ↦ same ∙ p
        ])
        known

  stored-ExactParents :
      (st : StorageCache)
      → Every R st.listings
      → ExactParents st
      → ExactParents (stored now dir children st)
  unfolding stored
  stored-ExactParents st r x =
      insert-Every _ _ dir _ (λ j l _ p. p)
        (All-shown children (λ e shown. learn_parents-shown dir children st.parents e.handle shown))
        _
        (evict-Every
          (λ _ d l.
            All (λ e. get e.handle (learn_parents dir children st.parents) ≡ some d) l.children)
          dir 0 _
          (retain-Every _ _ _
            (map-Every _ _ (relearned st) st.listings (Every-both _ _ st.listings r x))))

  pub store_listing-AllExact :
      (c : MetaCache) (s : ℕ)
      → Every R (slot c s).listings
      → AllExact c
      → AllExact (store_listing now c s dir children)
  unfolding store_listing
  store_listing-AllExact c s r x =
      insert-Every _ _ s _ (λ j st _ p. p)
        (stored-ExactParents (slot c s) r (slot-ExactParents c s x)) c.storages x

pub invalidate-AllExact : (c : MetaCache) (s dir : ℕ) → AllExact c → AllExact (invalidate c s dir)
unfolding invalidate
invalidate-AllExact c s dir x =
    insert-Every _ _ s _ (λ j st _ p. p)
      (remove-Every _ _ dir (λ j l _ p. p) (slot c s).listings (slot-ExactParents c s x)) c.storages
      x

pub clear_storage-AllExact : (c : MetaCache) (s : ℕ) → AllExact c → AllExact (clear_storage c s)
unfolding clear_storage
clear_storage-AllExact c s x = remove-Every _ _ s (λ j st _ p. p) c.storages x
