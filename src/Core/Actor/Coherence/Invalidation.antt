-- ===== src/Core/Actor/Coherence/Invalidation.antt =====
-- A change of the tree, followed by dropping the listings that it concerns, leaves the cache true.
use mathlib.Core.Path.{subst}
use mathlib.Core.Option.{some-injective}
use pereprava.Prelude.{
  ℕ, ◌≡◌, ◌≢◌, refl, sym, ap, ◌∙◌, ◌⊎◌, inl, inr, some, List, [], ◌∷◌, map, arith, All,
  Option-cases,
}
use pereprava.Prelude.Maps.{get, map-Every, remove-Every, insert-Every}
use pereprava.Core.Model.{Entry}
use pereprava.Core.Cache.{MetaCache, Listing, slot, parent_of, invalidate, invalidate_handle}
use pereprava.Core.Cache.Each.{Each, slot-Every, invalidate-Each, clear_storage-Each}
use pereprava.Core.Cache.Parents.{Shows}
use pereprava.Core.Cache.Exact.{
  Every-both, slot-ExactParents, invalidate-AllExact, clear_storage-AllExact,
}
use pereprava.Core.Actor.Device.{Device}
use pereprava.Core.Actor.Coherence.{IsLawful, listed, TrueBut}

-- The directory under which the object of a listing is recorded is that of the listing.
All-record :
    (m : _) (d h : ℕ) (es : List Entry)
    → All (λ e. get {V = ℕ} e.handle m ≡ some d) es
    → Shows h es
    → get h m ≡ some d
All-record m d h [] a s = elim s [ ]
All-record m d h (e ∷ es) a (inl same) = subst (λ k. get k m ≡ some d) same a.0
All-record m d h (e ∷ es) a (inr later) = All-record m d h es a.1 later

parent_of-slot : (c : MetaCache) (s h : ℕ) → parent_of c s h ≡ get h (slot c s).parents
unfolding parent_of slot get
parent_of-slot c s h = ground arith

module _ {D : Device} (L : IsLawful D) where
  -- The tree changed at most where `Y` says.
  abbrev pub ChangesIn : (ℕ → ℕ → Type 0) → D.State → D.State → Type 0
  ChangesIn Y s t = (j d : ℕ) → Y j d ⊎ (L.contents t j d ≡ L.contents s j d)

  abbrev pub IsTrue : D.State → MetaCache → Type 0
  IsTrue = TrueBut L (λ _ _. ⊥)

  still_true :
      (s t : D.State) (j d : ℕ) (l : Listing)
      → L.contents t j d ≡ L.contents s j d
      → (l.children ≡ listed L s j d) ⊎ ⊥
      → (l.children ≡ listed L t j d) ⊎ ⊥
  still_true s t j d l e (inl h) = inl (h ∙ sym (ap (map _) e))
  still_true s t j d l e (inr x) = absurd x

  -- One directory changed, and its listing is dropped.
  pub invalidate-IsTrue :
      (s t : D.State) (c : MetaCache) (sid p : ℕ)
      → ChangesIn (λ j d. (j ≡ sid) × (d ≡ p)) s t
      → IsTrue s c
      → IsTrue t (invalidate c sid p)
  invalidate-IsTrue s t c sid p changes b = record {
    agrees =
        invalidate-Each _ _ sid p
          (λ j d l other h. elim (changes j d) [
            | inl (same, _) ↦ absurd (other same)
            | inr e ↦ still_true s t j d l e h
          ])
          (λ d l other h. elim (changes sid d) [
            | inl (_, same) ↦ absurd (other same)
            | inr e ↦ still_true s t sid d l e h
          ])
          c b.agrees;
    exact = invalidate-AllExact c sid p b.exact;
  }

  -- Two directories changed, and both listings are dropped.
  pub invalidate_both-IsTrue :
      (s t : D.State) (c : MetaCache) (sid p q : ℕ)
      → ChangesIn (λ j d. (j ≡ sid) × ((d ≡ p) ⊎ (d ≡ q))) s t
      → IsTrue s c
      → IsTrue t (invalidate (invalidate c sid p) sid q)
  invalidate_both-IsTrue s t c sid p q changes b = record {
    agrees =
        invalidate-Each (λ j d l. ((l.children ≡ listed L t j d) ⊎ ⊥) ⊎ ((j ≡ sid) × (d ≡ q))) _ sid
          q (λ j d l other h. elim h [ inl g ↦ g | inr (same, _) ↦ absurd (other same) ])
          (λ d l other h. elim h [ inl g ↦ g | inr (_, same) ↦ absurd (other same) ])
          (invalidate c sid p)
          (invalidate-Each _ _ sid p
            (λ j d l other h. elim (changes j d) [
              | inl (same, _) ↦ absurd (other same)
              | inr e ↦ inl (still_true s t j d l e h)
            ])
            (λ d l other h. elim (changes sid d) [
              | inl (_, inl same) ↦ absurd (other same)
              | inl (_, inr same) ↦ inr (refl, same)
              | inr e ↦ inl (still_true s t sid d l e h)
            ])
            c b.agrees);
    exact = invalidate-AllExact _ sid q (invalidate-AllExact c sid p b.exact);
  }

  -- The directory of one object changed, and `invalidate_handle` is told the object.
  pub invalidate_handle-IsTrue :
      (s t : D.State) (c : MetaCache) (sid h : ℕ)
      → ChangesIn (λ j d. (j ≡ sid) × Shows h (listed L s sid d)) s t
      → IsTrue s c
      → IsTrue t (invalidate_handle c sid h)
  invalidate_handle-IsTrue s t c sid h changes b = elim (Option-cases (parent_of c sid h)) [
    | inl e ↦
        unfold invalidate_handle in
        rw (e, invalidate_handle)
          (record {
            agrees =
                clear_storage-Each _ _ sid
                  (λ j d l other g. elim (changes j d) [
                    | inl (same, _) ↦ absurd (other same)
                    | inr k ↦ still_true s t j d l k g
                  ])
                  c b.agrees;
            exact = clear_storage-AllExact c sid b.exact;
          })
    | inr (p, e) ↦
        unfold invalidate_handle in
        rw (e, invalidate_handle)
          (record { agrees = known p e; exact = invalidate-AllExact c sid p b.exact })
  ]
    where
      elsewhere :
          (p : ℕ)
          → parent_of c sid h ≡ some p
          → (d : ℕ) (l : Listing) → d ≢ p
          → ((l.children ≡ listed L s sid d) ⊎ ⊥)
            × All (λ x. get x.handle (slot c sid).parents ≡ some d) l.children
          → (l.children ≡ listed L t sid d) ⊎ ⊥
      elsewhere p e d l other (inr x, g) = absurd x
      elsewhere p e d l other (inl q, g) = elim (changes sid d) [
        | inr k ↦ still_true s t sid d l k (inl q)
        | inl (_, shown) ↦ absurd (
            other (
              some-injective d p (
                sym
                  (All-record (slot c sid).parents d h l.children g (subst (Shows h) (sym q) shown))
                ∙ (sym (parent_of-slot c sid h) ∙ e))))
      ]

      known :
          (p : ℕ)
          → parent_of c sid h ≡ some p
          → Each (λ j d l. (l.children ≡ listed L t j d) ⊎ ⊥) (invalidate c sid p)
      known p e =
          unfold invalidate in
          insert-Every _ _ sid _
            (λ j st other.
              map-Every _ _
                (λ d l g. elim (changes j d) [
                  | inl (same, _) ↦ absurd (other same)
                  | inr k ↦ still_true s t j d l k g
                ])
                st.listings)
            (remove-Every _ _ p (elsewhere p e) (slot c sid).listings (
              Every-both _ _ (slot c sid).listings
                (slot-Every (λ j d l. (l.children ≡ listed L s j d) ⊎ ⊥) c sid b.agrees)
                (slot-ExactParents c sid b.exact)))
            c.storages b.agrees
