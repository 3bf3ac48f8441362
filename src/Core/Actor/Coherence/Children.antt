-- ===== src/Core/Actor/Coherence/Children.antt =====
-- `children_of` answers what the device would answer, cached or not, and keeps the cache true.
use mathlib.Core.Path.{subst}
use mathlib.Core.Option.{some-injective}
use pereprava.Prelude.{
  ℕ, ◌≡◌, refl, sym, ap, ◌∙◌, ◌⊎◌, inl, inr, Bool, true, false, Option, none, some, List, map,
  get_elem?, arith,
}
use pereprava.Core.Error.{ok}
use pereprava.Core.Model.{Entry}
use pereprava.Core.Cache.{MetaCache, Listing, store_listing}
use pereprava.Core.Cache.Each.{listing-Each, store_listing-Each, slot-Every}
use pereprava.Core.Cache.Parents.{Shows}
use pereprava.Core.Cache.Exact.{store_listing-AllExact}
use pereprava.Core.Actor.Device.{Device, Reply}
use pereprava.Core.Actor.State.{
  ActorState, StorageRec, entry_of, call, storage, open_storage, parent_arg, cached, remember,
  fetch_children, use_cache, children_of,
}
use pereprava.Core.Actor.Coherence.{IsLawful, dir_of, listed, TrueBut, IsCoherent}
use pereprava.Core.Actor.Coherence.Rules.{
  Ensures, Post, Ensures-pure, Ensures-bind, Ensures-call-Same, Ensures-storage,
  Ensures-open_storage, Same, IsStable, IsOpen, TrueBut-Same,
}

module _ {D : Device} (L : IsLawful D) where
  -- A listing that is true of the device can be stored.
  store_listing-TrueBut :
      (s : D.State) (c : MetaCache) (now sid dir : ℕ)
      → TrueBut L (λ _ _. ⊥) s c
      → TrueBut L (λ _ _. ⊥) s (store_listing now c sid dir (listed L s sid dir))
  store_listing-TrueBut s c now sid dir b = record {
    agrees = store_listing-Each _ now c sid dir _ b.agrees (inl refl);
    exact =
        store_listing-AllExact now dir (listed L s sid dir)
          (λ d l. (l.children ≡ listed L s sid d) ⊎ ⊥) apart c sid
          (slot-Every (λ j d l. (l.children ≡ listed L s j d) ⊎ ⊥) c sid b.agrees) b.exact;
  }
    where
      apart :
          (d : ℕ) (l : Listing)
          → (l.children ≡ listed L s sid d) ⊎ ⊥
          → (h : ℕ) → Shows h l.children
          → Shows h (listed L s sid dir)
          → d ≡ dir
      apart d l (inl e) h x y = L.one_parent s sid d dir h (subst (Shows h) e x) y
      apart d l (inr x) h y z = elim x [ ]

  -- What the cache serves is what the device would answer.
  pub cached-true :
      (σ : ActorState D) (sid dir : ℕ) (es : List Entry)
      → IsCoherent L σ
      → cached D sid dir σ ≡ some es
      → es ≡ listed L σ.device sid dir
  unfolding cached
  cached-true σ sid dir es b e =
      let (l, true_of, same, _) = listing-Each _ (D.now σ.device) σ.cache sid dir es b.agrees e in
      elim true_of [ inl q ↦ sym same ∙ q | inr x ↦ absurd x ]

  -- A coherent state with a fixed storage table, on a device of which `F` holds.
  abbrev pub Good : List StorageRec → (D.State → Type 0) → ActorState D → Type 0
  Good T F σ = (σ.storages ≡ T) × IsCoherent L σ × F σ.device

  -- `F` speaks of the tree alone.
  abbrev pub IsOfTree : (D.State → Type 0) → Type 0
  IsOfTree F = (s t : D.State) → Same L s t → F s → F t

  pub Good-stable :
      (T : List StorageRec) (F : D.State → Type 0) → IsOfTree F → IsStable L (Good T F)
  Good-stable T F tree σ d same g =
      (g.0, TrueBut-Same L _ σ.device d σ.cache same g.1, tree σ.device d same g.2)

  pub parent_arg-dir_of : (dir : ℕ) → dir_of D (parent_arg D dir) ≡ dir
  parent_arg-dir_of dir = ground arith

  -- The listing is the device's, of a storage of the table.
  abbrev pub Lists : List StorageRec → ℕ → ℕ → List Entry → ActorState D → Type 0
  Lists T idx dir es σ =
      (rec : StorageRec) × (get_elem? T idx ≡ some rec) × (es ≡ listed L σ.device rec.id dir)

  module _ (T : List StorageRec) (F : D.State → Type 0) (tree : IsOfTree F) where
    Ensures-remember :
        (sid dir : ℕ) (es : List Entry)
        → Ensures
            (λ σ. (es ≡ listed L σ.device sid dir) × Good T F σ)
            (λ _ σ. (es ≡ listed L σ.device sid dir) × Good T F σ)
            (Good T F)
            (remember D sid dir es)
    unfolding remember
    Ensures-remember sid dir es = record {
      at = λ σ h. (
        h.0,
        (
          h.1.0,
          subst
              (λ x.
                TrueBut L (λ _ _. ⊥) σ.device (store_listing (D.now σ.device) σ.cache sid dir x))
              (sym h.0) (store_listing-TrueBut σ.device σ.cache (D.now σ.device) sid dir h.1.1),
          h.1.2,
        ),
      );
    }

    Same-after :
        {A : Type 0} (op : D.State → Reply A × D.State)
        → ((s : D.State) → Same L s (op s).1)
        → (s t : D.State) (r : Reply A) → op s ≡ (r, t)
        → Same L s t
    Same-after {A} op same s t r e =
        subst (Same L s) (ap (λ (x : Reply A × D.State). x.1) e) (same s)

    Ensures-list_objects :
        (g : D.Storage) (sid dir : ℕ)
        → L.sid_of g ≡ sid
        → Ensures
            (Good T F)
            (λ objs σ. (map entry_of objs ≡ listed L σ.device sid dir) × Good T F σ)
            (Good T F)
            (call D (D.list_objects g (parent_arg D dir)))
    Ensures-list_objects g sid dir opened =
        Ensures-call-Same L (Good T F) (λ objs σ. map entry_of objs ≡ listed L σ.device sid dir)
          (D.list_objects g (parent_arg D dir)) (Good-stable T F tree)
          (L.list_objects-same g (parent_arg D dir))
          λ σ objs d good e.
            ap (map entry_of) (L.list_objects-done g (parent_arg D dir) σ.device d objs e)
            ∙ (ap (λ k. listed L σ.device (L.sid_of g) k) (parent_arg-dir_of dir)
                ∙ (ap (λ k. listed L σ.device k dir) opened
                    ∙ sym (
                        ap (map entry_of) (
                          Same-after (D.list_objects g (parent_arg D dir))
                            (L.list_objects-same g (parent_arg D dir)) σ.device d _ e sid dir))))

    Ensures-fetch_children :
        (idx dir : ℕ) (rec : StorageRec)
        → get_elem? T idx ≡ some rec
        → Ensures
            (Good T F)
            (λ es σ. Lists T idx dir es σ × Good T F σ)
            (Good T F)
            (fetch_children D idx rec.id dir)
    unfolding fetch_children
    Ensures-fetch_children idx dir rec found =
        Ensures-bind _ _ _ _ (open_storage D idx) _
          (Ensures-open_storage L T (Good T F) idx (λ σ g. g.0) (Good-stable T F tree))
          λ g. record {
            at = λ σ h.
                (Ensures-bind _ _ _ (λ es s. Lists T idx dir es s × Good T F s)
                    (call D (D.list_objects g (parent_arg D dir))) _
                    (Ensures-list_objects g rec.id dir (opened h.0))
                    λ objs.
                      Ensures-bind _ _ _ _ (remember D rec.id dir (map entry_of objs)) _
                        (Ensures-remember rec.id dir (map entry_of objs))
                        λ _.
                          Ensures-pure _ _ _ (map entry_of objs)
                            (λ s k. ((rec, found, k.0), k.1))).at
                  σ h.1;
          }
      where
        opened : {g : D.Storage} → IsOpen L T idx g → L.sid_of g ≡ rec.id
        opened (r, got, same) =
            same ∙ ap (λ (x : StorageRec). x.id) (some-injective r rec (sym got ∙ found))

    Ensures-use_cache :
        (refresh : Bool) (idx dir : ℕ) (rec : StorageRec)
        → get_elem? T idx ≡ some rec
        → (σ : ActorState D) → Good T F σ
        → (hit : Option (List Entry)) → cached D rec.id dir σ ≡ hit
        → Post
            (λ es s. Lists T idx dir es s × Good T F s)
            (Good T F)
            (use_cache D refresh hit (fetch_children D idx rec.id dir) σ)
    unfolding use_cache
    Ensures-use_cache true idx dir rec found σ good hit e =
        (Ensures-fetch_children idx dir rec found).at σ good
    Ensures-use_cache false idx dir rec found σ good none e =
        (Ensures-fetch_children idx dir rec found).at σ good
    Ensures-use_cache false idx dir rec found σ good (some es) e =
        ((rec, found, cached-true σ rec.id dir es good.1 e), good)

    pub Ensures-children_of :
        (idx dir : ℕ) (refresh : Bool)
        → Ensures
            (Good T F)
            (λ es σ. Lists T idx dir es σ × Good T F σ)
            (Good T F)
            (children_of D idx dir refresh)
    unfolding children_of
    Ensures-children_of idx dir refresh =
        Ensures-bind _ _ _ _ (storage D idx) _ (Ensures-storage L T (Good T F) idx (λ σ g. g.0))
          λ rec. record { at = λ σ h. Ensures-use_cache refresh idx dir rec h.0 σ h.1 _ refl }

-- From a coherent state, a directory listing is the device's own, whether it came from the cache or
-- not and whatever the age of the cache, and the state that it leaves is coherent.
pub children_of-listed :
    {D : Device} (L : IsLawful D) (idx dir : ℕ) (refresh : Bool) (σ σ' : ActorState D)
    (es : List Entry)
    → IsCoherent L σ
    → children_of D idx dir refresh σ ≡ (ok es, σ')
    → (rec : StorageRec) × (get_elem? σ.storages idx ≡ some rec)
      × (es ≡ listed L σ'.device rec.id dir)
      × IsCoherent L σ'
children_of-listed L idx dir refresh σ σ' es b e =
    let done_well = subst (Post _ _) e (
      (Ensures-children_of L σ.storages (λ _. Unit {0}) (λ _ _ _ _. tt) idx dir refresh).at σ
        (refl, b, tt)) in
    let ((rec, found, same), good) = done_well in (rec, found, same, good.1)
