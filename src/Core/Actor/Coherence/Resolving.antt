-- ===== src/Core/Actor/Coherence/Resolving.antt =====
-- `resolve` against the device's own directories.
use mathlib.Core.Path.{subst}
use pereprava.Prelude.{ℕ, ◌≡◌, refl, sym, ap, ◌∙◌, Bool, some, List, [], ◌∷◌, get_elem?}
use pereprava.Prelude.Text.{Text}
use pereprava.Core.Error.{ok, invalid_argument}
use pereprava.Core.Names.{Unicode}
use pereprava.Core.Path.{DevPath, parse, is_root}
use pereprava.Core.Actor.Device.{Device}
use pereprava.Core.Actor.Monad.{lift}
use pereprava.Core.Actor.State.{
  ActorState, StorageRec, find_storage_index, storage, open_storage, call,
}
use pereprava.Core.Actor.State.Storages.{find_storage_index-get_elem}
use pereprava.Core.Actor.Lookup.{
  Resolved, storage_index, walk, object_entry, resolve_below, resolve,
}
use pereprava.Core.Actor.Coherence.{IsLawful, listed, IsCoherent}
use pereprava.Core.Actor.Coherence.Rules.{
  Post, Ensures, Ensures-pure, Ensures-fail, Ensures-lift, Ensures-if, Ensures-bind, Ensures-mono,
  Ensures-storage, Ensures-open_storage, Ensures-call-Same,
}
use pereprava.Core.Actor.Coherence.Children.{Good, Good-stable}
use pereprava.Core.Actor.Coherence.Walks.{descend, TreeOf, TreeOf-tree, Ensures-walk}

module _ {D : Device} (L : IsLawful D) (u : Unicode) (T : List StorageRec) (s₀ : D.State) where
  abbrev Held : ActorState D → Type 0
  Held = Good L T (TreeOf L u s₀)

  -- What was found is where the names lead.
  abbrev LeadsTo : ℕ → List Text → Resolved → Type 0
  LeadsTo idx segs r =
      (rec : StorageRec) × (r.storage_index ≡ idx)
      × (get_elem? T idx ≡ some rec)
      × (descend u (listed L s₀ rec.id) D.root segs ≡ some r.handle)

  abbrev Found : Text → Resolved → Type 0
  Found raw r =
      (p : DevPath) × (parse raw ≡ ok p)
      × (find_storage_index u T p.storage_ref ≡ ok r.storage_index)
      × LeadsTo r.storage_index p.segments r

  Ensures-storage_index :
      (reference : Text)
      → Ensures Held
          (λ i σ. (find_storage_index u T reference ≡ ok i) × Held σ)
          Held
          (storage_index u D reference)
  unfolding storage_index
  Ensures-storage_index reference = record {
    at = λ σ h.
        subst
          (λ t.
            Post (λ i σ. (find_storage_index u T reference ≡ ok i) × Held σ) Held
              (find_storage_index u t reference, σ))
          (sym h.0) ((Ensures-lift Held Held (find_storage_index u T reference) (λ _ q. q)).at σ h);
  }

  Ensures-object_entry : (idx h : ℕ) → Ensures Held (λ _ σ. Held σ) Held (object_entry u D idx h)
  unfolding object_entry
  Ensures-object_entry idx h =
      Ensures-bind _ _ _ _ (open_storage D idx) _
        (Ensures-open_storage L T Held idx (λ σ g. g.0) (Good-stable L T _ (TreeOf-tree L u s₀)))
        λ st.
          Ensures-bind _ _ _ _ (call D (D.get_object_info st h)) _
            (Ensures-mono Held (λ _ σ. Unit {0} × Held σ) Held _ _ _
              (call D (D.get_object_info st h))
              (Ensures-call-Same L Held (λ _ _. Unit {0}) (D.get_object_info st h)
                (Good-stable L T _ (TreeOf-tree L u s₀)) (L.get_object_info-same st h)
                (λ _ _ _ _ _. tt))
              (λ σ q. q.1) (λ _ σ q. q.1) (λ σ q. q))
            λ oi. Ensures-pure _ _ _ _ (λ σ q. q)

  Ensures-resolve_below :
      (idx : ℕ) (rec : StorageRec) (refresh : Bool) (segs : List Text)
      → get_elem? T idx ≡ some rec
      → Ensures Held (λ r σ. LeadsTo idx segs r × Held σ) Held (resolve_below u D idx refresh segs)
  unfolding resolve_below
  Ensures-resolve_below idx rec refresh [] found =
      Ensures-bind _ _ _ _ (storage D idx) _ (Ensures-storage L T Held idx (λ σ g. g.0))
        λ r. Ensures-pure _ _ _ _ (λ σ q. ((rec, refl, found, refl), q.1))
  Ensures-resolve_below idx rec refresh (seg ∷ segs) found =
      Ensures-bind _ _ _ _ (walk u D idx refresh D.root (seg ∷ segs)) _
        (Ensures-walk L u T s₀ idx refresh rec found D.root (seg ∷ segs))
        λ cur. record {
          at = λ σ h.
              (Ensures-bind Held Held (λ _ s. Held s) (λ r s. LeadsTo idx (seg ∷ segs) r × Held s)
                  (object_entry u D idx cur) _ (Ensures-object_entry idx cur)
                  (λ entry. Ensures-pure _ _ _ _ (λ s q. ((rec, refl, found, h.0), q)))).at
                σ h.1;
        }

  Ensures-resolve :
      (raw : Text) (refresh : Bool)
      → Ensures Held (λ r σ. Found raw r × Held σ) Held (resolve u D raw refresh)
  unfolding resolve
  Ensures-resolve raw refresh =
      Ensures-bind _ _ _ _ (lift (parse raw)) _ (Ensures-lift Held Held (parse raw) (λ _ q. q)) λ p.
        Ensures-if _ _ _ (is_root p) _ _ (λ _. Ensures-fail _ _ _ invalid_argument (λ σ q. q.1))
          λ _. record {
            at = λ σ h.
                (Ensures-bind Held Held
                    (λ i s. (find_storage_index u T p.storage_ref ≡ ok i) × Held s)
                    (λ r s. Found raw r × Held s) (storage_index u D p.storage_ref) _
                    (Ensures-storage_index p.storage_ref) (λ idx. below p idx h.0)).at
                  σ h.1;
          }
    where
      below :
          (p : DevPath) (idx : ℕ)
          → parse raw ≡ ok p
          → Ensures
              (λ s. (find_storage_index u T p.storage_ref ≡ ok idx) × Held s)
              (λ r s. Found raw r × Held s)
              Held
              (resolve_below u D idx refresh p.segments)
      below p idx parsed = record {
        at = λ σ h.
            let (rec, found, _) = find_storage_index-get_elem u T p.storage_ref idx h.0 in
            (Ensures-mono Held (λ r s. LeadsTo idx p.segments r × Held s) Held Held
                (λ r s. Found raw r × Held s) Held (resolve_below u D idx refresh p.segments)
                (Ensures-resolve_below idx rec refresh p.segments found) (λ _ q. q)
                (λ r s q. (
                  (
                    p,
                    parsed,
                    h.0 ∙ ap ok (sym q.0.1),
                    (q.0.0, refl, subst (λ i. get_elem? T i ≡ some q.0.0) (sym q.0.1) q.0.2, q.0.3),
                  ),
                  q.1,
                ))
                (λ _ q. q)).at
              σ h.1;
      }

-- From a coherent state, an object that is found by path is the one that the names of the path lead
-- to in the device's own directories, on the storage that the path names. A path to a storage alone
-- leads to its root. The state stays coherent.
pub resolve-descend :
    {D : Device} (L : IsLawful D) (u : Unicode) (raw : Text) (refresh : Bool) (σ σ' : ActorState D)
    (r : Resolved)
    → IsCoherent L σ
    → resolve u D raw refresh σ ≡ (ok r, σ')
    → (p : DevPath) × (rec : StorageRec) × (parse raw ≡ ok p)
      × (find_storage_index u σ.storages p.storage_ref ≡ ok r.storage_index)
      × (get_elem? σ.storages r.storage_index ≡ some rec)
      × (descend u (listed L σ.device rec.id) D.root p.segments ≡ some r.handle)
      × IsCoherent L σ'
resolve-descend L u raw refresh σ σ' r b e =
    let ((p, parsed, named, (rec, _, found, leads)), good) =
      subst (Post _ _) e
        ((Ensures-resolve L u σ.storages σ.device raw refresh).at σ (refl, b, λ j d. refl)) in
    (p, rec, parsed, named, found, leads, good.1)
