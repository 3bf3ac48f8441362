-- ===== src/Core/Actor/Coherence/Mutations.antt =====
-- The handlers that work by handle keep the cache true, whether they succeed or fail.
use mathlib.Core.Path.{subst}
use mathlib.Core.Option.{some-injective}
use pereprava.Prelude.{ℕ, ◌≡◌, refl, sym, ap, ◌∙◌, some, List, get_elem?}
use pereprava.Prelude.Text.{Text}
use pereprava.Core.Error.{Error, MtpError, Result, ok, err}
use pereprava.Core.Names.{Unicode}
use pereprava.Core.Cache.{invalidate, invalidate_handle}
use pereprava.Core.Cache.Parents.{Shows}
use pereprava.Core.Actor.Device.{Device, Reply, failed}
use pereprava.Core.Actor.Monad.{Act, ok_or, ◌>>=◌}
use pereprava.Core.Actor.State.{
  ActorState, StorageRec, Handler, call, storage, open_storage, parent_arg, change_cache,
}
use pereprava.Core.Actor.Tree.{forget, delete_object, hdelete, hmkdir}
use pereprava.Core.Actor.Lookup.{dir_entry}
use pereprava.Core.Actor.Coherence.{IsLawful, listed, IsCoherent}
use pereprava.Core.Actor.Coherence.Rules.{
  Ensures, Post, Ensures-pure, Ensures-bind, Ensures-mono, Ensures-call, Ensures-open_storage,
  Ensures-storage, Same, IsOpen, TrueBut-Same,
}
use pereprava.Core.Actor.Coherence.Children.{Good, Good-stable, IsOfTree, parent_arg-dir_of}
use pereprava.Core.Actor.Coherence.Invalidation.{
  ChangesIn, IsTrue, invalidate-IsTrue, invalidate_handle-IsTrue,
}

module _ {D : Device} (L : IsLawful D) (u : Unicode) where
  -- A coherent state with the storage table `T`.
  abbrev pub Fine : List StorageRec → ActorState D → Type 0
  Fine T σ = (σ.storages ≡ T) × IsCoherent L σ

  -- After a call that changed the tree, before the cache is told: the state `s` of which the cache
  -- is still true, and how the tree changed.
  abbrev pub Changed :
      List StorageRec → (D.State → ℕ → ℕ → Type 0) → (D.State → Type 0) → ActorState D → Type 0
  Changed T Y F σ =
      (s : D.State) × (σ.storages ≡ T) × IsTrue L s σ.cache × ChangesIn L (Y s) s σ.device × F s

  pub Ensures-mutate :
      {A : Type 0} (T : List StorageRec) (F : D.State → Type 0) (Y : D.State → ℕ → ℕ → Type 0)
      (op : D.State → Reply A × D.State)
      → ((s : D.State) → ChangesIn L (Y s) s (op s).1)
      → ((s t : D.State) (e : MtpError) → op s ≡ (failed e, t) → Same L s t)
      → Ensures (Good L T F) (λ _. Changed T Y F) (Fine T) (call D op)
  Ensures-mutate {A} T F Y op changes fails =
      Ensures-call L (Good L T F) (Fine T) _ op
        (λ σ a d g e. (
          σ.device,
          g.0,
          g.1,
          subst (ChangesIn L (Y σ.device) σ.device) (ap (λ (x : Reply A × D.State). x.1) e)
              (changes σ.device),
          g.2,
        ))
        (λ σ x d g e. (g.0, TrueBut-Same L _ σ.device d σ.cache (fails σ.device d x e) g.1))

  same_storage :
      (T : List StorageRec) (idx : ℕ) (a b : StorageRec)
      → get_elem? T idx ≡ some a
      → get_elem? T idx ≡ some b
      → a.id ≡ b.id
  same_storage T idx a b x y = ap (λ (r : StorageRec). r.id) (some-injective a b (sym x ∙ y))

  -- `forget` after a change of the one directory.
  pub Ensures-forget :
      (T : List StorageRec) (F : D.State → Type 0) (idx dir : ℕ) (rec : StorageRec)
      → get_elem? T idx ≡ some rec
      → Ensures
          (Changed T (λ _ j d. (j ≡ rec.id) × (d ≡ dir)) F)
          (λ _. Fine T)
          (Fine T)
          (forget u D idx dir)
  unfolding forget change_cache storage
  Ensures-forget T F idx dir rec found = record {
    at = λ σ h.
        let (s, table, true_of, changes, f) = h in
        subst
          (λ t.
            Post (λ (_ : Unit {0}). Fine T) (Fine T)
              ((ok_or (get_elem? t idx) Error.invalid_argument >>= λ r.
                  change_cache D (λ c. invalidate c r.id dir))
                σ))
          (sym table)
          (subst
            (λ o.
              Post (λ (_ : Unit {0}). Fine T) (Fine T)
                ((ok_or o Error.invalid_argument >>= λ r.
                    change_cache D (λ c. invalidate c r.id dir))
                  σ))
            (sym found) (table, invalidate-IsTrue L s σ.device σ.cache rec.id dir changes true_of));
  }

  hdelete_cache : ℕ → ℕ → Handler D (Unit {0})
  hdelete_cache idx h = do rec ← storage D idx; change_cache D (λ c. invalidate_handle c rec.id h)

  Ensures-hdelete_cache :
      (T : List StorageRec) (idx h : ℕ) (rec : StorageRec)
      → get_elem? T idx ≡ some rec
      → Ensures
          (Changed T (λ s j d. (j ≡ rec.id) × Shows h (listed L s rec.id d)) (λ _. Unit {0}))
          (λ _. Fine T)
          (Fine T)
          (hdelete_cache idx h)
  unfolding hdelete_cache change_cache storage
  Ensures-hdelete_cache T idx h rec found = record {
    at = λ σ k.
        let (s, table, true_of, changes, f) = k in
        subst
          (λ t.
            Post (λ (_ : Unit {0}). Fine T) (Fine T)
              ((ok_or (get_elem? t idx) Error.invalid_argument >>= λ r.
                  change_cache D (λ c. invalidate_handle c r.id h))
                σ))
          (sym table)
          (subst
            (λ o.
              Post (λ (_ : Unit {0}). Fine T) (Fine T)
                ((ok_or o Error.invalid_argument >>= λ r.
                    change_cache D (λ c. invalidate_handle c r.id h))
                  σ))
            (sym found)
            (table, invalidate_handle-IsTrue L s σ.device σ.cache rec.id h changes true_of));
  }

  abbrev pub NothingMore : D.State → Type 0
  NothingMore _ = Unit {0}

  pub NothingMore-tree : IsOfTree L NothingMore
  NothingMore-tree s t same f = tt

  -- A fact that the precondition carries, and that does not speak of the state.
  pub Ensures-given :
      {S A : Type 0} (X : Type 0) (P : S → Type 0) (Q : A → S → Type 0) (E : S → Type 0)
      (m : Act S A)
      → (X → Ensures P Q E m)
      → Ensures (λ s. X × P s) Q E m
  Ensures-given X P Q E m f = record { at = λ s h. (f h.0).at s h.1 }

  -- A storage is opened, and the rest knows which.
  pub Ensures-open_then :
      {B : Type 0} (T : List StorageRec) (F : D.State → Type 0)
      → IsOfTree L F
      → (R : B → ActorState D → Type 0) (idx : ℕ) (f : D.Storage → Handler D B)
      → ((g : D.Storage) → IsOpen L T idx g → Ensures (Good L T F) R (Fine T) (f g))
      → Ensures (Good L T F) R (Fine T) (open_storage D idx >>= f)
  Ensures-open_then T F tree R idx f k =
      Ensures-bind (Good L T F) (Fine T) (λ g σ. IsOpen L T idx g × Good L T F σ) R
        (open_storage D idx) f
        (Ensures-mono (Good L T F) (λ g σ. IsOpen L T idx g × Good L T F σ) (Good L T F) _ _
          (Fine T) (open_storage D idx)
          (Ensures-open_storage L T (Good L T F) idx (λ σ g. g.0) (Good-stable L T F tree))
          (λ s g. g) (λ g s q. q) (λ s g. (g.0, g.1)))
        (λ g. Ensures-given _ _ _ _ (f g) (k g))

  -- A storage is looked up and opened, and the rest knows that they are one.
  pub Ensures-record_then :
      {B : Type 0} (T : List StorageRec) (F : D.State → Type 0)
      → IsOfTree L F
      → (R : B → ActorState D → Type 0) (idx : ℕ) (rec : StorageRec) → get_elem? T idx ≡ some rec
      → (f : StorageRec → D.Storage → Handler D B)
      → ((g : D.Storage) → L.sid_of g ≡ rec.id → Ensures (Good L T F) R (Fine T) (f rec g))
      → Ensures (Good L T F) R (Fine T) (storage D idx >>= λ r. open_storage D idx >>= f r)
  Ensures-record_then T F tree R idx rec found f k =
      Ensures-bind _ _ _ _ (storage D idx) _
        (Ensures-mono _ _ _ _ _ _ (storage D idx)
          (Ensures-storage L T (Good L T F) idx (λ σ g. g.0)) (λ σ h. h) (λ r σ h. h)
          (λ σ h. (h.0, h.1)))
        λ r.
          Ensures-given (get_elem? T idx ≡ some r) (Good L T F) R (Fine T)
            (open_storage D idx >>= f r)
            λ got. Ensures-open_then T F tree R idx (f r) λ g (r', got', same).
              subst (λ x. Ensures (Good L T F) R (Fine T) (f x g))
                (some-injective rec r (sym found ∙ got))
                (k g
                  (same ∙ ap (λ (x : StorageRec). x.id) (some-injective r' rec (sym got' ∙ found))))

  -- The directory of the object changed, by the storage of the table.
  pub on_record :
      (idx h : ℕ) (T : List StorageRec) (g : D.Storage) (rec : StorageRec) (s t : D.State)
      → L.sid_of g ≡ rec.id
      → ChangesIn L (λ j d. (j ≡ L.sid_of g) × Shows h (listed L s (L.sid_of g) d)) s t
      → ChangesIn L (λ j d. (j ≡ rec.id) × Shows h (listed L s rec.id d)) s t
  on_record idx h T g rec s t e =
      subst (λ i. ChangesIn L (λ j d. (j ≡ i) × Shows h (listed L s i d)) s t) e

  pub Ensures-delete_object :
      (T : List StorageRec) (F : D.State → Type 0)
      → IsOfTree L F
      → (idx h : ℕ)
      → Ensures
          (Good L T F)
          (λ _ σ.
            (rec : StorageRec) × (get_elem? T idx ≡ some rec)
            × Changed T (λ s j d. (j ≡ rec.id) × Shows h (listed L s rec.id d)) F σ)
          (Fine T)
          (delete_object u D idx h)
  unfolding delete_object
  Ensures-delete_object T F tree idx h = Ensures-open_then T F tree _ idx _ λ g (rec, found, same).
      Ensures-mono _ _ _ _ _ _ (call D (D.delete g h))
        (Ensures-mutate T F (λ s j d. (j ≡ L.sid_of g) × Shows h (listed L s (L.sid_of g) d))
          (D.delete g h) (λ s. L.delete-changes g h s) (λ s t e. L.delete-failed g h s t))
        (λ σ k. k)
        (λ _ σ (s, table, true_of, changes, f).
          (rec, found, (s, table, true_of, on_record idx h T g rec s σ.device same changes, f)))
        (λ σ k. k)

  Ensures-hdelete :
      (T : List StorageRec) (idx h : ℕ)
      → Ensures (Good L T NothingMore) (λ _. Fine T) (Fine T) (hdelete u D idx h)
  unfolding hdelete hdelete_cache
  Ensures-hdelete T idx h =
      Ensures-bind _ _ _ _ (delete_object u D idx h) _
        (Ensures-delete_object T NothingMore NothingMore-tree idx h)
        λ _. record { at = λ σ (rec, found, k). (Ensures-hdelete_cache T idx h rec found).at σ k }

  pub Ensures-create_folder :
      (T : List StorageRec) (F : D.State → Type 0) (idx dir : ℕ) (name : Text) (g : D.Storage)
      (rec : StorageRec)
      → L.sid_of g ≡ rec.id
      → Ensures
          (Good L T F)
          (λ _. Changed T (λ _ j d. (j ≡ rec.id) × (d ≡ dir)) F)
          (Fine T)
          (call D (D.create_folder g (parent_arg D dir) name))
  Ensures-create_folder T F idx dir name g rec same =
      Ensures-mutate T F (λ _ j d. (j ≡ rec.id) × (d ≡ dir))
        (D.create_folder g (parent_arg D dir) name)
        (λ s.
          subst
            (λ i.
              ChangesIn L (λ j d. (j ≡ i) × (d ≡ dir)) s
                (D.create_folder g (parent_arg D dir) name s).1)
            same
            (subst
              (λ k.
                ChangesIn L (λ j d. (j ≡ L.sid_of g) × (d ≡ k)) s
                  (D.create_folder g (parent_arg D dir) name s).1)
              (parent_arg-dir_of L dir) (L.create_folder-changes g (parent_arg D dir) name s)))
        (λ s t e. L.create_folder-failed g (parent_arg D dir) name s t)

  Ensures-hmkdir :
      (T : List StorageRec) (idx dir : ℕ) (name : Text)
      → Ensures (Good L T NothingMore) (λ _. Fine T) (Fine T) (hmkdir u D idx dir name)
  unfolding hmkdir
  Ensures-hmkdir T idx dir name =
      Ensures-open_then T NothingMore NothingMore-tree _ idx _ λ g (rec, found, same).
        Ensures-bind _ _ _ _ (call D (D.create_folder g (parent_arg D dir) name)) _
          (Ensures-create_folder T NothingMore idx dir name g rec same)
          λ h.
            Ensures-bind _ _ _ _ (forget u D idx dir) _
              (Ensures-forget T NothingMore idx dir rec found)
              λ _. Ensures-pure _ _ _ (dir_entry h dir name) (λ σ k. k)

  pub IsCoherent-after :
      {A : Type 0} (T : List StorageRec) (r : Result A × ActorState D)
      → Post (λ _. Fine T) (Fine T) r
      → IsCoherent L r.1
  IsCoherent-after T (ok a, σ) h = h.1
  IsCoherent-after T (err e, σ) h = h.1

  -- Deleting an object by its handle, as the NFS adapter does with no directory in hand, leaves every
  -- cached listing true of the device, whether the deletion succeeds or fails.
  pub hdelete-IsCoherent :
      (idx h : ℕ) (σ : ActorState D) → IsCoherent L σ → IsCoherent L (hdelete u D idx h σ).1
  hdelete-IsCoherent idx h σ b =
      IsCoherent-after σ.storages (hdelete u D idx h σ)
        ((Ensures-hdelete σ.storages idx h).at σ (refl, b, tt))

  -- Making a directory by the handle of its parent leaves every cached listing true of the device,
  -- whether the call succeeds or fails.
  pub hmkdir-IsCoherent :
      (idx dir : ℕ) (name : Text) (σ : ActorState D)
      → IsCoherent L σ
      → IsCoherent L (hmkdir u D idx dir name σ).1
  hmkdir-IsCoherent idx dir name σ b =
      IsCoherent-after σ.storages (hmkdir u D idx dir name σ)
        ((Ensures-hmkdir σ.storages idx dir name).at σ (refl, b, tt))
