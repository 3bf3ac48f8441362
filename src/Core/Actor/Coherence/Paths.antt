-- ===== src/Core/Actor/Coherence/Paths.antt =====
-- The handlers that change the tree by path keep the cache true, whether they succeed or fail.
use mathlib.Core.Path.{subst}
use mathlib.Core.Option.{some-injective}
use pereprava.Prelude.{
  ℕ, ◌≡◌, inl, inr, Bool, false, Option, none, some, List, [], ◌∷◌, get_elem?, if◌then◌else◌, ap,
  ◌∙◌, sym, refl, ◌||◌,
}
use pereprava.Prelude.Text.{Text}
use pereprava.Core.Error.{Error, invalid_argument, wrong_kind}
use pereprava.Core.Names.{Unicode}
use pereprava.Core.Model.{Entry}
use pereprava.Core.Path.{DevPath, parse, is_root}
use pereprava.Core.Cache.Parents.{Shows}
use pereprava.Core.Actor.Device.{Device}
use pereprava.Core.Actor.Monad.{pure, fail, lift, ◌>>=◌, ◌>>◌}
use pereprava.Core.Actor.State.{
  ActorState, StorageRec, Handler, call, children_of, child_by_name, parent_arg,
}
use pereprava.Core.Actor.Lookup.{storage_index, find_target, has_no_segments, walk_to_parent}
use pereprava.Core.Actor.Tree.{
  forget, create_rest, make_dirs, mkdir_all, delete_object, remove_target, remove,
}
use pereprava.Core.Actor.Coherence.{IsLawful, listed}
use pereprava.Core.Actor.Coherence.Rules.{
  Ensures, Ensures-pure, Ensures-fail, Ensures-if, Ensures-bind, Ensures-mono,
}
use pereprava.Core.Actor.Coherence.Children.{Good}
use pereprava.Core.Actor.Coherence.Invalidation.{ChangesIn}
use pereprava.Core.Actor.Coherence.Mutations.{
  Fine, Changed, Ensures-forget, NothingMore, NothingMore-tree, Ensures-open_then,
  Ensures-create_folder, Ensures-delete_object,
}
use pereprava.Core.Actor.Coherence.Renaming.{InDir, InDir-tree}
use pereprava.Core.Actor.Coherence.Lookups.{
  Stays, Stays-lift, Stays-storage_index, Stays-children_of, Ensures-find_target,
  Stays-walk_to_parent,
}

module _ {D : Device} (L : IsLawful D) (u : Unicode) (T : List StorageRec) where
  abbrev pub Start : ActorState D → Type 0
  Start = Good L T (NothingMore L u)

  abbrev pub End : ActorState D → Type 0
  End = Fine L u T

  -- From a coherent state to a coherent one, whether the handler succeeds or fails.
  abbrev pub Ends : {A : Type 0} → Handler D A → Type 0
  Ends m = Ensures Start (λ _. End) End m

  -- What a handler that only looks can be followed by.
  pub look_then :
      {A B : Type 0} (R : B → ActorState D → Type 0) (m : Handler D A) (f : A → Handler D B)
      → Stays L u T (NothingMore L u) (NothingMore-tree L u) m
      → ((a : A) → Ensures Start R End (f a))
      → Ensures Start R End (m >>= f)
  look_then R m f stays k =
      Ensures-bind _ _ _ R m f
        (Ensures-mono _ _ _ _ _ _ m stays (λ σ h. h) (λ a σ h. h) (λ σ h. (h.0, h.1))) k

  pub Ends-fail : {A : Type 0} (e : Error) → Ends (fail {A = A} e)
  Ends-fail e = Ensures-fail _ _ _ e (λ σ h. (h.0, h.1))

  pub Ends-pure : {A : Type 0} (a : A) → Ends (pure a)
  Ends-pure a = Ensures-pure _ _ _ a (λ σ h. (h.0, h.1))

  pub Ends-if :
      {A : Type 0} (b : Bool) (m n : Handler D A) → Ends m → Ends n → Ends (if b then m else n)
  Ends-if b m n km kn = Ensures-if _ _ _ b m n (λ _. km) (λ _. kn)

  Ends-elim :
      {A B : Type 0} (o : Option A) (m : Handler D B) (f : A → Handler D B)
      → Ends m
      → ((a : A) → Ends (f a))
      → Ends (elim o as (λ _. Handler D B) [ none ↦ m | some a ↦ f a ])
  Ends-elim none m f km kf = km
  Ends-elim (some a) m f km kf = kf a

  -- A storage that is looked up again is the same.
  pub Ensures-forget_here :
      (F : D.State → Type 0) (idx dir : ℕ)
      → Ensures
          (λ σ.
            (rec : StorageRec) × (get_elem? T idx ≡ some rec)
            × Changed L u T (λ _ j d. (j ≡ rec.id) × (d ≡ dir)) F σ)
          (λ _. End)
          End
          (forget u D idx dir)
  Ensures-forget_here F idx dir = record {
    at = λ σ (rec, found, k). (Ensures-forget L u T F idx dir rec found).at σ k;
  }

  Ends-create_rest : (idx cur : ℕ) (segs : List Text) → Ends (create_rest u D idx cur segs)
  unfolding create_rest
  Ends-create_rest idx cur [] = Ends-pure cur
  Ends-create_rest idx cur (seg ∷ segs) =
      Ensures-open_then L u T (NothingMore L u) (NothingMore-tree L u) (λ _. End) idx _
        λ g (rec, found, same).
          Ensures-bind _ _ _ _ (call D (D.create_folder g (parent_arg D cur) seg)) _
            (Ensures-create_folder L u T (NothingMore L u) idx cur seg g rec same)
            λ h.
              Ensures-bind _ _ _ _ (forget u D idx cur) _
                (Ensures-forget L u T (NothingMore L u) idx cur rec found)
                λ _.
                  Ensures-mono _ _ _ _ _ _ (create_rest u D idx h segs)
                    (Ends-create_rest idx h segs) (λ σ k. (k.0, k.1, tt)) (λ a σ k. k) (λ σ k. k)

  Ends-make_dirs : (idx cur : ℕ) (segs : List Text) → Ends (make_dirs u D idx cur segs)
  unfolding make_dirs
  Ends-make_dirs idx cur [] = Ends-pure cur
  Ends-make_dirs idx cur (seg ∷ segs) =
      look_then (λ _. End) (children_of D idx cur false) _
        (Stays-children_of L u T (NothingMore L u) (NothingMore-tree L u) idx cur false)
        λ es.
          Ends-elim (child_by_name u es seg) _ _ (Ends-create_rest idx cur (seg ∷ segs))
            λ e. Ends-if e.is_dir _ _ (Ends-make_dirs idx e.handle segs) (Ends-fail wrong_kind)

  pub Ends-mkdir_all : (raw : Text) → Ends (mkdir_all u D raw)
  unfolding mkdir_all
  Ends-mkdir_all raw =
      look_then (λ _. End) (lift (parse raw)) _
        (Stays-lift L u T (NothingMore L u) (NothingMore-tree L u) (parse raw))
        λ p. Ends-if (is_root p) _ _ (Ends-fail invalid_argument) (
          look_then (λ _. End) (storage_index u D p.storage_ref) _
            (Stays-storage_index L u T (NothingMore L u) (NothingMore-tree L u) p.storage_ref)
            λ idx.
              Ensures-bind _ _ _ _ (make_dirs u D idx D.root p.segments) _
                (Ends-make_dirs idx D.root p.segments) λ cur. Ensures-pure _ _ _ _ (λ σ k. k))

  -- The target of a path in hand, in its directory.
  pub Ensures-target_then :
      {B : Type 0} (R : B → ActorState D → Type 0) (p : DevPath) (idx dir : ℕ)
      (f : Entry → Handler D B)
      → ((e : Entry) (rec : StorageRec)
          → get_elem? T idx ≡ some rec
          → Ensures (Good L T (InDir L u rec.id dir e.handle)) R End (f e))
      → Ensures Start R End (find_target u D p idx dir >>= f)
  Ensures-target_then R p idx dir f k =
      Ensures-bind _ _ _ R (find_target u D p idx dir) f
        (Ensures-mono _ _ _ _ _ _ (find_target u D p idx dir) (Ensures-find_target L u T p idx dir)
          (λ σ h. h) (λ e σ h. h) (λ σ h. (h.0, h.1)))
        λ e. record { at = λ σ (rec, found, good). (k e rec found).at σ good }

  -- An object that stands in the directory stands in no other.
  pub one_dir :
      (sid dir h : ℕ) (s t : D.State)
      → InDir L u sid dir h s
      → ChangesIn L (λ j d. (j ≡ sid) × Shows h (listed L s sid d)) s t
      → ChangesIn L (λ j d. (j ≡ sid) × (d ≡ dir)) s t
  one_dir sid dir h s t there changes j d = elim (changes j d) [
    | inl (same, shown) ↦ inl (same, L.one_parent s sid d dir h shown there)
    | inr e ↦ inr e
  ]

  -- The cache is true of the state before, and the one directory of the storage changed.
  abbrev pub Stale : ℕ → ℕ → ActorState D → Type 0
  Stale idx dir σ =
      (rec : StorageRec) × (get_elem? T idx ≡ some rec)
      × Changed L u T (λ _ j d. (j ≡ rec.id) × (d ≡ dir)) (NothingMore L u) σ

  pub same_id :
      (idx : ℕ) (a b : StorageRec)
      → get_elem? T idx ≡ some a
      → get_elem? T idx ≡ some b
      → a.id ≡ b.id
  same_id idx a b x y = ap (λ (r : StorageRec). r.id) (some-injective a b (sym x ∙ y))

  Ensures-delete_there :
      (idx dir h : ℕ) (rec : StorageRec)
      → get_elem? T idx ≡ some rec
      → Ensures
          (Good L T (InDir L u rec.id dir h))
          (λ _ σ. Stale idx dir σ)
          End
          (delete_object u D idx h)
  Ensures-delete_there idx dir h rec found =
      Ensures-mono _ _ _ _ _ _ (delete_object u D idx h)
        (Ensures-delete_object L u T (InDir L u rec.id dir h) (InDir-tree L u rec.id dir h) idx h)
        (λ σ k. k)
        (λ _ σ (r, got, (s, table, true_of, changes, there)). (
          r,
          got,
          (
            s,
            table,
            true_of,
            one_dir r.id dir h s σ.device
                (subst (λ i. InDir L u i dir h s) (same_id idx rec r found got) there) changes,
            tt,
          ),
        ))
        (λ σ k. k)

  Ensures-remove_target :
      (fuel idx dir : ℕ) (e : Entry) (rec : StorageRec)
      → get_elem? T idx ≡ some rec
      → Ensures
          (Good L T (InDir L u rec.id dir e.handle))
          (λ n σ. (k : ℕ) × (n ≡ some k) × Stale idx dir σ)
          End
          (remove_target u D fuel idx false e)
  unfolding remove_target
  Ensures-remove_target fuel idx dir e rec found =
      Ensures-if _ _ _ e.is_dir _ _ (λ _. Ensures-fail _ _ _ wrong_kind (λ σ k. (k.0, k.1)))
        (λ _.
          Ensures-bind _ _ _ _ (delete_object u D idx e.handle) _
            (Ensures-delete_there idx dir e.handle rec found)
            λ _. Ensures-pure _ _ _ (some 1) (λ σ k. (1, refl, k)))

  after_removal :
      (idx dir : ℕ) (n : Option ℕ)
      → Ensures
          (λ σ. (k : ℕ) × (n ≡ some k) × Stale idx dir σ)
          (λ _. End)
          End
          (elim n as (λ _. Handler D (Option ℕ)) [
            | none ↦ pure none
            | some k ↦ (do forget u D idx dir; pure (some k))
          ])
  after_removal idx dir none = record { at = λ σ (k, e, _). absurd (cc) }
  after_removal idx dir (some n) =
      Ensures-bind _ _ _ _ (forget u D idx dir) _
        (Ensures-mono _ _ _ _ _ _ (forget u D idx dir)
          (Ensures-forget_here (NothingMore L u) idx dir) (λ σ (k, e, stale). stale) (λ a σ k. k)
          (λ σ k. k))
        λ _. Ensures-pure _ _ _ (some n) (λ σ k. k)

  -- The path of a handler that works on an object below a storage.
  pub below_storage :
      {B : Type 0} (raw : Text) (f : DevPath → ℕ → Handler D B) (g : DevPath → Bool)
      → ((p : DevPath) (idx : ℕ) → Ends (f p idx))
      → Ends (
          lift (parse raw) >>= λ p.
          if g p
          then fail invalid_argument
          else (storage_index u D p.storage_ref >>= λ idx. f p idx))
  below_storage raw f g k =
      look_then (λ _. End) (lift (parse raw)) _
        (Stays-lift L u T (NothingMore L u) (NothingMore-tree L u) (parse raw))
        λ p. Ends-if (g p) _ _ (Ends-fail invalid_argument) (
          look_then (λ _. End) (storage_index u D p.storage_ref) _
            (Stays-storage_index L u T (NothingMore L u) (NothingMore-tree L u) p.storage_ref)
            (k p))

  pub Ends-remove : (fuel : ℕ) (raw : Text) → Ends (remove u D fuel raw false)
  unfolding remove
  Ends-remove fuel raw =
      below_storage raw _ (λ p. is_root p || has_no_segments p)
        λ p idx.
          look_then (λ _. End) (walk_to_parent u D p idx) _
            (Stays-walk_to_parent L u T (NothingMore L u) (NothingMore-tree L u) p idx)
            λ dir.
              Ensures-target_then (λ _. End) p idx dir _
                λ e rec found.
                  Ensures-bind _ _ _ _ (remove_target u D fuel idx false e) _
                    (Ensures-remove_target fuel idx dir e rec found) (after_removal idx dir)
