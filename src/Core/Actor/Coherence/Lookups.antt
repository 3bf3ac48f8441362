-- ===== src/Core/Actor/Coherence/Lookups.antt =====
-- The handlers that only look at the tree keep the cache true, and find what they say.
use mathlib.Core.Path.{subst}
use pereprava.Prelude.{
  ℕ, ◌≡◌, Bool, false, Option, none, some, List, [], ◌∷◌, get_elem?, if◌then◌else◌,
}
use pereprava.Prelude.Text.{Text}
use pereprava.Core.Error.{Error, invalid_argument, not_found, wrong_kind, Result}
use pereprava.Core.Names.{Unicode}
use pereprava.Core.Model.{Entry}
use pereprava.Core.Path.{DevPath, parse, is_root}
use pereprava.Core.Actor.Device.{Device, Reply}
use pereprava.Core.Actor.Monad.{pure, fail, lift, ok_or, ◌>>=◌}
use pereprava.Core.Actor.State.{
  ActorState, StorageRec, Handler, find_storage_index, child_by_name, storage, open_storage, call,
  children_of,
}
use pereprava.Core.Actor.Lookup.{
  storage_index, walk, walk_dirs, object_entry, resolve_below, resolve, list_storages,
  walk_to_parent, find_target, last_or_empty,
}
use pereprava.Core.Actor.Lookup
use pereprava.Core.Cache.Parents.{Shows}
use pereprava.Core.Actor.Coherence.{IsLawful}
use pereprava.Core.Actor.Coherence.Rules.{
  Ensures, Ensures-lift, Ensures-ok_or, Ensures-if, Ensures-bind, Ensures-mono, Ensures-storage,
  Ensures-open_storage, Ensures-call-Same, Same,
}
use pereprava.Core.Actor.Coherence.Children.{
  Good, Good-stable, IsOfTree, Lists, Ensures-children_of,
}
use pereprava.Core.Actor.Coherence.Mutations.{NothingMore, NothingMore-tree}
use pereprava.Core.Actor.Coherence.Renaming.{InDir, child_by_name-Shows}

module _ {D : Device} (L : IsLawful D) (u : Unicode) (T : List StorageRec) (F : D.State → Type 0)
    (tree : IsOfTree L F) where
  abbrev pub Calm : ActorState D → Type 0
  Calm = Good L T F

  -- The state stays coherent, whether the handler succeeds or fails.
  abbrev pub Stays : {A : Type 0} → Handler D A → Type 0
  Stays m = Ensures Calm (λ _. Calm) Calm m

  pub Stays-pure : {A : Type 0} (a : A) → Stays (pure a)
  Stays-pure a = record { at = λ σ h. h }

  pub Stays-fail : {A : Type 0} (e : Error) → Stays (fail {A = A} e)
  Stays-fail e = record { at = λ σ h. h }

  pub Stays-lift : {A : Type 0} (r : Result A) → Stays (lift r)
  Stays-lift r =
      Ensures-mono _ _ _ _ _ _ (lift r) (Ensures-lift Calm Calm r (λ _ q. q)) (λ σ h. h)
        (λ a σ q. q.1) (λ σ h. h)

  pub Stays-ok_or : {A : Type 0} (o : Option A) (e : Error) → Stays (ok_or o e)
  Stays-ok_or none e = Stays-fail e
  Stays-ok_or (some a) e = Stays-pure a

  pub Stays-bind :
      {A B : Type 0} (m : Handler D A) (f : A → Handler D B)
      → Stays m
      → ((a : A) → Stays (f a))
      → Stays (m >>= f)
  Stays-bind m f km kf = Ensures-bind _ _ _ _ m f km kf

  pub Stays-if :
      {A : Type 0} (b : Bool) (m n : Handler D A) → Stays m → Stays n → Stays (if b then m else n)
  Stays-if b m n km kn = Ensures-if _ _ _ b m n (λ _. km) (λ _. kn)

  pub Stays-call :
      {A : Type 0} (op : D.State → Reply A × D.State)
      → ((s : D.State) → Same L s (op s).1)
      → Stays (call D op)
  Stays-call op same =
      Ensures-mono _ _ _ _ _ _ (call D op)
        (Ensures-call-Same L Calm (λ _ _. Unit {0}) op (Good-stable L T F tree) same
          (λ _ _ _ _ _. tt))
        (λ σ h. h) (λ a σ q. q.1) (λ σ h. h)

  pub Stays-open_storage : (idx : ℕ) → Stays (open_storage D idx)
  Stays-open_storage idx =
      Ensures-mono _ _ _ _ _ _ (open_storage D idx)
        (Ensures-open_storage L T Calm idx (λ σ g. g.0) (Good-stable L T F tree)) (λ σ h. h)
        (λ a σ q. q.1) (λ σ h. h)

  pub Stays-storage : (idx : ℕ) → Stays (storage D idx)
  Stays-storage idx =
      Ensures-mono _ _ _ _ _ _ (storage D idx) (Ensures-storage L T Calm idx (λ σ g. g.0))
        (λ σ h. h) (λ a σ q. q.1) (λ σ h. h)

  pub Stays-children_of : (idx dir : ℕ) (refresh : Bool) → Stays (children_of D idx dir refresh)
  Stays-children_of idx dir refresh =
      Ensures-mono _ _ _ _ _ _ (children_of D idx dir refresh)
        (Ensures-children_of L T F tree idx dir refresh) (λ σ h. h) (λ a σ q. q.1) (λ σ h. h)

  pub Stays-storage_index : (reference : Text) → Stays (storage_index u D reference)
  unfolding storage_index
  Stays-storage_index reference = record {
    at = λ σ h. (Stays-lift (find_storage_index u σ.storages reference)).at σ h;
  }

  pub Stays-walk :
      (idx : ℕ) (refresh : Bool) (cur : ℕ) (segs : List Text)
      → Stays (walk u D idx refresh cur segs)
  unfolding walk
  Stays-walk idx refresh cur [] = Stays-pure cur
  Stays-walk idx refresh cur (seg ∷ segs) =
      Stays-bind (children_of D idx cur refresh) _ (Stays-children_of idx cur refresh) λ es.
        Stays-bind (ok_or (child_by_name u es seg) not_found) _
          (Stays-ok_or (child_by_name u es seg) not_found) λ e. Stays-walk idx refresh e.handle segs

  Stays-walk_dirs :
      (idx : ℕ) (refresh : Bool) (cur : ℕ) (segs : List Text)
      → Stays (walk_dirs u D idx refresh cur segs)
  unfolding walk_dirs
  Stays-walk_dirs idx refresh cur [] = Stays-pure cur
  Stays-walk_dirs idx refresh cur (seg ∷ segs) =
      Stays-bind (children_of D idx cur refresh) _ (Stays-children_of idx cur refresh) λ es.
        Stays-bind (ok_or (child_by_name u es seg) not_found) _
          (Stays-ok_or (child_by_name u es seg) not_found)
          λ e.
            Stays-if e.is_dir _ _ (Stays-walk_dirs idx refresh e.handle segs)
              (Stays-fail wrong_kind)

  pub Stays-walk_to_parent : (p : DevPath) (idx : ℕ) → Stays (walk_to_parent u D p idx)
  unfolding walk_to_parent
  Stays-walk_to_parent p idx = Stays-walk idx false D.root _

  Stays-object_entry : (idx h : ℕ) → Stays (object_entry u D idx h)
  unfolding object_entry
  Stays-object_entry idx h = Stays-bind (open_storage D idx) _ (Stays-open_storage idx) λ st.
      Stays-bind (call D (D.get_object_info st h)) _
        (Stays-call (D.get_object_info st h) (L.get_object_info-same st h)) λ oi. Stays-pure _

  Stays-resolve_below :
      (idx : ℕ) (refresh : Bool) (segs : List Text) → Stays (resolve_below u D idx refresh segs)
  unfolding resolve_below
  Stays-resolve_below idx refresh [] =
      Stays-bind (storage D idx) _ (Stays-storage idx) λ r. Stays-pure _
  Stays-resolve_below idx refresh (seg ∷ segs) =
      Stays-bind (walk u D idx refresh D.root (seg ∷ segs)) _
        (Stays-walk idx refresh D.root (seg ∷ segs))
        λ cur.
          Stays-bind (object_entry u D idx cur) _ (Stays-object_entry idx cur) λ e. Stays-pure _

  pub Stays-resolve : (raw : Text) (refresh : Bool) → Stays (resolve u D raw refresh)
  unfolding resolve
  Stays-resolve raw refresh = Stays-bind (lift (parse raw)) _ (Stays-lift (parse raw)) λ p.
      Stays-if (is_root p) _ _ (Stays-fail invalid_argument) (
        Stays-bind (storage_index u D p.storage_ref) _ (Stays-storage_index p.storage_ref)
          λ idx. Stays-resolve_below idx refresh p.segments)

  pub Stays-list : (raw : Text) (refresh : Bool) → Stays (Lookup.list u D raw refresh)
  unfolding Lookup.list list_storages
  Stays-list raw refresh = Stays-bind (lift (parse raw)) _ (Stays-lift (parse raw)) λ p.
      Stays-if (is_root p) _ _ (record { at = λ σ h. h })
        (Stays-bind (storage_index u D p.storage_ref) _ (Stays-storage_index p.storage_ref) λ idx.
          Stays-bind (walk_dirs u D idx refresh D.root p.segments) _
            (Stays-walk_dirs idx refresh D.root p.segments)
            λ cur. Stays-children_of idx cur refresh)

module _ {D : Device} (L : IsLawful D) (u : Unicode) (T : List StorageRec) where
  -- The entry found stands in the directory.
  abbrev pub Target : ℕ → ℕ → Entry → ActorState D → Type 0
  Target idx dir e σ =
      (rec : StorageRec) × (get_elem? T idx ≡ some rec) × Good L T (InDir L u rec.id dir e.handle) σ

  pub Ensures-find_target :
      (p : DevPath) (idx dir : ℕ)
      → Ensures
          (Good L T (NothingMore L u))
          (λ e σ. Target idx dir e σ)
          (Good L T (NothingMore L u))
          (find_target u D p idx dir)
  unfolding find_target
  Ensures-find_target p idx dir =
      Ensures-bind _ _ _ _ (children_of D idx dir false) _
        (Ensures-children_of L T (NothingMore L u) (NothingMore-tree L u) idx dir false)
        λ es.
          Ensures-mono _ _ _ _ _ _ (ok_or (child_by_name u es (last_or_empty p.segments)) not_found)
            (Ensures-ok_or (λ σ. Lists L T idx dir es σ × Good L T (NothingMore L u) σ)
              (Good L T (NothingMore L u)) (child_by_name u es (last_or_empty p.segments)) not_found
              (λ σ h. h.1))
            (λ σ h. h)
            (λ e σ (named, ((rec, found, same), good)). (
              rec,
              found,
              (
                good.0,
                good.1,
                subst (Shows e.handle) same
                    (child_by_name-Shows u es (last_or_empty p.segments) e named),
              ),
            ))
            (λ σ h. h)
