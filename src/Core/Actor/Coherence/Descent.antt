-- ===== src/Core/Actor/Coherence/Descent.antt =====
-- Object trees of bounded depth: the directories of a listing have a lower rank than its own, on the
-- device and in the cache, and the reading handlers leave it so.
use mathlib.Core.Path.{subst}
use pereprava.Prelude.{
  ℕ, ◌<◌, ◌≡◌, refl, sym, ap, ◌∙◌, Bool, true, false, Option, none, some, List, map, get_elem?, All,
}
use pereprava.Prelude.Text.{Text}
use pereprava.Core.Error.{Error, Result, ok, err, invalid_argument}
use pereprava.Core.Names.{Unicode}
use pereprava.Core.Model.{Entry}
use pereprava.Core.Cache.Each.{Each, listing-Each, store_listing-Each}
use pereprava.Core.Actor.Device.{Device, Reply}
use pereprava.Core.Actor.Monad.{lift, ok_or, ◌>>=◌}
use pereprava.Core.Actor.State.{
  ActorState, Handler, entry_of, find_storage_index, call, storage, open_storage, parent_arg,
  cached, remember, fetch_children, use_cache, children_of,
}
use pereprava.Core.Actor.Lookup.{storage_index}
use pereprava.Core.Actor.Coherence.{IsLawful, listed}
use pereprava.Core.Actor.Coherence.Rules.{
  Ensures, Post, Ensures-bind, Ensures-mono, Ensures-call, Ensures-call-Same, Same, IsStable,
  listed-Same,
}
use pereprava.Core.Actor.Coherence.Children.{parent_arg-dir_of}

module _ {D : Device} (L : IsLawful D) (u : Unicode) (rank : ℕ → ℕ) where
  -- The directories of a listing are below it.
  abbrev pub Descends : ℕ → List Entry → Type 0
  Descends d es = All (λ e. e.is_dir ≡ true → rank e.handle < rank d) es

  -- So it is of every listing, in the cache and on the device.
  abbrev pub Deep : ActorState D → Type 0
  Deep σ =
      Each (λ j d l. Descends d l.children) σ.cache
      × ((j d : ℕ) → Descends d (listed L σ.device j d))

  Deep-stable : IsStable L Deep
  Deep-stable σ t same h = (h.0, λ j d. subst (Descends d) (sym (listed-Same L j d same)) (h.1 j d))

  abbrev pub Keeps : {A : Type 0} → Handler D A → Type 0
  Keeps m = Ensures Deep (λ _. Deep) Deep m

  pub Keeps-bind :
      {A B : Type 0} (m : Handler D A) (f : A → Handler D B)
      → Keeps m
      → ((a : A) → Keeps (f a))
      → Keeps (m >>= f)
  Keeps-bind m f km kf = Ensures-bind _ _ _ _ m f km kf

  pub Keeps-ok_or : {A : Type 0} (o : Option A) (e : Error) → Keeps (ok_or o e)
  Keeps-ok_or none e = record { at = λ σ h. h }
  Keeps-ok_or (some a) e = record { at = λ σ h. h }

  pub Keeps-lift : {A : Type 0} (r : Result A) → Keeps (lift r)
  Keeps-lift (ok a) = record { at = λ σ h. h }
  Keeps-lift (err e) = record { at = λ σ h. h }

  pub Keeps-storage : (idx : ℕ) → Keeps (storage D idx)
  unfolding storage
  Keeps-storage idx = record {
    at = λ σ h. (Keeps-ok_or (get_elem? σ.storages idx) invalid_argument).at σ h;
  }

  pub Keeps-storage_index : (reference : Text) → Keeps (storage_index u D reference)
  unfolding storage_index
  Keeps-storage_index reference = record {
    at = λ σ h. (Keeps-lift (find_storage_index u σ.storages reference)).at σ h;
  }

  pub Keeps-open_storage : (idx : ℕ) → Keeps (open_storage D idx)
  unfolding open_storage
  Keeps-open_storage idx = Keeps-bind (storage D idx) _ (Keeps-storage idx) λ rec.
      Ensures-mono _ _ _ _ _ _ (call D (D.storage rec.id))
        (Ensures-call-Same L Deep (λ _ _. Unit {0}) (D.storage rec.id) Deep-stable
          (L.storage-same rec.id) (λ _ _ _ _ _. tt))
        (λ σ h. h) (λ a σ h. h.1) (λ σ h. h)

  -- A listing that was read descends.
  abbrev Reads : ℕ → Handler D (List Entry) → Type 0
  Reads dir m = Ensures Deep (λ es σ. Descends dir es × Deep σ) Deep m

  moved :
      {A : Type 0} (op : D.State → Reply A × D.State)
      → ((s : D.State) → Same L s (op s).1)
      → (s t : D.State) (r : Reply A) → op s ≡ (r, t)
      → Same L s t
  moved {A} op same s t r e = subst (Same L s) (ap (λ (x : Reply A × D.State). x.1) e) (same s)

  Reads-list_objects :
      (g : D.Storage) (dir : ℕ)
      → Ensures Deep
          (λ objs σ. Descends dir (map entry_of objs) × Deep σ)
          Deep
          (call D (D.list_objects g (parent_arg D dir)))
  Reads-list_objects g dir =
      Ensures-call L Deep Deep _ (D.list_objects g (parent_arg D dir))
        (λ σ objs t h e. (
          subst (λ os. Descends dir (map entry_of os))
              (sym (
                L.list_objects-done g (parent_arg D dir) σ.device t objs e
                ∙ ap (L.contents σ.device (L.sid_of g)) (parent_arg-dir_of L dir)))
              (h.1 (L.sid_of g) dir),
          Deep-stable σ t
              (moved (D.list_objects g (parent_arg D dir))
                (L.list_objects-same g (parent_arg D dir)) σ.device t _ e)
              h,
        ))
        (λ σ x t h e.
          Deep-stable σ t
            (moved (D.list_objects g (parent_arg D dir)) (L.list_objects-same g (parent_arg D dir))
              σ.device t _ e)
            h)

  Reads-fetch_children : (idx sid dir : ℕ) → Reads dir (fetch_children D idx sid dir)
  unfolding fetch_children remember
  Reads-fetch_children idx sid dir = Keeps-then (open_storage D idx) _ (Keeps-open_storage idx) λ g.
      Ensures-bind _ _ _ _ (call D (D.list_objects g (parent_arg D dir))) _
        (Reads-list_objects g dir)
        λ objs. record {
          at = λ σ h. (
            h.0,
            (
              store_listing-Each (λ j d l. Descends d l.children) (D.now σ.device) σ.cache sid dir
                  (map entry_of objs) h.1.0 h.0,
              h.1.1,
            ),
          );
        }
    where
      Keeps-then :
          {A B : Type 0} {Q : B → ActorState D → Type 0} (m : Handler D A) (f : A → Handler D B)
          → Keeps m
          → ((a : A) → Ensures Deep Q Deep (f a))
          → Ensures Deep Q Deep (m >>= f)
      Keeps-then m f km kf = Ensures-bind _ _ _ _ m f km kf

  Reads-use_cache :
      (refresh : Bool) (idx sid dir : ℕ) (σ : ActorState D)
      → Deep σ
      → (hit : Option (List Entry)) → cached D sid dir σ ≡ hit
      → Post
          (λ es s. Descends dir es × Deep s)
          Deep
          (use_cache D refresh hit (fetch_children D idx sid dir) σ)
  unfolding use_cache cached
  Reads-use_cache true idx sid dir σ h hit e = (Reads-fetch_children idx sid dir).at σ h
  Reads-use_cache false idx sid dir σ h none e = (Reads-fetch_children idx sid dir).at σ h
  Reads-use_cache false idx sid dir σ h (some es) e =
      let (l, low, same, _) =
        listing-Each (λ j d l. Descends d l.children) (D.now σ.device) σ.cache sid dir es h.0 e in
      (subst (Descends dir) same low, h)

  pub Reads-children_of : (idx dir : ℕ) (refresh : Bool) → Reads dir (children_of D idx dir refresh)
  unfolding children_of
  Reads-children_of idx dir refresh =
      Ensures-bind _ _ _ _ (storage D idx) _ (Keeps-storage idx)
        λ rec. record { at = λ σ h. Reads-use_cache refresh idx rec.id dir σ h _ refl }
