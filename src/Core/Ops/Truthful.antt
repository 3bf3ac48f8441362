-- ===== src/Core/Ops/Truthful.antt =====
-- Pulling and pushing keep the actor's cache true.
use mathlib.Core.Path.{subst}
use pereprava.Prelude.{
  ℕ, zero, suc, ◌≡◌, refl, Bool, false, not, ◌&&◌, ◌==◌, Option, none, some, List, [], ◌∷◌,
  if◌then◌else◌,
}
use pereprava.Prelude.Text.{Text, contains, slash}
use pereprava.Core.Error.{Error, Result, ok, err, wrong_kind, invalid_argument}
use pereprava.Core.Names.{Unicode}
use pereprava.Core.Actor.Device.{Device}
use pereprava.Core.Actor.Monad.{Act, pure, fail, lift, ok_or, ◌>>=◌}
use pereprava.Core.Actor.State.{ActorState, StorageRec, Handler}
use pereprava.Core.Actor.Lookup.{resolve}
use pereprava.Core.Actor.Tree.{mkdir_all}
use pereprava.Core.Actor.Transfer.{Read}
use pereprava.Core.Actor.Handle.{upload_new}
use pereprava.Core.Actor.Coherence.{IsLawful, IsCoherent}
use pereprava.Core.Actor.Coherence.Rules.{Ensures, Post, Ensures-if, Ensures-bind, Ensures-mono}
use pereprava.Core.Actor.Coherence.Mutations.{NothingMore, NothingMore-tree}
use pereprava.Core.Actor.Coherence.Lookups.{Stays-resolve}
use pereprava.Core.Actor.Coherence.Paths.{Start, End, Ends-mkdir_all}
use pereprava.Core.Actor.Coherence.Serving.{Ensures-upload_into}
use pereprava.Core.Ops.Local.{
  LocalPath, Disk, FileType, symlink, directory, regular, special, file_name,
}
use pereprava.Core.Ops.Stats.{check_depth, TreeStats, one_dir, count_file, join_device}
use pereprava.Core.Ops.Pull.{World, on_actor, on_disk}
use pereprava.Core.Ops.Push.{push_file, push_kind, push_items, push_contents, push_tree}

module _ {D : Device} (L : IsLawful D) (u : Unicode) (F : Disk) (T : List StorageRec) where
  abbrev True : World D F → Type 0
  True w = Start L u T w.actor

  -- If the step succeeds, the cache is still true.
  abbrev Leaves : {A : Type 0} → Act (World D F) A → Type 0
  Leaves m = Ensures True (λ _. True) (λ _. Unit {0}) m

  abbrev LeavesActor : {A : Type 0} → Handler D A → Type 0
  LeavesActor m = Ensures (Start L u T) (λ _. End L u T) (λ _. Unit {0}) m

  Leaves-on_actor : {A : Type 0} (m : Handler D A) → LeavesActor m → Leaves (on_actor m)
  unfolding on_actor
  Leaves-on_actor {A} m k = record { at = λ w h. go w (m w.actor) (k.at w.actor h) }
    where
      go :
          (w : World D F) (r : Result A × ActorState D)
          → Post (λ _. End L u T) (λ _. Unit {0}) r
          → Post (λ _. True) (λ _. Unit {0}) (r.0, record w { actor = r.1 })
      go w (ok a, s) h = (h.0, h.1, tt)
      go w (err e, s) h = tt

  Leaves-on_disk : {A : Type 0} (op : F.State → Result A × F.State) → Leaves (on_disk op)
  unfolding on_disk
  Leaves-on_disk {A} op = record { at = λ w h. go w (op w.disk) h }
    where
      go :
          (w : World D F) (r : Result A × F.State)
          → True w
          → Post (λ _. True) (λ _. Unit {0}) (r.0, record w { disk = r.1 })
      go w (ok a, s) h = h
      go w (err e, s) h = tt

  Leaves-bind :
      {A B : Type 0} (m : Act (World D F) A) (f : A → Act (World D F) B)
      → Leaves m
      → ((a : A) → Leaves (f a))
      → Leaves (m >>= f)
  Leaves-bind m f km kf = Ensures-bind _ _ _ _ m f km kf

  Leaves-pure : {A : Type 0} (a : A) → Leaves (pure a)
  Leaves-pure a = record { at = λ w h. h }

  Leaves-fail : {A : Type 0} (e : Error) → Leaves (fail {A = A} e)
  Leaves-fail e = record { at = λ w h. tt }

  Leaves-lift : {A : Type 0} (r : Result A) → Leaves (lift r)
  Leaves-lift (ok a) = Leaves-pure a
  Leaves-lift (err e) = Leaves-fail e

  Leaves-ok_or : {A : Type 0} (o : Option A) (e : Error) → Leaves (ok_or o e)
  Leaves-ok_or none e = Leaves-fail e
  Leaves-ok_or (some a) e = Leaves-pure a

  refuses : {A : Type 0} (e : Error) → LeavesActor (fail {A = A} e)
  refuses e = record { at = λ σ h. tt }

  LeavesActor-if :
      {A : Type 0} (b : Bool) (m n : Handler D A)
      → LeavesActor m
      → LeavesActor n
      → LeavesActor (if b then m else n)
  LeavesActor-if b m n km kn = Ensures-if _ _ _ b m n (λ _. km) (λ _. kn)

  LeavesActor-mkdir_all : (path : Text) → LeavesActor (mkdir_all u D path)
  LeavesActor-mkdir_all path =
      Ensures-mono _ _ _ _ _ _ (mkdir_all u D path) (Ends-mkdir_all L u T path) (λ σ h. h)
        (λ a σ h. h) (λ σ h. tt)

  LeavesActor-upload_new :
      (parent name : Text) (size : ℕ) (reads : List Read)
      → LeavesActor (upload_new u D parent name size reads)
  unfolding upload_new
  LeavesActor-upload_new parent name size reads =
      Ensures-bind _ _ _ _ (resolve u D parent false) _
        (Ensures-mono _ _ _ _ _ _ (resolve u D parent false)
          (Stays-resolve L u T (NothingMore L u) (NothingMore-tree L u) parent false) (λ σ h. h)
          (λ a σ h. h) (λ σ h. tt))
        λ r.
          LeavesActor-if (not r.entry.is_dir && not (r.handle == D.root)) _ _ (refuses wrong_kind) (
            LeavesActor-if (contains slash name) _ _ (refuses invalid_argument)
              (Ensures-upload_into L u T r.storage_index r.handle name size reads))

  Leaves-push_file :
      (item : F.DirItem) (here name : Text) (stats : TreeStats)
      → Leaves (push_file {D = D} {F = F} u item here name stats)
  unfolding push_file
  Leaves-push_file item here name stats =
      Leaves-bind (on_disk (F.item_len item)) _ (Leaves-on_disk (F.item_len item)) λ len.
        Leaves-bind (on_disk (F.open_file (F.item_path item))) _
          (Leaves-on_disk (F.open_file (F.item_path item)))
          λ reads.
            Leaves-bind (on_actor (upload_new u D here name len reads)) _
              (Leaves-on_actor _ (LeavesActor-upload_new here name len reads))
              λ _. Leaves-pure (some (count_file len stats))

  module _ (below : LocalPath → Text → TreeStats → Act (World D F) (Option TreeStats))
      (leaves : (l : LocalPath) (r : Text) (s : TreeStats) → Leaves (below l r s))
      (here : Text) where
    Leaves-push_kind :
        (item : F.DirItem) (stats : TreeStats) (kind : FileType) (name : Option Text)
        → Leaves (push_kind u below item here stats kind name)
    unfolding push_kind
    Leaves-push_kind item stats symlink name = Leaves-pure _
    Leaves-push_kind item stats directory none = Leaves-pure _
    Leaves-push_kind item stats regular none = Leaves-pure _
    Leaves-push_kind item stats special none = Leaves-pure _
    Leaves-push_kind item stats directory (some name) =
        Leaves-bind (on_actor (mkdir_all u D (join_device here name))) _
          (Leaves-on_actor _ (LeavesActor-mkdir_all (join_device here name))) λ _. leaves _ _ _
    Leaves-push_kind item stats regular (some name) = Leaves-push_file item here name stats
    Leaves-push_kind item stats special (some name) = Leaves-pure _

    Leaves-push_items :
        (o : Option TreeStats) (items : List (Result F.DirItem))
        → Leaves (push_items u below here o items)
    unfolding push_items
    Leaves-push_items none items = Leaves-pure none
    Leaves-push_items (some stats) [] = Leaves-pure (some stats)
    Leaves-push_items (some stats) (err e ∷ items) = Leaves-fail e
    Leaves-push_items (some stats) (ok item ∷ items) =
        Leaves-bind (on_disk (F.file_type item)) _ (Leaves-on_disk (F.file_type item)) λ kind.
          Leaves-bind (push_kind u below item here stats kind (F.item_name item)) _
            (Leaves-push_kind item stats kind (F.item_name item)) λ o. Leaves-push_items o items

  Leaves-push_contents :
      (fuel depth : ℕ) (local_dir : LocalPath) (here : Text) (stats : TreeStats)
      → Leaves (push_contents {D = D} {F = F} u fuel depth local_dir here stats)
  unfolding push_contents
  Leaves-push_contents zero depth local_dir here stats = Leaves-pure none
  Leaves-push_contents (suc fuel) depth local_dir here stats =
      Leaves-bind (lift (check_depth depth)) _ (Leaves-lift (check_depth depth)) λ _.
        Leaves-bind (on_disk (F.read_dir local_dir)) _ (Leaves-on_disk (F.read_dir local_dir))
          λ items.
            Leaves-push_items (λ l r s. push_contents u fuel (suc depth) l r s)
              (λ l r s. Leaves-push_contents fuel (suc depth) l r s) here (some stats) items

  Leaves-push_tree :
      (fuel : ℕ) (local_dir : LocalPath) (parent : Text)
      → Leaves (push_tree {D = D} {F = F} u fuel local_dir parent)
  unfolding push_tree
  Leaves-push_tree fuel local_dir parent =
      Leaves-bind (ok_or (file_name local_dir) invalid_argument) _
        (Leaves-ok_or (file_name local_dir) invalid_argument)
        λ name.
          Leaves-bind (on_actor (mkdir_all u D (join_device parent name))) _
            (Leaves-on_actor _ (LeavesActor-mkdir_all (join_device parent name)))
            λ _. Leaves-push_contents fuel 0 local_dir (join_device parent name) one_dir

module _ {D : Device} (L : IsLawful D) (u : Unicode) (F : Disk) where
  -- A push that succeeds leaves every cached listing of the device true, if every one was true
  -- before.
  pub push_tree-IsCoherent :
      (fuel : ℕ) (local_dir : LocalPath) (parent : Text) (w w' : World D F) (o : Option TreeStats)
      → IsCoherent L w.actor
      → push_tree u fuel local_dir parent w ≡ (ok o, w')
      → IsCoherent L w'.actor
  push_tree-IsCoherent fuel local_dir parent w w' o b e =
      (subst (Post (λ _. True L u F w.actor.storages) (λ _. Unit {0})) e
        ((Leaves-push_tree L u F w.actor.storages fuel local_dir parent).at w (refl, b, tt))).1
