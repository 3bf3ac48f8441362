-- ===== src/Core/Ops/Ends.antt =====
-- The transfers end: 64 levels are allowed below the first, so fuel for 66 is enough.
use pereprava.Prelude.{
  ℕ, zero, suc, ◌+◌, ◌<◌, ◌≤◌, ◌≡◌, ◌≢◌, refl, Bool, Option, none, some, List, [], ◌∷◌, arith,
  if◌then◌else◌, false,
}
use pereprava.Prelude.Text.{Text}
use pereprava.Core.Error.{Error, Result, ok, err}
use pereprava.Core.Names.{Unicode}
use pereprava.Core.Model.{Entry}
use pereprava.Core.Actor.Device.{Device}
use pereprava.Core.Actor.Monad.{Act, pure, fail, lift, ok_or, ◌>>=◌, ◌>>◌}
use pereprava.Core.Actor.Lookup
use pereprava.Core.Actor.Tree.{mkdir_all}
use pereprava.Core.Actor.Handle.{upload_new}
use pereprava.Core.Actor.Coherence.Rules.{
  Ensures, Post, Ensures-pure, Ensures-fail, Ensures-lift, Ensures-if, Ensures-bind,
}
use pereprava.Core.Ops.Local.{
  LocalPath, Disk, FileType, symlink, directory, regular, special, file_name, join,
}
use pereprava.Core.Ops.Stats.{
  is_safe_component, check_depth, TreeStats, one_dir, skip_one, count_file, join_device,
}
use pereprava.Core.Ops.Pull.{
  World, on_actor, on_disk, next_temp, create_temp, remove_temp, try_download, settle_file,
  stage_file, pull_file, with_sub, pull_entry, pull_entries, pull_tree_inner, pull_tree,
}
use pereprava.Core.Ops.Push.{push_file, push_kind, push_items, push_contents, push_tree}

check_depth-le : (depth : ℕ) → check_depth depth ≡ ok tt → depth ≤ 64
unfolding check_depth
check_depth-le depth h = ground arith

module _ {S : Type 0} where
  -- The fuel did not run out, whatever the state.
  abbrev Ends : {A : Type 0} → Act S (Option A) → Type 0
  Ends m = Ensures (λ _. Unit {0}) (λ o _. (a : _) × (o ≡ some a)) (λ _. Unit {0}) m

  -- Nothing is claimed of a step.
  any_step :
      {A : Type 0} (m : Act S A) → Ensures (λ _. Unit {0}) (λ _ _. Unit {0}) (λ _. Unit {0}) m
  any_step {A} m = record { at = λ s _. go (m s) }
    where
      go : (r : Result A × S) → Post (λ _ _. Unit {0}) (λ _. Unit {0}) r
      go (ok a, t) = tt
      go (err e, t) = tt

  after :
      {A B : Type 0} (m : Act S A) (f : A → Act S (Option B))
      → ((a : A) → Ends (f a))
      → Ends (m >>= f)
  after m f k = Ensures-bind _ _ (λ _ _. Unit {0}) _ m f (any_step m) k

  -- The next part is reached only with fuel left.
  next :
      {A B : Type 0} (m : Act S (Option A)) (f : Option A → Act S (Option B))
      → Ends m
      → ((a : A) → Ends (f (some a)))
      → Ends (m >>= f)
  next m f km kf = Ensures-bind _ _ _ _ m f km λ o. go o
    where
      go :
          (o : Option _)
          → Ensures
              (λ _. (a : _) × (o ≡ some a))
              (λ o _. (a : _) × (o ≡ some a))
              (λ _. Unit {0})
              (f o)
      go none = record { at = λ s (a, e). absurd (cc) }
      go (some a) = record { at = λ s _. (kf a).at s tt }

  Ends-some : {A : Type 0} (a : A) → Ends (pure (some a))
  Ends-some a = Ensures-pure _ _ _ (some a) (λ _ _. (a, refl))

  Ends-fail : {A : Type 0} (e : Error) → Ends (fail {A = Option A} e)
  Ends-fail e = Ensures-fail _ _ _ e (λ _ _. tt)

  Ends-if :
      {A : Type 0} (b : Bool) (m n : Act S (Option A)) → Ends m → Ends n → Ends (if b then m else n)
  Ends-if b m n km kn = Ensures-if _ _ _ b m n (λ _. km) (λ _. kn)

  -- The check of the depth is passed.
  guarded :
      {A : Type 0} (depth : ℕ) (m : Act S (Option A))
      → (depth ≤ 64 → Ends m)
      → Ends (lift (check_depth depth) >> m)
  guarded depth m k =
      Ensures-bind _ _ _ _ (lift (check_depth depth)) (λ _. m)
        (Ensures-lift (λ _. Unit {0}) (λ _. Unit {0}) (check_depth depth) (λ _ _. tt))
        λ _. record { at = λ s h. (k (check_depth-le depth h.0)).at s tt }

  returns : {A : Type 0} (m : Act S (Option A)) → Ends m → (s : S) → (m s).0 ≢ ok none
  returns {A} m k s h = go (m s) (k.at s tt) h
    where
      go :
          (r : Result (Option A) × S)
          → Post (λ o _. (a : A) × (o ≡ some a)) (λ _. Unit {0}) r
          → r.0 ≡ ok none
          → ⊥
      go (ok o, t) (a, e) h = cc
      go (err e, t) q h = cc

module _ {D : Device} {F : Disk} (u : Unicode) where
  settle_file-Ends :
      (tmp child_local : LocalPath) (stats : TreeStats) (r : Result ℕ)
      → Ends (settle_file {D = D} {F = F} u tmp child_local stats r)
  unfolding settle_file
  settle_file-Ends tmp child_local stats (ok n) =
      after (on_disk (F.rename tmp child_local)) _ λ _. Ends-some (count_file n stats)
  settle_file-Ends tmp child_local stats (err e) =
      after (on_disk (remove_temp F tmp)) _ λ _. Ends-fail e

  stage_file-Ends :
      (remote : Text) (tmp child_local : LocalPath) (stats : TreeStats) (o : Option F.File)
      → Ends (stage_file {D = D} {F = F} u remote tmp child_local stats o)
  unfolding stage_file
  stage_file-Ends remote tmp child_local stats none = Ends-some (skip_one stats)
  stage_file-Ends remote tmp child_local stats (some f) =
      after (try_download u f remote) _ λ r. settle_file-Ends tmp child_local stats r

  pull_file-Ends :
      (remote : Text) (child_local : LocalPath) (stats : TreeStats)
      → Ends (pull_file {D = D} {F = F} u remote child_local stats)
  unfolding pull_file
  pull_file-Ends remote child_local stats = after (next_temp child_local) _ λ tmp.
      after (on_disk (create_temp F tmp)) _ λ o. stage_file-Ends remote tmp child_local stats o

  module _ (below : Text → LocalPath → Act (World D F) (Option TreeStats))
      (ends : (r : Text) (l : LocalPath) → Ends (below r l)) (remote : Text)
      (local : LocalPath) where
    pull_entry-Ends :
        (stats : TreeStats) (e : Entry) → Ends (pull_entry u below remote local stats e)
    unfolding pull_entry with_sub
    pull_entry-Ends stats e =
        Ends-if (is_safe_component e.name) _ _
          (Ends-if e.is_dir _ _
            (next (below (join_device remote e.name) (join local e.name)) _ (ends _ _)
              λ sub. Ends-some _)
            (pull_file-Ends (join_device remote e.name) (join local e.name) stats))
          (Ends-some (skip_one stats))

    pull_entries-Ends :
        (stats : TreeStats) (es : List Entry)
        → Ends (pull_entries u below remote local (some stats) es)
    unfolding pull_entries
    pull_entries-Ends stats [] = Ends-some stats
    pull_entries-Ends stats (e ∷ es) =
        next (pull_entry u below remote local stats e) _ (pull_entry-Ends stats e)
          λ s. pull_entries-Ends s es

  pull_tree_inner-Ends :
      (fuel depth : ℕ) (remote : Text) (local : LocalPath)
      → depth ≤ 65
      → 65 < depth + fuel
      → Ends (pull_tree_inner {D = D} {F = F} u fuel depth remote local)
  unfolding pull_tree_inner
  pull_tree_inner-Ends zero depth remote local h k = absurd (omega arith)
  pull_tree_inner-Ends (suc fuel) depth remote local h k = guarded depth _ λ low.
      after (on_disk (F.create_dir_all local)) _ λ _.
        after (on_actor (Lookup.list u D remote false)) _ λ es.
          pull_entries-Ends (λ r l. pull_tree_inner u fuel (suc depth) r l)
            (λ r l. pull_tree_inner-Ends fuel (suc depth) r l (omega arith) (omega arith)) remote
            local one_dir es

  -- Pulling a tree ends, however deep the tree on the device is and whatever the device and the disk
  -- answer: with fuel for 66 levels or more it gives its counts or an error.
  pub pull_tree-returns :
      (fuel : ℕ) (remote : Text) (local : LocalPath) (w : World D F)
      → 65 < fuel
      → (pull_tree u fuel remote local w).0 ≢ ok none
  unfolding pull_tree
  pull_tree-returns fuel remote local w h =
      returns (pull_tree_inner u fuel 0 remote local)
        (pull_tree_inner-Ends fuel 0 remote local (omega arith) (omega arith)) w

  push_file-Ends :
      (item : F.DirItem) (remote_here name : Text) (stats : TreeStats)
      → Ends (push_file {D = D} {F = F} u item remote_here name stats)
  unfolding push_file
  push_file-Ends item remote_here name stats = after (on_disk (F.item_len item)) _ λ len.
      after (on_disk (F.open_file (F.item_path item))) _
        λ reads. after (on_actor (upload_new u D remote_here name len reads)) _ λ _. Ends-some _

  module _ (below : LocalPath → Text → TreeStats → Act (World D F) (Option TreeStats))
      (ends : (l : LocalPath) (r : Text) (s : TreeStats) → Ends (below l r s))
      (remote_here : Text) where
    push_kind-Ends :
        (item : F.DirItem) (stats : TreeStats) (kind : FileType) (name : Option Text)
        → Ends (push_kind u below item remote_here stats kind name)
    unfolding push_kind
    push_kind-Ends item stats symlink name = Ends-some _
    push_kind-Ends item stats directory none = Ends-some _
    push_kind-Ends item stats regular none = Ends-some _
    push_kind-Ends item stats special none = Ends-some _
    push_kind-Ends item stats directory (some name) =
        after (on_actor (mkdir_all u D (join_device remote_here name))) _ λ _. ends _ _ _
    push_kind-Ends item stats regular (some name) = push_file-Ends item remote_here name stats
    push_kind-Ends item stats special (some name) = Ends-some _

    push_items-Ends :
        (stats : TreeStats) (items : List (Result F.DirItem))
        → Ends (push_items u below remote_here (some stats) items)
    unfolding push_items
    push_items-Ends stats [] = Ends-some stats
    push_items-Ends stats (err e ∷ items) = Ends-fail e
    push_items-Ends stats (ok item ∷ items) = after (on_disk (F.file_type item)) _ λ kind.
        next (push_kind u below item remote_here stats kind (F.item_name item)) _
          (push_kind-Ends item stats kind (F.item_name item)) λ s. push_items-Ends s items

  push_contents-Ends :
      (fuel depth : ℕ) (local_dir : LocalPath) (remote_here : Text) (stats : TreeStats)
      → depth ≤ 65
      → 65 < depth + fuel
      → Ends (push_contents {D = D} {F = F} u fuel depth local_dir remote_here stats)
  unfolding push_contents
  push_contents-Ends zero depth local_dir remote_here stats h k = absurd (omega arith)
  push_contents-Ends (suc fuel) depth local_dir remote_here stats h k = guarded depth _ λ low.
      after (on_disk (F.read_dir local_dir)) _ λ items.
        push_items-Ends (λ l r s. push_contents u fuel (suc depth) l r s)
          (λ l r s. push_contents-Ends fuel (suc depth) l r s (omega arith) (omega arith))
          remote_here stats items

  -- Pushing a tree ends, however deep the local tree is and whatever the disk and the device answer:
  -- with fuel for 66 levels or more it gives its counts or an error.
  pub push_tree-returns :
      (fuel : ℕ) (local_dir : LocalPath) (remote_parent : Text) (w : World D F)
      → 65 < fuel
      → (push_tree u fuel local_dir remote_parent w).0 ≢ ok none
  unfolding push_tree
  push_tree-returns fuel local_dir remote_parent w h =
      returns (push_tree u fuel local_dir remote_parent)
        (after (ok_or (file_name local_dir) Error.invalid_argument) _ λ name.
          after (on_actor (mkdir_all u D (join_device remote_parent name))) _
            λ _. push_contents-Ends fuel 0 local_dir _ one_dir (omega arith) (omega arith))
        w
