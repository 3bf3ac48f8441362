-- ===== src/Core/Ops/Push.antt =====
-- `push_tree`: a local directory is copied to the device.
use pereprava.Prelude.{ℕ, zero, suc, Option, none, some, List, [], ◌∷◌}
use pereprava.Prelude.Text.{Text}
use pereprava.Core.Error.{Result, ok, err, invalid_argument}
use pereprava.Core.Names.{Unicode}
use pereprava.Core.Actor.Device.{Device}
use pereprava.Core.Actor.Monad.{Act, pure, fail, lift, ok_or, ◌>>=◌, ◌>>◌}
use pereprava.Core.Actor.Tree.{mkdir_all}
use pereprava.Core.Actor.Handle.{upload_new}
use pereprava.Core.Ops.Local.{
  LocalPath, Disk, FileType, symlink, directory, regular, special, file_name,
}
use pereprava.Core.Ops.Stats.{
  check_depth, TreeStats, one_dir, skip_one, count_dir, count_file, join_device,
}
use pereprava.Core.Ops.Pull.{World, on_actor, on_disk}

module _ {D : Device} {F : Disk} (u : Unicode) where
  unfoldable pub push_file :
      F.DirItem → Text → Text → TreeStats → Act (World D F) (Option TreeStats)
  push_file item remote_here name stats = do
    len ← on_disk (F.item_len item)
    reads ← on_disk (F.open_file (F.item_path item))
    on_actor (upload_new u D remote_here name len reads)
    pure (some (count_file len stats))

  -- What is done with an entry, by its kind and its name.
  unfoldable pub push_kind :
      (LocalPath → Text → TreeStats → Act (World D F) (Option TreeStats))
      → F.DirItem
      → Text
      → TreeStats
      → FileType
      → Option Text
      → Act (World D F) (Option TreeStats)
  unfolding push_file
  push_kind below item remote_here stats symlink name = pure (some (skip_one stats))
  push_kind below item remote_here stats directory none = pure (some (skip_one stats))
  push_kind below item remote_here stats regular none = pure (some (skip_one stats))
  push_kind below item remote_here stats special none = pure (some (skip_one stats))
  push_kind below item remote_here stats directory (some name) = do
    on_actor (mkdir_all u D (join_device remote_here name))
    below (F.item_path item) (join_device remote_here name) (count_dir stats)
  push_kind below item remote_here stats regular (some name) = push_file item remote_here name stats
  push_kind below item remote_here stats special (some name) = pure (some (skip_one stats))

  -- The loop of `push_contents_inner`. `below` is the call one level down; `none` means that its fuel
  -- ran out.
  unfoldable pub push_items :
      (LocalPath → Text → TreeStats → Act (World D F) (Option TreeStats))
      → Text
      → Option TreeStats
      → List (Result F.DirItem)
      → Act (World D F) (Option TreeStats)
  unfolding push_kind
  push_items below remote_here none items = pure none
  push_items below remote_here (some stats) [] = pure (some stats)
  push_items below remote_here (some stats) (err e ∷ items) = fail e
  push_items below remote_here (some stats) (ok item ∷ items) = do
    ftype ← on_disk (F.file_type item)
    stats' ← push_kind below item remote_here stats ftype (F.item_name item)
    push_items below remote_here stats' items

  -- `push_contents_inner`
  unfoldable pub push_contents :
      ℕ → ℕ → LocalPath → Text → TreeStats → Act (World D F) (Option TreeStats)
  unfolding push_items
  push_contents zero depth local_dir remote_here stats = pure none
  push_contents (suc fuel) depth local_dir remote_here stats = do
    lift (check_depth depth)
    items ← on_disk (F.read_dir local_dir)
    push_items (λ l r s. push_contents fuel (suc depth) l r s) remote_here (some stats) items

  -- `push_tree`
  unfoldable pub push_tree : ℕ → LocalPath → Text → Act (World D F) (Option TreeStats)
  push_tree fuel local_dir remote_parent = do
    name ← ok_or (file_name local_dir) invalid_argument
    on_actor (mkdir_all u D (join_device remote_parent name))
    push_contents fuel 0 local_dir (join_device remote_parent name) one_dir
