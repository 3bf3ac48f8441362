-- ===== src/Core/Ops/Pull.antt =====
-- `pull_tree`: a directory of the device is copied to the local disk.
use pereprava.Prelude.{
  ℕ, zero, suc, ◌+◌, ◌%◌, ◌^◌, false, Option, none, some, List, [], ◌∷◌, if◌then◌else◌,
}
use pereprava.Prelude.Text.{Text}
use pereprava.Core.Error.{Result, ok, err}
use pereprava.Core.Names.{Unicode}
use pereprava.Core.Model.{Entry}
use pereprava.Core.Actor.Device.{Device}
use pereprava.Core.Actor.Monad.{Act, pure, fail, lift, ◌>>=◌, ◌>>◌}
use pereprava.Core.Actor.State.{ActorState, Handler}
use pereprava.Core.Actor.Lookup
use pereprava.Core.Actor.Transfer.{Writer}
use pereprava.Core.Actor.Handle.{download_into}
use pereprava.Core.Ops.Local.{LocalPath, Disk, join, temp_sibling}
use pereprava.Core.Ops.Stats.{
  is_safe_component, check_depth, TreeStats, one_dir, skip_one, count_file, add_stats, join_device,
}

module _ (D : Device) (F : Disk) where
  -- The actor, the local disk, and the counter of `temp_sibling`.
  pub record World : Type 0 where
    pub actor : ActorState D
    pub disk : F.State
    pub counter : ℕ

module _ (F : Disk) where
  unfoldable pub create_temp : LocalPath → F.State → Result (Option F.File) × F.State
  create_temp tmp s = let (f, s') = F.create tmp s in (ok f, s')

  unfoldable pub remove_temp : LocalPath → F.State → Result (Unit {0}) × F.State
  remove_temp tmp s = (ok tt, F.remove_file tmp s)

  abbrev pub writer_of : F.File → Writer
  writer_of f = record { State = F.State; write_all = F.write_all f; flush = F.flush f }

unfoldable pub with_sub : TreeStats → Option TreeStats → Option TreeStats
with_sub stats none = none
with_sub stats (some sub) = some (add_stats stats sub)

module _ {D : Device} {F : Disk} where
  unfoldable pub on_actor : {A : Type 0} → Handler D A → Act (World D F) A
  on_actor m w = let (r, s) = m w.actor in (r, record w { actor = s })

  unfoldable pub on_disk : {A : Type 0} → (F.State → Result A × F.State) → Act (World D F) A
  on_disk op w = let (r, s) = op w.disk in (r, record w { disk = s })

  -- The name of the next temporary file.
  unfoldable pub next_temp : LocalPath → Act (World D F) LocalPath
  next_temp path w =
      (ok (temp_sibling F.pid w.counter path), record w { counter = (w.counter + 1) % 2 ^ 64 })

  module _ (u : Unicode) where
    -- The outcome of `download_into` as a value, since the caller matches on it.
    unfoldable pub try_download : F.File → Text → Act (World D F) (Result ℕ)
    try_download f remote w =
        let (r, disk, actor) = download_into u D (writer_of F f) remote w.disk w.actor in
        (ok r, record w { actor = actor; disk = disk })

    -- The arms of the `match` on the download.
    unfoldable pub settle_file :
        LocalPath → LocalPath → TreeStats → Result ℕ → Act (World D F) (Option TreeStats)
    unfolding remove_temp
    settle_file tmp child_local stats (ok n) = do
      on_disk (F.rename tmp child_local)
      pure (some (count_file n stats))
    settle_file tmp child_local stats (err e) = do on_disk (remove_temp F tmp); fail e

    unfoldable pub stage_file :
        Text
        → LocalPath
        → LocalPath
        → TreeStats
        → Option F.File
        → Act (World D F) (Option TreeStats)
    unfolding settle_file
    stage_file remote tmp child_local stats none = pure (some (skip_one stats))
    stage_file remote tmp child_local stats (some f) = do
      r ← try_download f remote
      settle_file tmp child_local stats r

    unfoldable pub pull_file : Text → LocalPath → TreeStats → Act (World D F) (Option TreeStats)
    unfolding create_temp stage_file
    pull_file remote child_local stats = do
      tmp ← next_temp child_local
      file ← on_disk (create_temp F tmp)
      stage_file remote tmp child_local stats file

    -- One round of the loop. `below` is `pull_tree_step`, one level down; `none` means that its fuel
    -- ran out.
    unfoldable pub pull_entry :
        (Text → LocalPath → Act (World D F) (Option TreeStats))
        → Text
        → LocalPath
        → TreeStats
        → Entry
        → Act (World D F) (Option TreeStats)
    unfolding pull_file with_sub
    pull_entry below remote local stats e =
        if is_safe_component e.name
        then (if e.is_dir
            then (do
              sub ← below (join_device remote e.name) (join local e.name)
              pure (with_sub stats sub))
            else pull_file (join_device remote e.name) (join local e.name) stats)
        else pure (some (skip_one stats))

    unfoldable pub pull_entries :
        (Text → LocalPath → Act (World D F) (Option TreeStats))
        → Text
        → LocalPath
        → Option TreeStats
        → List Entry
        → Act (World D F) (Option TreeStats)
    unfolding pull_entry
    pull_entries below remote local none es = pure none
    pull_entries below remote local (some stats) [] = pure (some stats)
    pull_entries below remote local (some stats) (e ∷ es) = do
      stats' ← pull_entry below remote local stats e
      pull_entries below remote local stats' es

    -- `pull_tree_inner`
    unfoldable pub pull_tree_inner : ℕ → ℕ → Text → LocalPath → Act (World D F) (Option TreeStats)
    unfolding pull_entries
    pull_tree_inner zero depth remote local = pure none
    pull_tree_inner (suc fuel) depth remote local = do
      lift (check_depth depth)
      on_disk (F.create_dir_all local)
      entries ← on_actor (Lookup.list u D remote false)
      pull_entries (λ r l. pull_tree_inner fuel (suc depth) r l) remote local (some one_dir) entries

    -- `pull_tree`
    unfoldable pub pull_tree : ℕ → Text → LocalPath → Act (World D F) (Option TreeStats)
    pull_tree fuel remote local = pull_tree_inner fuel 0 remote local
