-- ===== src/Cli/Bundle/Pack.antt =====
-- `pack_tar_zstd` and `walk_add`.
use pereprava.Prelude.{
  ℕ, zero, suc, ◌+◌, ◌%◌, ◌^◌, Bool, false, ◌&&◌, ◌||◌, ◌==◌, ltb, Option, none, some, List, [],
  ◌∷◌, if◌then◌else◌,
}
use pereprava.Prelude.Text.{Text}
use pereprava.Core.Error.{io}
use pereprava.Core.Actor.Monad.{Act, pure, fail, ◌>>=◌, ◌>>◌}
use pereprava.Core.Ops.Local.{LocalPath, FileType, symlink, special, join}
use pereprava.Core.Ops.Local
use pereprava.Cli.Bundle.Disk.{TreeDisk}

-- `MAX_PACK_DEPTH`
abbrev pub max_pack_depth : ℕ
max_pack_depth = 128

-- `WalkState`, with the last directory entered first. `raw` wraps as in a release build.
pub record WalkState : Type 0 where
  pub files : ℕ
  pub dirs : ℕ
  pub raw : ℕ
  pub skipped : ℕ
  pub visited : List (ℕ × ℕ)

-- `same_file`
unfoldable pub same_file : ℕ × ℕ → ℕ × ℕ → Bool
same_file (dev, ino) (dev', ino') = (dev == dev') && (ino == ino')

unfoldable pub was_visited : ℕ × ℕ → List (ℕ × ℕ) → Bool
unfolding same_file
was_visited here [] = false
was_visited here (m ∷ ms) = same_file m here || was_visited here ms

abbrev pub skip : WalkState → WalkState
skip st = record st { skipped = (st.skipped + 1) % 2 ^ 32 }

abbrev pub count_dir : WalkState → WalkState
count_dir st = record st { dirs = (st.dirs + 1) % 2 ^ 32 }

abbrev pub count_file : ℕ → WalkState → WalkState
count_file n st = record st { files = (st.files + 1) % 2 ^ 32; raw = (st.raw + n) % 2 ^ 64 }

abbrev pub enter : ℕ × ℕ → WalkState → WalkState
enter here st = record st { visited = here ∷ st.visited }

-- `visited.pop()`
leave : WalkState → WalkState
leave st = record st { visited = elim st.visited [ [] ↦ [] | m ∷ ms ↦ ms ] }

module _ (F : TreeDisk) where
  -- The branches on the kind of an entry at `path`, whose path from the root is `rel`.
  unfoldable pub add_entry :
      (LocalPath → LocalPath → WalkState → Act F.State (Option WalkState))
      → F.Builder
      → LocalPath
      → LocalPath
      → WalkState
      → FileType
      → Act F.State (Option WalkState)
  add_entry below builder rel path st symlink = pure (some (skip st))
  add_entry below builder rel path st Local.directory = do
    F.append_dir builder rel path
    below rel path (count_dir st)
  add_entry below builder rel path st Local.regular =
      λ s. (F.append_file builder path rel >> pure (some (count_file (F.file_len path s) st))) s
  add_entry below builder rel path st special = pure (some (skip st))

  -- The loop of `walk_add`. `below` is the call one level down; `none` means that its fuel ran out.
  unfoldable pub add_entries :
      (LocalPath → LocalPath → WalkState → Act F.State (Option WalkState))
      → F.Builder
      → LocalPath
      → LocalPath
      → Option WalkState
      → List Text
      → Act F.State (Option WalkState)
  unfolding add_entry
  add_entries below builder rel dir none names = pure none
  add_entries below builder rel dir (some st) [] = pure (some st)
  add_entries below builder rel dir (some st) (name ∷ names) = do
    ftype ← F.file_type (join dir name)
    st' ← add_entry below builder (join rel name) (join dir name) st ftype
    add_entries below builder rel dir st' names

  left : Option WalkState → Option WalkState
  unfolding leave
  left none = none
  left (some st) = some (leave st)

  -- `walk_add`
  unfoldable pub walk_add :
      ℕ → ℕ → F.Builder → LocalPath → LocalPath → WalkState → Act F.State (Option WalkState)
  unfolding add_entries was_visited left
  walk_add zero depth builder rel dir st = pure none
  walk_add (suc fuel) depth builder rel dir st = if ltb max_pack_depth depth then fail io else do
    here ← F.inode dir
    if was_visited here st.visited then fail io else do
      names ← F.read_sorted dir
      st' ←
          add_entries (λ r d t. walk_add fuel (suc depth) builder r d t) builder rel dir
            (some (enter here st)) names
      pure (left st')

  totals : Option WalkState → Option (ℕ × ℕ × ℕ)
  totals none = none
  totals (some st) = some (st.files, st.dirs, st.raw)

  -- `pack_tar_zstd`
  unfoldable pub pack_tar_zstd : ℕ → LocalPath → LocalPath → Act F.State (Option (ℕ × ℕ × ℕ))
  unfolding totals
  pack_tar_zstd fuel src dst = do
    builder ← F.create_builder dst
    st ←
        walk_add fuel 0 builder (record { absolute = false; parts = [] }) src
          (record { files = 0; dirs = 0; raw = 0; skipped = 0; visited = [] })
    F.finish builder
    pure (totals st)
