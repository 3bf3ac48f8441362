-- ===== src/Cli/Bundle/Unpack.antt =====
-- `unpack_tar_zstd` and `promote`.
use pereprava.Prelude.{ℕ, ◌+◌, ◌*◌, ◌^◌, ◌%◌, ltb, Option, none, some, List, [], ◌∷◌, if◌then◌else◌}
use pereprava.Prelude.Text.{codes}
use pereprava.Core.Error.{Result, ok, err, io}
use pereprava.Core.Actor.Monad.{Act, pure, fail, lift, ◌>>=◌, ◌>>◌}
use pereprava.Core.Ops.Local.{LocalPath}
use pereprava.Nfs.State.{saturating_add}
use pereprava.Cli.Bundle.Disk.{
  TreeDisk, Member, MemberKind, directory, regular, other, with_extension, sibling_scratch,
  is_unsafe_archive_path,
}

-- `MAX_ENTRIES` and `MAX_BYTES`
abbrev pub max_entries : ℕ
max_entries = 2000000

abbrev pub max_bytes : ℕ
max_bytes = 64 * 1024 * 1024 * 1024

-- The files, the directories and the bytes so far.
pub record Counts : Type 0 where
  pub files : ℕ
  pub dirs : ℕ
  pub raw : ℕ

abbrev pub no_counts : Counts
no_counts = record { files = 0; dirs = 0; raw = 0 }

-- The `match` on the kind of an entry; `none` is `continue`.
unfoldable pub count_member : Member → MemberKind → Counts → Result (Option Counts)
count_member m directory n = ok (some (record n { dirs = (n.dirs + 1) % 2 ^ 32 }))
count_member m regular n =
    let raw = saturating_add n.raw m.size in
    if ltb max_bytes raw
    then err io
    else ok (some (record n { files = (n.files + 1) % 2 ^ 32; raw = raw }))
count_member m other n = ok none

module _ (F : TreeDisk) where
  -- The end of the loop's body.
  unfoldable pub unpack_counted : LocalPath → Member → Counts → Option Counts → Act F.State Counts
  unpack_counted staging m n none = pure n
  unpack_counted staging m n (some n') =
      if ltb max_entries (saturating_add n'.files n'.dirs)
      then fail io
      else do F.unpack_in m staging; pure n'

  unfoldable pub unpack_member : LocalPath → Member → Counts → Act F.State Counts
  unfolding unpack_counted
  unpack_member staging m n =
      if is_unsafe_archive_path m.path
      then fail io
      else do o ← lift (count_member m m.kind n); unpack_counted staging m n o

  unfoldable pub unpack_members : LocalPath → List (Result Member) → Counts → Act F.State Counts
  unfolding unpack_member
  unpack_members staging [] n = pure n
  unpack_members staging (err e ∷ ms) n = fail e
  unpack_members staging (ok m ∷ ms) n = do
    n' ← unpack_member staging m n
    unpack_members staging ms n'

  -- `promote`, once `dest` is out of the way.
  unfoldable pub put_back : LocalPath → LocalPath → F.State → F.State
  put_back backup dest s =
      if F.exists backup s then (let (_, t) = F.rename backup dest s in t) else s

  unfoldable pub settle :
      LocalPath → LocalPath → Result (Unit {0}) × F.State → Result (Unit {0}) × F.State
  unfolding put_back
  settle backup dest (ok _, s) = let (_, t) = F.remove_dir_all backup s in (ok tt, t)
  settle backup dest (err e, s) = (err e, put_back backup dest s)

  unfoldable pub move_in : LocalPath → LocalPath → LocalPath → Act F.State (Unit {0})
  unfolding settle
  move_in staging backup dest s = settle backup dest (F.rename staging dest s)

  unfoldable pub set_aside : LocalPath → LocalPath → Act F.State (Unit {0})
  set_aside backup dest s = if F.exists dest s then F.rename dest backup s else (ok tt, s)

  abbrev pub backup_of : LocalPath → LocalPath
  backup_of dest = with_extension dest (codes "pereprava-old")

  -- `promote`
  unfoldable pub promote : LocalPath → LocalPath → Act F.State (Unit {0})
  unfolding move_in set_aside
  promote staging dest s =
      let (_, t) = F.remove_dir_all (backup_of dest) s in
      (set_aside (backup_of dest) dest >> move_in staging (backup_of dest) dest) t

  extract : LocalPath → LocalPath → Act F.State Counts
  unfolding unpack_members
  extract archive staging = do ms ← F.open_archive archive; unpack_members staging ms no_counts

  finish_unpack : LocalPath → LocalPath → Result Counts × F.State → Result Counts × F.State
  finish_unpack staging dest (ok n, s) = (do promote staging dest; pure n) s
  finish_unpack staging dest (err e, s) = let (_, t) = F.remove_dir_all staging s in (err e, t)

  prepare : LocalPath → Act F.State (Unit {0})
  prepare staging s = let (_, t) = F.remove_dir_all staging s in F.create_dir_all staging t

  -- `unpack_tar_zstd`, where the counter of `sibling_scratch` stands at `n`.
  unfoldable pub unpack_tar_zstd : ℕ → LocalPath → LocalPath → Act F.State Counts
  unfolding extract finish_unpack prepare
  unpack_tar_zstd n archive dest =
      let staging = sibling_scratch F.pid n dest (codes "unpack") in
      prepare staging >> λ s. finish_unpack staging dest (extract archive staging s)
