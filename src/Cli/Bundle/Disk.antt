-- ===== src/Cli/Bundle/Disk.antt =====
-- The local disk and the archives as the bundles use them, and the paths that are made up.
use pereprava.Prelude.{
  ℕ, Bool, false, ◌==◌, ◌||◌, Option, none, some, List, [], ◌∷◌, ◌++◌, if◌then◌else◌,
}
use pereprava.Prelude.Text.{Text, codes, text_eq}
use pereprava.Core.Error.{Result}
use pereprava.Core.Ops.Local.{
  LocalPath, FileType, join, file_name, all_but_last, parent_or_here, decimal,
}

-- `tar::EntryType`, as far as it is told apart.
pub data MemberKind : Type 0 where
  directory regular other : MemberKind

-- An entry of an archive that is read.
pub record Member : Type 0 where
  pub path : LocalPath
  pub kind : MemberKind
  pub size : ℕ

-- The local disk and the crates `tar` and `zstd`, which are not part of the repository. Every error is
-- an `io::Error`.
pub record TreeDisk : Type 1 where
  pub State : Type 0
  -- An archive that is being written
  pub Builder : Type 0
  pub pid : ℕ
  -- Whether the call succeeded
  pub remove_dir_all : LocalPath → State → Bool × State
  pub create_dir_all : LocalPath → State → Result (Unit {0}) × State
  pub rename : LocalPath → LocalPath → State → Result (Unit {0}) × State
  pub exists : LocalPath → State → Bool
  -- The entries of an archive, up to the first that cannot be read.
  pub open_archive : LocalPath → State → Result (List (Result Member)) × State
  -- `Entry::unpack_in`
  pub unpack_in : Member → LocalPath → State → Result (Unit {0}) × State
  pub create_builder : LocalPath → State → Result Builder × State
  pub append_dir : Builder → LocalPath → LocalPath → State → Result (Unit {0}) × State
  pub append_file : Builder → LocalPath → LocalPath → State → Result (Unit {0}) × State
  pub finish : Builder → State → Result (Unit {0}) × State
  -- The device and the inode of a directory
  pub inode : LocalPath → State → Result (ℕ × ℕ) × State
  -- The names in a directory, sorted.
  pub read_sorted : LocalPath → State → Result (List Text) × State
  pub file_type : LocalPath → State → Result FileType × State
  pub file_len : LocalPath → State → ℕ

-- Everything before the last dot.
before_last_dot : Text → Option Text
before_last_dot [] = none
before_last_dot (c ∷ s) = elim (before_last_dot s) [
  | none ↦ if c == b'.' then some [] else none
  | some t ↦ some (c ∷ t)
]

stem_or : Text → Option Text → Text
stem_or name none = name
stem_or name (some []) = name
stem_or name (some (c ∷ s)) = c ∷ s

-- `Path::file_stem` of a file name
unfoldable pub stem_of : Text → Text
unfolding before_last_dot stem_or
stem_of name = stem_or name (before_last_dot name)

-- `Path::with_extension`: a path without a file name stays as it is.
unfoldable pub with_extension : LocalPath → Text → LocalPath
with_extension p ext = elim (file_name p) [
  | none ↦ p
  | some name ↦ record p { parts = all_but_last p.parts ++ (stem_of name ++ (b'.' ∷ ext)) ∷ [] }
]

-- `sibling_scratch`, of the process `pid`, where the counter stands at `n`.
unfoldable pub sibling_scratch : ℕ → ℕ → LocalPath → Text → LocalPath
sibling_scratch pid n dest tag =
    let name : Text = elim (file_name dest) [ none ↦ codes "out" | some s ↦ s ] in
    join (parent_or_here dest) (
      b'.'
      ∷ (name ++ (codes ".pereprava-" ++ (tag ++ (b'-' ∷ (decimal pid ++ (b'-' ∷ decimal n)))))))

unfoldable pub has_parent_dir : List Text → Bool
has_parent_dir [] = false
has_parent_dir (p ∷ ps) = text_eq p (codes "..") || has_parent_dir ps

-- `is_unsafe_archive_path`
unfoldable pub is_unsafe_archive_path : LocalPath → Bool
unfolding has_parent_dir
is_unsafe_archive_path p = p.absolute || has_parent_dir p.parts
