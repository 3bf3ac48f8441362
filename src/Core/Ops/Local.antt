-- ===== src/Core/Ops/Local.antt =====
-- Local paths, and the local disk as the transfers use it.
use pereprava.Prelude.{
  ℕ, suc, zero, ◌+◌, ◌/◌, ◌%◌, Bool, true, false, ◌||◌, ◌==◌, Option, none, some, List, [], ◌∷◌,
  ◌++◌, last?, if◌then◌else◌,
}
use pereprava.Prelude.Text.{Text, codes, text_eq, split_slash, slash}
use pereprava.Core.Error.{Result}
use pereprava.Core.Actor.Transfer.{Read}
use pereprava.Core.Path.{is_empty}

-- `PathBuf` on Unix, up to its equality: whether it is absolute, and its components. An empty
-- component and `.` are none.
pub record LocalPath : Type 0 where
  pub absolute : Bool
  pub parts : List Text

unfoldable pub drop_here : List Text → List Text
drop_here [] = []
drop_here (p ∷ ps) =
    let rest = drop_here ps in if is_empty p || text_eq p (codes ".") then rest else p ∷ rest

unfoldable pub components : Text → List Text
unfolding drop_here
components s = drop_here (split_slash s)

unfoldable pub starts_with_slash : Text → Bool
starts_with_slash [] = false
starts_with_slash (c ∷ s) = c == slash

-- `Path::join`: an absolute path replaces the one that it is joined to.
unfoldable pub join : LocalPath → Text → LocalPath
unfolding components starts_with_slash
join p s =
    if starts_with_slash s
    then record { absolute = true; parts = components s }
    else record { absolute = p.absolute; parts = p.parts ++ components s }

unfoldable pub normal : Text → Option Text
normal s = if text_eq s (codes "..") then none else some s

-- `Path::file_name`
unfoldable pub file_name : LocalPath → Option Text
unfolding normal
file_name p = elim (last? p.parts) [ none ↦ none | some s ↦ normal s ]

unfoldable pub all_but_last : List Text → List Text
all_but_last [] = []
all_but_last (p ∷ []) = []
all_but_last (p ∷ q ∷ ps) = p ∷ all_but_last (q ∷ ps)

unfoldable pub parent_of_parts : Bool → List Text → LocalPath
unfolding all_but_last
parent_of_parts absolute [] = record { absolute = false; parts = [] }
parent_of_parts absolute (p ∷ ps) = record { absolute = absolute; parts = all_but_last (p ∷ ps) }

-- `Path::parent`, or `.` where there is none, which is the path with no component.
unfoldable pub parent_or_here : LocalPath → LocalPath
unfolding parent_of_parts
parent_or_here p = parent_of_parts p.absolute p.parts

-- The decimal digits of a number, given fuel for all of them, in front of `rest`.
unfoldable pub digits : ℕ → ℕ → Text → Text
digits zero n rest = rest
digits (suc fuel) n rest = elim (n / 10) [
  | zero ↦ (b'0' + n % 10) ∷ rest
  | suc m ↦ digits fuel (n / 10) ((b'0' + n % 10) ∷ rest)
]

unfoldable pub decimal : ℕ → Text
unfolding digits
decimal n = digits (suc n) n []

-- `temp_sibling`, of the process `pid`, where the counter stands at `n`.
unfoldable pub temp_sibling : ℕ → ℕ → LocalPath → LocalPath
temp_sibling pid n path =
    let name : Text = elim (file_name path) [ none ↦ codes "out" | some s ↦ s ] in
    join (parent_or_here path) (
      b'.'
      ∷ (name ++ (codes ".pereprava-" ++ (decimal pid ++ (b'-' ∷ (decimal n ++ codes ".tmp"))))))

-- `std::fs::FileType`
pub data FileType : Type 0 where
  symlink directory regular special : FileType

-- The local file system, which is not part of the repository. Its errors become `Error::Io`.
pub record Disk : Type 1 where
  pub State : Type 0
  -- An open file, and an entry of a directory
  pub File : Type 0
  pub DirItem : Type 0
  pub pid : ℕ
  pub create_dir_all : LocalPath → State → Result (Unit {0}) × State
  pub create : LocalPath → State → Option File × State
  pub write_all : File → List ℕ → State → Result (Unit {0}) × State
  pub flush : File → State → Result (Unit {0}) × State
  pub rename : LocalPath → LocalPath → State → Result (Unit {0}) × State
  pub remove_file : LocalPath → State → State
  -- What the calls of `next_entry` give, up to the end of the directory.
  pub read_dir : LocalPath → State → Result (List (Result DirItem)) × State
  pub item_path : DirItem → LocalPath
  -- `file_name().to_str()`
  pub item_name : DirItem → Option Text
  pub file_type : DirItem → State → Result FileType × State
  pub item_len : DirItem → State → Result ℕ × State
  -- The reads that an open file gives.
  pub open_file : LocalPath → State → Result (List Read) × State
