-- ===== src/Core/Ops/Stats.antt =====
-- The checks and the counters of the recursive transfers.
use pereprava.Prelude.{ℕ, ◌+◌, ◌%◌, ◌^◌, Bool, not, ◌&&◌, ◌||◌, ltb, ◌==◌, ◌∷◌, ◌++◌, if◌then◌else◌}
use pereprava.Prelude.Text.{
  Text, codes, text_eq, any_char, slash, trim_end_slashes, trim_start_slashes,
}
use pereprava.Core.Error.{Result, ok, err, invalid_argument}
use pereprava.Core.Path.{is_empty}

-- `is_safe_component`
unfoldable pub is_safe_component : Text → Bool
is_safe_component name =
    not (is_empty name)
    && not (text_eq name (codes "."))
    && not (text_eq name (codes ".."))
    && not (any_char (λ c. c == slash || c == b'\\' || c == 0) name)

abbrev pub max_tree_depth : ℕ
max_tree_depth = 64

-- `check_depth`
unfoldable pub check_depth : ℕ → Result (Unit {0})
check_depth depth = if ltb max_tree_depth depth then err invalid_argument else ok tt

-- `TreeStats`
pub record TreeStats : Type 0 where
  pub files : ℕ
  pub dirs : ℕ
  pub bytes : ℕ
  pub skipped : ℕ

-- `+=` on `u32` and on `u64`, as a release build has it.
abbrev pub add32 : ℕ → ℕ → ℕ
add32 a b = (a + b) % 2 ^ 32

abbrev pub add64 : ℕ → ℕ → ℕ
add64 a b = (a + b) % 2 ^ 64

-- `TreeStats { dirs: 1, ..TreeStats::default() }`
abbrev pub one_dir : TreeStats
one_dir = record { files = 0; dirs = 1; bytes = 0; skipped = 0 }

abbrev pub skip_one : TreeStats → TreeStats
skip_one s = record s { skipped = add32 s.skipped 1 }

abbrev pub count_dir : TreeStats → TreeStats
count_dir s = record s { dirs = add32 s.dirs 1 }

abbrev pub count_file : ℕ → TreeStats → TreeStats
count_file n s = record s { files = add32 s.files 1; bytes = add64 s.bytes n }

abbrev pub add_stats : TreeStats → TreeStats → TreeStats
add_stats s t = record {
  files = add32 s.files t.files;
  dirs = add32 s.dirs t.dirs;
  bytes = add64 s.bytes t.bytes;
  skipped = add32 s.skipped t.skipped;
}

-- `join_device`
unfoldable pub join_device : Text → Text → Text
join_device base leaf = trim_end_slashes base ++ slash ∷ trim_start_slashes leaf
