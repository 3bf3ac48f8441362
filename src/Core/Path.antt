-- ===== src/Core/Path.antt =====
-- crates/core/src/path.rs: device paths, their parser and their display.
pub mod Laws
pub mod Roundtrip
use pereprava.Prelude.{
  ℕ, ◌≡◌, refl, Bool, true, false, not, ◌&&◌, ◌||◌, List, [], ◌∷◌, ◌++◌, if◌then◌else◌,
}
use pereprava.Prelude.Text.{Text, codes, text_eq, is_control, any_char, trim, split_slash, slash}
use pereprava.Core.Error.{Result, ok, err, invalid_argument, ◌>>=◌, ◌>>◌}

pub record DevPath : Type 0 where
  pub storage_ref : Text
  pub segments : List Text

unfoldable pub is_empty : Text → Bool
is_empty [] = true
is_empty (c ∷ s) = false

-- `parts.remove(0)` where the first part is empty
drop_first_empty : List Text → List Text
drop_first_empty [] = []
drop_first_empty (p ∷ ps) = if is_empty p then ps else p ∷ ps

-- `parts.pop()` where the last part is empty
drop_last_empty : List Text → List Text
drop_last_empty [] = []
drop_last_empty (p ∷ []) = if is_empty p then [] else p ∷ []
drop_last_empty (p ∷ q ∷ ps) = p ∷ drop_last_empty (q ∷ ps)

-- The tests of the loop body, in its order.
pub check_part : Text → Result (Unit {0})
unfolding is_empty
check_part p =
    if text_eq p (codes "..") || text_eq p (codes ".")
    then err invalid_argument
    else if is_empty (trim p)
    then err invalid_argument
    else if any_char is_control p
    then err invalid_argument
    else ok tt

pub check_parts : List Text → Result (Unit {0})
unfolding check_part
check_parts [] = ok tt
check_parts (p ∷ ps) = check_part p >> check_parts ps

from_parts : List Text → DevPath
from_parts [] = record { storage_ref = []; segments = [] }
from_parts (p ∷ ps) = record { storage_ref = p; segments = ps }

path_parts : Text → List Text
unfolding drop_first_empty drop_last_empty
path_parts input = drop_last_empty (drop_first_empty (split_slash (trim input)))

-- `DevPath::parse`
unfoldable pub parse : Text → Result DevPath
unfolding path_parts check_parts from_parts
parse input = check_parts (path_parts input) >> ok (from_parts (path_parts input))

-- `DevPath::is_root`
unfoldable pub is_root : DevPath → Bool
unfolding is_empty
is_root p = is_empty p.storage_ref

-- A slash in front of each segment.
unfoldable pub push_segments : List Text → Text
push_segments [] = []
push_segments (s ∷ ss) = slash ∷ (s ++ push_segments ss)

-- `DevPath::display`
unfoldable pub display : DevPath → Text
unfolding is_root push_segments
display p = if is_root p then slash ∷ [] else slash ∷ (p.storage_ref ++ push_segments p.segments)
