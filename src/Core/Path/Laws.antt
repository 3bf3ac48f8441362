-- ===== src/Core/Path/Laws.antt =====
-- What a parsed path looks like.
use pereprava.Prelude.{ℕ, ◌≡◌, refl, false, List, [], ◌∷◌, arith, All, ◌==◌}
use pereprava.Prelude.Text.{
  Text, codes, text_eq, is_control, any_char, trim, split_slash, push_head, slash, contains,
}
use mathlib.Core.Path.{subst}
use pereprava.Core.Error.{ok-injective, Result, ok, err, ◌>>◌}
use pereprava.Core.Path.{
  DevPath, is_empty, drop_first_empty, drop_last_empty, check_part, check_parts, from_parts,
  path_parts, parse,
}

-- A part that the parser accepts: one segment, not blank, not a dot form, without control
-- characters.
pub record IsPart (p : Text) : Type 0 where
  pub no_slash : contains slash p ≡ false
  pub not_dot : text_eq p (codes ".") ≡ false
  pub not_dot_dot : text_eq p (codes "..") ≡ false
  pub not_blank : is_empty (trim p) ≡ false
  pub no_control : any_char is_control p ≡ false

-- The device root, or a storage with parts below it.
pub data IsValid (p : DevPath) : Type 0 where
  root : p.storage_ref ≡ [] → p.segments ≡ [] → IsValid p
  below : IsPart p.storage_ref → All IsPart p.segments → IsValid p

abbrev HasNoSlash : Text → Type 0
HasNoSlash p = contains slash p ≡ false

push_head-All :
    (c : ℕ) (ps : List Text)
    → (c == slash) ≡ false
    → All HasNoSlash ps
    → All HasNoSlash (push_head c ps)
unfolding push_head any_char
push_head-All c [] h k = (rw h, tt)
push_head-All c (p ∷ ps) h k = (rw h k.0, k.1)

split_slash-All : (s : Text) → All HasNoSlash (split_slash s)
unfolding split_slash any_char
split_slash-All [] = (refl, tt)
split_slash-All (c ∷ s) = ground (arith, split_slash-All s, push_head-All c (split_slash s))

drop_first_empty-All : (ps : List Text) → All HasNoSlash ps → All HasNoSlash (drop_first_empty ps)
unfolding drop_first_empty
drop_first_empty-All [] h = tt
drop_first_empty-All (p ∷ ps) h = ground arith

drop_last_empty-All : (ps : List Text) → All HasNoSlash ps → All HasNoSlash (drop_last_empty ps)
unfolding drop_last_empty
drop_last_empty-All [] h = tt
drop_last_empty-All (p ∷ []) h = ground arith
drop_last_empty-All (p ∷ q ∷ ps) h = (h.0, drop_last_empty-All (q ∷ ps) h.1)

path_parts-All : (s : Text) → All HasNoSlash (path_parts s)
unfolding path_parts
path_parts-All s = drop_last_empty-All _ (drop_first_empty-All _ (split_slash-All (trim s)))

check_part-IsPart : (p : Text) → HasNoSlash p → check_part p ≡ ok tt → IsPart p
unfolding check_part
check_part-IsPart p h k = ground arith

pub IsPart-check_part : (p : Text) → IsPart p → check_part p ≡ ok tt
unfolding check_part
IsPart-check_part p h = ground arith

check_parts-IsPart : (ps : List Text) → All HasNoSlash ps → check_parts ps ≡ ok tt → All IsPart ps
unfolding check_parts
check_parts-IsPart [] h k = tt
check_parts-IsPart (p ∷ ps) h k = ground (arith, check_part-IsPart p h.0, check_parts-IsPart ps h.1)

pub IsPart-check_parts : (ps : List Text) → All IsPart ps → check_parts ps ≡ ok tt
unfolding check_parts
IsPart-check_parts [] h = refl
IsPart-check_parts (p ∷ ps) h = ground (arith, IsPart-check_part p h.0, IsPart-check_parts ps h.1)

from_parts-IsValid : (ps : List Text) → All IsPart ps → IsValid (from_parts ps)
unfolding from_parts
from_parts-IsValid [] h = root refl refl
from_parts-IsValid (p ∷ ps) h = below h.0 h.1

from_parts-IsValid_of :
    (ps : List Text) (p : DevPath) (r : Result (Unit {0}))
    → check_parts ps ≡ r
    → All HasNoSlash ps
    → (r >> ok (from_parts ps)) ≡ ok p
    → IsValid p
from_parts-IsValid_of ps p (ok _) c h k =
    subst IsValid (ok-injective k) (from_parts-IsValid ps (check_parts-IsPart ps h c))
from_parts-IsValid_of ps p (err e) c h k = cc

-- Every path that the parser returns is the device root, or a storage reference with segments below
-- it, and each of these is one part: not blank, neither `.` nor `..`, free of slashes and of control
-- characters.
pub parse-IsValid : (input : Text) (p : DevPath) → parse input ≡ ok p → IsValid p
unfolding parse
parse-IsValid input p h = from_parts-IsValid_of (path_parts input) p _ refl (path_parts-All input) h
