-- ===== src/Cli/Bundle/Limits.antt =====
-- Where an archive can write when it is extracted.
use pereprava.Prelude.{◌≡◌, ◌≢◌, false, Option, none, some, List, [], ◌∷◌, All, arith}
use pereprava.Prelude.Text.{Text, codes, text_eq, text_eq_iff}
use pereprava.Core.Error.{Result, ok, err, io}
use pereprava.Core.Actor.Monad.{lift}
use pereprava.Core.Actor.Coherence.Rules.{Ensures-if}
use pereprava.Core.Ops.Local.{LocalPath}
use pereprava.Core.Ops.Outside.{
  Keeps, Keeps-of, at_end, Keeps-bind, Keeps-if, Keeps-pure, Keeps-fail, Keeps-lift,
}
use pereprava.Cli.Bundle.Disk.{TreeDisk, Member, is_unsafe_archive_path, has_parent_dir}
use pereprava.Cli.Bundle.Unpack.{
  Counts, count_member, unpack_counted, unpack_member, unpack_members,
}

-- Relative, and never a step up.
pub record StaysBelow (p : LocalPath) : Type 0 where
  pub relative : p.absolute ≡ false
  pub down : All (λ s. s ≢ codes "..") p.parts

not_up : (p : Text) → p ≡ codes ".." → text_eq p (codes "..") ≡ false → ⊥
not_up p e h = cc ((text_eq_iff p (codes "..")).1 e)

has_parent_dir-All : (ps : List Text) → has_parent_dir ps ≡ false → All (λ s. s ≢ codes "..") ps
unfolding has_parent_dir
has_parent_dir-All [] h = tt
has_parent_dir-All (p ∷ ps) h =
    (λ e. not_up p e (ground arith), has_parent_dir-All ps (ground arith))

is_unsafe-StaysBelow : (p : LocalPath) → is_unsafe_archive_path p ≡ false → StaysBelow p
unfolding is_unsafe_archive_path
is_unsafe-StaysBelow p h = record {
  relative = ground arith;
  down = has_parent_dir-All p.parts (ground arith);
}

module _ (F : TreeDisk) (staging : LocalPath) where
  module _ (P : F.State → Type 0)
      (extracts : (m : Member) (s : F.State)
        → StaysBelow m.path
        → P s
        → P (F.unpack_in m staging s).1) where
    unpack_counted-Keeps :
        (m : Member) (n : Counts) (o : Option Counts)
        → StaysBelow m.path
        → Keeps P (unpack_counted F staging m n o)
    unfolding unpack_counted
    unpack_counted-Keeps m n none below = Keeps-pure P n
    unpack_counted-Keeps m n (some n') below =
        Keeps-if P _ _ _ (λ _. Keeps-fail P io)
          (Keeps-bind P (F.unpack_in m staging) _
            (Keeps-of P (F.unpack_in m staging) (λ s h. extracts m s below h)) λ _. Keeps-pure P n')

    unpack_member-Keeps : (m : Member) (n : Counts) → Keeps P (unpack_member F staging m n)
    unfolding unpack_member
    unpack_member-Keeps m n =
        Ensures-if _ _ _ (is_unsafe_archive_path m.path) _ _ (λ _. Keeps-fail P io)
          λ safe.
            Keeps-bind P (lift (count_member m m.kind n)) _ (Keeps-lift P (count_member m m.kind n))
              λ o. unpack_counted-Keeps m n o (is_unsafe-StaysBelow m.path safe)

    unpack_members-Keeps :
        (ms : List (Result Member)) (n : Counts) → Keeps P (unpack_members F staging ms n)
    unfolding unpack_members
    unpack_members-Keeps [] n = Keeps-pure P n
    unpack_members-Keeps (err e ∷ ms) n = Keeps-fail P e
    unpack_members-Keeps (ok m ∷ ms) n =
        Keeps-bind P (unpack_member F staging m n) _ (unpack_member-Keeps m n)
          λ n'. unpack_members-Keeps ms n'

    -- Whatever names an archive holds, nothing happens outside the staging directory: what no extraction
    -- of a relative name without `..` changes, is not changed by the extraction of the archive, whether
    -- it succeeds or fails.
    pub unpack_members_inside :
        (ms : List (Result Member)) (n : Counts) (s : F.State)
        → P s
        → P (unpack_members F staging ms n s).1
    unpack_members_inside ms n s h =
        at_end P (unpack_members F staging ms n) (unpack_members-Keeps ms n) s h
