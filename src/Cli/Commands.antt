-- ===== src/Cli/Commands.antt =====
-- crates/cli/src/commands.rs: `mv` and the helpers that it uses.
pub mod Moving
pub mod Splitting
use pereprava.Prelude.{
  ℕ, zero, suc, Bool, true, false, not, ◌&&◌, ◌||◌, ◌==◌, Option, none, some, List, [], ◌∷◌,
  if◌then◌else◌,
}
use pereprava.Prelude.Text.{Text, slash, contains, text_eq, trim, trim_end_slashes}
use pereprava.Core.Error.{Error, Result, ok, err}
use pereprava.Core.Names.{Unicode}
use pereprava.Core.Path.{parse, is_empty}
use pereprava.Core.Actor.Device.{Device}
use pereprava.Core.Actor.Monad.{pure, ◌>>=◌, ◌>>◌}
use pereprava.Core.Actor.State.{ActorState, Handler}
use pereprava.Core.Actor.Lookup.{Resolved, resolve}
use pereprava.Core.Actor.Tree.{rename, move_into}
use pereprava.Core.Ops.Stats.{join_device}

-- Why `mv` refuses, and what it prints otherwise.
pub data Moved : Type 0 where
  moved : Text → Moved
  renamed moved_and_renamed : Moved
  already_exists not_absolute parent_is_root no_leaf not_a_directory no_directory : Moved

-- Whether it is a `bail!` of the command itself.
abbrev pub is_refusal : Moved → Bool
is_refusal (moved _) = false
is_refusal renamed = false
is_refusal moved_and_renamed = false
is_refusal already_exists = true
is_refusal not_absolute = true
is_refusal parent_is_root = true
is_refusal no_leaf = true
is_refusal not_a_directory = true
is_refusal no_directory = true

abbrev pub prepend : ℕ → Text × Text → Text × Text
prepend c (before, after) = (c ∷ before, after)

-- The texts before and after the last slash, which `rfind('/')` finds.
unfoldable pub split_last : Text → Option (Text × Text)
split_last [] = none
split_last (c ∷ s) =
    let rest = split_last s in
    elim rest [
      | some parts ↦ some (prepend c parts)
      | none ↦ if c == slash then some ([], s) else none
    ]

-- The tests of `split_device_parent_leaf` on the two parts.
unfoldable pub both_named : Option (Text × Text) → Option (Text × Text)
unfolding is_empty
both_named none = none
both_named (some (parent, leaf)) =
    if is_empty parent || is_empty leaf then none else some (parent, leaf)

-- `split_device_parent_leaf`
unfoldable pub split_device_parent_leaf : Text → Option (Text × Text)
unfolding split_last both_named
split_device_parent_leaf path = both_named (split_last (trim path))

-- `is_same_parent`
unfoldable pub is_same_parent : Resolved → Resolved → Bool
is_same_parent src dst = src.storage_index == dst.storage_index && dst.handle == src.entry.parent

-- The parent and the leaf that the destination of `mv` names, or why it names none.
pub data Target : Type 0 where
  target : Text → Text → Target
  refused : Moved → Target

unfoldable pub bare_target : Text → Text → Target
unfolding split_last is_empty
bare_target from to = elim (split_last (trim_end_slashes from)) [
  | none ↦ refused not_absolute
  | some (parent, leaf) ↦ if is_empty parent then refused parent_is_root else target parent to
]

unfoldable pub mv_target : Text → Text → Target
unfolding bare_target split_device_parent_leaf
mv_target from to =
    if not (contains slash to) then bare_target from to else elim (split_device_parent_leaf to) [
      | none ↦ refused no_leaf
      | some (parent, leaf) ↦ target parent leaf
    ]

-- What `ensure_parent_exists` answers, with the refusal as a value.
abbrev pub missing : Result Resolved → Option Moved
missing (err e) = some no_directory
missing (ok r) = if r.entry.is_dir then none else some not_a_directory

module _ (u : Unicode) {D : Device} where
  -- A call whose failure the command looks at.
  abbrev pub attempt : {A : Type 0} → Handler D A → Handler D (Result A)
  attempt m s = let (r, t) = m s in (ok r, t)

  -- `ensure_parent_exists`
  unfoldable pub ensure_parent_exists : Text → Handler D (Option Moved)
  ensure_parent_exists remote_dir = do
    there ← attempt (resolve u D remote_dir false)
    pure (missing there)

  -- Renaming, where the name differs.
  unfoldable pub rename_unless : Text → Text → Text → Handler D (Unit {0})
  rename_unless path name leaf =
      if text_eq name leaf then pure tt else (do rename u D path leaf; pure tt)

  unfoldable pub mv_within : Text → Text → Text → Handler D Moved
  unfolding rename_unless
  mv_within from parent leaf = do
    src ← resolve u D from false
    dst_dir ← resolve u D parent false
    if is_same_parent src dst_dir
        then (do rename_unless from src.entry.name leaf; pure renamed)
        else do
          e ← move_into u D from parent
          rename_unless (join_device parent e.name) e.name leaf
          pure moved_and_renamed

  -- Unless the parent was refused.
  unfoldable pub mv_checked : Text → Text → Text → Option Moved → Handler D Moved
  unfolding mv_within
  mv_checked from parent leaf (some why) = pure why
  mv_checked from parent leaf none = mv_within from parent leaf

  unfoldable pub mv_to : Text → Target → Handler D Moved
  unfolding mv_checked ensure_parent_exists
  mv_to from (refused why) = pure why
  mv_to from (target parent leaf) = do
    why_not ← ensure_parent_exists parent
    mv_checked from parent leaf why_not

  -- By what the destination resolves to.
  unfoldable pub mv_onto : Text → Text → Result Resolved → Handler D Moved
  unfolding mv_to mv_target
  mv_onto from to (err e) = mv_to from (mv_target from to)
  mv_onto from to (ok found) =
      if found.entry.is_dir
      then (do e ← move_into u D from to; pure (moved e.name))
      else pure already_exists

  -- `mv`, once both paths are accepted and a phone is open.
  unfoldable pub mv_body : Text → Text → Handler D Moved
  unfolding mv_onto
  mv_body from to = do hit ← attempt (resolve u D to false); mv_onto from to hit
