-- ===== src/Nfs/Mount.antt =====
-- crates/nfs-mount/src/mount.rs: attaching the server as a volume, by shell scripts.
pub mod Quoting
pub mod Exporting
use pereprava.Prelude.{
  ℕ, ◌+◌, ◌-◌, Bool, true, false, not, ◌&&◌, ◌||◌, ◌==◌, ltb, Option, none, some, List, [], ◌∷◌,
  ◌++◌, map, if◌then◌else◌,
}
use pereprava.Prelude.Text.{Text, codes, text_eq, slash, trim, trim_end_slashes}
use pereprava.Core.Path.{is_empty}
use pereprava.Core.Ops.Local.{
  LocalPath, join, file_name, all_but_last, decimal, components, starts_with_slash,
}

-- `str::replace` of one character by a text
unfoldable pub replace : ℕ → Text → Text → Text
replace c by [] = []
replace c by (d ∷ s) = let rest = replace c by s in if d == c then by ++ rest else d ∷ rest

-- `sh_quote`
unfoldable pub sh_quote : Text → Text
unfolding replace
sh_quote s = b'\'' ∷ (replace b'\'' (b'\'' ∷ b'\\' ∷ b'\'' ∷ b'\'' ∷ []) s ++ b'\'' ∷ [])

-- `osascript_escape`
unfoldable pub osascript_escape : Text → Text
unfolding replace
osascript_escape script =
    replace b'"' (b'\\' ∷ b'"' ∷ []) (replace b'\\' (b'\\' ∷ b'\\' ∷ []) script)

unfoldable pub parent_or_root : LocalPath → List Text → LocalPath
parent_or_root p [] = record { absolute = true; parts = [] }
parent_or_root p (s ∷ ss) = record p { parts = all_but_last (s ∷ ss) }

numbered : LocalPath → Text → ℕ → LocalPath
numbered parent name n = join parent (name ++ (b'-' ∷ decimal n))

-- `mount_candidates`
unfoldable pub mount_candidates : LocalPath → List LocalPath
unfolding parent_or_root numbered
mount_candidates mount_point =
    let name : Text = elim (file_name mount_point) [ none ↦ codes "pereprava" | some s ↦ s ] in
    mount_point
    ∷ map (numbered (parent_or_root mount_point mount_point.parts) name)
        (2 ∷ 3 ∷ 4 ∷ 5 ∷ 6 ∷ 7 ∷ 8 ∷ 9 ∷ [])

-- The export path: a leading slash, and none at the end.
unfoldable pub normalize_export : Text → Text
normalize_export export =
    if is_empty export || text_eq export (slash ∷ [])
    then slash ∷ []
    else if starts_with_slash export
    then trim_end_slashes export
    else slash ∷ trim_end_slashes export

push_parts : List Text → Text
push_parts [] = []
push_parts (p ∷ []) = p
push_parts (p ∷ q ∷ ps) = p ++ slash ∷ push_parts (q ∷ ps)

-- `Path::display`
unfoldable pub display_path : LocalPath → Text
unfolding push_parts
display_path p = if p.absolute then slash ∷ push_parts p.parts else push_parts p.parts

-- `MOUNTED_MARKER`
abbrev pub marker : Text
marker = codes "PEREPRAVA_MOUNTED="

-- The line of the script that tries one mount point.
mount_line : ℕ → Text → LocalPath → Text
mount_line port source c =
    let mp = sh_quote (display_path c) in
    codes "mkdir -p "
    ++ (mp
        ++ (codes " && /sbin/mount_nfs -o soft,nolocks,vers=3,tcp,rsize=1048576,wsize=1048576,"
            ++ (codes "retry=1,retrans=2,timeo=50,port="
                ++ (decimal port
                    ++ (codes ",mountport="
                        ++ (decimal port
                            ++ (b' '
                                ∷ (source
                                    ++ (b' '
                                        ∷ (mp
                                            ++ (codes " && { printf '"
                                                ++ (marker
                                                    ++ (codes "%s"
                                                        ++ (b'\\'
                                                            ∷ (codes "n' "
                                                            ++ (mp
                                                            ++ (codes "; exit 0; }"
                                                            ++ (10 ∷ []))))))))))))))))))

mount_lines : ℕ → Text → List LocalPath → Text
unfolding mount_line
mount_lines port source [] = codes "exit 1" ++ (10 ∷ [])
mount_lines port source (c ∷ cs) = mount_line port source c ++ mount_lines port source cs

unfoldable pub mount_script : ℕ → LocalPath → Text → Text
unfolding mount_lines
mount_script port mount_point export =
    mount_lines port (sh_quote (codes "127.0.0.1:" ++ normalize_export export))
      (mount_candidates mount_point)

-- `str::lines`: at each line feed, less a carriage return before it; an empty last line is none.
drop_return : Text → Text
drop_return [] = []
drop_return (c ∷ []) = if c == 13 then [] else c ∷ []
drop_return (c ∷ d ∷ s) = c ∷ drop_return (d ∷ s)

lines_from : Text → Text → List Text
unfolding drop_return
lines_from line [] = if is_empty line then [] else line ∷ []
lines_from line (c ∷ s) = elim (c == 10) [
  | true ↦ drop_return line ∷ lines_from [] s
  | false ↦ lines_from (line ++ c ∷ []) s
]

unfoldable pub lines : Text → List Text
unfolding lines_from
lines s = lines_from [] s

-- `str::strip_prefix`
unfoldable pub strip_prefix : Text → Text → Option Text
strip_prefix [] s = some s
strip_prefix (c ∷ p) [] = none
strip_prefix (c ∷ p) (d ∷ s) = let rest = strip_prefix p s in if c == d then rest else none

unfoldable pub find_marker : List Text → Option Text
find_marker [] = none
find_marker (l ∷ ls) = elim (strip_prefix marker (trim l)) [
  | none ↦ find_marker ls
  | some s ↦ some s
]

-- `PathBuf::from`
unfoldable pub path_from : Text → LocalPath
path_from s = record { absolute = starts_with_slash s; parts = components s }

unless_empty : Text → Option LocalPath
unless_empty s = if is_empty s then none else some (path_from s)

-- `mounted_path`
unfoldable pub mounted_path : Text → Option LocalPath
unfolding unless_empty
mounted_path stdout = elim (find_marker (lines stdout)) [
  | none ↦ none
  | some p ↦ unless_empty (trim p)
]

unfoldable pub unmount_script : LocalPath → Text
unmount_script mount_point =
    let mp = sh_quote (display_path mount_point) in
    codes "/sbin/umount " ++ (mp ++ (codes " 2>/dev/null || /sbin/umount -f " ++ mp))

-- What follows `-e` for `osascript`.
unfoldable pub with_privileges : Text → Text
with_privileges script =
    codes "do shell script "
    ++ (b'"' ∷ (osascript_escape script ++ (b'"' ∷ codes " with administrator privileges")))

-- `sh_out`: a program runs and exits well, or the caller fails.
pub record Shell : Type 1 where
  pub State : Type 0
  pub sh_out : Text → List Text → State → Option Text × State

no_parts : List Text → Bool
no_parts [] = true
no_parts (p ∷ ps) = false

exited_well : Option Text → Bool
exited_well none = false
exited_well (some out) = true

reported : Option Text → Option LocalPath
reported none = none
reported (some out) = mounted_path out

module _ (S : Shell) where
  -- The script as the user, and then by the system's dialog.
  run_privileged : Text → S.State → Option Text × S.State
  run_privileged script =
      S.sh_out (codes "/usr/bin/osascript") (codes "-e" ∷ with_privileges script ∷ [])

  run_plain : Text → S.State → Option Text × S.State
  run_plain script = S.sh_out (codes "/bin/sh") (codes "-c" ∷ script ∷ [])

  with_dialog : Text → S.State → Option LocalPath × S.State
  unfolding run_privileged reported
  with_dialog script s = let (out, t) = run_privileged script s in (reported out, t)

  attach : Text → Option LocalPath × S.State → Option LocalPath × S.State
  unfolding with_dialog
  attach script (some path, s) = (some path, s)
  attach script (none, s) = with_dialog script s

  run_mount : Text → S.State → Option LocalPath × S.State
  unfolding run_plain attach reported
  run_mount script s = let (out, t) = run_plain script s in attach script (reported out, t)

  -- `mount_export`; its error is `none`.
  unfoldable pub mount_export : ℕ → LocalPath → Text → S.State → Option LocalPath × S.State
  unfolding run_mount no_parts
  mount_export port mount_point export s =
      if mount_point.absolute && not (no_parts mount_point.parts)
      then run_mount (mount_script port mount_point export) s
      else (none, s)

  detach : Text → Option Text × S.State → Bool × S.State
  unfolding run_privileged exited_well
  detach script (some out, s) = (true, s)
  detach script (none, s) = let (out, t) = run_privileged script s in (exited_well out, t)

  -- `unmount`: whether the volume is detached.
  unfoldable pub unmount : LocalPath → S.State → Bool × S.State
  unfolding run_plain detach
  unmount mount_point s =
      detach (unmount_script mount_point) (run_plain (unmount_script mount_point) s)
