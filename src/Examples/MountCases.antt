-- ===== src/Examples/MountCases.antt =====
-- Mounting.
use pereprava.Prelude.{◌≡◌, refl, some, [], ◌∷◌, ◌++◌, inl, true, false}
use pereprava.Prelude.Text.{
  codes, any_char, trim, trim_start, trim_end, is_whitespace, text_eq, split_slash, push_head,
}
use pereprava.Core.Path.{is_empty}
use pereprava.Core.Ops.Local.{LocalPath, components, drop_here, starts_with_slash}
use pereprava.Nfs.Mount.{
  sh_quote, mounted_path, normalize_export, lines, find_marker, strip_prefix, osascript_escape,
  path_from,
}
use pereprava.Nfs.Mount.Quoting.{
  bare, read_word, read_word-sh_quote, read_text, read_text-osascript_escape,
}
use pereprava.Nfs.Mount.Exporting.{normalize_export_slashes}

quotes_quote : sh_quote (codes "/Volumes/a'b") ≡ codes "'/Volumes/a'" ++ b'\\' ∷ codes "''b'"
unfolding sh_quote
quotes_quote = refl

read_word-sh_quote_example :
    read_word bare (sh_quote (codes "/Volumes/a'b") ++ codes " && x")
    ≡ some (codes "/Volumes/a'b", codes " && x")
read_word-sh_quote_example = read_word-sh_quote (codes "/Volumes/a'b") (codes " && x") (inl refl)

abbrev third : LocalPath
third = record { absolute = true; parts = codes "Volumes" ∷ codes "pereprava-3" ∷ [] }

finds_marker :
    mounted_path (codes "noise" ++ 10 ∷ (codes "PEREPRAVA_MOUNTED=/Volumes/pereprava-3" ++ 10 ∷ []))
    ≡ some third
unfolding mounted_path lines find_marker strip_prefix trim trim_start trim_end is_whitespace
    is_empty components drop_here split_slash push_head text_eq starts_with_slash path_from
finds_marker = refl

normalize_export_slashes_example : normalize_export (codes "//") ≡ []
unfolding any_char
normalize_export_slashes_example = normalize_export_slashes [] refl

read_text-osascript_escape_example :
    read_text false
      (osascript_escape (codes "umount 'x'") ++ codes "\" with administrator privileges")
    ≡ some (codes "umount 'x'", codes " with administrator privileges")
read_text-osascript_escape_example =
    read_text-osascript_escape (codes "umount 'x'") (codes " with administrator privileges")
