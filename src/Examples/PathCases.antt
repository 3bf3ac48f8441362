-- ===== src/Examples/PathCases.antt =====
-- Paths.
use pereprava.Core.Ops.Joining.{child, parse-join_device}
use pereprava.Core.Ops.Stats.{join_device}
use pereprava.Prelude.{◌≡◌, refl, [], ◌∷◌}
use pereprava.Prelude.Text.{
  codes, trim, trim_start, trim_end, text_eq, split_slash, is_whitespace, is_control, any_char,
  push_head, keep_nonblank,
}
use pereprava.Core.Error.{ok, err, invalid_argument}
use pereprava.Core.Path.{DevPath, parse, display, is_root, is_empty}
use pereprava.Core.Path.Laws.{IsValid, parse-IsValid, IsPart}
use pereprava.Core.Path.Roundtrip.{parse-display}

abbrev camera_path : DevPath
camera_path = record { storage_ref = codes "1"; segments = codes "DCIM" ∷ codes "Camera" ∷ [] }

parses : parse (codes "  /1/DCIM/Camera/ ") ≡ ok camera_path
unfolding parse trim trim_start trim_end text_eq split_slash is_whitespace is_control any_char
    push_head
parses = refl

rejects_dots : parse (codes "/a/../b") ≡ err invalid_argument
unfolding parse trim trim_start trim_end text_eq split_slash is_whitespace is_control any_char
    push_head
rejects_dots = refl

rejects_double_slash : parse (codes "//x") ≡ err invalid_argument
unfolding parse trim trim_start trim_end text_eq split_slash is_whitespace is_control any_char
    push_head
rejects_double_slash = refl

parse-IsValid_example : IsValid camera_path
parse-IsValid_example = parse-IsValid (codes "  /1/DCIM/Camera/ ") camera_path parses

parse-display_example : parse (display camera_path) ≡ ok camera_path
unfolding display trim_end is_whitespace is_root
parse-display_example = parse-display camera_path parse-IsValid_example refl

photo-IsPart : IsPart (codes "A")
unfolding any_char text_eq trim trim_start trim_end is_whitespace is_empty is_control keep_nonblank
photo-IsPart = record {
  no_slash = refl;
  not_dot = refl;
  not_dot_dot = refl;
  not_blank = refl;
  no_control = refl;
}

photo_trimmed : trim_end (codes "A") ≡ codes "A"
unfolding trim_end is_whitespace keep_nonblank
photo_trimmed = refl

parse-join_device_example :
    parse (join_device (display camera_path) (codes "A")) ≡ ok (child camera_path (codes "A"))
parse-join_device_example =
    parse-join_device camera_path (codes "A") parse-IsValid_example photo-IsPart photo_trimmed
