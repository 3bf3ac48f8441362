-- ===== src/Examples/OpsCases.antt =====
-- Pulling and pushing between the phone of Examples/Phone and a disk that keeps a journal.
use pereprava.Core.Actor.Device.{map_err}
use pereprava.Prelude.Maps.{get}
use pereprava.Core.Cache.{listing, is_fresh}
use pereprava.Core.Names.{names_eq_ci}
use pereprava.Core.Actor.State.{
  find_storage_index, children_of, storage, cached, use_cache, fetch_children, open_storage, call,
  remember, child_by_name,
}
use pereprava.Core.Actor.Tree.{mkdir_all, make_dirs}
use pereprava.Core.Actor.Coherence.{IsCoherent}
use pereprava.Core.Ops.Truthful.{push_tree-IsCoherent}
use pereprava.Core.Ops.Staged.{IsAbout, pull_file_failed}
use pereprava.Core.Actor.Lookup.{resolve, storage_index}
use pereprava.Core.Actor.Handle.{download_into, download_resolved}
use pereprava.Core.Ops.Stats.{one_dir, join_device, check_depth}
use pereprava.Core.Path.{is_empty, parse, is_root}
use mathlib.Core.Path.{subst}
use mathlib.Core.Option.{some-injective}
use pereprava.Prelude.{ap, Option, ◌≡◌, ◌≢◌, refl, true, some, none, List, [], ◌∷◌, All, arith}
use pereprava.Prelude.Text.{
  codes, any_char, text_eq, split_slash, push_head, trim, trim_start, trim_end, is_whitespace,
  trim_end_slashes, trim_start_slashes, keep_unless_slash, is_control, eq_ignore_ascii_case,
  to_ascii_lowercase, keep_nonblank,
}
use pereprava.Core.Error.{ok, Result, err, invalid_argument}
use pereprava.Core.Actor.Transfer.{bytes}
use pereprava.Core.Ops.Local.{
  LocalPath, Disk, regular, join, components, drop_here, starts_with_slash, file_name, normal,
}
use pereprava.Core.Ops.Pull.{
  World, pull_tree, pull_file, next_temp, on_disk, create_temp, stage_file, try_download,
  settle_file, remove_temp, on_actor,
}
use pereprava.Core.Ops.Push.{push_tree, push_contents, push_items}
use pereprava.Core.Ops.Inside.{Below, IsPlain}
use pereprava.Core.Ops.Outside.{IsOutside}
use pereprava.Core.Ops.Confined.{pull_tree_outside}
use pereprava.Core.Ops.Ends.{pull_tree-returns, push_tree-returns}
use pereprava.Examples.CacheCases.{ascii}
use pereprava.Examples.Phone.{phone_device, phone-IsLawful}
use pereprava.Examples.Phone.Camera.{camera_state, camera_state-IsCoherent}

-- The state is the list of the paths of all calls; each directory holds one file.
abbrev journal : Disk
journal = record {
  State = List LocalPath;
  File = LocalPath;
  DirItem = LocalPath;
  pid = 7;
  create_dir_all = λ p s. (ok tt, p ∷ s);
  create = λ p s. (some p, p ∷ s);
  write_all = λ f bs s. (ok tt, f ∷ s);
  flush = λ f s. (ok tt, f ∷ s);
  rename = λ p q s. (ok tt, p ∷ q ∷ s);
  remove_file = λ p s. p ∷ s;
  read_dir = λ p s. (ok (ok (record p { parts = codes "a" ∷ [] }) ∷ []), s);
  item_path = λ i. i;
  item_name = λ i. some (codes "a");
  file_type = λ i s. (ok regular, s);
  item_len = λ i s. (ok 2, s);
  open_file = λ p s. (ok (bytes (1 ∷ 2 ∷ []) ∷ []), s);
}

abbrev out : LocalPath
out = record { absolute = true; parts = codes "tmp" ∷ codes "out" ∷ [] }

journal-IsOutside : IsOutside journal out (λ s. All (Below out) s) (λ f. Below out f)
journal-IsOutside = record {
  create_dir_all-keeps = λ p s i h. (i, h);
  create-keeps = λ p s i h. (i, h);
  create-opens = λ p s s' f i e.
      subst (Below out) (some-injective p f (ap (λ (x : Option LocalPath × List LocalPath). x.0) e))
        i;
  write_all-keeps = λ f bs s q h. (q, h);
  flush-keeps = λ f s q h. (q, h);
  rename-keeps = λ p q s a b h. (a, (b, h));
  remove_file-keeps = λ p s i h. (i, h);
}

abbrev idle : World phone_device journal
idle = record { actor = camera_state; disk = []; counter = 0 }

pull_tree_outside_example :
    All (Below out) (pull_tree ascii 66 (codes "/internal/Camera") out idle).1.disk
pull_tree_outside_example =
    pull_tree_outside ascii journal-IsOutside 66 (codes "/internal/Camera") idle tt

pull_tree-returns_example : (pull_tree ascii 66 (codes "/internal/Camera") out idle).0 ≢ ok none
pull_tree-returns_example =
    pull_tree-returns ascii 66 (codes "/internal/Camera") out idle (omega arith)

push_tree-returns_example : (push_tree ascii 66 out (codes "/internal") idle).0 ≢ ok none
push_tree-returns_example = push_tree-returns ascii 66 out (codes "/internal") idle (omega arith)

abbrev photo_path : LocalPath
photo_path = record { absolute = true; parts = codes "tmp" ∷ codes "out" ∷ codes "A" ∷ [] }

journal-IsAbout :
    IsAbout journal photo_path (λ s. All (λ p. p ≢ photo_path) s) (λ f. f ≢ photo_path)
journal-IsAbout = record {
  create-keeps = λ p s n h. (n, h);
  create-opens = λ p s s' f n e.
      subst (λ q. q ≢ photo_path)
        (some-injective p f (ap (λ (x : Option LocalPath × List LocalPath). x.0) e)) n;
  write_all-keeps = λ f bs s q h. (q, h);
  flush-keeps = λ f s q h. (q, h);
  rename-failed =
      λ p q s s' e h. absurd (cc (ap (λ (x : Result (Unit {0}) × List LocalPath). x.0) h));
  remove_file-keeps = λ p s n h. (n, h);
}

photo_name-IsPlain : IsPlain (codes "A")
unfolding any_char is_empty text_eq
photo_name-IsPlain = record {
  no_slash = refl;
  not_empty = refl;
  not_dot = refl;
  not_dot_dot = refl;
}

destination : photo_path ≡ join out (codes "A")
unfolding join components drop_here starts_with_slash split_slash push_head is_empty text_eq
destination = refl

-- The device root is no file.
refused_root : (pull_file ascii (codes "/") photo_path one_dir idle).0 ≡ err invalid_argument
unfolding pull_file next_temp on_disk create_temp stage_file try_download download_into
    download_resolved resolve parse is_root trim trim_start trim_end is_whitespace split_slash
    settle_file remove_temp
refused_root = refl

pull_file_failed_example :
    All (λ p. p ≢ photo_path) (pull_file ascii (codes "/") photo_path one_dir idle).1.disk
pull_file_failed_example =
    pull_file_failed ascii journal-IsAbout (codes "/") out (codes "A") one_dir idle invalid_argument
      destination photo_name-IsPlain tt refused_root

-- A disk of empty directories.
abbrev empty_disk : Disk
empty_disk = record journal { read_dir = λ p s. (ok [], s) }

abbrev empty_idle : World phone_device empty_disk
empty_idle = record { actor = camera_state; disk = []; counter = 0 }

abbrev camera_dir : LocalPath
camera_dir = record { absolute = true; parts = codes "Camera" ∷ [] }

pushed_camera :
    (w : World phone_device empty_disk) × (push_tree ascii 2 camera_dir
        (codes "/internal")
        empty_idle
      ≡ (ok (some one_dir), w))
unfolding push_tree push_contents push_items file_name normal join_device trim_end_slashes
    trim_start_slashes keep_unless_slash on_actor on_disk mkdir_all make_dirs parse is_root is_empty
    trim trim_start trim_end is_whitespace is_control any_char text_eq split_slash push_head
    storage_index find_storage_index names_eq_ci eq_ignore_ascii_case to_ascii_lowercase children_of
    storage cached use_cache listing camera_state phone_device get is_fresh fetch_children
    open_storage call remember map_err check_depth child_by_name
pushed_camera = (_, refl)

push_tree-IsCoherent_example : IsCoherent phone-IsLawful pushed_camera.0.actor
push_tree-IsCoherent_example =
    push_tree-IsCoherent phone-IsLawful ascii empty_disk 2 camera_dir (codes "/internal") empty_idle
      pushed_camera.0 (some one_dir) camera_state-IsCoherent pushed_camera.1

join_internal :
    parse (join_device (codes "/internal") (codes "Camera"))
    ≡ ok (record { storage_ref = codes "internal"; segments = codes "Camera" ∷ [] })
unfolding join_device trim_end_slashes trim_start_slashes keep_unless_slash parse trim trim_start
    trim_end is_whitespace split_slash push_head text_eq is_empty is_control any_char keep_nonblank
join_internal = refl
