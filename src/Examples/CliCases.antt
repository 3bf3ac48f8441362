-- ===== src/Examples/CliCases.antt =====
-- The command line program: the status file, the watch loop and the bundles.
use pereprava.Prelude.{
  ℕ, ◌≡◌, refl, Bool, true, false, Option, none, some, List, [], ◌∷◌, ◌++◌, last?, if◌then◌else◌,
  sym, ap, ◌∙◌,
}
use pereprava.Prelude.Text.{Text, codes, text_eq}
use pereprava.Core.Error.{Result, ok}
use pereprava.Core.Ops.Local.{LocalPath, FileType, file_name, normal, all_but_last}
use pereprava.Nfs.State.{new_detached, attach}
use pereprava.Cli.Json.{text, json_escape, read_json, read_json-json_escape}
use pereprava.Cli.Watch.{Host, Watch, round}
use pereprava.Cli.Watch.Steady.{IsTruthful, Writes, round-IsTruthful}
use pereprava.Cli.Bundle.Disk.{
  TreeDisk, Member, regular, is_unsafe_archive_path, with_extension, stem_of,
}
use pereprava.Cli.Bundle.Unpack.{
  no_counts, backup_of, promote, unpack_members, unpack_member, unpack_counted, count_member,
}
use pereprava.Cli.Bundle.Promotion.{IsLawfulAt, Promoted, is_there, promote_replaces}
use pereprava.Cli.Bundle.Limits.{unpack_members_inside}
use pereprava.Cli.Bundle.Totals.{IsWithin, unpack_members-IsWithin}
use pereprava.Examples.CacheCases.{ascii}
use pereprava.Examples.Phone.{phone_device}
use pereprava.Examples.Phone.Camera.{camera_state}
use pereprava.Examples.CommandCases.{phone_usb}

read_json-json_escape_example :
    read_json text (json_escape (codes "A\"1") ++ codes "\",") ≡ some (codes "A\"1", codes ",")
read_json-json_escape_example = read_json-json_escape (codes "A\"1") (codes ",")

-- A system on which no command can be started, with the phone plugged in and a status file that can
-- be written.
abbrev quiet : Host phone_device
quiet = record {
  State = Unit {0};
  usb = phone_usb;
  output = λ prog args s. (none, s);
  actor_runs = λ s. (true, s);
  ping_in_time = λ s. (true, s);
  device_of = λ p s. none;
  create_status_dir = λ s. (true, s);
  close_status_dir = λ s. (true, s);
  create_temp = λ n s. (true, s);
  write_temp = λ n st s. (true, s);
  sync_temp = λ n s. (true, s);
  open_temp = λ n s. s;
  rename_temp = λ n s. (true, s);
  remove_temp = λ n s. s;
}

quiet-Writes : Writes ascii phone_device quiet
quiet-Writes = record {
  made = λ s. refl;
  closed = λ s. refl;
  created = λ n s. refl;
  written = λ n st s. refl;
  synced = λ n s. refl;
  renamed = λ n s. refl;
}

abbrev volume : LocalPath
volume = record { absolute = true; parts = codes "Volumes" ∷ codes "pereprava" ∷ [] }

abbrev started : Watch ascii phone_device quiet
started = record {
  nfs = new_detached phone_device 0 true;
  host = tt;
  bus = 0;
  mounted = false;
  used_path = [];
  last_model = [];
  published = [];
  counter = 0;
}

round-IsTruthful_example :
    IsTruthful ascii phone_device quiet (round ascii phone_device quiet 34567 volume started)
round-IsTruthful_example =
    round-IsTruthful ascii phone_device quiet quiet-Writes 34567 volume started

abbrev with_phone : Watch ascii phone_device quiet
with_phone = record started { nfs = attach phone_device camera_state started.nfs }

data Place : Type 0 where
  staged there aside elsewhere : Place

same : Place → Place → Bool
same staged staged = true
same there there = true
same aside aside = true
same elsewhere elsewhere = true
same _ _ = false

named : Text → Place
named s =
    if text_eq s (codes "new")
    then staged
    else if text_eq s (codes "out")
    then there
    else if text_eq s (codes "out.pereprava-old")
    then aside
    else elsewhere

place_of : Option Text → Place
unfolding named
place_of none = elsewhere
place_of (some s) = named s

place : LocalPath → Place
unfolding place_of
place p = place_of (last? p.parts)

put : Place → Option ℕ → (Place → Option ℕ) → Place → Option ℕ
unfolding same
put q v s x = if same x q then v else s x

-- A disk of three places, each with a tree that is a number or with none.
abbrev shelf : TreeDisk
shelf = record {
  State = Place → Option ℕ;
  Builder = Unit {0};
  pid = 7;
  remove_dir_all = λ p s. (true, put (place p) none s);
  create_dir_all = λ p s. (ok tt, s);
  rename = λ p q s. (ok tt, put (place q) (s (place p)) s);
  exists = λ p s. is_there (s (place p));
  open_archive = λ p s. (ok [], s);
  unpack_in = λ m p s. (ok tt, s);
  create_builder = λ p s. (ok tt, s);
  append_dir = λ b p q s. (ok tt, s);
  append_file = λ b p q s. (ok tt, s);
  finish = λ b s. (ok tt, s);
  inode = λ p s. (ok (0, 0), s);
  read_sorted = λ p s. (ok [], s);
  file_type = λ p s. (ok FileType.regular, s);
  file_len = λ p s. 0;
}

abbrev new_tree : LocalPath
new_tree = record { absolute = false; parts = codes "new" ∷ [] }

abbrev out_tree : LocalPath
out_tree = record { absolute = false; parts = codes "out" ∷ [] }

put-same : (q : Place) (v : Option ℕ) (s : Place → Option ℕ) → put q v s q ≡ v
unfolding put same
put-same staged v s = refl
put-same there v s = refl
put-same aside v s = refl
put-same elsewhere v s = refl

renamed :
    (p q : LocalPath) (s s' : Place → Option ℕ)
    → shelf.rename p q s ≡ (ok tt, s')
    → s' (place q) ≡ s (place p)
renamed p q s s' e =
    ap (λ (t : Place → Option ℕ). t (place q))
      (sym (ap (λ (x : Result (Unit {0}) × (Place → Option ℕ)). x.1) e))
    ∙ put-same (place q) (s (place p)) s

aside_path : LocalPath
aside_path = backup_of shelf out_tree

shelf-IsLawfulAt : IsLawfulAt shelf ℕ new_tree out_tree (backup_of shelf out_tree)
unfolding put place place_of named same text_eq with_extension file_name normal all_but_last stem_of
shelf-IsLawfulAt = record {
  tree = λ s p. s (place p);
  exists-tree = λ p s. refl;
  rename-done = λ p q s s' e. renamed p q s s' e;
  rename-failed =
      λ p q s s' x e. absurd (cc (ap (λ (y : Result (Unit {0}) × (Place → Option ℕ)). y.0) e));
  rename-dest_backup = λ s s' e.
      ap (λ (t : Place → Option ℕ). t staged)
        (sym (ap (λ (x : Result (Unit {0}) × (Place → Option ℕ)). x.1) e));
  remove-backup = λ s. (refl, refl);
}

abbrev before : Place → Option ℕ
before = λ x. elim x [ staged ↦ some 2 | there ↦ some 1 | aside ↦ none | elsewhere ↦ none ]

at_new : shelf-IsLawfulAt.tree before new_tree ≡ some 2
unfolding shelf-IsLawfulAt place place_of named text_eq
at_new = refl

at_out : shelf-IsLawfulAt.tree before out_tree ≡ some 1
unfolding shelf-IsLawfulAt place place_of named text_eq
at_out = refl

promote_replaces_example :
    Promoted shelf-IsLawfulAt (some 2) 1 (promote shelf new_tree out_tree before)
promote_replaces_example = promote_replaces shelf-IsLawfulAt (some 2) 1 before at_new at_out

abbrev here : LocalPath
here = record { absolute = false; parts = [] }

abbrev members : List (Result Member)
members =
    ok (record {
      path = record { absolute = false; parts = codes "a.txt" ∷ [] };
      kind = regular;
      size = 3;
    })
    ∷ []

unpack_members_inside_example :
    (unpack_members shelf new_tree members no_counts before).1 there ≡ some 1
unpack_members_inside_example =
    unpack_members_inside shelf new_tree (λ s. s there ≡ some 1) (λ m s below h. h) members
      no_counts before refl

one_file :
    (unpack_members shelf new_tree members no_counts before).0
    ≡ ok (record { files = 1; dirs = 0; raw = 3 })
unfolding unpack_members unpack_member unpack_counted count_member is_unsafe_archive_path text_eq
one_file = refl

unpack_members-IsWithin_example : IsWithin members (record { files = 1; dirs = 0; raw = 3 })
unpack_members-IsWithin_example =
    unpack_members-IsWithin shelf new_tree members before (record { files = 1; dirs = 0; raw = 3 })
      one_file
