-- ===== src/Examples/Phone.antt =====
-- A phone with one storage, two directories and one photo, which can be renamed, moved between the
-- directories and deleted. It meets the assumptions on a device.
pub mod Camera
use pereprava.Prelude.{
  ℕ, ◌≡◌, refl, ap, ◌∙◌, ◌⊎◌, inr, Option, true, false, ◌&&◌, none, some, List, [], ◌∷◌, map, arith,
  ◌==◌, if◌then◌else◌, inl,
}
use pereprava.Prelude.Text.{Text, codes}
use pereprava.Core.Error.{MtpError}
use pereprava.Core.Cache.Parents.{Shows}
use pereprava.Core.Actor.Device.{Device, ObjectInfo, Reply, done, failed, UploadReply}
use pereprava.Core.Actor.State.{entry_of}
use pereprava.Core.Actor.Coherence.{IsLawful, dir_of, IsPartOf}

pub data Place : Type 0 where
  in_camera in_album gone : Place

pub record Phone : Type 0 where
  pub place : Place
  pub name : Text

abbrev folder : ℕ → Text → ObjectInfo
folder h name = record { handle = h; parent = 0; filename = name; is_folder = true; size = 0 }

abbrev photo : ℕ → Text → ObjectInfo
photo dir name = record { handle = 5; parent = dir; filename = name; is_folder = false; size = 3 }

camera_list : Place → Text → List ObjectInfo
camera_list in_camera name = photo 10 name ∷ []
camera_list _ name = []

album_list : Place → Text → List ObjectInfo
album_list in_album name = photo 11 name ∷ []
album_list _ name = []

unfoldable pub contents : Phone → ℕ → ℕ → List ObjectInfo
unfolding camera_list album_list
contents s sid d =
    if sid == 1
    then (if d == 0
        then folder 10 (codes "Camera") ∷ folder 11 (codes "Album") ∷ []
        else if d == 10
        then camera_list s.place s.name
        else if d == 11
        then album_list s.place s.name
        else [])
    else []

abbrev missing : {A : Type 0} → Phone → Reply A × Phone
missing s = (failed MtpError.not_found, s)

on_photo : {A : Type 0} → Place → ℕ → ℕ → Reply A × Phone → Phone → Reply A × Phone
on_photo gone g h act s = missing s
on_photo in_camera g h act s = if (g == 1) && (h == 5) then act else missing s
on_photo in_album g h act s = if (g == 1) && (h == 5) then act else missing s

info_of : Place → Text → ObjectInfo
info_of in_camera name = photo 10 name
info_of _ name = photo 11 name

open_one : ℕ → Phone → Reply ℕ × Phone
open_one sid s = if sid == 1 then (done 1, s) else missing s

delete_one : ℕ → ℕ → Phone → Reply (Unit {0}) × Phone
unfolding on_photo
delete_one g h s = on_photo s.place g h (done tt, record s { place = gone }) s

rename_one : ℕ → ℕ → Text → Phone → Reply (Unit {0}) × Phone
unfolding on_photo
rename_one g h name s = on_photo s.place g h (done tt, record s { name = name }) s

move_to : ℕ → Phone → Reply (Unit {0}) × Phone
move_to dst s =
    if dst == 10
    then (done tt, record s { place = in_camera })
    else if dst == 11
    then (done tt, record s { place = in_album })
    else missing s

move_one : ℕ → ℕ → ℕ → ℕ → Phone → Reply (Unit {0}) × Phone
unfolding on_photo move_to
move_one g h dst sid s = on_photo s.place g h (move_to dst s) s

unfoldable pub phone_device : Device
unfolding contents open_one delete_one rename_one move_one info_of
phone_device = record {
  State = Phone;
  Storage = ℕ;
  now = λ _. 0;
  root = 0;
  device_info = λ _. record {
    manufacturer = [];
    model = codes "Phone";
    serial_number = [];
    device_version = [];
  };
  storage = open_one;
  list_objects = λ g p s. (done (contents s g (elim p [ none ↦ 0 | some d ↦ d ])), s);
  get_object_info = λ g h s. on_photo s.place g h (done (info_of s.place s.name), s) s;
  read_range = λ g h offset count s. (done [], s);
  delete = delete_one;
  create_folder = λ g p name s. (failed MtpError.unsupported, s);
  move_object = move_one;
  rename = rename_one;
  download = λ g h s. (failed MtpError.unsupported, s);
  upload = λ g p info items s.
      (record { outcome = UploadReply.failed MtpError.unsupported none; taken = 0 }, s);
  close = λ s. (done tt, s);
}

delete-changes :
    (g h : ℕ) (s : Phone) (j d : ℕ)
    → ((j ≡ g) × Shows h (map entry_of (contents s g d)))
      ⊎ (contents (delete_one g h s).1 j d ≡ contents s j d)
unfolding contents delete_one
delete-changes g h s j d = ground arith

Occurs-later : {A : Type 0} (x y : A) (xs ys : List A) → IsPartOf xs ys → IsPartOf xs (y ∷ ys)
Occurs-later x y [] ys h = tt
Occurs-later x y (z ∷ xs) ys h = (inr h.0, Occurs-later x y xs ys h.1)

IsPartOf-self : {A : Type 0} (xs : List A) → IsPartOf xs xs
IsPartOf-self [] = tt
IsPartOf-self (x ∷ xs) = (inl refl, Occurs-later x x xs xs (IsPartOf-self xs))

delete_leaves :
    (g h : ℕ) (s : Phone) (j d : ℕ)
    → (contents (delete_one g h s).1 j d ≡ contents s j d)
      ⊎ (contents (delete_one g h s).1 j d ≡ [])
unfolding contents delete_one
delete_leaves g h s j d = ground arith

delete-shrinks :
    (g h : ℕ) (s : Phone) (j d : ℕ) → IsPartOf (contents (delete_one g h s).1 j d) (contents s j d)
delete-shrinks g h s j d = elim (delete_leaves g h s j d) [
  | inl e ↦ rw e (IsPartOf-self (contents s j d))
  | inr e ↦ rw e tt
]

rename-changes :
    (g h : ℕ) (name : Text) (s : Phone) (j d : ℕ)
    → ((j ≡ g) × Shows h (map entry_of (contents s g d)))
      ⊎ (contents (rename_one g h name s).1 j d ≡ contents s j d)
unfolding contents rename_one
rename-changes g h name s j d = ground arith

move-changes :
    (g h dst sid : ℕ) (s : Phone) (j d : ℕ)
    → ((j ≡ g) × (Shows h (map entry_of (contents s g d)) ⊎ (d ≡ dst)))
      ⊎ (contents (move_one g h dst sid s).1 j d ≡ contents s j d)
unfolding contents move_one
move-changes g h dst sid s j d = ground arith

move-done :
    (g h dst sid : ℕ) (s t : Phone)
    → move_one g h dst sid s ≡ (done tt, t)
    → Shows h (map entry_of (contents t g dst))
unfolding contents move_one
move-done g h dst sid s t e = ground arith

one_parent :
    (s : Phone) (sid d e h : ℕ)
    → Shows h (map entry_of (contents s sid d))
    → Shows h (map entry_of (contents s sid e))
    → d ≡ e
unfolding contents
one_parent s sid d e h x y = ground arith

delete-failed : (g h : ℕ) (s t : Phone) (x : MtpError) → delete_one g h s ≡ (failed x, t) → t ≡ s
unfolding delete_one
delete-failed g h s t x e = ground arith

rename-failed :
    (g h : ℕ) (name : Text) (s t : Phone) (x : MtpError)
    → rename_one g h name s ≡ (failed x, t)
    → t ≡ s
unfolding rename_one
rename-failed g h name s t x e = ground arith

move-failed :
    (g h dst sid : ℕ) (s t : Phone) (x : MtpError) → move_one g h dst sid s ≡ (failed x, t) → t ≡ s
unfolding move_one
move-failed g h dst sid s t x e = ground arith

ok_storage : (sid : ℕ) (s t : Phone) (g : ℕ) → open_one sid s ≡ (done g, t) → g ≡ sid
unfolding open_one
ok_storage sid s t g e = ground arith

open-same : (sid : ℕ) (s : Phone) → (open_one sid s).1 ≡ s
unfolding open_one
open-same sid s = ground arith

list-done :
    (g : ℕ) (p : Option ℕ) (s t : Phone) (objs : List ObjectInfo)
    → ◌≡◌ {A = Reply (List ObjectInfo) × Phone}
        (done (contents s g (elim p [ none ↦ 0 | some d ↦ d ])), s)
        (done objs, t)
    → objs ≡ contents s g (elim p [ none ↦ 0 | some d ↦ d ])
list-done g p s t objs e = ground arith

info-same :
    (g h : ℕ) (s : Phone) → (on_photo s.place g h (done (info_of s.place s.name), s) s).1 ≡ s
unfolding on_photo
info-same g h s = ground arith

listed_dir : (p : Option ℕ) → elim p [ none ↦ 0 | some d ↦ d ] ≡ dir_of phone_device p
unfolding phone_device
listed_dir none = refl
listed_dir (some d) = refl

stays :
    (s t : Phone) (x : MtpError)
    → ◌≡◌ {A = Reply ℕ × Phone} (failed MtpError.unsupported, s) (failed x, t)
    → t ≡ s
stays s t x e = ground arith

pub phone-IsLawful : IsLawful phone_device
unfolding phone_device
phone-IsLawful = record {
  contents = contents;
  sid_of = λ g. g;
  storage-done = λ sid s t g e. ok_storage sid s t g e;
  storage-same = λ sid s j d. ap (λ (x : Phone). contents x j d) (open-same sid s);
  list_objects-done = λ g p s t objs e. list-done g p s t objs e ∙ ap (contents s g) (listed_dir p);
  list_objects-same = λ g p s j d. refl;
  get_object_info-same = λ g h s j d. ap (λ (x : Phone). contents x j d) (info-same g h s);
  read_range-same = λ g h offset count s j d. refl;
  download-same = λ g h s j d. refl;
  one_parent = one_parent;
  delete-changes = delete-changes;
  delete-shrinks = delete-shrinks;
  rename-changes = rename-changes;
  move_object-changes = move-changes;
  move_object-done = move-done;
  delete-failed =
      λ g h s t {e} q j d. ap (λ (x : Phone). contents x j d) (delete-failed g h s t e q);
  rename-failed =
      λ g h name s t {e} q j d. ap (λ (x : Phone). contents x j d) (rename-failed g h name s t e q);
  move_object-failed = λ g h dst sid s t {e} q j d.
      ap (λ (x : Phone). contents x j d) (move-failed g h dst sid s t e q);
  create_folder-failed =
      λ g p name s t {e} q j d. ap (λ (x : Phone). contents x j d) (stays s t e q);
  create_folder-changes = λ g p name s j d. inr refl;
  upload-changes = λ g p info items s j d. inr refl;
}
