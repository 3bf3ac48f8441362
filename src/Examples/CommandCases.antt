-- ===== src/Examples/CommandCases.antt =====
-- Connecting to the phone of Examples/Phone, and `mv` on it.
use pereprava.Prelude.{◌↔◌, ℕ, suc, ◌-◌, ◌≡◌, refl, true, some, [], ◌∷◌, ◌==◌, if◌then◌else◌, arith}
use pereprava.Prelude.Maps.{get, insert, remove, retain}
use pereprava.Prelude.Text.{
  Text, codes, trim, trim_start, trim_end, text_eq, split_slash, is_whitespace, is_control,
  any_char, push_head, to_ascii_lowercase, eq_ignore_ascii_case,
}
use pereprava.Core.Names.{names_eq_ci}
use pereprava.Core.Path.{parse, is_root}
use pereprava.Core.Cache.{listing, is_fresh, store_listing}
use pereprava.Core.Actor.Lookup.{resolve, storage_index, walk, object_entry}
use pereprava.Core.Error.{MtpError, ok}
use pereprava.Core.Actor.Device.{map_err, done, failed}
use pereprava.Core.Actor.State.{
  ActorState, cached, use_cache, storage, children_of, find_storage_index, fetch_children,
  open_storage, call, remember, child_by_name,
}
use pereprava.Core.Actor.Connect.{Usb, answered, StorageInfo, connect_first}
use pereprava.Core.Actor.Connect.Claims.{IsClaiming, Connected, connect_first-Connected}
use pereprava.Core.Actor.Coherence.Rules.{Same}
use pereprava.Cli.Commands.{already_exists, mv_body, mv_onto, split_device_parent_leaf}
use pereprava.Cli.Commands.Splitting.{Splits, split_device_parent_leaf-iff-Splits}
use pereprava.Cli.Commands.Moving.{mv_body_refused}
use pereprava.Examples.CacheCases.{ascii}
use pereprava.Examples.Phone.{phone_device, phone-IsLawful}
use pereprava.Examples.Phone.Camera.{camera_state, camera_state-IsCoherent}

abbrev card : StorageInfo
card = record {
  id = 1;
  description = codes "Internal";
  total_capacity = 9;
  free_space = 4;
  is_writable = true;
}

-- Two devices, of which the second can be opened. The state counts the claims.
abbrev pub phone_usb : Usb phone_device
phone_usb = record {
  State = ℕ;
  Candidate = ℕ;
  list_devices = λ s. (done (0 ∷ 1 ∷ []), s);
  open_by_location = λ c s.
      if c == 0 then (failed MtpError.exclusive_access, s) else (done camera_state.device, suc s);
  probe = λ d. answered (done (card ∷ [])) d;
  drop = λ d s. s - 1;
}

phone_usb-IsClaiming : IsClaiming phone_usb
phone_usb-IsClaiming = record {
  claims = λ s. s;
  listed-claims = λ s. refl;
  opened-claims = λ c s s' d e. ground arith;
  unopened-claims = λ c s s' x e. ground arith;
  dropped-claims = λ d s. refl;
}

connect_first-Connected_example :
    Connected phone-IsLawful phone_usb-IsClaiming 0 (connect_first phone_usb 0)
unfolding phone_usb-IsClaiming
connect_first-Connected_example = connect_first-Connected phone-IsLawful phone_usb-IsClaiming 0

abbrev photo_path : Text
photo_path = codes "/Internal/Camera/a"

refused_photo :
    (st : ActorState phone_device) × (mv_body ascii
        (codes "/Internal/Album")
        photo_path
        camera_state
      ≡ (ok already_exists, st))
unfolding mv_body mv_onto resolve parse trim trim_start trim_end text_eq split_slash is_whitespace
    is_control any_char push_head children_of storage cached use_cache listing camera_state
    phone_device get is_fresh names_eq_ci eq_ignore_ascii_case to_ascii_lowercase find_storage_index
    is_root storage_index walk fetch_children open_storage call map_err remember child_by_name
    store_listing insert remove retain object_entry
refused_photo = (_, refl)

mv_body_refused_example : Same phone-IsLawful camera_state.device refused_photo.0.device
mv_body_refused_example =
    mv_body_refused phone-IsLawful ascii (codes "/Internal/Album") photo_path camera_state
      refused_photo.0 already_exists camera_state-IsCoherent refused_photo.1 refl

split_device_parent_leaf-iff-Splits_example :
    (split_device_parent_leaf photo_path ≡ some (codes "/Internal/Camera", codes "a"))
    ↔ Splits (trim photo_path) (codes "/Internal/Camera") (codes "a")
split_device_parent_leaf-iff-Splits_example =
    split_device_parent_leaf-iff-Splits photo_path (codes "/Internal/Camera") (codes "a")
