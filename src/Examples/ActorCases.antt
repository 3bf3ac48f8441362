-- ===== src/Examples/ActorCases.antt =====
-- The actor on the phone of Examples/Phone.
use pereprava.Core.Actor.Coherence.Serving.{dispatch-IsCoherent}
use pereprava.Core.Actor.Dispatch.{dispatch, move_into_of}
use pereprava.Prelude.{All, ◌≡◌, refl, ◌⊎◌, true, false, some, [], ◌∷◌, get_elem?}
use pereprava.Prelude.Maps.{get, insert, remove, retain}
use pereprava.Prelude.Text.{
  codes, trim, trim_start, trim_end, text_eq, split_slash, is_whitespace, is_control, any_char,
  push_head, to_ascii_lowercase, eq_ignore_ascii_case,
}
use pereprava.Core.Error.{ok}
use pereprava.Core.Names.{names_eq_ci}
use pereprava.Core.Path.{DevPath, parse, is_root}
use pereprava.Core.Cache.{listing, is_fresh, store_listing}
use pereprava.Core.Actor.Device.{map_err}
use pereprava.Core.Actor.State.{
  ActorState, StorageRec, cached, use_cache, storage, children_of, find_storage_index,
  fetch_children, open_storage, call, remember, child_by_name,
}
use pereprava.Core.Actor.State.Storages.{NoneBefore, matches, find_storage_index-get_elem}
use pereprava.Core.Actor.State.{parse_usize}
use pereprava.Core.Actor.Lookup.{resolve, storage_index, walk, object_entry}
use pereprava.Core.Actor.Coherence.{listed, IsCoherent}
use pereprava.Core.Actor.Coherence.Children.{children_of-listed}
use pereprava.Core.Actor.Coherence.Walks.{descend}
use pereprava.Core.Actor.Coherence.Resolving.{resolve-descend}
use pereprava.Examples.CacheCases.{ascii}
use pereprava.Examples.Phone.{phone_device, phone-IsLawful}
use pereprava.Examples.Phone.Camera.{internal, photo_entry, camera_state, camera_state-IsCoherent}

camera_served :
    (st : ActorState phone_device) × (children_of phone_device 0 10 false camera_state
      ≡ (ok (photo_entry ∷ []), st))
unfolding children_of storage cached use_cache listing camera_state phone_device get is_fresh
camera_served = (_, refl)

children_of-listed_example :
    (rec : StorageRec) × (get_elem? camera_state.storages 0 ≡ some rec)
    × (photo_entry ∷ [] ≡ listed phone-IsLawful camera_served.0.device rec.id 10)
    × IsCoherent phone-IsLawful camera_served.0
children_of-listed_example =
    children_of-listed phone-IsLawful 0 10 false camera_state camera_served.0 (photo_entry ∷ [])
      camera_state-IsCoherent camera_served.1

names_internal : find_storage_index ascii (internal ∷ []) (codes "internal") ≡ ok 0
unfolding find_storage_index names_eq_ci eq_ignore_ascii_case to_ascii_lowercase
names_internal = refl

find_storage_index-get_elem_example :
    (rec : StorageRec) × (get_elem? (internal ∷ []) 0 ≡ some rec)
    × (((names_eq_ci ascii rec.description (codes "internal") ≡ true)
          × NoneBefore (matches ascii (internal ∷ []) (codes "internal")) (internal ∷ []) 0)
        ⊎ (All (λ s. matches ascii (internal ∷ []) (codes "internal") s ≡ false) (internal ∷ [])
            × (parse_usize (codes "internal") ≡ some 1)))
find_storage_index-get_elem_example =
    find_storage_index-get_elem ascii (internal ∷ []) (codes "internal") 0 names_internal

resolved_photo :
    (st : ActorState phone_device) × (resolve ascii phone_device
        (codes "/internal/camera/A")
        false
        camera_state
      ≡ (ok (record { storage_index = 0; handle = 5; entry = photo_entry }), st))
unfolding resolve parse trim trim_start trim_end text_eq split_slash is_whitespace is_control
    any_char push_head children_of storage cached use_cache listing camera_state phone_device get
    is_fresh names_eq_ci eq_ignore_ascii_case to_ascii_lowercase find_storage_index is_root
    storage_index walk fetch_children open_storage call map_err remember child_by_name store_listing
    insert remove retain object_entry
resolved_photo = (_, refl)

resolve-descend_example :
    (p : DevPath) × (rec : StorageRec) × (parse (codes "/internal/camera/A") ≡ ok p)
    × (find_storage_index ascii camera_state.storages p.storage_ref ≡ ok 0)
    × (get_elem? camera_state.storages 0 ≡ some rec)
    × (descend ascii (listed phone-IsLawful camera_state.device rec.id) phone_device.root p.segments
        ≡ some 5)
    × IsCoherent phone-IsLawful resolved_photo.0
resolve-descend_example =
    resolve-descend phone-IsLawful ascii (codes "/internal/camera/A") false camera_state
      resolved_photo.0 (record { storage_index = 0; handle = 5; entry = photo_entry })
      camera_state-IsCoherent resolved_photo.1

-- Moving the photo by path.
dispatch-IsCoherent_example :
    IsCoherent phone-IsLawful
      (dispatch ascii phone_device 0
        (move_into_of (codes "/internal/Camera/A") (codes "/internal/Album"))
        camera_state).1
dispatch-IsCoherent_example =
    dispatch-IsCoherent phone-IsLawful ascii 0
      (move_into_of (codes "/internal/Camera/A") (codes "/internal/Album")) camera_state
      camera_state-IsCoherent tt
