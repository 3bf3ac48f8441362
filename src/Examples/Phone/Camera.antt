-- ===== src/Examples/Phone/Camera.antt =====
-- An actor's state on the phone: its photo is in the camera's directory, whose listing is cached.
use pereprava.Prelude.{refl, inl, true, false, [], ◌∷◌, ℕ, ◌≡◌, map}
use pereprava.Prelude.Maps.{get}
use pereprava.Prelude.Text.{codes}
use pereprava.Core.Model.{Entry}
use pereprava.Core.Actor.State.{ActorState, StorageRec, entry_of}
use pereprava.Core.Actor.Coherence.{IsCoherent, listed}
use pereprava.Examples.Phone.{Phone, in_camera, phone_device, phone-IsLawful, contents}

abbrev pub camera : Phone
camera = record { place = in_camera; name = codes "a" }

abbrev pub internal : StorageRec
internal = record {
  id = 1;
  description = codes "Internal";
  capacity = 9;
  free = 4;
  writable = true;
}

abbrev pub photo_entry : Entry
photo_entry = record { handle = 5; parent = 10; name = codes "a"; is_dir = false; size = 3 }

-- The listing of the camera's directory is cached.
unfoldable pub camera_state : ActorState phone_device
unfolding phone_device
camera_state = record {
  device = camera;
  storages = internal ∷ [];
  cache = record {
    storages =
        (
          1,
          record {
            listings = (10, record { fetched_at = 0; children = photo_entry ∷ [] }) ∷ [];
            parents = (5, 10) ∷ [];
          },
        )
        ∷ [];
  };
}

pub camera_state-IsCoherent : IsCoherent phone-IsLawful camera_state
unfolding camera_state contents get phone-IsLawful
camera_state-IsCoherent = record { agrees = ((inl refl, tt), tt); exact = (((refl, tt), tt), tt) }

pub listed-camera :
    (j d : ℕ) → listed phone-IsLawful camera_state.device j d ≡ map entry_of (contents camera j d)
unfolding phone-IsLawful camera_state
listed-camera j d = refl
