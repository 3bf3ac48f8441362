-- ===== src/Examples/RemoveCases.antt =====
-- A recursive removal on the phone of Examples/Phone.
use pereprava.Core.Actor.State.{entry_of}
use pereprava.Prelude.{All, map, ℕ, ◌<◌, ◌≡◌, ◌≢◌, true, none, if◌then◌else◌, ◌==◌, arith}
use pereprava.Prelude.Text.{codes}
use pereprava.Core.Error.{ok}
use pereprava.Core.Actor.Tree.{remove}
use pereprava.Core.Actor.Coherence.{listed}
use pereprava.Core.Actor.Coherence.Descent.{Descends}
use pereprava.Core.Actor.Coherence.Removal.{remove-returns}
use pereprava.Examples.CacheCases.{ascii}
use pereprava.Examples.Phone.{phone_device, phone-IsLawful, contents}
use pereprava.Examples.Phone.Camera.{camera, camera_state, camera_state-IsCoherent, listed-camera}

-- The root stands above the two directories.
abbrev phone_rank : ℕ → ℕ
phone_rank h = if h == 0 then 1 else 0

camera_lower :
    (j d : ℕ)
    → All
        (λ e. e.is_dir ≡ true → phone_rank e.handle < phone_rank d)
        (map entry_of (contents camera j d))
unfolding contents
camera_lower j d = ground arith

phone-Descends :
    (j d : ℕ)
    → Descends phone-IsLawful ascii phone_rank d (listed phone-IsLawful camera_state.device j d)
phone-Descends j d = rw (listed-camera j d) (camera_lower j d)

remove-returns_example :
    (remove ascii phone_device 2 (codes "/Internal/Camera") true camera_state).0 ≢ ok none
remove-returns_example =
    remove-returns phone-IsLawful ascii phone_rank 2 (codes "/Internal/Camera") true camera_state
      camera_state-IsCoherent (λ j d. phone-Descends j d) λ h. ground arith
