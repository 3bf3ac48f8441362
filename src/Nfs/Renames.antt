-- ===== src/Nfs/Renames.antt =====
-- Renaming a file that is staged.
use pereprava.Prelude.{ℕ, ◌≡◌, refl, ◌∙◌, true, none, some}
use pereprava.Prelude.Text.{Text}
use pereprava.Core.Names.{Unicode}
use pereprava.Core.Actor.Device.{Device}
use pereprava.Nfs.Status.{noent}
use pereprava.Nfs.State.{Stage, MtpNfs, good, bad, stage_of}
use pereprava.Nfs.Staging.{staged_lookup, device_handle_of}
use pereprava.Nfs.Files.{lookup}
use pereprava.Nfs.Writes.{writable_lem}
use pereprava.Nfs.Names.{rename, rename_on_device, stage_on_device, device_handle}

lookup-staged :
    (u : Unicode) (D : Device) (s : MtpNfs D) (dir id : ℕ) (name : Text)
    → staged_lookup u D dir name s ≡ some id
    → lookup u D dir name s ≡ (good id, s)
unfolding lookup
lookup-staged u D s dir id name found = rw (found, lookup) refl

device_handle_unflushed :
    (u : Unicode) (D : Device) (s : MtpNfs D) (id : ℕ) (st : Stage)
    → stage_of D id s ≡ some st
    → st.flushed_dev ≡ none
    → device_handle u D id s ≡ (bad noent, s)
unfolding device_handle device_handle_of
device_handle_unflushed u D s id st here unflushed =
    rw (here, device_handle, device_handle_of) (rw unflushed refl)

sent_on :
    (u : Unicode) (D : Device) (s : MtpNfs D) (dir to id : ℕ) (name to_name : Text) (st : Stage)
    → lookup u D dir name s ≡ (good id, s)
    → device_handle u D id s ≡ (bad noent, s)
    → rename_on_device u D dir name to to_name s ≡ (bad noent, s)
unfolding rename_on_device
sent_on u D s dir to id name to_name st found refused = rw found (rw refused refl)

-- A file of the phone that is staged but not flushed cannot be renamed, even on a writable export with
-- a session: the request is answered with "no such file", and the state stays as it is.
pub rename-staged_existing :
    (u : Unicode) (D : Device) (s : MtpNfs D) (dir to id h : ℕ) (name to_name : Text) (st : Stage)
    → s.writable ≡ true
    → staged_lookup u D dir name s ≡ some id
    → stage_of D id s ≡ some st
    → st.origin_dev ≡ some h
    → st.flushed_dev ≡ none
    → rename u D dir name to to_name s ≡ (bad noent, s)
unfolding rename stage_on_device
rename-staged_existing u D s dir to id h name to_name st w found here origin unflushed =
    writable_lem _ _ _ w
    ∙ rw (found, here)
        (rw (unflushed, origin)
          (sent_on u D s dir to id name to_name st (lookup-staged u D s dir id name found)
            (device_handle_unflushed u D s id st here unflushed)))
