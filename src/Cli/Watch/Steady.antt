-- ===== src/Cli/Watch/Steady.antt =====
-- What the rounds of the watch loop lead to.
use pereprava.Prelude.{
  ℕ, ◌≡◌, ◌≢◌, ◌↔◌, refl, ap, ◌∙◌, ◌⊎◌, inl, inr, Bool, true, false, not, ◌||◌, Option, none, some,
  List, ◌∷◌, Bool-cases, arith,
}
use pereprava.Prelude.Text.{Text, codes}
use pereprava.Core.Error.{Result, ok, err}
use pereprava.Core.Names.{Unicode}
use pereprava.Core.Actor.Device.{Device}
use pereprava.Core.Actor.State.{ActorState}
use pereprava.Core.Ops.Local.{LocalPath}
use pereprava.Nfs.State.{MtpNfs, attach, detach}
use pereprava.Nfs.Session.{is_attached, test_session, tested}
use pereprava.Nfs.Mount.{path_from}
use pereprava.Cli.Watch.{
  Host, Status, Watch, is_alive_mount, keep_mount, ensure_mount, with_device, connected,
  look_for_phone, checked, check_phone, publish, round, status_of, write_status_file,
  replace_status, sync_status, fill_status, temp_status, guard_status,
}

waiting-ne : codes "waiting" ≢ codes "attached"
waiting-ne e = ground arith

gone-ne : codes "gone" ≢ codes "attached"
gone-ne e = ground arith

module _ (u : Unicode) (D : Device) (H : Host D) where
  abbrev pub Attached : Watch u D H → Type 0
  Attached w = is_attached u D w.nfs ≡ true

  -- The state to publish says whether there is a session.
  abbrev Tells : Text × Watch u D H → Type 0
  Tells (state, w) =
      ((state ≡ codes "attached") × Attached w)
      ⊎ ((state ≢ codes "attached") × (is_attached u D w.nfs ≡ false))

  keep_mount-nfs :
      (w : Watch u D H) (r : Option LocalPath × H.State) → (keep_mount u D H w r).nfs ≡ w.nfs
  unfolding keep_mount
  keep_mount-nfs w (none, s) = refl
  keep_mount-nfs w (some p, s) = refl

  ensure_mount-nfs :
      (port : ℕ) (path : LocalPath) (w : Watch u D H) → (ensure_mount u D H port path w).nfs ≡ w.nfs
  unfolding ensure_mount
  ensure_mount-nfs port path w =
      elim (Bool-cases
        (not w.mounted || not (is_alive_mount u D H (path_from w.used_path) w.host))) [
          | inl e ↦ rw e (keep_mount-nfs w _)
          | inr e ↦ rw e refl
        ]

  Attached-device :
      (port : ℕ) (path : LocalPath) (a : ActorState D) (s : H.State) (w : Watch u D H)
      → Attached (with_device u D H port path a (true, s) w).1
  unfolding with_device attach is_attached
  Attached-device port path a s w = ap (is_attached u D) (ensure_mount-nfs port path _) ∙ refl

  with_device-Tells :
      (port : ℕ) (path : LocalPath) (a : ActorState D) (r : Bool × H.State) (w : Watch u D H)
      → is_attached u D w.nfs ≡ false
      → Tells (with_device u D H port path a r w)
  unfolding with_device attach is_attached
  with_device-Tells port path a (false, s) w h = inr (waiting-ne, h)
  with_device-Tells port path a (true, s) w h = inl (refl, Attached-device port path a s w)

  connected-Tells :
      (port : ℕ) (path : LocalPath) (r : Result (ActorState D) × H.usb.State) (w : Watch u D H)
      → is_attached u D w.nfs ≡ false
      → Tells (connected u D H port path r w)
  unfolding connected
  connected-Tells port path (err e, b) w h = inr (waiting-ne, h)
  connected-Tells port path (ok a, b) w h =
      with_device-Tells port path a (H.actor_runs w.host) (record w { bus = b }) h

  checked-Tells :
      (r : Bool × MtpNfs D) (w : Watch u D H)
      → (r.0 ≡ true → is_attached u D r.1 ≡ true)
      → Tells (checked u D H r w)
  unfolding checked is_attached detach
  checked-Tells (true, nfs) w h = inl (refl, h refl)
  checked-Tells (false, nfs) w h = inr (gone-ne, refl)

  test_session-attached :
      (in_time : Bool) (s : MtpNfs D)
      → (test_session u D in_time s).0 ≡ true
      → is_attached u D (test_session u D in_time s).1 ≡ true
  unfolding test_session is_attached
  test_session-attached in_time s h = go s.sess s h
    where
      go :
          (o : Option (ActorState D)) (t : MtpNfs D)
          → (tested u D in_time t o).0 ≡ true
          → is_attached u D (tested u D in_time t o).1 ≡ true
      go none t h = cc
      go (some a) t h = refl

  check_phone-Tells : (w : Watch u D H) → Tells (check_phone u D H w)
  unfolding check_phone
  check_phone-Tells w =
      checked-Tells (test_session u D (H.ping_in_time w.host).0 w.nfs) _
        (test_session-attached (H.ping_in_time w.host).0 w.nfs)

  look_for_phone-Tells :
      (port : ℕ) (path : LocalPath) (w : Watch u D H)
      → is_attached u D w.nfs ≡ false
      → Tells (look_for_phone u D H port path w)
  unfolding look_for_phone
  look_for_phone-Tells port path w h = connected-Tells port path _ _ h

  -- The last published state says whether there is a session.
  pub data IsTruthful (w : Watch u D H) : Type 0 where
    published :
        (t : Status) (earlier : List Status)
        → w.published ≡ t ∷ earlier
        → ((t.state ≡ codes "attached") ↔ Attached w)
        → IsTruthful w

  -- The calls that write the status file succeed.
  pub record Writes : Type 0 where
    pub made : (s : H.State) → (H.create_status_dir s).0 ≡ true
    pub closed : (s : H.State) → (H.close_status_dir s).0 ≡ true
    pub created : (n : ℕ) (s : H.State) → (H.create_temp n s).0 ≡ true
    pub written : (n : ℕ) (st : Status) (s : H.State) → (H.write_temp n st s).0 ≡ true
    pub synced : (n : ℕ) (s : H.State) → (H.sync_temp n s).0 ≡ true
    pub renamed : (n : ℕ) (s : H.State) → (H.rename_temp n s).0 ≡ true

  module _ (O : Writes) where
    replace_status-true :
        (n : ℕ) (r : Bool × H.State) → r.0 ≡ true → (replace_status u D H n r).0 ≡ true
    unfolding replace_status
    replace_status-true n (false, s) h = absurd (cc)
    replace_status-true n (true, s) h = rw (O.renamed n (H.open_temp n s)) refl

    sync_status-true : (n : ℕ) (r : Bool × H.State) → r.0 ≡ true → (sync_status u D H n r).0 ≡ true
    unfolding sync_status
    sync_status-true n (false, s) h = absurd (cc)
    sync_status-true n (true, s) h = replace_status-true n (H.sync_temp n s) (O.synced n s)

    fill_status-true :
        (n : ℕ) (st : Status) (r : Bool × H.State)
        → r.0 ≡ true
        → (fill_status u D H n st r).0 ≡ true
    unfolding fill_status
    fill_status-true n st (false, s) h = absurd (cc)
    fill_status-true n st (true, s) h = sync_status-true n (H.write_temp n st s) (O.written n st s)

    temp_status-true :
        (n : ℕ) (st : Status) (r : Bool × H.State)
        → r.0 ≡ true
        → (temp_status u D H n st r).0 ≡ true
    unfolding temp_status
    temp_status-true n st (false, s) h = absurd (cc)
    temp_status-true n st (true, s) h = fill_status-true n st (H.create_temp n s) (O.created n s)

    guard_status-true :
        (n : ℕ) (st : Status) (r : Bool × H.State)
        → r.0 ≡ true
        → (guard_status u D H n st r).0 ≡ true
    unfolding guard_status
    guard_status-true n st (false, s) h = absurd (cc)
    guard_status-true n st (true, s) h = temp_status-true n st (H.close_status_dir s) (O.closed s)

    -- What is written is what the status file then holds.
    write_status_file-published :
        (st : Status) (w : Watch u D H)
        → (write_status_file u D H st w).published ≡ st ∷ w.published
    unfolding write_status_file
    write_status_file-published st w =
        rw (guard_status-true w.counter st (H.create_status_dir w.host) (O.made w.host)) refl

    write_status_file-nfs :
        (st : Status) (w : Watch u D H) → (write_status_file u D H st w).nfs ≡ w.nfs
    unfolding write_status_file
    write_status_file-nfs st w = refl

    publish-IsTruthful : (r : Text × Watch u D H) → Tells r → IsTruthful (publish u D H r)
    unfolding publish status_of
    publish-IsTruthful (state, w) (inl (e, a)) =
        IsTruthful.published _ _ (write_status_file-published _ w) (
          λ _. ap (is_attached u D) (write_status_file-nfs (status_of u D H state w) w) ∙ a,
          λ _. e,
        )
    publish-IsTruthful (state, w) (inr (n, a)) =
        IsTruthful.published _ _ (write_status_file-published _ w)
          (λ e. absurd (n e), λ b. absurd (cc))

    -- After a round in which the status file can be written, it says that a phone is attached exactly
    -- when a session is installed, whatever the device, the bus and the other commands answer.
    pub round-IsTruthful :
        (port : ℕ) (path : LocalPath) (w : Watch u D H) → IsTruthful (round u D H port path w)
    unfolding round
    round-IsTruthful port path w = elim (Bool-cases (is_attached u D w.nfs)) [
      | inl e ↦ rw e (publish-IsTruthful (check_phone u D H w) (check_phone-Tells w))
      | inr e ↦ rw e (
          publish-IsTruthful (look_for_phone u D H port path w)
            (look_for_phone-Tells port path w e))
    ]

  -- Nothing but the ping and the writing of the status file was asked of the system.
  pub record OnlyPings (w w' : Watch u D H) : Type 0 where
    pub mounted : w'.mounted ≡ w.mounted
    pub used_path : w'.used_path ≡ w.used_path
    pub bus : w'.bus ≡ w.bus
    pub status : Status
    pub host :
        w'.host
        ≡ (write_status_file u D H status (record w { host = (H.ping_in_time w.host).1 })).host
