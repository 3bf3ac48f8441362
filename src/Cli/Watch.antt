-- ===== src/Cli/Watch.antt =====
-- crates/cli/src/mountcmd.rs: `watch`, which keeps the volume alive while phones come and go.
pub mod Steady
use pereprava.Prelude.{
  ℕ, Bool, true, false, not, ◌&&◌, ◌||◌, ◌==◌, ◌+◌, ◌%◌, ◌^◌, Option, none, some, List, [], ◌∷◌,
  ◌++◌, if◌then◌else◌,
}
use pereprava.Prelude.Text.{Text, codes}
use pereprava.Core.Names.{Unicode}
use pereprava.Core.Actor.Device.{Device}
use pereprava.Core.Error.{Result, ok, err}
use pereprava.Core.Actor.State.{ActorState, summary}
use pereprava.Core.Actor.Connect.{Usb, connect_first}
use pereprava.Core.Ops.Local.{LocalPath}
use pereprava.Nfs.State.{MtpNfs, attach, detach}
use pereprava.Nfs.Session.{is_attached, test_session}
use pereprava.Nfs.Mount.{
  Shell, mount_export, mount_candidates, display_path, path_from, parent_or_root, strip_prefix,
}

-- `std::process::Output`, as far as it is looked at.
pub record Output : Type 0 where
  pub success : Bool
  pub stdout : Text

-- A line of the status file, less the rates and the time.
pub record Status : Type 0 where
  pub state : Text
  pub model : Text
  pub mounted : Text
  pub rx : ℕ
  pub tx : ℕ

-- What the loop uses of the operating system, of the runtime and of `mtp_rs`.
pub record Host (D : Device) : Type 1 where
  pub State : Type 0
  pub usb : Usb D
  -- A command that is run to its end; `none` if it cannot be started.
  pub output : Text → List Text → State → Option Output × State
  -- Whether the task of a new actor runs; a task that runs answers `storages` with its table.
  pub actor_runs : State → Bool × State
  -- Whether a ping is answered in time.
  pub ping_in_time : State → Bool × State
  -- The device number of the file system of a path.
  pub device_of : LocalPath → State → Option ℕ
  -- The calls by which the status file is written, and whether each succeeds. A number is that of the
  -- temporary file.
  pub create_status_dir : State → Bool × State
  pub close_status_dir : State → Bool × State
  pub create_temp : ℕ → State → Bool × State
  pub write_temp : ℕ → Status → State → Bool × State
  pub sync_temp : ℕ → State → Bool × State
  pub open_temp : ℕ → State → State
  pub rename_temp : ℕ → State → Bool × State
  pub remove_temp : ℕ → State → State

-- `str::contains` of a text
contains_text : Text → Text → Bool
contains_text p [] = elim p [ [] ↦ true | _ ∷ _ ↦ false ]
contains_text p (c ∷ s) = elim (strip_prefix p (c ∷ s)) [ none ↦ contains_text p s | some _ ↦ true ]

pub exit_of : Option Output → Option Text
exit_of none = none
exit_of (some o) = if o.success then some o.stdout else none

stdout_of : Option Output → Text
stdout_of none = []
stdout_of (some o) = o.stdout

succeeded : Option Output → Bool
succeeded none = false
succeeded (some o) = o.success

mounted_among : Text → List LocalPath → List LocalPath
unfolding contains_text
mounted_among out [] = []
mounted_among out (p ∷ ps) =
    let rest = mounted_among out ps in
    if contains_text (codes " on " ++ (display_path p ++ codes " (")) out then p ∷ rest else rest

differ : Option ℕ → Option ℕ → Bool
differ (some a) (some b) = not (a == b)
differ none _ = false
differ (some a) none = false

module _ (u : Unicode) (D : Device) (H : Host D) where
  -- The variables of the loop. `published` is what the status file has held, the last first.
  pub record Watch : Type 0 where
    pub nfs : MtpNfs D
    pub host : H.State
    pub bus : H.usb.State
    pub mounted : Bool
    pub used_path : Text
    pub last_model : Text
    pub published : List Status
    -- `COUNTER` of `write_status_file`
    pub counter : ℕ

  -- `sh_out` of mount.rs
  abbrev pub shell : Shell
  shell = record {
    State = H.State;
    sh_out = λ prog args s. let (o, t) = H.output prog args s in (exit_of o, t);
  }

  -- `active_mounts`
  unfoldable pub active_mounts : LocalPath → H.State → List LocalPath × H.State
  unfolding mounted_among stdout_of
  active_mounts base s =
      let (o, t) = H.output (codes "/sbin/mount") [] s in
      (mounted_among (stdout_of o) (mount_candidates base), t)

  try_diskutil : LocalPath → Bool × H.State → Bool × H.State
  unfolding succeeded
  try_diskutil p (true, s) = (true, s)
  try_diskutil p (false, s) =
      let (o, t) =
        H.output (codes "/usr/sbin/diskutil")
          (codes "unmount" ∷ codes "force" ∷ display_path p ∷ []) s in
      (succeeded o, t)

  -- `force_unmount`
  unfoldable pub force_unmount : LocalPath → H.State → Bool × H.State
  unfolding try_diskutil succeeded
  force_unmount p s =
      let (o, t) = H.output (codes "/sbin/umount") (codes "-f" ∷ display_path p ∷ []) s in
      try_diskutil p (succeeded o, t)

  clear_each : List LocalPath → H.State → H.State
  clear_each [] s = s
  clear_each (p ∷ ps) s = let (_, t) = force_unmount p s in clear_each ps t

  -- `clear_stale_mounts`
  unfoldable pub clear_stale_mounts : LocalPath → H.State → H.State
  unfolding clear_each
  clear_stale_mounts base s = let (ps, t) = active_mounts base s in clear_each ps t

  -- `is_alive_mount`
  unfoldable pub is_alive_mount : LocalPath → H.State → Bool
  unfolding differ
  is_alive_mount p s = differ (H.device_of p s) (H.device_of (parent_or_root p p.parts) s)

  unfoldable pub model_of : ActorState D → Text
  model_of a = elim ((summary D a).product) [ none ↦ codes "unknown" | some m ↦ m ]

  pub keep_mount : Watch → Option LocalPath × H.State → Watch
  keep_mount w (none, s) = record w { host = s }
  keep_mount w (some used, s) = record w { host = s; mounted = true; used_path = display_path used }

  -- The volume of a phone that was attached just now.
  unfoldable pub ensure_mount : ℕ → LocalPath → Watch → Watch
  unfolding keep_mount
  ensure_mount port path w =
      if not w.mounted || not (is_alive_mount (path_from w.used_path) w.host)
      then keep_mount w (mount_export shell port path (codes "/") (clear_stale_mounts path w.host))
      else w

  -- `Ok(dev)` of the connection: the state to publish, and the new variables.
  pub with_device : ℕ → LocalPath → ActorState D → Bool × H.State → Watch → Text × Watch
  unfolding ensure_mount
  with_device port path a (false, s) w = (codes "waiting", record w { host = s })
  with_device port path a (true, s) w = (
    codes "attached",
    ensure_mount port path (record w { host = s; nfs = attach D a w.nfs; last_model = model_of a }),
  )

  pub connected : ℕ → LocalPath → Result (ActorState D) × H.usb.State → Watch → Text × Watch
  unfolding with_device
  connected port path (err e, b) w = (codes "waiting", record w { bus = b })
  connected port path (ok a, b) w =
      with_device port path a (H.actor_runs w.host) (record w { bus = b })

  -- The branch with no session.
  unfoldable pub look_for_phone : ℕ → LocalPath → Watch → Text × Watch
  unfolding connected
  look_for_phone port path w =
      let (_, s) = H.output (codes "pkill") (codes "-9" ∷ codes "ptpcamerad" ∷ []) w.host in
      connected port path (connect_first H.usb w.bus) (record w { host = s })

  pub checked : Bool × MtpNfs D → Watch → Text × Watch
  checked (true, nfs) w = (codes "attached", record w { nfs = nfs })
  checked (false, nfs) w = (codes "gone", record w { nfs = detach D nfs })

  -- The branch with a session.
  unfoldable pub check_phone : Watch → Text × Watch
  unfolding checked
  check_phone w =
      let (in_time, s) = H.ping_in_time w.host in
      checked (test_session u D in_time w.nfs) (record w { host = s })

  -- The steps of `write_status_file`, from the last to the first. The answer is whether the status
  -- file was replaced.
  unfoldable pub replace_status : ℕ → Bool × H.State → Bool × H.State
  replace_status n (false, s) = (false, H.remove_temp n s)
  replace_status n (true, s) =
      let (moved, t) = H.rename_temp n (H.open_temp n s) in
      if moved then (true, t) else (false, H.remove_temp n t)

  unfoldable pub sync_status : ℕ → Bool × H.State → Bool × H.State
  unfolding replace_status
  sync_status n (false, s) = (false, H.remove_temp n s)
  sync_status n (true, s) = replace_status n (H.sync_temp n s)

  unfoldable pub fill_status : ℕ → Status → Bool × H.State → Bool × H.State
  unfolding sync_status
  fill_status n st (false, s) = (false, s)
  fill_status n st (true, s) = sync_status n (H.write_temp n st s)

  unfoldable pub temp_status : ℕ → Status → Bool × H.State → Bool × ℕ × H.State
  unfolding fill_status
  temp_status n st (false, s) = (false, n, s)
  temp_status n st (true, s) =
      let (moved, t) = fill_status n st (H.create_temp n s) in (moved, (n + 1) % 2 ^ 64, t)

  unfoldable pub guard_status : ℕ → Status → Bool × H.State → Bool × ℕ × H.State
  unfolding temp_status
  guard_status n st (false, s) = (false, n, s)
  guard_status n st (true, s) = temp_status n st (H.close_status_dir s)

  -- `write_status_file`
  unfoldable pub write_status_file : Status → Watch → Watch
  unfolding guard_status
  write_status_file st w =
      let (moved, n, s) = guard_status w.counter st (H.create_status_dir w.host) in
      record w {
        host = s;
        counter = n;
        published = if moved then st ∷ w.published else w.published;
      }

  pub status_of : Text → Watch → Status
  status_of state w = record {
    state = state;
    model = w.last_model;
    mounted = w.used_path;
    rx = w.nfs.rx;
    tx = w.nfs.tx;
  }

  unfoldable pub publish : Text × Watch → Watch
  unfolding write_status_file status_of
  publish (state, w) = write_status_file (status_of state w) w

  -- One round of the loop, when the poll is over.
  unfoldable pub round : ℕ → LocalPath → Watch → Watch
  unfolding publish
  round port path w =
      publish (if is_attached u D w.nfs then check_phone w else look_for_phone port path w)

  -- What follows the loop.
  release : Watch → Watch
  release w =
      if w.mounted
      then (let (_, s) = force_unmount (path_from w.used_path) w.host in record w { host = s })
      else w

  unfoldable pub stop : Watch → Watch
  unfolding release write_status_file
  stop w =
      write_status_file
        (record { state = codes "stopped"; model = []; mounted = []; rx = 0; tx = 0 })
        (release (record w { nfs = detach D w.nfs }))
