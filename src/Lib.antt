-- ===== src/Lib.antt =====
-- A model of pereprava, which lets a Mac read and write an Android phone over MTP: as a command line
-- program, and as a volume by a local NFS server.
--
-- The crate `core` (crates/core/src) owns the USB session. One actor serves the requests of all its
-- clients, one at a time, and answers from a cache of directory listings where it may. The crate
-- `nfs-mount` (crates/nfs-mount/src) shows the actor's objects as files with 64-bit ids, and attaches
-- itself as a volume. The crate `cli` (crates/cli/src) has the commands, among them the daemon that
-- keeps the volume alive and the bundles.
--
--   Prelude           lists, maps, texts and Boolean tests that the models share
--   Core.Error        error.rs: `Error`, its mapping from `mtp_rs` and its classification
--   Core.Names        names.rs: names compared up to case and normal form
--   Core.Model        model.rs: the shared records
--   Core.Path         path.rs: `DevPath::parse` and `DevPath::display`
--   Core.Cache        cache.rs: `MetaCache`, one function per method, at a given time
--   Core.Actor        actor.rs: `ActorState` and its handlers
--     .Device         the interface of `mtp_rs` that the handlers call
--     .Monad          handlers that change the state and may fail
--     .State          the storage table, `children_of` and `summary`
--     .Lookup         `resolve`, `list` and `walk_to_parent`
--     .Tree           `mkdir_all`, `remove`, `rename`, `move_into` and the requests by handle
--     .Transfer       `download` and `upload_into`
--     .Handle         `DeviceHandle::download_into` and `upload_new`
--     .Dispatch       `dispatch` and `run`
--     .Connect        `connect_first`, `spawn_actor` and `read_storages`
--     .Coherence      the cache against the phone: when the cached listings are true
--   Core.Ops          ops.rs: `pull_tree` and `push_tree`
--     .Stats          the checks of names and depth, the counters, `join_device`
--     .Local          local paths, `temp_sibling`, and the interface of the local disk
--     .Pull, .Push    the two transfers; the other children hold theorems on them
--   Nfs.Ids           adapter.rs: `encode_real`, `decode` and `next_virt_id`
--   Nfs.Status        adapter.rs: `nfserr`
--   Nfs.State         adapter.rs: the adapter's state, `dev`, `attach`, the attribute cache
--   Nfs.Staging       adapter.rs: the staged files, up to `flush_stage`
--   Nfs.Files         adapter.rs: `lookup`, `getattr`, `setattr`, `read`, `write`, `commit`
--   Nfs.Names         adapter.rs: `stage_new`, `create`, `mkdir`, `remove`, `rename`
--   Nfs.Listing       adapter.rs: `readdir` and `seed_attrs`
--   Nfs.Session       adapter.rs: `is_attached` and `test_session`
--   Nfs.Mount         mount.rs: quoting, mount points, scripts, `mount_export` and `unmount`
--   Nfs.Paging, Nfs.Writes, Nfs.Flushing, Nfs.Renames
--                     theorems on these
--   Cli.Json          mountcmd.rs: `json_escape`
--   Cli.Watch         mountcmd.rs: the rounds of `watch`, the mounts that it looks after, and
--                     `write_status_file`
--   Cli.Bundle        bundle.rs: `pack_tar_zstd`, `unpack_tar_zstd` and `promote`
--   Cli.Commands      commands.rs: `mv` and its helpers
--   Examples          a phone, and concrete runs
--
-- How the source is read. A handler is a function of the actor's state to a result and the state
-- after it; what was changed before a failure stays changed, as in the source. A hash map is an
-- association list without double keys. A text is the list of its code points. An `async` call of
-- the device is a function on an unknown session state, which also holds the clock; nothing else
-- runs in between, since one task serves the requests in turn. Numbers are unbounded but for the
-- file ids, where the shifts wrap at 2^64, and the counters, which wrap at their width. A storage id
-- has 32 bits. The texts that errors carry, logging and progress are left out.
--
-- Parameters. `mtp_rs` is the record `Device`; the theorems on the cache assume `IsLawful`: a call
-- changes the listings of the directories it is about and no others, a call that fails changes
-- nothing, an object stands in one directory, and nobody else changes the phone. The phone of
-- Examples.Phone meets it. The Unicode tables are the record `Unicode`, the target of a download is
-- the record `Writer`. The local disk is the record `Disk`, and for bundles, with the crates tar and
-- zstd, the record `TreeDisk`; what the code relies on is that a call on a path concerns that path
-- (`IsOutside`, `IsAbout`, `IsLawfulAt`, `Removes`). Finding and opening devices is the record `Usb`,
-- with `IsClaiming` for the claims that devices hold, and `Stores` is what is relied on of a device that
-- takes an upload. The shell is the record `Shell`, and what the daemon uses of
-- the system the record `Host`. A local path is the list of its components, which is Rust's equality
-- of paths.
--
-- Fuel. `delete_tree` recurses over the directories of the phone, whose depth the program does not
-- bound; its fuel bounds the depth, `none` means that it ran out, and fuel above the rank of every
-- directory is enough, where a directory has a lower rank than the one that it stands in.
-- `pull_tree` and `push_tree` recurse over directories too, with 64 levels below the first at most
-- by `check_depth`; fuel for 66 levels is enough. `walk_add` of bundle.rs takes fuel above its 128
-- levels. The loop that stages a file has one turn for each byte of the file, and every turn that
-- goes on reads a byte at least.
--
-- Not modelled: time limits and the channel to the actor (actor.rs, the first part), the listener and
-- the rates of mountcmd.rs, the staging of whole bundles, the rest of the crate `cli`, the crate
-- `widget`, and the library in vendor/fernfs, which is another project's.
pub mod Prelude
pub mod Core
pub mod Nfs
pub mod Cli
pub mod Examples
