-- ===== src/Core/Actor/Coherence/Serving.antt =====
-- Every request keeps the cache true, but for an upload that fails and a recursive deletion.
use pereprava.Core.Actor.Coherence.Invalidation.{ChangesIn}
use mathlib.Core.Path.{subst}
use pereprava.Prelude.{ℕ, ◌≡◌, refl, sym, Bool, false, none, some, List, get_elem?, ◌==◌, take}
use pereprava.Prelude.Text.{Text}
use pereprava.Core.Error.{Error, Result, ok, err, from}
use pereprava.Core.Names.{Unicode}
use pereprava.Core.Model.{Entry}
use pereprava.Core.Actor.Device.{Device, UploadReply, uploaded, failed, NewObjectInfo, Item}
use pereprava.Core.Actor.Monad.{fail, ◌>>◌}
use pereprava.Core.Actor.State.{
  ActorState, StorageRec, Handler, call, open_storage, parent_arg, children_of,
}
use pereprava.Core.Actor.Lookup.{Resolved, resolve}
use pereprava.Core.Actor.Lookup
use pereprava.Core.Actor.Tree.{
  forget, entry_on, hinfo, hread_range, mkdir_all, move_into, rename_handle, hdelete, hmkdir,
}
use pereprava.Core.Actor.Tree
use pereprava.Core.Actor.Transfer.{
  Read, upload_into, finish_upload, send, stream_of, discard_partial, discard, count_bytes,
}
use pereprava.Core.Actor.Dispatch.{
  Request, Response, dispatch, ping_device, shutdown, ping, hlist, hinfo_of, hread, hdelete_of,
  hupload, hmkdir_in, hrename, storages, info, list_of, resolve_of, mkdir_all_of, remove_of,
  rename_of, move_into_of, upload_to, entry,
}
use pereprava.Core.Actor.Coherence.{IsLawful, IsCoherent}
use pereprava.Core.Actor.Coherence.Rules.{
  Ensures, Post, Ensures-bind, Ensures-mono, Ensures-if, Ensures-open_storage,
}
use pereprava.Core.Actor.Coherence.Children.{Good-stable, parent_arg-dir_of}
use pereprava.Core.Actor.Coherence.Mutations.{
  IsCoherent-after, NothingMore, NothingMore-tree, hdelete-IsCoherent, hmkdir-IsCoherent,
  Ensures-given,
}
use pereprava.Core.Actor.Coherence.Renaming.{Ensures-entry_on, rename_handle-IsCoherent}
use pereprava.Core.Actor.Coherence.Lookups.{
  Stays, Stays-bind, Stays-pure, Stays-call, Stays-open_storage, Stays-children_of, Stays-list,
  Stays-resolve,
}
use pereprava.Core.Actor.Coherence.Paths.{
  Start, End, Ends, Ends-mkdir_all, Ends-remove, Stale, Ensures-forget_here,
}
use pereprava.Core.Actor.Coherence.Moves.{Ends-rename, Ends-move_into}

module _ {D : Device} (L : IsLawful D) (u : Unicode) where
  abbrev Keeps : {A : Type 0} → Handler D A → Type 0
  Keeps m = (σ : ActorState D) → IsCoherent L σ → IsCoherent L (m σ).1

  Ends-Keeps : {A : Type 0} (m : Handler D A) → ((T : List StorageRec) → Ends L u T m) → Keeps m
  Ends-Keeps m k σ b = IsCoherent-after L u σ.storages (m σ) ((k σ.storages).at σ (refl, b, tt))

  Stays-Keeps :
      {A : Type 0} (m : Handler D A)
      → ((T : List StorageRec) → Stays L u T (NothingMore L u) (NothingMore-tree L u) m)
      → Keeps m
  Stays-Keeps m k =
      Ends-Keeps m
        λ T. Ensures-mono _ _ _ _ _ _ m (k T) (λ σ h. h) (λ a σ h. (h.0, h.1)) (λ σ h. (h.0, h.1))

  module _ (T : List StorageRec) where
    abbrev StaysHere : {A : Type 0} → Handler D A → Type 0
    StaysHere m = Stays L u T (NothingMore L u) (NothingMore-tree L u) m

    Stays-entry_on : (g : D.Storage) (h : ℕ) → StaysHere (entry_on u D g h)
    unfolding entry_on
    Stays-entry_on g h =
        Stays-bind L u T (NothingMore L u) (NothingMore-tree L u) (call D (D.get_object_info g h)) _
          (Stays-call L u T (NothingMore L u) (NothingMore-tree L u) (D.get_object_info g h)
            (L.get_object_info-same g h))
          λ o. Stays-pure L u T (NothingMore L u) (NothingMore-tree L u) _

    Stays-hinfo : (idx h : ℕ) → StaysHere (hinfo u D idx h)
    unfolding hinfo
    Stays-hinfo idx h =
        Stays-bind L u T (NothingMore L u) (NothingMore-tree L u) (open_storage D idx) _
          (Stays-open_storage L u T (NothingMore L u) (NothingMore-tree L u) idx)
          λ g. Stays-entry_on g h

    Stays-hread_range : (idx h offset count : ℕ) → StaysHere (hread_range u D idx h offset count)
    unfolding hread_range
    Stays-hread_range idx h offset count =
        Stays-bind L u T (NothingMore L u) (NothingMore-tree L u) (open_storage D idx) _
          (Stays-open_storage L u T (NothingMore L u) (NothingMore-tree L u) idx)
          λ g.
            Stays-call L u T (NothingMore L u) (NothingMore-tree L u)
              (D.read_range g h offset count) (L.read_range-same g h offset count)

    Stays-ping_device : StaysHere (ping_device u D)
    unfolding ping_device
    Stays-ping_device =
        Stays-bind L u T (NothingMore L u) (NothingMore-tree L u) (open_storage D 0) _
          (Stays-open_storage L u T (NothingMore L u) (NothingMore-tree L u) 0)
          λ g.
            Stays-bind L u T (NothingMore L u) (NothingMore-tree L u)
              (call D (D.list_objects g none)) _
              (Stays-call L u T (NothingMore L u) (NothingMore-tree L u) (D.list_objects g none)
                (L.list_objects-same g none))
              λ o. Stays-pure L u T (NothingMore L u) (NothingMore-tree L u) tt

    -- What `send` leaves: the directory may have a new file in it, though the upload failed.
    Ensures-send :
        (idx dir : ℕ) (what : NewObjectInfo) (items : List Item) (g : D.Storage) (rec : StorageRec)
        → get_elem? T idx ≡ some rec
        → L.sid_of g ≡ rec.id
        → Ensures
            (Start L u T)
            (λ _ σ. Stale L u T idx dir σ)
            (λ _. Unit {0})
            (send u D g (parent_arg D dir) what items)
    unfolding send
    Ensures-send idx dir what items g rec found same = record {
      at = λ σ (table, true_of, _). (
        rec,
        found,
        (
          σ.device,
          table,
          true_of,
          subst
              (λ i.
                ChangesIn L (λ j d. (j ≡ i) × (d ≡ dir)) σ.device
                  (D.upload g (parent_arg D dir) what items σ.device).1)
              same
              (subst
                (λ k.
                  ChangesIn L (λ j d. (j ≡ L.sid_of g) × (d ≡ k)) σ.device
                    (D.upload g (parent_arg D dir) what items σ.device).1)
                (parent_arg-dir_of L dir)
                (L.upload-changes g (parent_arg D dir) what items σ.device)),
          tt,
        ),
      );
    }

    -- Whatever the state, the handler fails.
    never :
        {A : Type 0} (P : ActorState D → Type 0) (R : A → ActorState D → Type 0)
        (m : Handler D (Unit {0})) (e : Error)
        → Ensures P R (λ _. Unit {0}) (m >> fail e)
    never P R m e =
        Ensures-bind P (λ _. Unit {0}) (λ _ _. Unit {0}) R m _
          (record { at = λ σ _. anything (m σ) }) λ _. record { at = λ σ _. tt }
      where
        anything : (r : Result (Unit {0}) × ActorState D) → Post (λ _ _. Unit {0}) (λ _. Unit {0}) r
        anything (ok _, σ) = tt
        anything (err _, σ) = tt

    Ensures-finish_upload :
        (idx dir size : ℕ) (items : List Item) (g : D.Storage) (taken : ℕ) (r : UploadReply)
        → Ensures
            (λ σ. Stale L u T idx dir σ)
            (λ _. End L u T)
            (λ _. Unit {0})
            (finish_upload u D idx dir size items g taken r)
    unfolding finish_upload
    Ensures-finish_upload idx dir size items g taken (failed e partial) =
        never _ _ (discard_partial u D g partial) (from e)
    Ensures-finish_upload idx dir size items g taken (uploaded h) =
        Ensures-if _ _ _ (count_bytes (take taken items) == size) _ _
          (λ _.
            Ensures-mono _ _ _ _ _ _ (do forget u D idx dir; entry_on u D g h)
              (Ensures-bind _ _ _ _ (forget u D idx dir) _
                (Ensures-forget_here L u T (NothingMore L u) idx dir)
                λ _. Ensures-entry_on L u T g h)
              (λ σ k. k) (λ a σ k. k) (λ σ k. tt))
          (λ _. never _ _ (discard u D g h) Error.mtp)

    pub Ensures-upload_into :
        (idx dir : ℕ) (name : Text) (size : ℕ) (reads : List Read)
        → Ensures
            (Start L u T)
            (λ _. End L u T)
            (λ _. Unit {0})
            (upload_into u D idx dir name size reads)
    unfolding upload_into
    Ensures-upload_into idx dir name size reads =
        Ensures-bind _ _ _ _ (open_storage D idx) _
          (Ensures-mono _ _ _ _ _ _ (open_storage D idx)
            (Ensures-open_storage L T (Start L u T) idx (λ σ k. k.0)
              (Good-stable L T (NothingMore L u) (NothingMore-tree L u)))
            (λ σ k. k) (λ g σ k. k) (λ σ k. tt))
          λ g. Ensures-given L u _ _ _ _ _ λ (rec, found, same).
            Ensures-bind _ _ _ _
              (send u D g (parent_arg D dir) (record { name = name; size = size })
                (stream_of reads))
              _ (Ensures-send idx dir _ (stream_of reads) g rec found same)
              λ r. Ensures-finish_upload idx dir size (stream_of reads) g r.taken r.outcome

  -- An upload must succeed, and nothing is said of a recursive deletion.
  abbrev pub Settles : Request → Response → Type 0
  Settles (remove_of path recursive) r = recursive ≡ false
  Settles (hupload idx dir name size reads) r = (e : Entry) × (r ≡ entry (ok e))
  Settles (upload_to parent name size reads) r = (e : Entry) × (r ≡ entry (ok e))
  Settles q r = Unit {0}

  uploaded-IsCoherent :
      (T : List StorageRec) (r : Result Entry × ActorState D)
      → Post (λ _. End L u T) (λ _. Unit {0}) r
      → (e : Entry) × (entry r.0 ≡ entry (ok e))
      → IsCoherent L r.1
  uploaded-IsCoherent T (ok a, σ) h _ = h.1
  uploaded-IsCoherent T (err e, σ) h (a, k) = absurd (cc)

  upload_into-Keeps :
      (idx dir : ℕ) (name : Text) (size : ℕ) (reads : List Read) (σ : ActorState D)
      → IsCoherent L σ
      → (e : Entry) × (entry (upload_into u D idx dir name size reads σ).0 ≡ entry (ok e))
      → IsCoherent L (upload_into u D idx dir name size reads σ).1
  upload_into-Keeps idx dir name size reads σ b =
      uploaded-IsCoherent σ.storages (upload_into u D idx dir name size reads σ)
        ((Ensures-upload_into σ.storages idx dir name size reads).at σ (refl, b, tt))

  remove-Keeps :
      (fuel : ℕ) (path : Text) (recursive : Bool)
      → recursive ≡ false
      → Keeps (Tree.remove u D fuel path recursive)
  remove-Keeps fuel path recursive plain =
      subst (λ b. Keeps (Tree.remove u D fuel path b)) (sym plain)
        (Ends-Keeps (Tree.remove u D fuel path false) λ T. Ends-remove L u T fuel path)

  -- Whatever request is served, every cached listing is afterwards what the device would answer, if
  -- every cached one was before: whether the request succeeds or fails, with the exception of an
  -- upload, which must succeed, and of a recursive deletion, of which nothing is said.
  pub dispatch-IsCoherent :
      (fuel : ℕ) (q : Request) (σ : ActorState D)
      → IsCoherent L σ
      → Settles q (dispatch u D fuel q σ).0
      → IsCoherent L (dispatch u D fuel q σ).1
  unfolding dispatch
  dispatch-IsCoherent fuel shutdown σ b h = b
  dispatch-IsCoherent fuel ping σ b h = Stays-Keeps (ping_device u D) (λ T. Stays-ping_device T) σ b
  dispatch-IsCoherent fuel (hlist idx dir) σ b h =
      Stays-Keeps (children_of D idx dir false)
        (λ T. Stays-children_of L u T (NothingMore L u) (NothingMore-tree L u) idx dir false) σ b
  dispatch-IsCoherent fuel (hinfo_of idx handle) σ b h =
      Stays-Keeps (hinfo u D idx handle) (λ T. Stays-hinfo T idx handle) σ b
  dispatch-IsCoherent fuel (hread idx handle offset count) σ b h =
      Stays-Keeps (hread_range u D idx handle offset count)
        (λ T. Stays-hread_range T idx handle offset count) σ b
  dispatch-IsCoherent fuel (hdelete_of idx handle) σ b h = hdelete-IsCoherent L u idx handle σ b
  dispatch-IsCoherent fuel (hupload idx dir name size reads) σ b h =
      upload_into-Keeps idx dir name size reads σ b h
  dispatch-IsCoherent fuel (hmkdir_in idx dir name) σ b h = hmkdir-IsCoherent L u idx dir name σ b
  dispatch-IsCoherent fuel (hrename idx from_parent from_name to_parent to_name) σ b h =
      rename_handle-IsCoherent L u idx from_parent from_name to_parent to_name σ b
  dispatch-IsCoherent fuel storages σ b h = b
  dispatch-IsCoherent fuel info σ b h = b
  dispatch-IsCoherent fuel (list_of path refresh) σ b h =
      Stays-Keeps (Lookup.list u D path refresh)
        (λ T. Stays-list L u T (NothingMore L u) (NothingMore-tree L u) path refresh) σ b
  dispatch-IsCoherent fuel (resolve_of path refresh) σ b h =
      Stays-Keeps (resolve u D path refresh)
        (λ T. Stays-resolve L u T (NothingMore L u) (NothingMore-tree L u) path refresh) σ b
  dispatch-IsCoherent fuel (mkdir_all_of path) σ b h =
      Ends-Keeps (mkdir_all u D path) (λ T. Ends-mkdir_all L u T path) σ b
  dispatch-IsCoherent fuel (remove_of path recursive) σ b h = remove-Keeps fuel path recursive h σ b
  dispatch-IsCoherent fuel (rename_of path new_name) σ b h =
      Ends-Keeps (Tree.rename u D path new_name) (λ T. Ends-rename L u T path new_name) σ b
  dispatch-IsCoherent fuel (move_into_of src dst) σ b h =
      Ends-Keeps (move_into u D src dst) (λ T. Ends-move_into L u T src dst) σ b
  dispatch-IsCoherent fuel (upload_to parent name size reads) σ b h =
      upload_into-Keeps parent.storage_index parent.handle name size reads σ b h
