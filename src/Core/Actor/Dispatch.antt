-- ===== src/Core/Actor/Dispatch.antt =====
-- The requests and the loop that serves them one at a time.
use pereprava.Prelude.{ℕ, Bool, false, Option, none, List, [], ◌∷◌, map}
use pereprava.Prelude.Text.{Text}
use pereprava.Core.Error.{Error, Result, ok, err}
use pereprava.Core.Names.{Unicode}
use pereprava.Core.Model.{Entry, StorageSummary, DeviceSummary}
use pereprava.Core.Actor.Device.{Device, Reply, done, failed}
use pereprava.Core.Actor.Monad.{pure, ◌>>=◌, ◌>>◌}
use pereprava.Core.Actor.State.{
  ActorState, Handler, call, open_storage, children_of, summary, summary_of,
}
use pereprava.Core.Actor.Lookup.{Resolved, resolve}
use pereprava.Core.Actor.Lookup
use pereprava.Core.Actor.Tree.{
  hdelete, hmkdir, hinfo, hread_range, rename_handle, mkdir_all, move_into,
}
use pereprava.Core.Actor.Tree
use pereprava.Core.Actor.Transfer.{Read, upload_into}

-- `Request`, less its reply channels. A download needs its writer as well and is `Transfer.download`.
pub data Request : Type 0 where
  shutdown ping : Request
  hlist : ℕ → ℕ → Request
  hinfo_of : ℕ → ℕ → Request
  hread : ℕ → ℕ → ℕ → ℕ → Request
  hdelete_of : ℕ → ℕ → Request
  hupload : ℕ → ℕ → Text → ℕ → List Read → Request
  hmkdir_in : ℕ → ℕ → Text → Request
  hrename : ℕ → ℕ → Text → ℕ → Text → Request
  storages info : Request
  list_of : Text → Bool → Request
  resolve_of : Text → Bool → Request
  mkdir_all_of : Text → Request
  remove_of : Text → Bool → Request
  rename_of : Text → Text → Request
  move_into_of : Text → Text → Request
  upload_to : Resolved → Text → ℕ → List Read → Request

-- What is sent back.
pub data Response : Type 0 where
  nothing : Response
  unit : Result (Unit {0}) → Response
  entries : Result (List Entry) → Response
  entry : Result Entry → Response
  content : Result (List ℕ) → Response
  summaries : Result (List StorageSummary) → Response
  device_summary : Result DeviceSummary → Response
  resolved : Result Resolved → Response
  removed : Result (Option ℕ) → Response

module _ (u : Unicode) (D : Device) where
  -- `Request::Ping`: the root of the first storage is listed, and the listing is dropped.
  unfoldable pub ping_device : Handler D (Unit {0})
  ping_device = do st ← open_storage D 0; call D (D.list_objects st none); pure tt

  abbrev send {ℓ} :
      {A : Type ℓ} → (Result A → Response) → Result A × ActorState D → Response × ActorState D
  send f (r, s) = (f r, s)

  -- `dispatch`. The fuel is that of a recursive delete.
  unfoldable pub dispatch : ℕ → Request → ActorState D → Response × ActorState D
  dispatch fuel shutdown s = (nothing, s)
  dispatch fuel ping s = send unit (ping_device s)
  dispatch fuel (hlist idx dir) s = send entries (children_of D idx dir false s)
  dispatch fuel (hinfo_of idx handle) s = send entry (hinfo u D idx handle s)
  dispatch fuel (hread idx handle offset count) s =
      send content (hread_range u D idx handle offset count s)
  dispatch fuel (hdelete_of idx handle) s = send unit (hdelete u D idx handle s)
  dispatch fuel (hupload idx parent name size reads) s =
      send entry (upload_into u D idx parent name size reads s)
  dispatch fuel (hmkdir_in idx parent name) s = send entry (hmkdir u D idx parent name s)
  dispatch fuel (hrename idx from_parent from_name to_parent to_name) s =
      send entry (rename_handle u D idx from_parent from_name to_parent to_name s)
  dispatch fuel storages s = (summaries (ok (map summary_of s.storages)), s)
  dispatch fuel info s = (device_summary (ok (summary D s)), s)
  dispatch fuel (list_of path refresh) s = send entries (Lookup.list u D path refresh s)
  dispatch fuel (resolve_of path refresh) s = send resolved (resolve u D path refresh s)
  dispatch fuel (mkdir_all_of path) s = send entry (mkdir_all u D path s)
  dispatch fuel (remove_of path recursive) s = send removed (Tree.remove u D fuel path recursive s)
  dispatch fuel (rename_of path new_name) s = send entry (Tree.rename u D path new_name s)
  dispatch fuel (move_into_of src dst) s = send entry (move_into u D src dst s)
  dispatch fuel (upload_to parent name size reads) s =
      send entry (upload_into u D parent.storage_index parent.handle name size reads s)

  close_outcome : Reply (Unit {0}) → Result (Unit {0})
  close_outcome (done _) = ok tt
  close_outcome (failed e) = err Error.mtp

  close_device : ActorState D → Result (Unit {0}) × ActorState D
  unfolding close_outcome
  close_device s = let (r, d) = D.close s.device in (close_outcome r, record s { device = d })

  -- `run`: the responses in order, and the outcome of the teardown. A closed channel is the end of
  -- the list.
  unfoldable pub run :
      ℕ → List Request → ActorState D → List Response × Result (Unit {0}) × ActorState D
  unfolding close_device
  run fuel [] s = let (r, s') = close_device s in ([], r, s')
  run fuel (shutdown ∷ rs) s = let (r, s') = close_device s in ([], r, s')
  run fuel (q ∷ rs) s =
      let (a, s') = dispatch fuel q s in let (as', r, t) = run fuel rs s' in (a ∷ as', r, t)
