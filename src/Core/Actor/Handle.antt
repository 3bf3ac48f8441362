-- ===== src/Core/Actor/Handle.antt =====
-- `DeviceHandle`: the calls that do more than to send one request and wait for its answer. Sending
-- and waiting is to run the handler; that the actor has gone is left out.
use pereprava.Prelude.{ℕ, not, ◌&&◌, ◌==◌, List, if◌then◌else◌, false}
use pereprava.Prelude.Text.{Text, contains, slash}
use pereprava.Core.Error.{Result, ok, err, wrong_kind, invalid_argument}
use pereprava.Core.Names.{Unicode}
use pereprava.Core.Model.{Entry}
use pereprava.Core.Actor.Device.{Device}
use pereprava.Core.Actor.Monad.{fail, ◌>>=◌}
use pereprava.Core.Actor.State.{ActorState, Handler}
use pereprava.Core.Actor.Lookup.{Resolved, resolve}
use pereprava.Core.Actor.Transfer.{Writer, download, Read, upload_into}

module _ (u : Unicode) (D : Device) where
  unfoldable pub download_resolved :
      (W : Writer) → Result Resolved × ActorState D → W.State → Result ℕ × W.State × ActorState D
  download_resolved W (err e, s) w = (err e, w, s)
  download_resolved W (ok target, s) w =
      if target.entry.is_dir then (err wrong_kind, w, s) else download u D W target w s

  -- `download_into`, with the state of the writer
  unfoldable pub download_into :
      (W : Writer) → Text → W.State → ActorState D → Result ℕ × W.State × ActorState D
  unfolding download_resolved
  download_into W path w s = download_resolved W (resolve u D path false s) w

  -- `upload_new`
  unfoldable pub upload_new : Text → Text → ℕ → List Read → Handler D Entry
  upload_new parent_path name size reads = do
    parent ← resolve u D parent_path false
    if not parent.entry.is_dir && not (parent.handle == D.root) then fail wrong_kind else do
      if contains slash name
          then fail invalid_argument
          else upload_into u D parent.storage_index parent.handle name size reads
