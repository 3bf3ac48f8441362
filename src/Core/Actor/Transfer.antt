-- ===== src/Core/Actor/Transfer.antt =====
-- Downloads and uploads. The progress that they publish is left out.
pub mod Lengths
pub mod Stored
use pereprava.Prelude.{ℕ, ◌+◌, Option, none, some, List, [], ◌∷◌, length, take, ◌==◌, if◌then◌else◌}
use pereprava.Prelude.Text.{Text}
use pereprava.Core.Error.{Error, Result, ok, err, from}
use pereprava.Core.Names.{Unicode}
use pereprava.Core.Model.{Entry}
use pereprava.Core.Actor.Device.{
  Device, Reply, failed, map_err, UploadReply, uploaded, NewObjectInfo, Item, chunk, broken,
}
use pereprava.Core.Actor.Monad.{Act, pure, fail, lift, ◌>>=◌, ◌>>◌}
use pereprava.Core.Actor.State.{ActorState, Handler, call, open_storage, parent_arg}
use pereprava.Core.Actor.Lookup.{Resolved}
use pereprava.Core.Actor.Tree.{forget, entry_on}

-- `AsyncWrite`: where a download goes. It is not part of the repository.
pub record Writer : Type 1 where
  pub State : Type 0
  pub write_all : List ℕ → State → Result (Unit {0}) × State
  pub flush : State → Result (Unit {0}) × State

module _ (W : Writer) where
  -- The loop over the chunks, with the bytes written so far.
  unfoldable pub copy_chunks : List (Reply (List ℕ)) → ℕ → Act W.State ℕ
  copy_chunks [] written = pure written
  copy_chunks (c ∷ cs) written = do
    bytes ← lift (map_err c)
    W.write_all bytes
    copy_chunks cs (written + length bytes)

  -- What follows the opening of the stream: copy, flush, and compare the lengths.
  unfoldable pub receive : ℕ → List (Reply (List ℕ)) → Act W.State ℕ
  receive total chunks = do
    written ← copy_chunks chunks 0
    W.flush
    if written == total then pure written else fail Error.mtp

-- What a reader gives to one `read`: bytes, none of them at the end of the file, or a failure.
pub data Read : Type 0 where
  bytes : List ℕ → Read
  read_failed : Read

-- The stream that `upload_into` unfolds from its reader, which is at its end after the reads listed.
unfoldable pub stream_of : List Read → List Item
stream_of [] = chunk [] ∷ []
stream_of (bytes [] ∷ rs) = chunk [] ∷ []
stream_of (bytes (b ∷ bs) ∷ rs) = chunk (b ∷ bs) ∷ stream_of rs
stream_of (read_failed ∷ rs) = broken ∷ []

-- `CountingReader`: the bytes that went through.
unfoldable pub count_bytes : List Item → ℕ
count_bytes [] = 0
count_bytes (chunk bs ∷ items) = length bs + count_bytes items
count_bytes (broken ∷ items) = count_bytes items

module _ (u : Unicode) (D : Device) where
  unfoldable pub open_download :
      Resolved → Handler D (record { size : ℕ; chunks : List (Reply (List ℕ)) })
  open_download target = do
    st ← open_storage D target.storage_index
    call D (D.download st target.handle)

  unfoldable pub run_download :
      (W : Writer)
      → W.State
      → Result (record { size : ℕ; chunks : List (Reply (List ℕ)) }) × ActorState D
      → Result ℕ × W.State × ActorState D
  run_download W w (ok r, s) = let (n, w') = receive W r.size r.chunks w in (n, w', s)
  run_download W w (err e, s) = (err e, w, s)

  -- `download`
  unfoldable pub download :
      (W : Writer) → Resolved → W.State → ActorState D → Result ℕ × W.State × ActorState D
  unfolding open_download run_download
  download W target w s = run_download W w (open_download target s)

  -- `drop(storage.delete(h).await)`
  unfoldable pub discard : D.Storage → ℕ → Handler D (Unit {0})
  discard st h s = let (_, d) = D.delete st h s.device in (ok tt, record s { device = d })

  unfoldable pub discard_partial : D.Storage → Option ℕ → Handler D (Unit {0})
  unfolding discard
  discard_partial st none = pure tt
  discard_partial st (some h) = discard st h

  unfoldable pub send :
      D.Storage
      → Option ℕ
      → NewObjectInfo
      → List Item
      → Handler D (record { outcome : UploadReply; taken : ℕ })
  send st parent info items s =
      let (r, d) = D.upload st parent info items s.device in (ok r, record s { device = d })

  unfoldable pub finish_upload :
      ℕ → ℕ → ℕ → List Item → D.Storage → ℕ → UploadReply → Handler D Entry
  unfolding discard_partial
  finish_upload idx parent size items st taken (failed e partial) = do
    discard_partial st partial
    fail (from e)
  finish_upload idx parent size items st taken (uploaded h) =
      if count_bytes (take taken items) == size
      then (do forget u D idx parent; entry_on u D st h)
      else (do discard st h; fail Error.mtp)

  -- `upload_into`
  unfoldable pub upload_into : ℕ → ℕ → Text → ℕ → List Read → Handler D Entry
  unfolding send finish_upload
  upload_into idx parent name size reads = do
    st ← open_storage D idx
    r ← send st (parent_arg D parent) (record { name = name; size = size }) (stream_of reads)
    finish_upload idx parent size (stream_of reads) st r.taken r.outcome
