-- ===== src/Core/Actor/Transfer/Stored.antt =====
-- What an upload that succeeds leaves on the device.
use mathlib.Core.Path.{subst}
use pereprava.Prelude.{
  ℕ, zero, suc, ◌+◌, ◌≡◌, refl, sym, ap, ◌∙◌, inl, inr, Bool-cases, Option, none, some, List, [],
  ◌∷◌, ◌++◌, length, length-append, take, ◌==◌, ==_iff, get_elem?, arith,
}
use pereprava.Prelude.Text.{Text}
use pereprava.Core.Error.{Error, Result, ok, err, invalid_argument, ok-injective}
use pereprava.Core.Cache.{invalidate}
use pereprava.Core.Names.{Unicode}
use pereprava.Core.Model.{Entry}
use pereprava.Core.Actor.Device.{
  Device, ObjectInfo, Reply, done, failed, map_err, UploadReply, uploaded, NewObjectInfo, Item,
  chunk, broken,
}
use pereprava.Core.Actor.Monad.{>>=-eq-ok, pure, ok_or, ◌>>=◌}
use pereprava.Core.Actor.State.{
  ActorState, StorageRec, entry_of, storage, call, change_cache, open_storage, parent_arg,
}
use pereprava.Core.Actor.Tree.{forget, entry_on}
use pereprava.Core.Actor.Transfer.{
  Read, bytes, read_failed, stream_of, count_bytes, discard, discard_partial, send, finish_upload,
  upload_into,
}

-- The bytes that a reader gives before its end or its first failure.
abbrev pub source_bytes : List Read → List ℕ
source_bytes [] = []
source_bytes (bytes [] ∷ rs) = []
source_bytes (bytes (b ∷ bs) ∷ rs) = (b ∷ bs) ++ source_bytes rs
source_bytes (read_failed ∷ rs) = []

-- The bytes of a stream.
abbrev pub item_bytes : List Item → List ℕ
item_bytes [] = []
item_bytes (chunk bs ∷ items) = bs ++ item_bytes items
item_bytes (broken ∷ items) = item_bytes items

-- What is relied on of a device that takes an upload: the new object holds what was taken of the
-- stream, and looking at an object changes none.
pub record Stores (D : Device) : Type 0 where
  pub content : D.State → D.Storage → ℕ → List ℕ
  pub upload-stores :
      (st : D.Storage) (p : Option ℕ) (info : NewObjectInfo) (items : List Item) (s : D.State)
      (h : ℕ)
      → (D.upload st p info items s).0.outcome ≡ uploaded h
      → content (D.upload st p info items s).1 st h
        ≡ item_bytes (take (D.upload st p info items s).0.taken items)
  pub info-keeps :
      (st : D.Storage) (h k : ℕ) (s : D.State)
      → content (D.get_object_info st h s).1 st k ≡ content s st k
  pub info-handle :
      (st : D.Storage) (h : ℕ) (s s' : D.State) (oi : ObjectInfo)
      → D.get_object_info st h s ≡ (done oi, s')
      → oi.handle ≡ h

length-item_bytes : (items : List Item) → length (item_bytes items) ≡ count_bytes items
unfolding count_bytes
length-item_bytes [] = refl
length-item_bytes (chunk bs ∷ items) =
    omega (arith, length-append bs (item_bytes items), length-item_bytes items)
length-item_bytes (broken ∷ items) = length-item_bytes items

take-append : (xs ys : List ℕ) (n : ℕ) → take (length xs + n) (xs ++ ys) ≡ xs ++ take n ys
take-append [] ys n = ap (λ k. take k ys) (omega arith)
take-append (x ∷ xs) ys n =
    let shift : suc (length xs) + n ≡ suc (length xs + n) = omega arith in
    ap (λ k. take k (x ∷ (xs ++ ys))) shift ∙ ap (λ zs. x ∷ zs) (take-append xs ys n)

item_bytes-nil : (k n : ℕ) → item_bytes (take {A = Item} k []) ≡ take n []
item_bytes-nil zero zero = refl
item_bytes-nil zero (suc n) = refl
item_bytes-nil (suc k) zero = refl
item_bytes-nil (suc k) (suc n) = refl

-- What is taken of the stream is the beginning of what the reader gives.
taken-source_bytes :
    (reads : List Read) (k : ℕ)
    → item_bytes (take k (stream_of reads))
      ≡ take (count_bytes (take k (stream_of reads))) (source_bytes reads)
unfolding stream_of count_bytes
taken-source_bytes reads zero = refl
taken-source_bytes [] (suc k) = item_bytes-nil k _
taken-source_bytes (bytes [] ∷ rs) (suc k) = item_bytes-nil k _
taken-source_bytes (bytes (b ∷ bs) ∷ rs) (suc k) =
    ap (λ ys. (b ∷ bs) ++ ys) (taken-source_bytes rs k)
    ∙ sym (take-append (b ∷ bs) (source_bytes rs) (count_bytes (take k (stream_of rs))))
taken-source_bytes (read_failed ∷ rs) (suc k) = item_bytes-nil k _

module _ {D : Device} where
  storage-ok :
      (idx : ℕ) (σ τ : ActorState D) (rec : StorageRec)
      → storage D idx σ ≡ (ok rec, τ)
      → (get_elem? σ.storages idx ≡ some rec) × (τ.device ≡ σ.device)
  unfolding storage
  storage-ok idx σ τ rec h = go (get_elem? σ.storages idx) h
    where
      go :
          (o : Option StorageRec)
          → ok_or o invalid_argument σ ≡ (ok rec, τ)
          → (o ≡ some rec) × (τ.device ≡ σ.device)
      go none e = absurd (cc)
      go (some r) e =
          (ground arith, ap (λ (x : Result StorageRec × ActorState D). x.1.device) (sym e))

  call-ok :
      {A : Type 0} (op : D.State → Reply A × D.State) (σ τ : ActorState D) (a : A)
      → call D op σ ≡ (ok a, τ)
      → op σ.device ≡ (done a, τ.device)
  unfolding call map_err
  call-ok {A} op σ τ a h = go (op σ.device) refl h
    where
      go :
          (r : Reply A × D.State)
          → op σ.device ≡ r
          → ◌≡◌ {A = Result A × ActorState D} (map_err r.0, record σ { device = r.1 }) (ok a, τ)
          → r ≡ (done a, τ.device)
      go (done b, d) e k = cc (
        ap (λ (x : Result A × ActorState D). x.1.device) k,
        ok-injective (ap (λ (x : Result A × ActorState D). x.0) k),
      )
      go (failed x, d) e k = absurd (cc)

  -- The storage is that of the table.
  open_storage-ok :
      (idx : ℕ) (σ τ : ActorState D) (st : D.Storage)
      → open_storage D idx σ ≡ (ok st, τ)
      → (rec : StorageRec) × (get_elem? σ.storages idx ≡ some rec)
        × (D.storage rec.id σ.device ≡ (done st, τ.device))
  unfolding open_storage
  open_storage-ok idx σ τ st h =
      let (rec, t, found, more) =
        >>=-eq-ok (storage D idx) (λ rec. call D (D.storage rec.id)) σ τ st h in
      let (here, same) = storage-ok idx σ t rec found in
      (
        rec,
        here,
        subst (λ d. D.storage rec.id d ≡ (done st, τ.device)) same
            (call-ok (D.storage rec.id) t τ st more),
      )

  forget-device :
      (u : Unicode) (idx dir : ℕ) (σ τ : ActorState D)
      → forget u D idx dir σ ≡ (ok tt, τ)
      → τ.device ≡ σ.device
  unfolding forget change_cache
  forget-device u idx dir σ τ h =
      let (rec, t, found, more) =
        >>=-eq-ok (storage D idx) (λ rec. change_cache D (λ c. invalidate c rec.id dir)) σ τ tt h in
      ap (λ (x : Result (Unit {0}) × ActorState D). x.1.device) (sym more)
      ∙ (storage-ok idx σ t rec found).1

  -- An upload that is reported as done: the answer was a handle, the stream gave `size` bytes, and the
  -- entry is what the device says of the new object.
  record IsDone (σ τ : ActorState D) (st : D.Storage) (items : List Item) (taken size : ℕ)
      (r : UploadReply) (e : Entry) : Type 0 where
    handle : ℕ
    answered : r ≡ uploaded handle
    counted : count_bytes (take taken items) ≡ size
    info : ObjectInfo
    looked : D.get_object_info st handle σ.device ≡ (done info, τ.device)
    described : e ≡ entry_of info

  finish_upload-IsDone :
      (u : Unicode) (idx parent size : ℕ) (items : List Item) (st : D.Storage) (taken : ℕ)
      (r : UploadReply) (σ τ : ActorState D) (e : Entry)
      → finish_upload u D idx parent size items st taken r σ ≡ (ok e, τ)
      → IsDone σ τ st items taken size r e
  unfolding finish_upload discard_partial discard entry_on
  finish_upload-IsDone u idx parent size items st taken (UploadReply.failed x none) σ τ e k =
      absurd (cc)
  finish_upload-IsDone u idx parent size items st taken (UploadReply.failed x (some h)) σ τ e k =
      absurd (cc)
  finish_upload-IsDone u idx parent size items st taken (uploaded h) σ τ e k =
      elim (Bool-cases (count_bytes (take taken items) == size)) [
        | inr differ ↦ absurd (short_not_ok (rw differ at k))
        | inl equal ↦
            let (_, t, forgot, more) =
              >>=-eq-ok (forget u D idx parent) (λ _. entry_on u D st h) σ τ e (rw equal at k) in
            let (oi, v, looked, last) =
              >>=-eq-ok (call D (D.get_object_info st h)) (λ oi. pure (entry_of oi)) t τ e more in
            record {
              handle = h;
              answered = refl;
              counted = (==_iff (count_bytes (take taken items)) size).0 equal;
              info = oi;
              looked =
                  subst (λ d. D.get_object_info st h d ≡ (done oi, τ.device))
                    (forget-device u idx parent σ t forgot)
                    (call-ok (D.get_object_info st h) t v oi looked
                      ∙ ap (λ (x : Result Entry × ActorState D). (done oi, x.1.device)) last);
              described = ok-injective (ap (λ (x : Result Entry × ActorState D). x.0) (sym last));
            }
      ]
    where
      short_not_ok :
          {x : Error} {s s' : ActorState D}
          → ◌≡◌ {A = Result Entry × ActorState D} (err x, s) (ok e, s')
          → ⊥
      short_not_ok q = cc

module _ {D : Device} (S : Stores D) where
  -- The object of the entry, on the storage of that number, has that content.
  pub record Holds (σ τ : ActorState D) (idx : ℕ) (e : Entry) (bs : List ℕ) : Type 0 where
    pub table : StorageRec
    pub in_table : get_elem? σ.storages idx ≡ some table
    pub opened : D.Storage
    pub session : D.State
    pub is_opened : D.storage table.id σ.device ≡ (done opened, session)
    pub holds : S.content τ.device opened e.handle ≡ bs

  -- An upload that succeeds leaves an object on the storage that was asked for, the one of the entry
  -- returned, whose content is the first `size` bytes that the reader gives, and they are `size` bytes.
  pub upload_into-Holds :
      (u : Unicode) (idx parent : ℕ) (name : Text) (size : ℕ) (reads : List Read)
      (σ τ : ActorState D) (e : Entry)
      → upload_into u D idx parent name size reads σ ≡ (ok e, τ)
      → Holds σ τ idx e (take size (source_bytes reads))
        × (length (take size (source_bytes reads)) ≡ size)
  unfolding upload_into send
  upload_into-Holds u idx parent name size reads σ τ e h =
      let (st, s, opened, more) =
        >>=-eq-ok (open_storage D idx)
          (λ st.
            send u D st (parent_arg D parent) (record { name = name; size = size })
              (stream_of reads)
            >>= λ r. finish_upload u D idx parent size (stream_of reads) st r.taken r.outcome)
          σ τ e h in
      let (rec, here, is_open) = open_storage-ok idx σ s st opened in
      let up =
        D.upload st (parent_arg D parent) (record { name = name; size = size }) (stream_of reads)
          s.device in
      let it =
        finish_upload-IsDone u idx parent size (stream_of reads) st up.0.taken up.0.outcome
          (record s { device = up.1 }) τ e more in
      let stored : item_bytes (take up.0.taken (stream_of reads)) ≡ take size (source_bytes reads) =
        taken-source_bytes reads up.0.taken ∙ ap (λ n. take n (source_bytes reads)) it.counted in
      let same_handle : e.handle ≡ it.handle =
        ap (λ (x : Entry). x.handle) it.described
        ∙ S.info-handle st it.handle up.1 τ.device it.info it.looked in
      (
        record {
          table = rec;
          in_table = here;
          opened = st;
          session = s.device;
          is_opened = is_open;
          holds =
              ap (S.content τ.device st) same_handle
              ∙ (ap (λ (x : Reply ObjectInfo × D.State). S.content x.1 st it.handle) (sym it.looked)
                  ∙ (S.info-keeps st it.handle it.handle up.1
                      ∙ (S.upload-stores st (parent_arg D parent)
                            (record { name = name; size = size }) (stream_of reads) s.device
                            it.handle it.answered
                          ∙ stored)));
        },
        ap length (sym stored)
            ∙ (length-item_bytes (take up.0.taken (stream_of reads)) ∙ it.counted),
      )
