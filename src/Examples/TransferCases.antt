-- ===== src/Examples/TransferCases.antt =====
-- Transfers: a writer that keeps what it is given, and a phone that takes every upload.
use pereprava.Prelude.{ℕ, false, arith, ◌≡◌, refl, sym, ap, some, List, [], ◌∷◌, ◌++◌, length, take}
use pereprava.Prelude.Text.{codes}
use pereprava.Core.Error.{Result, ok}
use pereprava.Core.Model.{Entry}
use pereprava.Core.Cache.{new}
use pereprava.Core.Actor.Device.{Device, Reply, done, failed, map_err, uploaded}
use pereprava.Core.Actor.State.{ActorState, open_storage, storage, call, change_cache}
use pereprava.Core.Actor.Tree.{forget, entry_on}
use pereprava.Core.Actor.Transfer.{
  Writer, copy_chunks, receive, bytes, stream_of, count_bytes, send, finish_upload, upload_into,
}
use pereprava.Core.Actor.Transfer.Lengths.{IsLawfulWriter, delivered, receive-delivered}
use pereprava.Core.Actor.Transfer.Stored.{
  source_bytes, item_bytes, Stores, Holds, upload_into-Holds,
}
use pereprava.Core.Actor.Transfer.{Read}
use pereprava.Core.Error.{MtpError}
use pereprava.Examples.CacheCases.{ascii}
use pereprava.Examples.Phone.{phone_device}
use pereprava.Examples.Phone.Camera.{camera, internal}

abbrev buffer : Writer
buffer = record { State = List ℕ; write_all = λ bs w. (ok tt, w ++ bs); flush = λ w. (ok tt, w) }

buffer-IsLawfulWriter : IsLawfulWriter buffer
buffer-IsLawfulWriter = record {
  written = λ w. w;
  write_all-done = λ bs w w' e. sym (ap (λ (x : Result (Unit {0}) × List ℕ). x.1) e);
  flush-done = λ w w' e. sym (ap (λ (x : Result (Unit {0}) × List ℕ). x.1) e);
}

abbrev two_chunks : List (Reply (List ℕ))
two_chunks = done (1 ∷ 2 ∷ []) ∷ done (3 ∷ []) ∷ []

received : receive buffer 3 two_chunks [] ≡ (ok 3, 1 ∷ 2 ∷ 3 ∷ [])
unfolding receive copy_chunks map_err
received = refl

receive-delivered_example :
    (bs : List ℕ) × (delivered two_chunks ≡ some bs)
    × (buffer-IsLawfulWriter.written (1 ∷ 2 ∷ 3 ∷ []) ≡ buffer-IsLawfulWriter.written [] ++ bs)
    × (length bs ≡ 3)
receive-delivered_example =
    receive-delivered buffer buffer-IsLawfulWriter 3 3 two_chunks [] (1 ∷ 2 ∷ 3 ∷ []) received

-- The phone of Examples/Phone, which takes every upload.
unfoldable pub taking_device : Device
unfolding phone_device
taking_device = record phone_device {
  upload = λ g p info items s. (record { outcome = uploaded 5; taken = length items }, s);
}

unfoldable pub taking_state : ActorState taking_device
unfolding taking_device phone_device
taking_state = record { device = camera; storages = internal ∷ []; cache = new }

-- A device with one object, whose content is the state.
abbrev vault : Device
vault = record {
  State = List ℕ;
  Storage = ℕ;
  now = λ _. 0;
  root = 0;
  device_info =
      λ _. record { manufacturer = []; model = []; serial_number = []; device_version = [] };
  storage = λ sid s. (done sid, s);
  list_objects = λ g p s. (done [], s);
  get_object_info = λ g h s. (
    done (record {
      handle = h;
      parent = 10;
      filename = codes "b";
      is_folder = false;
      size = length s;
    }),
    s,
  );
  read_range = λ g h offset count s. (done [], s);
  delete = λ g h s. (done tt, []);
  create_folder = λ g p name s. (failed MtpError.unsupported, s);
  move_object = λ g h dst sid s. (failed MtpError.unsupported, s);
  rename = λ g h name s. (failed MtpError.unsupported, s);
  download = λ g h s. (failed MtpError.unsupported, s);
  upload = λ g p info items s. (
    record { outcome = uploaded 5; taken = length items },
    item_bytes (take (length items) items),
  );
  close = λ s. (done tt, s);
}

vault-Stores : Stores vault
vault-Stores = record {
  content = λ s st h. s;
  upload-stores = λ st p info items s h e. refl;
  info-keeps = λ st h k s. refl;
  info-handle = λ st h s s' oi e. ground arith;
}

abbrev empty_vault : ActorState vault
empty_vault = record { device = []; storages = internal ∷ []; cache = new }

abbrev two_reads : List Read
two_reads = bytes (1 ∷ 2 ∷ []) ∷ bytes (3 ∷ []) ∷ []

sent :
    (t : ActorState vault) × (e : Entry) × (upload_into ascii vault 0 10
        (codes "b")
        3
        two_reads
        empty_vault
      ≡ (ok e, t))
unfolding upload_into send finish_upload open_storage storage call map_err stream_of count_bytes
    forget entry_on change_cache
sent = (_, _, refl)

upload_into-Holds_example :
    Holds vault-Stores empty_vault sent.0 0 sent.1 (take 3 (source_bytes two_reads))
    × (length (take 3 (source_bytes two_reads)) ≡ 3)
upload_into-Holds_example =
    upload_into-Holds vault-Stores ascii 0 10 (codes "b") 3 two_reads empty_vault sent.0 sent.1
      sent.2
