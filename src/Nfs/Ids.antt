-- ===== src/Nfs/Ids.antt =====
-- crates/nfs-mount/src/adapter.rs: the 64-bit file ids. The source joins and reads them with bit
-- operations; here `|` of parts without a common bit is `+`, and shifts and masks are `*`, `/` and `%`
-- by powers of two.
use pereprava.Prelude.{
  ℕ, ◌+◌, ◌-◌, ◌*◌, ◌/◌, ◌%◌, ◌^◌, ◌≡◌, ◌<◌, ◌≤◌, ◌≢◌, ◌&&◌, Bool, Option, none, some, leb, ltb,
  ◌==◌, if◌then◌else◌, arith,
}

abbrev pub device_root_id : ℕ
device_root_id = 1

abbrev pub storage_base_id : ℕ
storage_base_id = 2

-- `1 << 63`
abbrev pub real_flag : ℕ
real_flag = 2 ^ 63

-- `1 << 62`
abbrev pub virt_flag : ℕ
virt_flag = 2 ^ 62

pub record Decoded : Type 0 where
  pub storage_index : ℕ
  pub handle : ℕ

pub data Kind : Type 0 where
  device_root : Kind
  storage_root : ℕ → Kind
  real : Decoded → Kind

-- `storage_index << 48` on 64 bits
abbrev pub shifted : ℕ → ℕ
shifted storage_index = (storage_index * 2 ^ 48) % 2 ^ 64

-- `a | 1 << k`: the bit is set where it is not set yet.
abbrev pub set_bit : ℕ → ℕ → ℕ
set_bit bit a = if (a / bit) % 2 == 1 then a else a + bit

-- `encode_real`. The handle is below 2^48, which the source asserts, so `| handle` is `+ handle`.
unfoldable pub encode_real : ℕ → ℕ → ℕ
encode_real storage_index handle = set_bit real_flag (shifted storage_index) + handle

abbrev has_bit : ℕ → ℕ → Bool
has_bit bit a = (a / bit) % 2 == 1

-- `decode`
unfoldable pub decode : ℕ → Option Kind
decode id =
    if has_bit virt_flag id
    then none
    else if id == device_root_id
    then some device_root
    else if leb storage_base_id id && ltb id real_flag
    then some (storage_root (id - storage_base_id))
    else if has_bit real_flag id
    then some (real (record { storage_index = (id / 2 ^ 48) % 2 ^ 15; handle = id % 2 ^ 48 }))
    else none

-- The id that the next value of the counter gives.
abbrev pub virt_id : ℕ → ℕ
virt_id seq = set_bit virt_flag seq

module _ (i h : ℕ) (small : i < 2 ^ 14) (fits : h < 2 ^ 48) where
  encode_real_lem : encode_real i h ≡ i * 2 ^ 48 + 2 ^ 63 + h
  unfolding encode_real
  encode_real_lem = ground arith

  no_virt : ((i * 2 ^ 48 + 2 ^ 63 + h) / 2 ^ 62) % 2 ≡ 0
  no_virt = omega arith

  is_real : ((i * 2 ^ 48 + 2 ^ 63 + h) / 2 ^ 63) % 2 ≡ 1
  is_real = omega arith

  index_part : ((i * 2 ^ 48 + 2 ^ 63 + h) / 2 ^ 48) % 2 ^ 15 ≡ i
  index_part = omega arith

  handle_part : (i * 2 ^ 48 + 2 ^ 63 + h) % 2 ^ 48 ≡ h
  handle_part = omega arith

-- A real object's id decodes to its storage and its handle, for the first 2^14 storages and the
-- handles below 2^48.
pub decode-encode_real :
    (storage_index handle : ℕ)
    → storage_index < 2 ^ 14
    → handle < 2 ^ 48
    → decode (encode_real storage_index handle)
      ≡ some (real (record { storage_index = storage_index; handle = handle }))
unfolding decode
decode-encode_real storage_index handle h k = rw (encode_real_lem storage_index handle h k) (
    ground (
      arith,
      no_virt storage_index handle h k,
      is_real storage_index handle h k,
      index_part storage_index handle h k,
      handle_part storage_index handle h k,
    ))

virt_id_lem : (seq : ℕ) → seq < 2 ^ 62 → virt_id seq ≡ seq + 2 ^ 62
virt_id_lem seq h = ground arith

virt_bit : (seq : ℕ) → seq < 2 ^ 62 → ((seq + 2 ^ 62) / 2 ^ 62) % 2 ≡ 1
virt_bit seq h = omega arith

-- An id that is made up for a new file is no id of a real object, and it decodes to nothing, as long as
-- fewer than 2^62 such ids have been made, for real objects of the first 2^14 storages with handles
-- below 2^48.
pub virt_id-apart :
    (seq storage_index handle : ℕ)
    → seq < 2 ^ 62
    → storage_index < 2 ^ 14
    → handle < 2 ^ 48
    → (decode (virt_id seq) ≡ none) × (virt_id seq ≢ encode_real storage_index handle)
unfolding decode
virt_id-apart seq storage_index handle m h k = (
  rw (virt_id_lem seq m) (ground (arith, virt_bit seq m)),
  λ e. omega (arith, virt_id_lem seq m, encode_real_lem storage_index handle h k, e),
)

wide_bit :
    (i h : ℕ) → i < 2 ^ 15 → 2 ^ 14 ≤ i → h < 2 ^ 48 → ((i * 2 ^ 48 + 2 ^ 63 + h) / 2 ^ 62) % 2 ≡ 1
wide_bit i h wide far fits = omega arith

wide_lem : (i h : ℕ) → i < 2 ^ 15 → h < 2 ^ 48 → encode_real i h ≡ i * 2 ^ 48 + 2 ^ 63 + h
unfolding encode_real
wide_lem i h wide fits = ground arith

-- From the storage with the index 2^14 up to 2^15, the id of an object with a handle below 2^48
-- decodes to nothing.
pub decode-encode_real_wide :
    (storage_index handle : ℕ)
    → storage_index < 2 ^ 15
    → 2 ^ 14 ≤ storage_index
    → handle < 2 ^ 48
    → decode (encode_real storage_index handle) ≡ none
unfolding decode
decode-encode_real_wide storage_index handle wide far fits =
    rw (wide_lem storage_index handle wide fits)
      (ground (arith, wide_bit storage_index handle wide far fits))
