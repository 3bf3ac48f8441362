-- ===== src/Examples/NfsCases.antt =====
-- File ids and pages of a directory.
use pereprava.Prelude.{ℕ, ◌≡◌, ◌≢◌, false, none, some, List, [], ◌∷◌, map, arith}
use pereprava.Nfs.Listing.{Child, dir_entry_of}
use pereprava.Nfs.Paging.{pages, pages_lem}
use pereprava.Nfs.Ids.{
  real, encode_real, decode, virt_id, decode-encode_real, virt_id-apart, decode-encode_real_wide,
}

decode-encode_real_example :
    decode (encode_real 3 20015998343868)
    ≡ some (real (record { storage_index = 3; handle = 20015998343868 }))
decode-encode_real_example = decode-encode_real 3 20015998343868 (omega arith) (omega arith)

virt_id-apart_example : (decode (virt_id 66) ≡ none) × (virt_id 66 ≢ encode_real 0 66)
virt_id-apart_example = virt_id-apart 66 0 66 (omega arith) (omega arith) (omega arith)

decode-encode_real_wide_example : decode (encode_real 16384 7) ≡ none
decode-encode_real_wide_example =
    decode-encode_real_wide 16384 7 (omega arith) (omega arith) (omega arith)

abbrev child : ℕ → Child
child id = record { id = id; name = []; is_dir = false; size = id }

abbrev three : List Child
three = child 1 ∷ child 2 ∷ child 3 ∷ []

pages_lem_example : pages (2 ∷ 1 ∷ 5 ∷ 1 ∷ []) 0 three ≡ some (map dir_entry_of three)
pages_lem_example =
    pages_lem (2 ∷ 1 ∷ 5 ∷ 1 ∷ []) three
      (omega arith, (omega arith, (omega arith, (omega arith, tt)))) (omega arith)
