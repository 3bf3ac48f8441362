-- ===== src/Nfs/Paging.antt =====
-- A directory read page by page.
use pereprava.Prelude.{
  ℕ, zero, suc, ◌+◌, ◌-◌, ◌≤◌, ◌<◌, ◌≡◌, refl, sym, ap, ◌∙◌, true, false, inl, inr, Bool-cases, All,
  Option, none, some, List, [], ◌∷◌, ◌++◌, map, length, take, drop, leb, ltb, if◌then◌else◌, arith,
}
use mathlib.Core.Option
use pereprava.Nfs.Files.{min}
use pereprava.Nfs.Listing.{Child, DirEntry, dir_entry_of, page}

-- What a client has read that asks for pages of the given sizes, each from where the one before ended,
-- until a page is said to be the last: their entries, or `none` if no page was.
unfoldable pub pages : List ℕ → ℕ → List Child → Option (List DirEntry)
pages [] start cs = none
pages (n ∷ ns) start cs =
    let p = page cs start n in
    let rest = pages ns (start + n) cs in
    if p.end then some p.entries else Option.map (λ es. p.entries ++ es) rest

module _ {A : Type 0} where
  take_all : (k : ℕ) (xs : List A) → length xs ≤ k → take k xs ≡ xs
  take_all zero [] h = refl
  take_all zero (x ∷ xs) h = absurd (omega arith)
  take_all (suc k) [] h = refl
  take_all (suc k) (x ∷ xs) h = ap (λ ys. x ∷ ys) (take_all k xs (omega arith))

  length-drop : (k : ℕ) (xs : List A) → length (drop k xs) ≡ length xs - k
  length-drop zero xs = omega arith
  length-drop (suc k) [] = omega arith
  length-drop (suc k) (x ∷ xs) = omega (arith, length-drop k xs)

  drop_all : (k : ℕ) (xs : List A) → length xs ≤ k → drop k xs ≡ []
  drop_all zero [] h = refl
  drop_all zero (x ∷ xs) h = absurd (omega arith)
  drop_all (suc k) [] h = refl
  drop_all (suc k) (x ∷ xs) h = drop_all k xs (omega arith)

  take-drop : (n : ℕ) (xs : List A) → take n xs ++ drop n xs ≡ xs
  take-drop zero xs = refl
  take-drop (suc n) [] = refl
  take-drop (suc n) (x ∷ xs) = ap (λ ys. x ∷ ys) (take-drop n xs)

  drop-nil : (n : ℕ) → drop {A = A} n [] ≡ []
  drop-nil zero = refl
  drop-nil (suc n) = refl

  drop-drop : (s n m : ℕ) (xs : List A) → m ≡ s + n → drop n (drop s xs) ≡ drop m xs
  drop-drop zero n m xs h = ap (λ k. drop k xs) (omega (arith, h))
  drop-drop (suc s) n zero xs h = absurd (omega (arith, h))
  drop-drop (suc s) n (suc m) [] h = drop-nil n
  drop-drop (suc s) n (suc m) (x ∷ xs) h = drop-drop s n m xs (omega (arith, h))

  drop-min : (s : ℕ) (xs : List A) → drop (min s (length xs)) xs ≡ drop s xs
  drop-min s xs = elim (Bool-cases (ltb s (length xs))) [
    | inl less ↦ rw less refl
    | inr more ↦
        rw more (drop_all (length xs) xs (omega arith) ∙ sym (drop_all s xs (ground arith)))
  ]

map-append : {A B : Type 0} (f : A → B) (xs ys : List A) → map f (xs ++ ys) ≡ map f xs ++ map f ys
map-append f [] ys = refl
map-append f (x ∷ xs) ys = ap (λ zs. f x ∷ zs) (map-append f xs ys)

module _ (n start : ℕ) (cs : List Child) where
  -- A page that is not the last has `n` entries.
  page_inner :
      start + n < length cs
      → page cs start n
        ≡ record { entries = map dir_entry_of (take n (drop start cs)); end = false }
  unfolding page
  page_inner h =
      let skip : min start (length cs) ≡ start = ground arith in
      let count : min n (length cs - start) ≡ n = ground arith in
      rw skip (
        rw count (
          ap (λ b. record { entries = map dir_entry_of (take n (drop start cs)); end = b })
            (ground arith)))

  page_last :
      length cs ≤ start + n
      → page cs start n ≡ record { entries = map dir_entry_of (drop start cs); end = true }
  unfolding page
  page_last h =
      let skip = min start (length cs) in
      let count = min n (length cs - skip) in
      let ends : leb (length cs) (skip + count) ≡ true = ground arith in
      let whole : take count (drop skip cs) ≡ drop start cs =
        take_all count (drop skip cs) (ground (arith, length-drop skip cs)) ∙ drop-min start cs in
      ap (λ b. record { entries = map dir_entry_of (take count (drop skip cs)); end = b }) ends
      ∙ ap (λ xs. record { entries = map dir_entry_of xs; end = true }) whole

pages-drop :
    (ns : List ℕ) (start : ℕ) (cs : List Child)
    → All (λ n. 0 < n) ns
    → length cs < start + length ns
    → 0 < length ns
    → pages ns start cs ≡ some (map dir_entry_of (drop start cs))
unfolding pages
pages-drop [] start cs pos enough some_size = absurd (omega arith)
pages-drop (n ∷ ns) start cs pos enough some_size =
    elim (Bool-cases (leb (length cs) (start + n))) [
      | inl last ↦ rw (page_last n start cs (ground arith)) refl
      | inr inner ↦ rw (page_inner n start cs (ground arith)) (
          ap (Option.map (λ ys. map dir_entry_of (take n (drop start cs)) ++ ys))
            (pages-drop ns (start + n) cs pos.1 (ground (arith, pos.0)) (ground (arith, pos.0)))
          ∙ ap some (
              ap (λ ys. map dir_entry_of (take n (drop start cs)) ++ map dir_entry_of ys)
                (sym (drop-drop start n (start + n) cs refl))
              ∙ (sym (map-append dir_entry_of (take n (drop start cs)) (drop n (drop start cs)))
                  ∙ ap (map dir_entry_of) (take-drop n (drop start cs)))))
    ]

-- A directory of unchanging children that is read page by page, each page from where the one before
-- ended, gives every child once and in order, and a page is marked as the last one, whatever the sizes
-- that are asked for: none of them zero, and one more of them than there are children is enough.
pub pages_lem :
    (ns : List ℕ) (cs : List Child)
    → All (λ n. 0 < n) ns
    → length cs < length ns
    → pages ns 0 cs ≡ some (map dir_entry_of cs)
pages_lem ns cs pos enough = pages-drop ns 0 cs pos (omega arith) (omega arith)
