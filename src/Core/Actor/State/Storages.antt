-- ===== src/Core/Actor/State/Storages.antt =====
-- Which storage a reference names.
use mathlib.Core.Path.{subst}
use mathlib.Core.Option.{some-injective}
use pereprava.Prelude.{
  ℕ, zero, suc, ◌+◌, ◌<◌, ◌≡◌, refl, ap, ◌⊎◌, inl, inr, Bool, true, false, sym, ◌∙◌, All, none,
  some, List, [], ◌∷◌, length, get_elem?, position_from, Bool-cases, Option-cases, arith,
}
use pereprava.Prelude.Text.{Text}
use pereprava.Core.Error.{ok}
use pereprava.Core.Names.{Unicode, names_eq_ci}
use pereprava.Core.Actor.State.{StorageRec, find_storage_index, index_from_number, parse_usize}

module _ {ℓ} {A : Type ℓ} where
  get_elem-lt : (xs : List A) (i : ℕ) → i < length xs → (x : A) × (get_elem? xs i ≡ some x)
  get_elem-lt [] i h = absurd (omega arith)
  get_elem-lt (x ∷ xs) zero h = (x, refl)
  get_elem-lt (x ∷ xs) (suc i) h = get_elem-lt xs i (omega arith)

  -- None of the items before the `n`-th passes the test.
  abbrev pub NoneBefore : (A → Bool) → List A → ℕ → Type ℓ
  NoneBefore p xs n = (m : ℕ) (y : A) → m < n → get_elem? xs m ≡ some y → p y ≡ false

  NoneBefore-cons :
      (p : A → Bool) (x : A) (xs : List A) (n : ℕ)
      → p x ≡ false
      → NoneBefore p xs n
      → NoneBefore p (x ∷ xs) (suc n)
  NoneBefore-cons p x xs n miss h zero y less e = ap p (sym (some-injective x y e)) ∙ miss
  NoneBefore-cons p x xs n miss h (suc m) y less e = h m y (omega arith) e

  position_from-get_elem :
      (p : A → Bool) (xs : List A) (k i : ℕ)
      → position_from k p xs ≡ some i
      → (n : ℕ) × (x : A) × (i ≡ n + k)
        × (get_elem? xs n ≡ some x)
        × (p x ≡ true)
        × NoneBefore p xs n
  position_from-get_elem p [] k i h = absurd (cc)
  position_from-get_elem p (x ∷ xs) k i h = elim (Bool-cases (p x)) [
    | inl hit ↦ (0, x, ground arith, refl, hit, λ m y less e. absurd (omega arith))
    | inr miss ↦
        let (n, y, e, found, holds, before) =
          position_from-get_elem p xs (suc k) i (rw miss at h) in
        (suc n, y, omega arith, found, holds, NoneBefore-cons p x xs n miss before)
  ]

  position_from-none :
      (p : A → Bool) (xs : List A) (k : ℕ) → position_from k p xs ≡ none → All (λ x. p x ≡ false) xs
  position_from-none p [] k h = tt
  position_from-none p (x ∷ xs) k h = elim (Bool-cases (p x)) [
    | inl hit ↦ absurd (ground arith)
    | inr miss ↦ (miss, position_from-none p xs (suc k) (rw miss at h))
  ]

module _ (u : Unicode) (T : List StorageRec) (reference : Text) where
  abbrev pub matches : StorageRec → Bool
  matches s = names_eq_ci u s.description reference

  -- A reference that is accepted names a storage of the table: the first one whose description it
  -- matches, or, only if it matches no description of the table, the one at the 1-based number that it
  -- spells.
  pub find_storage_index-get_elem :
      (i : ℕ)
      → find_storage_index u T reference ≡ ok i
      → (rec : StorageRec) × (get_elem? T i ≡ some rec)
        × (((matches rec ≡ true) × NoneBefore matches T i)
            ⊎ (All (λ s. matches s ≡ false) T × (parse_usize reference ≡ some (suc i))))
  unfolding find_storage_index index_from_number
  find_storage_index-get_elem i h = elim (Option-cases (position_from 0 matches T)) [
    | inr (j, e) ↦
        let (n, rec, same, found, holds, before) = position_from-get_elem matches T 0 j e in
        let here : n ≡ i = ground arith in
        (
          rec,
          subst (λ k. get_elem? T k ≡ some rec) here found,
          inl (holds, subst (NoneBefore matches T) here before),
        )
    | inl e ↦ elim (Option-cases (parse_usize reference)) [
      | inl none_e ↦ absurd (ground arith)
      | inr (n, some_e) ↦
          let small : n ≡ suc i = ground arith in
          let (rec, found) = get_elem-lt T i (ground arith) in
          (rec, found, inr (position_from-none matches T 0 e, rw some_e (ap some small)))
    ]
  ]
