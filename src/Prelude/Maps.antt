-- ===== src/Prelude/Maps.antt =====
-- `HashMap<u64, V>` as an association list. The order of the list stands for the unspecified order
-- of an iteration.
use pereprava.Prelude.Tests.{◌==◌, if◌then◌else◌, ==_refl, ==_iff, Bool-cases}
use pereprava.Prelude.Lists.{length}
use Prim.Native.Nat.{ℕ, ◌≤◌, ◌<◌}
use mathlib.Core.Path.{◌≡◌, refl, subst}
use mathlib.Core.Logic.{◌≢◌, inl, inr}
use mathlib.Core.Bool.{Bool}
use mathlib.Core.List.{List, [], ◌∷◌}
use mathlib.Core.Option.{Option, none, some, some-injective}
use native.Mathlib.Omega.{arith}

abbrev pub Map {ℓ} : Type ℓ → Type ℓ
Map V = List (ℕ × V)

module _ {ℓ} {V : Type ℓ} where
  unfoldable pub get : ℕ → Map V → Option V
  get k [] = none
  get k ((j, v) ∷ m) = if j == k then some v else get k m

  unfoldable pub remove : ℕ → Map V → Map V
  remove k [] = []
  remove k ((j, w) ∷ m) = let rest = remove k m in if j == k then rest else (j, w) ∷ rest

  unfoldable pub insert : ℕ → V → Map V → Map V
  insert k v m = (k, v) ∷ remove k m

  unfoldable pub retain : (ℕ → V → Bool) → Map V → Map V
  retain p [] = []
  retain p ((j, w) ∷ m) = let rest = retain p m in if p j w then (j, w) ∷ rest else rest

  pub get-remove : (k j : ℕ) (m : Map V) → get j (remove k m) ≡ (if k == j then none else get j m)
  unfolding get remove
  get-remove k j [] = ground arith
  get-remove k j ((i, w) ∷ m) = ground (arith, get-remove k j m)

  pub get-insert :
      (k j : ℕ) (v : V) (m : Map V) → get j (insert k v m) ≡ (if k == j then some v else get j m)
  unfolding get insert
  get-insert k j v m = ground (arith, get-remove k j m)

  pub length-retain-le : (p : ℕ → V → Bool) (m : Map V) → length (retain p m) ≤ length m
  unfolding retain
  length-retain-le p [] = omega arith
  length-retain-le p ((i, w) ∷ m) = ground (arith, length-retain-le p m)

  pub length-remove-le : (k : ℕ) (m : Map V) → length (remove k m) ≤ length m
  unfolding remove
  length-remove-le k [] = omega arith
  length-remove-le k ((i, w) ∷ m) = ground (arith, length-remove-le k m)

  pub length-remove-lt :
      (k : ℕ) (v : V) (m : Map V) → get k m ≡ some v → length (remove k m) < length m
  unfolding get remove
  length-remove-lt k v [] h = cc
  length-remove-lt k v ((i, w) ∷ m) h = ground (arith, length-remove-lt k v m, length-remove-le k m)

  -- No key stands twice.
  abbrev pub NodupKeys : Map V → Type ℓ
  NodupKeys [] = Unit
  NodupKeys ((k, v) ∷ m) = (get k m ≡ none) × NodupKeys m

  pub remove-NodupKeys : (k : ℕ) (m : Map V) → NodupKeys m → NodupKeys (remove k m)
  unfolding remove
  remove-NodupKeys k [] u = tt
  remove-NodupKeys k ((i, w) ∷ m) u = ground (arith, remove-NodupKeys k m u.1, get-remove k i m)

  pub insert-NodupKeys : (k : ℕ) (v : V) (m : Map V) → NodupKeys m → NodupKeys (insert k v m)
  unfolding insert
  insert-NodupKeys k v m u = ground (arith, remove-NodupKeys k m u, get-remove k k m)

  -- What `retain` leaves under a key.
  abbrev pub filtered : (ℕ → V → Bool) → ℕ → Option V → Option V
  filtered p k none = none
  filtered p k (some v) = if p k v then some v else none

  pub get-retain :
      (p : ℕ → V → Bool) (k : ℕ) (m : Map V)
      → NodupKeys m
      → get k (retain p m) ≡ filtered p k (get k m)
  unfolding get retain
  get-retain p k [] u = refl
  get-retain p k ((i, w) ∷ m) u = ground (arith, get-retain p k m u.1)

  get-retain-none :
      (p : ℕ → V → Bool) (k : ℕ) (m : Map V) → get k m ≡ none → get k (retain p m) ≡ none
  unfolding get retain
  get-retain-none p k [] h = refl
  get-retain-none p k ((i, w) ∷ m) h = ground (arith, get-retain-none p k m)

  pub retain-NodupKeys : (p : ℕ → V → Bool) (m : Map V) → NodupKeys m → NodupKeys (retain p m)
  unfolding retain
  retain-NodupKeys p [] u = tt
  retain-NodupKeys p ((i, w) ∷ m) u =
      ground (arith, retain-NodupKeys p m u.1, get-retain-none p i m u.0)

-- Every binding of the map satisfies `P`.
abbrev pub Every {ℓ κ} : {V : Type ℓ} → (ℕ → V → Type κ) → Map V → Type κ
Every P [] = Unit
Every P ((k, v) ∷ m) = P k v × Every P m

module _ {ℓ κ} {V : Type ℓ} (P : ℕ → V → Type κ) where
  pub get-Every : (k : ℕ) (v : V) (m : Map V) → Every P m → get k m ≡ some v → P k v
  unfolding get
  get-Every k v [] h e = absurd (cc)
  get-Every k v ((j, w) ∷ m) h e = elim (Bool-cases (j == k)) [
    | inl same ↦
        subst (λ i. P i v) ((==_iff j k).0 same)
          (subst (P j) (some-injective w v (rw same at e)) h.0)
    | inr other ↦ get-Every k v m h.1 (rw other at e)
  ]

  pub retain-Every : (p : ℕ → V → Bool) (m : Map V) → Every P m → Every P (retain p m)
  unfolding retain
  retain-Every p [] h = tt
  retain-Every p ((i, w) ∷ m) h = elim (Bool-cases (p i w)) [
    | inl kept ↦ rw kept (h.0, retain-Every p m h.1)
    | inr gone ↦ rw gone (retain-Every p m h.1)
  ]

module _ {ℓ κ ν} {V : Type ℓ} (P : ℕ → V → Type κ) (Q : ℕ → V → Type ν) where
  pub map-Every : ((j : ℕ) (v : V) → P j v → Q j v) → (m : Map V) → Every P m → Every Q m
  map-Every f [] h = tt
  map-Every f ((i, w) ∷ m) h = (f i w h.0, map-Every f m h.1)

  -- The bindings of the other keys stay.
  pub remove-Every :
      (k : ℕ)
      → ((j : ℕ) (v : V) → j ≢ k → P j v → Q j v)
      → (m : Map V) → Every P m
      → Every Q (remove k m)
  unfolding remove
  remove-Every k f [] h = tt
  remove-Every k f ((i, w) ∷ m) h = elim (Bool-cases (i == k)) [
    | inl same ↦ rw same (remove-Every k f m h.1)
    | inr other ↦ rw other (f i w (λ e. ground (arith, ==_refl k)) h.0, remove-Every k f m h.1)
  ]

  pub insert-Every :
      (k : ℕ) (v : V)
      → ((j : ℕ) (w : V) → j ≢ k → P j w → Q j w)
      → Q k v
      → (m : Map V) → Every P m
      → Every Q (insert k v m)
  unfolding insert
  insert-Every k v f q m h = (q, remove-Every k f m h)
