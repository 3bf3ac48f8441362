-- ===== src/Cli/Bundle/Totals.antt =====
-- How much an archive can hold when it is extracted.
use pereprava.Prelude.{
  ℕ, ◌+◌, ◌≤◌, ◌≡◌, ◌%◌, ◌^◌, false, ltb, Option, none, some, List, [], ◌∷◌, Bool-cases, inl, inr,
  arith,
}
use pereprava.Core.Error.{Error, Result, ok, err, io, ok-injective}
use pereprava.Core.Actor.Monad.{Act, fail, lift}
use pereprava.Core.Actor.Coherence.Rules.{Ensures, Post, Ensures-if, Ensures-bind, Ensures-mono}
use pereprava.Core.Ops.Local.{LocalPath}
use mathlib.Core.Path.{subst}
use pereprava.Nfs.State.{saturating_add}
use pereprava.Cli.Bundle.Disk.{
  TreeDisk, Member, MemberKind, directory, regular, other, is_unsafe_archive_path,
}
use pereprava.Cli.Bundle.Unpack.{
  Counts, no_counts, max_entries, max_bytes, count_member, unpack_counted, unpack_member,
  unpack_members,
}

-- The bytes and the entries that an archive declares, up to the first entry that cannot be read.
abbrev pub bytes_of : Member → MemberKind → ℕ
bytes_of m regular = m.size
bytes_of m _ = 0

abbrev pub entries_of : MemberKind → ℕ
entries_of other = 0
entries_of _ = 1

abbrev pub total_bytes : List (Result Member) → ℕ
total_bytes [] = 0
total_bytes (err e ∷ ms) = 0
total_bytes (ok m ∷ ms) = bytes_of m m.kind + total_bytes ms

abbrev pub total_entries : List (Result Member) → ℕ
total_entries [] = 0
total_entries (err e ∷ ms) = 0
total_entries (ok m ∷ ms) = entries_of m.kind + total_entries ms

-- No more than is allowed.
pub record IsBounded (n : Counts) : Type 0 where
  pub entries : n.files + n.dirs ≤ max_entries
  pub bytes : n.raw ≤ max_bytes

-- The archive is within the limits, and the counts are its own.
pub record IsWithin (ms : List (Result Member)) (n : Counts) : Type 0 where
  pub entries : total_entries ms ≤ max_entries
  pub bytes : total_bytes ms ≤ max_bytes
  pub counted_entries : n.files + n.dirs ≡ total_entries ms
  pub counted_bytes : n.raw ≡ total_bytes ms

-- The counts grew by that many entries and bytes.
record Grows (n n' : Counts) (entries bytes : ℕ) : Type 0 where
  more_entries : n'.files + n'.dirs ≡ (n.files + n.dirs) + entries
  more_bytes : n'.raw ≡ n.raw + bytes

-- The counts before the check: one entry more may be there.
abbrev Nearly : Member → MemberKind → Counts → Option Counts → Type 0
Nearly m k n none = Grows n n (entries_of k) (bytes_of m k)
Nearly m k n (some n') =
    Grows n n' (entries_of k) (bytes_of m k)
    × (n'.files + n'.dirs ≤ max_entries + 1)
    × (n'.raw ≤ max_bytes)

abbrev NearlyIf : Member → MemberKind → Counts → Result (Option Counts) → Type 0
NearlyIf m k n (ok o) = Nearly m k n o
NearlyIf m k n (err e) = Unit {0}

no_wrap : (a : ℕ) → a ≤ max_entries → (a + 1) % 2 ^ 32 ≡ a + 1
no_wrap a h = omega arith

not_ltb→le : (a b : ℕ) → ltb a b ≡ false → b ≤ a
not_ltb→le a b h = ground arith

saturating-le : (a b : ℕ) → a + b ≤ max_entries + 1 → saturating_add a b ≡ a + b
saturating-le a b h = ground arith

saturating_bytes :
    (a b : ℕ) → ltb max_bytes (saturating_add a b) ≡ false → saturating_add a b ≡ a + b
saturating_bytes a b h = ground arith

checked :
    (a b : ℕ)
    → a + b ≤ max_entries + 1
    → ltb max_entries (saturating_add a b) ≡ false
    → a + b ≤ max_entries
checked a b h e = not_ltb→le max_entries (a + b) (rw (saturating-le a b h) at e)

directory-Nearly :
    (m : Member) (n : Counts) → IsBounded n → NearlyIf m directory n (count_member m directory n)
unfolding count_member
directory-Nearly m n h =
    let one : (n.dirs + 1) % 2 ^ 32 ≡ n.dirs + 1 = no_wrap n.dirs (omega (arith, h.entries)) in
    (
      record { more_entries = omega (arith, one); more_bytes = omega arith },
      omega (arith, one, h.entries),
      h.bytes,
    )

regular-Nearly :
    (m : Member) (n : Counts) → IsBounded n → NearlyIf m regular n (count_member m regular n)
unfolding count_member
regular-Nearly m n h = elim (Bool-cases (ltb max_bytes (saturating_add n.raw m.size))) [
  | inl e ↦ rw e tt
  | inr e ↦
      let one : (n.files + 1) % 2 ^ 32 ≡ n.files + 1 = no_wrap n.files (omega (arith, h.entries)) in
      rw e (
        record { more_entries = omega (arith, one); more_bytes = saturating_bytes n.raw m.size e },
        omega (arith, one, h.entries),
        not_ltb→le max_bytes (saturating_add n.raw m.size) e,
      )
]

count_member-Nearly :
    (m : Member) (k : MemberKind) (n : Counts) → IsBounded n → NearlyIf m k n (count_member m k n)
unfolding count_member
count_member-Nearly m directory n h = directory-Nearly m n h
count_member-Nearly m regular n h = regular-Nearly m n h
count_member-Nearly m other n h = record { more_entries = omega arith; more_bytes = omega arith }

module _ (F : TreeDisk) (staging : LocalPath) where
  -- A success counts that many entries and bytes more, and is within the limits.
  abbrev Bounds : Counts → ℕ → ℕ → Act F.State Counts → Type 0
  Bounds n entries bytes m =
      Ensures (λ _. Unit {0}) (λ n' _. IsBounded n' × Grows n n' entries bytes) (λ _. Unit {0}) m

  any_step :
      {A : Type 0} (m : Act F.State A) → Ensures (λ _. Unit {0}) (λ _ _. Unit {0}) (λ _. Unit {0}) m
  any_step {A} m = record { at = λ s _. go (m s) }
    where
      go : (r : Result A × F.State) → Post (λ _ _. Unit {0}) (λ _. Unit {0}) r
      go (ok a, t) = tt
      go (err e, t) = tt

  Bounds-fail : (n : Counts) (entries bytes : ℕ) (e : Error) → Bounds n entries bytes (fail e)
  Bounds-fail n entries bytes e = record { at = λ s _. tt }

  lift-Nearly :
      (m : Member) (n : Counts) (r : Result (Option Counts))
      → NearlyIf m m.kind n r
      → Ensures {S = F.State} (λ _. Unit {0}) (λ o _. Nearly m m.kind n o) (λ _. Unit {0}) (lift r)
  lift-Nearly m n (ok o) h = record { at = λ s _. h }
  lift-Nearly m n (err e) h = record { at = λ s _. tt }

  unpack_counted-Bounds :
      (m : Member) (n : Counts) (o : Option Counts)
      → IsBounded n
      → Nearly m m.kind n o
      → Bounds n (entries_of m.kind) (bytes_of m m.kind) (unpack_counted F staging m n o)
  unfolding unpack_counted
  unpack_counted-Bounds m n none h k = record { at = λ s _. (h, k) }
  unpack_counted-Bounds m n (some n') h (grew, near, small) =
      Ensures-if _ _ _ (ltb max_entries (saturating_add n'.files n'.dirs)) _ _
        (λ _. Bounds-fail n _ _ io)
        λ e.
          Ensures-bind _ _ (λ _ _. Unit {0}) _ (F.unpack_in m staging) _
            (any_step (F.unpack_in m staging))
            λ _. record {
              at = λ s _.
                  (record { entries = checked n'.files n'.dirs near e; bytes = small }, grew);
            }

  unpack_member-Bounds :
      (m : Member) (n : Counts)
      → IsBounded n
      → Bounds n (entries_of m.kind) (bytes_of m m.kind) (unpack_member F staging m n)
  unfolding unpack_member
  unpack_member-Bounds m n h =
      Ensures-if _ _ _ (is_unsafe_archive_path m.path) _ _ (λ _. Bounds-fail n _ _ io)
        λ _.
          Ensures-bind _ _ (λ o _. Nearly m m.kind n o) _ (lift (count_member m m.kind n)) _
            (lift-Nearly m n (count_member m m.kind n) (count_member-Nearly m m.kind n h))
            λ o. record { at = λ s k. (unpack_counted-Bounds m n o h k).at s tt }

  Grows-trans :
      {n n' v : Counts} {e e' b b' : ℕ}
      → Grows n n' e b
      → Grows n' v e' b'
      → Grows n v (e + e') (b + b')
  Grows-trans g k = record {
    more_entries = omega (arith, g.more_entries, k.more_entries);
    more_bytes = omega (arith, g.more_bytes, k.more_bytes);
  }

  unpack_members-Bounds :
      (ms : List (Result Member)) (n : Counts)
      → IsBounded n
      → Bounds n (total_entries ms) (total_bytes ms) (unpack_members F staging ms n)
  unfolding unpack_members
  unpack_members-Bounds [] n h = record {
    at = λ s _. (h, record { more_entries = omega arith; more_bytes = omega arith });
  }
  unpack_members-Bounds (err e ∷ ms) n h = Bounds-fail n _ _ e
  unpack_members-Bounds (ok m ∷ ms) n h =
      Ensures-bind _ _ _ _ (unpack_member F staging m n) _ (unpack_member-Bounds m n h) λ n'.
        record {
          at = λ s k.
              (Ensures-mono _ _ _ (λ _. Unit {0}) _ (λ _. Unit {0}) (unpack_members F staging ms n')
                  (unpack_members-Bounds ms n' k.0) (λ _ _. tt)
                  (λ v _ g. (g.0, Grows-trans k.1 g.1)) (λ _ x. x)).at
                s tt;
        }

  IsWithin-Post :
      (ms : List (Result Member)) (r : Result Counts × F.State)
      → Post
          (λ n _. IsBounded n × Grows no_counts n (total_entries ms) (total_bytes ms))
          (λ _. Unit {0})
          r
      → (n : Counts) → r.0 ≡ ok n
      → IsWithin ms n
  IsWithin-Post ms (ok n', t) h n e = subst (IsWithin ms) (ok-injective e) (record {
    entries = omega (arith, h.0.entries, h.1.more_entries);
    bytes = omega (arith, h.0.bytes, h.1.more_bytes);
    counted_entries = omega (arith, h.1.more_entries);
    counted_bytes = omega (arith, h.1.more_bytes);
  })
  IsWithin-Post ms (err x, t) h n e = absurd (cc)

  -- An archive that is extracted has at most `max_entries` files and directories, and the sizes that
  -- its headers declare for its files come to at most `max_bytes` in all. The counts that are returned
  -- are those of the archive.
  pub unpack_members-IsWithin :
      (ms : List (Result Member)) (s : F.State) (n : Counts)
      → (unpack_members F staging ms no_counts s).0 ≡ ok n
      → IsWithin ms n
  unpack_members-IsWithin ms s n e =
      IsWithin-Post ms (unpack_members F staging ms no_counts s)
        ((unpack_members-Bounds ms no_counts
            (record { entries = omega arith; bytes = omega arith })).at
          s tt)
        n e
