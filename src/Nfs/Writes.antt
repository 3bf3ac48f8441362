-- ===== src/Nfs/Writes.antt =====
-- What is written is what is read.
use mathlib.Core.Path.{subst}
use pereprava.Prelude.{
  ℕ, zero, suc, ◌+◌, ◌-◌, ◌≡◌, refl, sym, ap, ◌∙◌, Bool, true, false, not, inl, inr, Bool-cases,
  Option-cases, none, some, List, [], ◌∷◌, ◌++◌, length, take, drop, length-append, arith, leb,
  if◌then◌else◌,
}
use pereprava.Prelude.Maps.{insert, get-insert}
use pereprava.Core.Names.{Unicode}
use pereprava.Core.Actor.Device.{Device}
use pereprava.Nfs.Status.{noent}
use pereprava.Nfs.State.{
  Stage, MtpNfs, Answer, good, bad, Serve, go_on, ◌>>=◌, stage_of, put_stage, change,
  attr_cache_clear, saturating_add,
}
use pereprava.Nfs.Staging.{stage_for_writes}
use pereprava.Nfs.Files.{
  Attr, attr_for, max, zeros, set_len, write_at, read_staged, read, write, overwrite,
}

length-zeros : (n : ℕ) → length (zeros n) ≡ n
unfolding zeros
length-zeros zero = refl
length-zeros (suc n) = ap suc (length-zeros n)

length-take : {A : Type 0} (n : ℕ) (xs : List A) → length (take n xs) + (n - length xs) ≡ n
length-take zero xs = omega arith
length-take (suc n) [] = omega arith
length-take (suc n) (x ∷ xs) = omega (arith, length-take n xs)

length-set_len : (n : ℕ) (bs : List ℕ) → length (set_len n bs) ≡ n
unfolding set_len
length-set_len n bs = omega (
  arith,
  length-append (take n bs) (zeros (n - length bs)),
  length-zeros (n - length bs),
  length-take n bs,
)

drop-append : (xs ys : List ℕ) → drop (length xs) (xs ++ ys) ≡ ys
drop-append [] ys = refl
drop-append (x ∷ xs) ys = drop-append xs ys

take-append : (xs ys : List ℕ) → take (length xs) (xs ++ ys) ≡ xs
take-append [] ys = refl
take-append (x ∷ xs) ys = ap (λ zs. x ∷ zs) (take-append xs ys)

-- The bytes at the place of the last write are the ones written.
pub drop-write_at :
    (offset : ℕ) (new bs : List ℕ) → take (length new) (drop offset (write_at offset new bs)) ≡ new
unfolding write_at
drop-write_at offset [] bs = refl
drop-write_at offset (b ∷ new) bs =
    let rest = (b ∷ new) ++ drop (offset + length (b ∷ new)) bs in
    subst (λ n. take (length (b ∷ new)) (drop n (set_len offset bs ++ rest)) ≡ b ∷ new)
      (length-set_len offset bs)
      (ap (take (length (b ∷ new))) (drop-append (set_len offset bs) rest)
        ∙ take-append (b ∷ new) (drop (offset + length (b ∷ new)) bs))

module _ {S A B : Type 0} where
  pub go_on-eq-good :
      (m : Serve S A) (f : A → Serve S B) (s s' : S) (b : B)
      → (m >>= f) s ≡ (good b, s')
      → (a : A) × (t : S) × (m s ≡ (good a, t)) × (f a t ≡ (good b, s'))
  go_on-eq-good m f s s' b h = reached (m s) refl h
    where
      reached :
          (r : Answer A × S)
          → m s ≡ r
          → go_on r f ≡ (good b, s')
          → (a : A) × (t : S) × (m s ≡ (good a, t)) × (f a t ≡ (good b, s'))
      reached (good a, t) e k = (a, t, e, k)
      reached (bad x, t) e k = absurd (cc)

-- The guard of the operations that change something.
pub writable_lem : {A : Type 0} (b : Bool) (x y : A) → b ≡ true → (if not b then x else y) ≡ y
writable_lem true x y h = refl
writable_lem false x y h = absurd (ground arith)

pub not_writable_lem : {A : Type 0} (b : Bool) (x y : A) → b ≡ false → (if not b then x else y) ≡ x
not_writable_lem false x y h = refl
not_writable_lem true x y h = absurd (ground arith)

module _ (u : Unicode) (D : Device) (id offset : ℕ) (new : List ℕ) where
  -- The stage and the state after an overwriting.
  abbrev overwritten : Stage → Stage
  overwritten st = record st {
    content = write_at offset new st.content;
    size = max st.size (saturating_add offset (length new));
    dirty = true;
  }

  abbrev after : Stage → MtpNfs D → MtpNfs D
  after st s = record s { staged = insert id (overwritten st) s.staged; attrs = [] }

  overwrite_lem :
      (s : MtpNfs D) (st : Stage)
      → stage_of D id s ≡ some st
      → overwrite u D id offset new s
        ≡ (good (attr_for id false (overwritten st).size, length new), after st s)
  unfolding put_stage change attr_cache_clear overwrite attr_for insert
  overwrite_lem s st e = rw (e, overwrite) refl

  overwrite-none :
      (s : MtpNfs D) → stage_of D id s ≡ none → overwrite u D id offset new s ≡ (bad noent, s)
  unfolding overwrite
  overwrite-none s e = rw (e, overwrite) refl

  read_lem :
      (s : MtpNfs D) (st : Stage)
      → stage_of D id s ≡ some st
      → read u D id offset (length new) s ≡ (good (read_staged u D st offset (length new)), s)
  unfolding read read_staged
  read_lem s st e = rw (e, read) refl

  read-after :
      (st : Stage) (s : MtpNfs D)
      → (eof : Bool) × (read u D id offset (length new) (after st s)
          ≡ (good (new, eof), after st s))
  unfolding read_staged
  read-after st s = (
    _,
    read_lem (after st s) (overwritten st)
          (ground (arith, get-insert id id (overwritten st) s.staged))
        ∙ ap
            (λ bs. (
              good (bs, leb (length (overwritten st).content) (saturating_add offset (length bs))),
              after st s,
            ))
            (drop-write_at offset new st.content),
  )

  failed_not_good :
      {x : _} {s s' : MtpNfs D} {r : Attr × ℕ}
      → ◌≡◌ {A = Answer (Attr × ℕ) × MtpNfs D} (bad x, s) (good r, s')
      → ⊥
  failed_not_good e = cc

  overwrite-read :
      (s s' : MtpNfs D) (r : Attr × ℕ)
      → overwrite u D id offset new s ≡ (good r, s')
      → (eof : Bool) × (read u D id offset (length new) s' ≡ (good (new, eof), s'))
  overwrite-read s s' r h = elim (Option-cases (stage_of D id s)) [
    | inl e ↦ absurd (failed_not_good (sym (overwrite-none s e) ∙ h))
    | inr (st, e) ↦
        subst (λ t. (eof : Bool) × (read u D id offset (length new) t ≡ (good (new, eof), t)))
          (ap (λ (x : Answer (Attr × ℕ) × MtpNfs D). x.1) (sym (overwrite_lem s st e) ∙ h))
          (read-after st s)
  ]

  -- After a write that succeeds, a read at the same place and of the same length gives the bytes
  -- written, and leaves the state as it is. It needs no session with the phone.
  pub write-read :
      (s s' : MtpNfs D) (r : Attr × ℕ)
      → write u D id offset new s ≡ (good r, s')
      → (eof : Bool) × (read u D id offset (length new) s' ≡ (good (new, eof), s'))
  unfolding write
  write-read s s' r h = elim (Bool-cases s.writable) [
    | inr ro ↦ absurd (failed_not_good (sym (not_writable_lem _ _ _ ro) ∙ h))
    | inl allowed ↦
        let (_, t, _, done) =
          go_on-eq-good (stage_for_writes u D id) (λ _. overwrite u D id offset new) s s' r
            (sym (writable_lem _ _ _ allowed) ∙ h) in
        overwrite-read t s' r done
  ]
