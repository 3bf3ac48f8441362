-- ===== src/Core/Actor/Transfer/Lengths.antt =====
-- A transfer that succeeds moved all the bytes.
use mathlib.Core.List.{append_assoc, append-nil}
use pereprava.Prelude.{
  ℕ, ◌+◌, ◌≡◌, refl, sym, ap, ◌∙◌, inl, inr, Bool-cases, Option, none, some, List, [], ◌∷◌, ◌++◌,
  length, length-append, ◌==◌, ==_iff, arith, if◌then◌else◌,
}
use pereprava.Core.Error.{Error, Result, ok, err}
use pereprava.Core.Actor.Device.{Reply, done, failed, map_err}
use pereprava.Core.Actor.Monad.{>>=-eq-ok, pure, fail, ◌>>◌}
use pereprava.Core.Actor.Transfer.{Writer, copy_chunks, receive}

-- What a writer does with the bytes: `written` is what it was given so far.
pub record IsLawfulWriter (W : Writer) : Type 0 where
  pub written : W.State → List ℕ
  pub write_all-done :
      (bs : List ℕ) (w w' : W.State) → W.write_all bs w ≡ (ok tt, w') → written w' ≡ written w ++ bs
  pub flush-done : (w w' : W.State) → W.flush w ≡ (ok tt, w') → written w' ≡ written w

-- The bytes of a download, if no chunk of it failed.
abbrev pub delivered : List (Reply (List ℕ)) → Option (List ℕ)
delivered [] = some []
delivered (done bs ∷ cs) = elim (delivered cs) [ none ↦ none | some rest ↦ some (bs ++ rest) ]
delivered (failed e ∷ cs) = none

module _ (W : Writer) (L : IsLawfulWriter W) where
  kept : (w w' : W.State) (k n : ℕ) → ◌≡◌ {A = Result ℕ × W.State} (ok k, w) (ok n, w') → w ≡ w'
  kept w w' k n e = ap (λ (x : Result ℕ × W.State). x.1) e

  failed_not_ok :
      {x : Error} {n : ℕ} {w w' : W.State} → ◌≡◌ {A = Result ℕ × W.State} (err x, w) (ok n, w') → ⊥
  failed_not_ok e = cc

  copy_chunks-delivered :
      (cs : List (Reply (List ℕ))) (k n : ℕ) (w w' : W.State)
      → copy_chunks W cs k w ≡ (ok n, w')
      → (bs : List ℕ) × (delivered cs ≡ some bs)
        × (L.written w' ≡ L.written w ++ bs)
        × (n ≡ k + length bs)
  unfolding copy_chunks map_err
  copy_chunks-delivered [] k n w w' e = (
    [],
    refl,
    ap L.written (sym (kept w w' k n e)) ∙ sym (append-nil (L.written w)),
    ground arith,
  )
  copy_chunks-delivered (failed x ∷ cs) k n w w' e = absurd (cc)
  copy_chunks-delivered (done b ∷ cs) k n w w' e =
      let (_, t, wrote, more) =
        >>=-eq-ok (W.write_all b) (λ _. copy_chunks W cs (k + length b)) w w' n e in
      let (bs, all, same, count) = copy_chunks-delivered cs (k + length b) n t w' more in
      (
        b ++ bs,
        rw all refl,
        same ∙ (ap (λ x. x ++ bs) (L.write_all-done b w t wrote) ∙ append_assoc (L.written w) b bs),
        omega (arith, length-append b bs, count),
      )

  -- A download that succeeds wrote every byte that the device delivered, in order and nothing else,
  -- and they are as many as the device declared. The writer is assumed to keep what it is given.
  pub receive-delivered :
      (total n : ℕ) (cs : List (Reply (List ℕ))) (w w' : W.State)
      → receive W total cs w ≡ (ok n, w')
      → (bs : List ℕ) × (delivered cs ≡ some bs)
        × (L.written w' ≡ L.written w ++ bs)
        × (length bs ≡ total)
  unfolding receive
  receive-delivered total n cs w w' e =
      let (k, t, copied, more) =
        >>=-eq-ok (copy_chunks W cs 0)
          (λ k. W.flush >> (if k == total then pure k else fail Error.mtp)) w w' n e in
      let (_, v, flushed, last) =
        >>=-eq-ok W.flush (λ _. if k == total then pure k else fail Error.mtp) t w' n more in
      let (bs, all, same, count) = copy_chunks-delivered cs 0 k w t copied in
      elim (Bool-cases (k == total)) [
        | inl equal ↦ (
          bs,
          all,
          ap L.written (sym (kept v w' k n (rw equal at last))) ∙ (L.flush-done t v flushed ∙ same),
          ground (arith, ==_iff k total),
        )
        | inr differ ↦ absurd (failed_not_ok (rw differ at last))
      ]
