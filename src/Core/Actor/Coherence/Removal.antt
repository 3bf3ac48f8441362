-- ===== src/Core/Actor/Coherence/Removal.antt =====
-- `remove` comes to an end: the recursive deletion goes no deeper than the directories of the phone.
use mathlib.Core.Path.{subst}
use pereprava.Prelude.{
  ℕ, ◌<◌, ◌≢◌, refl, sym, inl, inr, Bool, false, ◌||◌, Option, none, List, [], ◌∷◌, length, take,
  ◌-◌, arith,
}
use pereprava.Prelude.Text.{Text}
use pereprava.Core.Error.{Error, Result, ok, err, invalid_argument, not_found, wrong_kind}
use pereprava.Core.Names.{Unicode}
use pereprava.Core.Model.{Entry}
use pereprava.Core.Path.{DevPath, parse, is_root}
use pereprava.Core.Cache.Each.{map-Each}
use pereprava.Core.Actor.Device.{Device}
use pereprava.Core.Actor.Monad.{fail, lift, ok_or, ◌>>=◌}
use pereprava.Core.Actor.State.{ActorState, Handler, child_by_name, children_of}
use pereprava.Core.Actor.Lookup.{
  has_no_segments, storage_index, walk, walk_to_parent, find_target, last_or_empty,
}
use pereprava.Core.Actor.Tree.{forget, remove_target, remove}
use pereprava.Core.Actor.Coherence.{IsLawful, listed, IsCoherent}
use pereprava.Core.Actor.Coherence.Rules.{
  Post, Ensures-fail, Ensures-if, Ensures-bind, Ensures-mono,
}
use pereprava.Core.Actor.Coherence.Descent.{
  Descends, Deep, Keeps, Keeps-bind, Keeps-ok_or, Keeps-lift, Keeps-storage_index,
  Reads-children_of,
}
use pereprava.Core.Actor.Coherence.Deletion.{
  Counts, Ends, Keeps-forget, Ends-then, Ends-delete_file, Ends-delete_tree,
}

module _ {D : Device} (L : IsLawful D) (u : Unicode) (rank : ℕ → ℕ) where
  Keeps-children_of : (idx dir : ℕ) → Keeps L u rank (children_of D idx dir false)
  Keeps-children_of idx dir =
      Ensures-mono _ _ _ _ _ _ (children_of D idx dir false)
        (Reads-children_of L u rank idx dir false) (λ σ h. h) (λ es σ h. h.1) (λ σ h. h)

  Keeps-walk : (idx cur : ℕ) (segs : List Text) → Keeps L u rank (walk u D idx false cur segs)
  unfolding walk
  Keeps-walk idx cur [] = record { at = λ σ h. h }
  Keeps-walk idx cur (seg ∷ segs) =
      Keeps-bind L u rank (children_of D idx cur false) _ (Keeps-children_of idx cur) λ es.
        Keeps-bind L u rank (ok_or (child_by_name u es seg) not_found) _
          (Keeps-ok_or L u rank (child_by_name u es seg) not_found)
          λ e. Keeps-walk idx e.handle segs

  Keeps-walk_to_parent : (p : DevPath) (idx : ℕ) → Keeps L u rank (walk_to_parent u D p idx)
  unfolding walk_to_parent
  Keeps-walk_to_parent p idx = Keeps-walk idx D.root (take (length p.segments - 1) p.segments)

  Keeps-find_target : (p : DevPath) (idx parent : ℕ) → Keeps L u rank (find_target u D p idx parent)
  unfolding find_target
  Keeps-find_target p idx parent =
      Keeps-bind L u rank (children_of D idx parent false) _ (Keeps-children_of idx parent)
        λ es. Keeps-ok_or L u rank (child_by_name u es (last_or_empty p.segments)) not_found

  Keeps-then :
      {A : Type 0} (m : Handler D A) (f : A → Handler D (Option ℕ))
      → Keeps L u rank m
      → ((a : A) → Ends L u rank (f a))
      → Ends L u rank (m >>= f)
  Keeps-then m f km ends = Ensures-bind _ _ _ _ m f km ends

  Ends-fail : (e : Error) → Ends L u rank (fail e)
  Ends-fail e = Ensures-fail _ _ _ e (λ σ h. h)

  module _ (fuel : ℕ) (deep : (h : ℕ) → rank h < fuel) where
    Ends-remove_target :
        (idx : ℕ) (recursive : Bool) (target : Entry)
        → Ends L u rank (remove_target u D fuel idx recursive target)
    unfolding remove_target
    Ends-remove_target idx recursive target =
        Ensures-if _ _ _ target.is_dir _ _
          (λ _.
            Ensures-if _ _ _ recursive _ _
              (λ _. Ends-delete_tree L u rank fuel idx target.handle (deep target.handle))
              (λ _. Ends-fail wrong_kind))
          (λ _. Ends-delete_file L u rank idx target.handle)

    Ends-remove : (raw : Text) (recursive : Bool) → Ends L u rank (remove u D fuel raw recursive)
    unfolding remove
    Ends-remove raw recursive =
        Keeps-then (lift (parse raw)) _ (Keeps-lift L u rank (parse raw)) λ p.
          Ensures-if _ _ _ (is_root p || has_no_segments p) _ _ (λ _. Ends-fail invalid_argument)
            λ _.
              Keeps-then (storage_index u D p.storage_ref) _
                (Keeps-storage_index L u rank p.storage_ref)
                λ idx.
                  Keeps-then (walk_to_parent u D p idx) _ (Keeps-walk_to_parent p idx) λ parent.
                    Keeps-then (find_target u D p idx parent) _ (Keeps-find_target p idx parent)
                      λ target.
                        Ensures-bind _ _ (Counts L u rank) _
                          (remove_target u D fuel idx recursive target) _
                          (Ends-remove_target idx recursive target)
                          λ n. Ends-then L u rank n _ λ k.
                            Keeps-then (forget u D idx parent) _ (Keeps-forget L u rank idx parent)
                              λ _. record { at = λ σ h. (k, refl, h) }

  Counts-returned :
      (r : Result (Option ℕ) × ActorState D)
      → Post (Counts L u rank) (Deep L u rank) r
      → r.0 ≢ ok none
  Counts-returned (ok n, t) (k, e, h) q = ground arith
  Counts-returned (err e, t) h q = ground arith

  Deep-IsCoherent :
      (σ : ActorState D)
      → IsCoherent L σ
      → ((j d : ℕ) → Descends L u rank d (listed L σ.device j d))
      → Deep L u rank σ
  Deep-IsCoherent σ b low = (
    map-Each _ _
        (λ j d l x. elim x [
          | inl same ↦ subst (Descends L u rank d) (sym same) (low j d)
          | inr none_left ↦ absurd none_left
        ])
        σ.cache b.agrees,
    low,
  )

-- When the cache is true and a directory on the phone always has a lower rank than the one that it
-- stands in, a removal with fuel above every rank does not run out of it: it fails with an error or
-- answers with the number of objects deleted, whatever the path and the failures of the session.
pub remove-returns :
    {D : Device} (L : IsLawful D) (u : Unicode) (rank : ℕ → ℕ) (fuel : ℕ) (raw : Text)
    (recursive : Bool) (σ : ActorState D)
    → IsCoherent L σ
    → ((j d : ℕ) → Descends L u rank d (listed L σ.device j d))
    → ((h : ℕ) → rank h < fuel)
    → (remove u D fuel raw recursive σ).0 ≢ ok none
remove-returns L u rank fuel raw recursive σ b low deep =
    Counts-returned L u rank _
      ((Ends-remove L u rank fuel deep raw recursive).at σ (Deep-IsCoherent L u rank σ b low))
