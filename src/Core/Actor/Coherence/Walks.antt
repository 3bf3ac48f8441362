-- ===== src/Core/Actor/Coherence/Walks.antt =====
-- Resolving a path against the device's own directories.
use mathlib.Core.Path.{subst}
use mathlib.Core.Option.{some-injective}
use pereprava.Prelude.{
  ℕ, ◌≡◌, refl, sym, ap, ◌∙◌, Bool, Option, none, some, List, [], ◌∷◌, get_elem?,
}
use pereprava.Prelude.Text.{Text}
use pereprava.Core.Error.{not_found}
use pereprava.Core.Names.{Unicode}
use pereprava.Core.Model.{Entry}
use pereprava.Core.Actor.Device.{Device}
use pereprava.Core.Actor.Monad.{ok_or}
use pereprava.Core.Actor.State.{ActorState, StorageRec, child_by_name, children_of}
use pereprava.Core.Actor.Lookup.{walk}
use pereprava.Core.Actor.Coherence.{IsLawful, listed}
use pereprava.Core.Actor.Coherence.Rules.{
  Ensures, Ensures-pure, Ensures-bind, Ensures-mono, Ensures-ok_or, Same, listed-Same,
}
use pereprava.Core.Actor.Coherence.Children.{Good, Lists, IsOfTree, Ensures-children_of}

-- The specification: from a directory down by names, in a tree given by its listings.
abbrev pub descend : Unicode → (ℕ → List Entry) → ℕ → List Text → Option ℕ
descend u dirs cur [] = some cur
descend u dirs cur (seg ∷ segs) = elim (child_by_name u (dirs cur) seg) [
  | none ↦ none
  | some e ↦ descend u dirs e.handle segs
]

module _ {D : Device} (L : IsLawful D) (u : Unicode) where
  -- The tree is that of the device state `s₀`.
  abbrev pub TreeOf : D.State → D.State → Type 0
  TreeOf s₀ s = Same L s₀ s

  pub TreeOf-tree : (s₀ : D.State) → IsOfTree L (TreeOf s₀)
  TreeOf-tree s₀ s t same h j d = same j d ∙ h j d

  descend-step :
      (dirs : ℕ → List Entry) (cur : ℕ) (seg : Text) (segs : List Text) (e : Entry)
      → child_by_name u (dirs cur) seg ≡ some e
      → descend u dirs cur (seg ∷ segs) ≡ descend u dirs e.handle segs
  descend-step dirs cur seg segs e h = rw (h, descend)

  pub Ensures-walk :
      (T : List StorageRec) (s₀ : D.State) (idx : ℕ) (refresh : Bool) (rec : StorageRec)
      → get_elem? T idx ≡ some rec
      → (cur : ℕ) (segs : List Text)
      → Ensures
          (Good L T (TreeOf s₀))
          (λ end σ. (descend u (listed L s₀ rec.id) cur segs ≡ some end) × Good L T (TreeOf s₀) σ)
          (Good L T (TreeOf s₀))
          (walk u D idx refresh cur segs)
  unfolding walk
  Ensures-walk T s₀ idx refresh rec found cur [] = Ensures-pure _ _ _ cur (λ σ g. (refl, g))
  Ensures-walk T s₀ idx refresh rec found cur (seg ∷ segs) =
      Ensures-bind _ _ _ _ (children_of D idx cur refresh) _
        (Ensures-children_of L T (TreeOf s₀) (TreeOf-tree s₀) idx cur refresh)
        λ entries.
          Ensures-bind _ _ _ _ (ok_or (child_by_name u entries seg) not_found) _
            (Ensures-ok_or (λ σ. Lists L T idx cur entries σ × Good L T (TreeOf s₀) σ)
              (Good L T (TreeOf s₀)) (child_by_name u entries seg) not_found (λ σ h. h.1))
            λ e. record {
              at = λ σ h.
                  let step = descend-step (listed L s₀ rec.id) cur seg segs e (
                    subst (λ es. child_by_name u es seg ≡ some e) (in_tree entries cur σ h.1)
                      h.0) in
                  (Ensures-mono _ _ _ (Good L T (TreeOf s₀))
                      (λ end s.
                        (descend u (listed L s₀ rec.id) cur (seg ∷ segs) ≡ some end)
                        × Good L T (TreeOf s₀) s)
                      (Good L T (TreeOf s₀)) (walk u D idx refresh e.handle segs)
                      (Ensures-walk T s₀ idx refresh rec found e.handle segs) (λ s g. g)
                      (λ end s q. (step ∙ q.0, q.1)) (λ s g. g)).at
                    σ h.1.1;
            }
    where
      in_tree :
          (entries : List Entry) (dir : ℕ) (σ : ActorState D)
          → Lists L T idx dir entries σ × Good L T (TreeOf s₀) σ
          → entries ≡ listed L s₀ rec.id dir
      in_tree entries dir σ ((r, got, same), good) =
          same
          ∙ (ap (λ (x : StorageRec). listed L σ.device x.id dir)
                (some-injective r rec (sym got ∙ found))
              ∙ listed-Same L rec.id dir good.2)
