-- ===== src/Core/Actor/Coherence/Deletion.antt =====
-- `delete_tree` comes to an end: it goes no deeper than the directories of the phone.
use mathlib.Core.Path.{subst}
use pereprava.Prelude.{
  ℕ, zero, suc, ◌+◌, ◌%◌, ◌^◌, ◌<◌, ◌≡◌, refl, sym, ap, inl, inr, false, Option, none, some, List,
  [], ◌∷◌, map, All, arith, if◌then◌else◌,
}
use pereprava.Core.Names.{Unicode}
use pereprava.Core.Model.{Entry}
use pereprava.Core.Cache.Each.{invalidate-Each}
use pereprava.Core.Actor.Device.{Device, ObjectInfo}
use pereprava.Core.Actor.Monad.{pure, ◌>>◌}
use pereprava.Core.Actor.State.{
  ActorState, Handler, entry_of, storage, open_storage, children_of, change_cache,
}
use pereprava.Core.Actor.Tree.{forget, delete_object, delete_entries, delete_tree}
use pereprava.Core.Actor.Coherence.{IsLawful, listed, Occurs, IsPartOf}
use pereprava.Core.Actor.Coherence.Rules.{Ensures, Ensures-if, Ensures-bind, Ensures-call}
use pereprava.Core.Actor.Coherence.Descent.{
  Descends, Deep, Keeps, Keeps-bind, Keeps-storage, Keeps-open_storage, Reads-children_of,
}

module _ {D : Device} (L : IsLawful D) (u : Unicode) (rank : ℕ → ℕ) where
  Occurs-All :
      (P : Entry → Type 0) (o : ObjectInfo) (ps : List ObjectInfo)
      → Occurs o ps
      → All P (map entry_of ps)
      → P (entry_of o)
  Occurs-All P o [] x h = absurd x
  Occurs-All P o (p ∷ ps) (inl e) h = subst (λ q. P (entry_of q)) (sym e) h.0
  Occurs-All P o (p ∷ ps) (inr x) h = Occurs-All P o ps x h.1

  IsPartOf-All :
      (P : Entry → Type 0) (os ps : List ObjectInfo)
      → IsPartOf os ps
      → All P (map entry_of ps)
      → All P (map entry_of os)
  IsPartOf-All P [] ps part h = tt
  IsPartOf-All P (o ∷ os) ps part h = (Occurs-All P o ps part.0 h, IsPartOf-All P os ps part.1 h)

  Deep-delete :
      (g : D.Storage) (h : ℕ) (σ : ActorState D) (t : D.State)
      → (D.delete g h σ.device).1 ≡ t
      → Deep L u rank σ
      → Deep L u rank (record σ { device = t })
  Deep-delete g h σ t e deep = (
    deep.0,
    λ j d.
        subst (λ s. Descends L u rank d (listed L s j d)) e
          (IsPartOf-All _ _ _ (L.delete-shrinks g h σ.device j d) (deep.1 j d)),
  )

  Keeps-delete_object : (idx handle : ℕ) → Keeps L u rank (delete_object u D idx handle)
  unfolding delete_object
  Keeps-delete_object idx handle =
      Keeps-bind L u rank (open_storage D idx) _ (Keeps-open_storage L u rank idx) λ g.
        Ensures-call L (Deep L u rank) (Deep L u rank) _ (D.delete g handle)
          (λ σ a t deep e. Deep-delete g handle σ t (ap (λ x. x.1) e) deep)
          (λ σ x t deep e. Deep-delete g handle σ t (ap (λ x. x.1) e) deep)

  pub Keeps-forget : (idx dir : ℕ) → Keeps L u rank (forget u D idx dir)
  unfolding forget change_cache
  Keeps-forget idx dir = Keeps-bind L u rank (storage D idx) _ (Keeps-storage L u rank idx) λ rec.
      record {
        at = λ σ h. (
          invalidate-Each (λ j d l. Descends L u rank d l.children) _ rec.id dir (λ _ _ _ _ p. p)
              (λ _ _ _ p. p) σ.cache h.0,
          h.1,
        );
      }

  -- A count is returned, if anything is.
  abbrev pub Counts : Option ℕ → ActorState D → Type 0
  Counts n σ = (k : ℕ) × (n ≡ some k) × Deep L u rank σ

  abbrev pub Ends : Handler D (Option ℕ) → Type 0
  Ends m = Ensures (Deep L u rank) Counts (Deep L u rank) m

  -- A count that was returned is the one that the next step is given.
  pub Ends-then :
      (n : Option ℕ) (f : ℕ → Handler D (Option ℕ))
      → ((k : ℕ) → Ends (f k))
      → Ensures (Counts n) Counts (Deep L u rank) (elim n [ none ↦ pure none | some k ↦ f k ])
  Ends-then none f ends = record { at = λ σ h. absurd (ground arith) }
  Ends-then (some k) f ends = record { at = λ σ h. (ends k).at σ h.2 }

  pub Ends-delete_file : (idx handle : ℕ) → Ends (do delete_object u D idx handle; pure (some 1))
  Ends-delete_file idx handle =
      Ensures-bind _ _ _ _ (delete_object u D idx handle) _ (Keeps-delete_object idx handle)
        λ _. record { at = λ σ h. (1, refl, h) }

  Ends-delete_entries :
      (below : ℕ → Handler D (Option ℕ)) (idx dir : ℕ)
      → ((h : ℕ) → rank h < rank dir → Ends (below h))
      → (es : List Entry) (count : ℕ) → Descends L u rank dir es
      → Ends (delete_entries u D below idx es count)
  unfolding delete_entries
  Ends-delete_entries below idx dir ends [] count low = record { at = λ σ h. (count, refl, h) }
  Ends-delete_entries below idx dir ends (e ∷ es) count low =
      Ensures-bind _ _ Counts _
        (if e.is_dir then below e.handle else (do delete_object u D idx e.handle; pure (some 1))) _
        (Ensures-if _ _ _ e.is_dir _ _ (λ dirs. ends e.handle (low.0 dirs))
          (λ _. Ends-delete_file idx e.handle))
        λ n.
          Ends-then n _
            (λ k. Ends-delete_entries below idx dir ends es ((count + k) % 2 ^ 32) low.1)

  Ends-delete_dir :
      (idx dir count : ℕ)
      → Ends (do delete_object u D idx dir; forget u D idx dir; pure (some ((count + 1) % 2 ^ 32)))
  Ends-delete_dir idx dir count =
      Ensures-bind _ _ _ _ (delete_object u D idx dir) _ (Keeps-delete_object idx dir) λ _.
        Ensures-bind _ _ _ _ (forget u D idx dir) _ (Keeps-forget idx dir)
          λ _. record { at = λ σ h. ((count + 1) % 2 ^ 32, refl, h) }

  pub Ends-delete_tree : (fuel idx dir : ℕ) → rank dir < fuel → Ends (delete_tree u D fuel idx dir)
  unfolding delete_tree
  Ends-delete_tree zero idx dir short = absurd (omega arith)
  Ends-delete_tree (suc fuel) idx dir short =
      Ensures-bind _ _ _ _ (children_of D idx dir false) _
        (Reads-children_of L u rank idx dir false)
        λ es. record {
          at = λ σ h.
              (Ensures-bind _ _ Counts _ (delete_entries u D (delete_tree u D fuel idx) idx es 0) _
                  (Ends-delete_entries (delete_tree u D fuel idx) idx dir
                    (λ k lower. Ends-delete_tree fuel idx k (omega arith)) es 0 h.0)
                  (λ n. Ends-then n _ (Ends-delete_dir idx dir))).at
                σ h.1;
        }
