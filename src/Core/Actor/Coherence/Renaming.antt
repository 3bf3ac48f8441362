-- ===== src/Core/Actor/Coherence/Renaming.antt =====
-- Renaming and moving by handles keep the cache true.
use mathlib.Core.Path.{subst}
use mathlib.Core.Option.{some-injective}
use pereprava.Prelude.{
  ℕ, ◌≡◌, refl, sym, ap, ◌∙◌, ◌⊎◌, inl, inr, false, some, List, [], ◌∷◌, get_elem?, Bool-cases,
  ◌==◌, ==_iff, if◌then◌else◌,
}
use pereprava.Prelude.Text.{Text, text_eq}
use pereprava.Core.Error.{not_found}
use pereprava.Core.Names.{Unicode, names_eq_ci}
use pereprava.Core.Model.{Entry}
use pereprava.Core.Cache.Parents.{Shows}
use pereprava.Core.Actor.Device.{Device, Reply}
use pereprava.Core.Actor.Monad.{pure, ok_or, ◌>>=◌}
use pereprava.Core.Actor.State.{
  ActorState, StorageRec, call, storage, open_storage, change_cache, children_of, child_by_name,
  entry_of,
}
use pereprava.Core.Actor.Tree.{entry_on, move_step, rename_step, rename_opened, rename_handle}
use pereprava.Core.Actor.Coherence.{IsLawful, listed, IsCoherent}
use pereprava.Core.Actor.Coherence.Rules.{
  Ensures, Ensures-pure, Ensures-bind, Ensures-mono, Ensures-call, Ensures-call-Same, Ensures-ok_or,
  Ensures-if, TrueBut-Same, listed-Same,
}
use pereprava.Core.Actor.Coherence.Children.{Good, IsOfTree, Lists, Ensures-children_of}
use pereprava.Core.Actor.Coherence.Invalidation.{
  ChangesIn, invalidate-IsTrue, invalidate_both-IsTrue,
}
use pereprava.Core.Actor.Coherence.Mutations.{
  Fine, Changed, Ensures-mutate, Ensures-record_then, NothingMore, NothingMore-tree,
  IsCoherent-after,
}

-- What a name finds stands in the listing.
pub child_by_name-Shows :
    (u : Unicode) (es : List Entry) (name : Text) (e : Entry)
    → child_by_name u es name ≡ some e
    → Shows e.handle es
unfolding child_by_name
child_by_name-Shows u [] name e h = cc
child_by_name-Shows u (x ∷ es) name e h = elim (Bool-cases (names_eq_ci u x.name name)) [
  | inl hit ↦ inl (ap (λ (y : Entry). y.handle) (some-injective x e (rw hit at h)))
  | inr miss ↦ inr (child_by_name-Shows u es name e (rw miss at h))
]

module _ {D : Device} (L : IsLawful D) (u : Unicode) where
  -- The object stands in the directory.
  abbrev pub InDir : ℕ → ℕ → ℕ → D.State → Type 0
  InDir sid dir h s = Shows h (listed L s sid dir)

  pub InDir-tree : (sid dir h : ℕ) → IsOfTree L (InDir sid dir h)
  InDir-tree sid dir h s t same f = subst (Shows h) (sym (listed-Same L sid dir same)) f

  pub Ensures-entry_on :
      (T : List StorageRec) (g : D.Storage) (h : ℕ)
      → Ensures (Fine L u T) (λ _. Fine L u T) (Fine L u T) (entry_on u D g h)
  unfolding entry_on
  Ensures-entry_on T g h =
      Ensures-bind _ _ _ _ (call D (D.get_object_info g h)) _
        (Ensures-call-Same L (Fine L u T) (λ _ _. Unit {0}) (D.get_object_info g h)
          (λ σ d same k. (k.0, TrueBut-Same L _ σ.device d σ.cache same k.1))
          (L.get_object_info-same g h) (λ _ _ _ _ _. tt))
        λ o. Ensures-pure _ _ _ (entry_of o) (λ σ k. k.1)

  module _ (T : List StorageRec) (idx h : ℕ) (rec : StorageRec) (g : D.Storage)
      (opened : L.sid_of g ≡ rec.id) where
    -- The renamed object's directory is forgotten.
    Ensures-rename_step :
        (dir : ℕ) (name : Text)
        → Ensures
            (Good L T (InDir rec.id dir h))
            (λ _. Fine L u T)
            (Fine L u T)
            (rename_step u D rec g h dir name)
    unfolding rename_step change_cache
    Ensures-rename_step dir name =
        Ensures-bind _ _ _ _ (call D (D.rename g h name)) _
          (Ensures-mutate L u T (InDir rec.id dir h)
            (λ s j d. (j ≡ L.sid_of g) × Shows h (listed L s (L.sid_of g) d)) (D.rename g h name)
            (L.rename-changes g h name) (λ s t e. L.rename-failed g h name s t))
          λ _. record {
            at = λ σ (s, table, true_of, changes, f). (
              table,
              invalidate-IsTrue L s σ.device σ.cache rec.id dir (one_dir s σ.device f changes)
                  true_of,
            );
          }
      where
        one_dir :
            (s t : D.State)
            → InDir rec.id dir h s
            → ChangesIn L (λ j d. (j ≡ L.sid_of g) × Shows h (listed L s (L.sid_of g) d)) s t
            → ChangesIn L (λ j d. (j ≡ rec.id) × (d ≡ dir)) s t
        one_dir s t f changes j d = elim (changes j d) [
          | inl (same, shown) ↦ inl (
            same ∙ opened,
            L.one_parent s rec.id d dir h (subst (λ i. Shows h (listed L s i d)) opened shown) f,
          )
          | inr e ↦ inr e
        ]

    -- Both directories of a move are forgotten, and the object stands in the second.
    pub Ensures-move_step :
        (from_parent to_parent : ℕ)
        → Ensures
            (Good L T (InDir rec.id from_parent h))
            (λ _. Good L T (InDir rec.id to_parent h))
            (Fine L u T)
            (move_step u D rec g h from_parent to_parent)
    unfolding move_step change_cache
    Ensures-move_step from_parent to_parent =
        Ensures-bind _ _
          (λ _ σ.
            Changed L u T (λ s j d. (j ≡ rec.id) × ((d ≡ from_parent) ⊎ (d ≡ to_parent)))
              (λ _. Unit {0}) σ
            × InDir rec.id to_parent h σ.device)
          _ (call D (D.move_object g h to_parent rec.id)) _
          (Ensures-call L _ _ _ (D.move_object g h to_parent rec.id)
            (λ σ a d k e. (
              (σ.device, k.0, k.1, two_dirs σ.device d k.2 _ e, tt),
              subst (λ i. Shows h (listed L d i to_parent)) opened
                  (L.move_object-done g h to_parent rec.id σ.device d e),
            ))
            (λ σ x d k e. (
              k.0,
              TrueBut-Same L _ σ.device d σ.cache
                  (L.move_object-failed g h to_parent rec.id σ.device d e) k.1,
            )))
          λ _. record {
            at = λ σ ((s, table, true_of, changes, _), there). (
              table,
              invalidate_both-IsTrue L s σ.device σ.cache rec.id from_parent to_parent changes
                  true_of,
              there,
            );
          }
      where
        two_dirs :
            (s t : D.State)
            → InDir rec.id from_parent h s
            → (r : Reply (Unit {0})) → D.move_object g h to_parent rec.id s ≡ (r, t)
            → ChangesIn L (λ j d. (j ≡ rec.id) × ((d ≡ from_parent) ⊎ (d ≡ to_parent))) s t
        two_dirs s t f r e j d =
            elim (subst
              (λ (x : Reply (Unit {0}) × D.State).
                ((j ≡ L.sid_of g) × (Shows h (listed L s (L.sid_of g) d) ⊎ (d ≡ to_parent)))
                ⊎ (L.contents x.1 j d ≡ L.contents s j d))
              e (L.move_object-changes g h to_parent rec.id s j d)) [
                | inl (same, inl shown) ↦ inl (
                  same ∙ opened,
                  inl (
                      L.one_parent s rec.id d from_parent h
                        (subst (λ i. Shows h (listed L s i d)) opened shown) f),
                )
                | inl (same, inr dst) ↦ inl (same ∙ opened, inr dst)
                | inr k ↦ inr k
              ]

    Ensures-rename_opened :
        (from_parent : ℕ) (from_name : Text) (to_parent : ℕ) (to_name : Text)
        → Ensures
            (Good L T (InDir rec.id from_parent h))
            (λ _. Fine L u T)
            (Fine L u T)
            (rename_opened u D rec g h from_parent from_name to_parent to_name)
    unfolding rename_opened
    Ensures-rename_opened from_parent from_name to_parent to_name =
        Ensures-bind _ _ (λ _. Good L T (InDir rec.id to_parent h)) _
          (if from_parent == to_parent
            then pure tt
            else move_step u D rec g h from_parent to_parent)
          _
          (Ensures-if _ _ _ (from_parent == to_parent) (pure tt)
            (move_step u D rec g h from_parent to_parent)
            (λ e. Ensures-pure _ _ _ tt (λ σ k.
              subst (λ dir. Good L T (InDir rec.id dir h) σ) ((==_iff from_parent to_parent).0 e)
                k))
            (λ _. Ensures-move_step from_parent to_parent))
          λ _.
            Ensures-bind _ _ (λ _. Fine L u T) _
              (if text_eq from_name to_name
                then pure tt
                else rename_step u D rec g h to_parent to_name)
              _
              (Ensures-if _ _ _ (text_eq from_name to_name) (pure tt)
                (rename_step u D rec g h to_parent to_name)
                (λ _. Ensures-pure _ _ _ tt (λ σ k. (k.0, k.1)))
                (λ _. Ensures-rename_step to_parent to_name))
              λ _. Ensures-entry_on T g h

  Ensures-found :
      (T : List StorageRec) (idx h : ℕ) (rec : StorageRec)
      → get_elem? T idx ≡ some rec
      → (from_parent : ℕ) (from_name : Text) (to_parent : ℕ) (to_name : Text)
      → Ensures
          (Good L T (InDir rec.id from_parent h))
          (λ _. Fine L u T)
          (Fine L u T)
          (storage D idx >>= λ r. open_storage D idx >>= λ st.
            rename_opened u D r st h from_parent from_name to_parent to_name)
  Ensures-found T idx h rec found from_parent from_name to_parent to_name =
      Ensures-record_then L u T (InDir rec.id from_parent h) (InDir-tree rec.id from_parent h)
        (λ _. Fine L u T) idx rec found
        (λ r st. rename_opened u D r st h from_parent from_name to_parent to_name)
        (λ g same. Ensures-rename_opened T idx h rec g same from_parent from_name to_parent to_name)

  Ensures-rename_handle :
      (T : List StorageRec) (idx from_parent : ℕ) (from_name : Text) (to_parent : ℕ)
      (to_name : Text)
      → Ensures
          (Good L T (NothingMore L u))
          (λ _. Fine L u T)
          (Fine L u T)
          (rename_handle u D idx from_parent from_name to_parent to_name)
  unfolding rename_handle
  Ensures-rename_handle T idx from_parent from_name to_parent to_name =
      Ensures-bind _ _ _ _ (children_of D idx from_parent false) _
        (Ensures-mono _ _ _ _ _ _ (children_of D idx from_parent false)
          (Ensures-children_of L T (NothingMore L u) (NothingMore-tree L u) idx from_parent false)
          (λ σ k. k) (λ es σ k. k) (λ σ k. (k.0, k.1)))
        λ entries.
          Ensures-bind _ _ _ _ (ok_or (child_by_name u entries from_name) not_found) _
            (Ensures-ok_or (λ σ. Lists L T idx from_parent entries σ × Good L T (NothingMore L u) σ)
              (Fine L u T) (child_by_name u entries from_name) not_found (λ σ k. (k.1.0, k.1.1)))
            λ src. record {
              at = λ σ (named, ((rec, found, same), good)).
                  (Ensures-found T idx src.handle rec found from_parent from_name to_parent
                      to_name).at
                    σ
                    (
                      good.0,
                      good.1,
                      subst (Shows src.handle) same
                          (child_by_name-Shows u entries from_name src named),
                    );
            }

  -- A rename or a move by handles, within a storage, leaves every cached listing true of the device:
  -- whether it renames, moves, does both or neither, and at whichever call it fails.
  pub rename_handle-IsCoherent :
      (idx from_parent : ℕ) (from_name : Text) (to_parent : ℕ) (to_name : Text) (σ : ActorState D)
      → IsCoherent L σ
      → IsCoherent L (rename_handle u D idx from_parent from_name to_parent to_name σ).1
  rename_handle-IsCoherent idx from_parent from_name to_parent to_name σ b =
      IsCoherent-after L u σ.storages
        (rename_handle u D idx from_parent from_name to_parent to_name σ)
        ((Ensures-rename_handle σ.storages idx from_parent from_name to_parent to_name).at σ
          (refl, b, tt))
