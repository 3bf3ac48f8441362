-- ===== src/Core/Actor/Coherence/Moves.antt =====
-- Renaming and moving by path keep the cache true, whether they succeed or fail.
use pereprava.Prelude.{ℕ, ◌≡◌, ◌∙◌, false, not, ◌||◌, some, List, get_elem?, if◌then◌else◌}
use pereprava.Prelude.Text.{Text, contains, slash}
use pereprava.Core.Error.{invalid_argument, wrong_kind}
use pereprava.Core.Names.{Unicode}
use pereprava.Core.Model.{Entry}
use pereprava.Core.Path.{DevPath, parse, is_root}
use pereprava.Core.Actor.Device.{Device}
use pereprava.Core.Actor.Monad.{fail, lift, ◌>>=◌, ◌>>◌}
use pereprava.Core.Cache.Parents.{Shows}
use pereprava.Core.Actor.State.{StorageRec, Handler, call, storage, open_storage}
use pereprava.Core.Actor.Lookup.{
  Resolved, has_no_segments, storage_index, walk_to_parent, find_target, resolve,
}
use pereprava.Core.Actor.Tree.{forget, entry_on, rename, move_into, move_step}
use pereprava.Core.Actor.Coherence.{IsLawful, listed}
use pereprava.Core.Actor.Coherence.Rules.{
  Ensures, Ensures-fail, Ensures-if, Ensures-bind, Ensures-mono,
}
use pereprava.Core.Actor.Coherence.Children.{Good}
use pereprava.Core.Actor.Coherence.Mutations.{
  Ensures-mutate, Ensures-open_then, Ensures-record_then, NothingMore, NothingMore-tree, on_record,
}
use pereprava.Core.Actor.Coherence.Renaming.{InDir, InDir-tree, Ensures-entry_on, Ensures-move_step}
use pereprava.Core.Actor.Coherence.Lookups.{
  Stays-lift, Stays-storage_index, Stays-walk_to_parent, Stays-resolve,
}
use pereprava.Core.Actor.Coherence.Paths.{
  End, Ends, Ends-fail, Ends-if, look_then, one_dir, same_id, Stale, Ensures-target_then,
  Ensures-forget_here,
}

module _ {D : Device} (L : IsLawful D) (u : Unicode) (T : List StorageRec) where
  Ensures-rename_there :
      (idx dir h : ℕ) (name : Text) (rec : StorageRec) (g : D.Storage)
      → get_elem? T idx ≡ some rec
      → L.sid_of g ≡ rec.id
      → Ensures
          (Good L T (InDir L u rec.id dir h))
          (λ _ σ. Stale L u T idx dir σ)
          (End L u T)
          (call D (D.rename g h name))
  Ensures-rename_there idx dir h name rec g found same =
      Ensures-mono _ _ _ _ _ _ (call D (D.rename g h name))
        (Ensures-mutate L u T (InDir L u rec.id dir h)
          (λ s j d. (j ≡ L.sid_of g) × Shows h (listed L s (L.sid_of g) d)) (D.rename g h name)
          (L.rename-changes g h name) (λ s t e. L.rename-failed g h name s t))
        (λ σ k. k)
        (λ _ σ (s, table, true_of, changes, there). (
          rec,
          found,
          (
            s,
            table,
            true_of,
            one_dir L u T rec.id dir h s σ.device there
                (on_record L u idx h T g rec s σ.device same changes),
            tt,
          ),
        ))
        (λ σ k. k)

  Ensures-rename_tail :
      (idx dir h : ℕ) (name : Text) (rec : StorageRec) (g : D.Storage)
      → get_elem? T idx ≡ some rec
      → L.sid_of g ≡ rec.id
      → Ensures
          (Good L T (InDir L u rec.id dir h))
          (λ _. End L u T)
          (End L u T)
          (do call D (D.rename g h name); forget u D idx dir; entry_on u D g h)
  Ensures-rename_tail idx dir h name rec g found same =
      Ensures-bind _ _ _ _ (call D (D.rename g h name)) _
        (Ensures-rename_there idx dir h name rec g found same)
        λ _.
          Ensures-bind _ _ _ _ (forget u D idx dir) _
            (Ensures-forget_here L u T (NothingMore L u) idx dir) λ _. Ensures-entry_on L u T g h

  pub Ends-rename : (raw new_name : Text) → Ends L u T (rename u D raw new_name)
  unfolding rename
  Ends-rename raw new_name =
      look_then L u T (λ _. End L u T) (lift (parse raw)) _
        (Stays-lift L u T (NothingMore L u) (NothingMore-tree L u) (parse raw))
        λ p. Ends-if L u T (is_root p || has_no_segments p) _ _ (Ends-fail L u T invalid_argument) (
          Ends-if L u T (contains slash new_name) _ _ (Ends-fail L u T invalid_argument) (
            look_then L u T (λ _. End L u T) (storage_index u D p.storage_ref) _
              (Stays-storage_index L u T (NothingMore L u) (NothingMore-tree L u) p.storage_ref)
              λ idx.
                look_then L u T (λ _. End L u T) (walk_to_parent u D p idx) _
                  (Stays-walk_to_parent L u T (NothingMore L u) (NothingMore-tree L u) p idx)
                  λ dir.
                    Ensures-target_then L u T (λ _. End L u T) p idx dir _
                      λ e rec found.
                        Ensures-open_then L u T (InDir L u rec.id dir e.handle)
                          (InDir-tree L u rec.id dir e.handle) (λ _. End L u T) idx _
                          λ g (r, got, same).
                            Ensures-rename_tail idx dir e.handle new_name rec g found
                              (same ∙ same_id L u T idx r rec got found)))

  Ensures-move_tail :
      (idx dir dst h : ℕ) (rec : StorageRec)
      → get_elem? T idx ≡ some rec
      → Ensures
          (Good L T (InDir L u rec.id dir h))
          (λ _. End L u T)
          (End L u T)
          (storage D idx >>= λ r.
            open_storage D idx >>= λ g. move_step u D r g h dir dst >> entry_on u D g h)
  Ensures-move_tail idx dir dst h rec found =
      Ensures-record_then L u T (InDir L u rec.id dir h) (InDir-tree L u rec.id dir h)
        (λ _. End L u T) idx rec found (λ r g. move_step u D r g h dir dst >> entry_on u D g h)
        λ g same.
          Ensures-bind _ _ _ _ (move_step u D rec g h dir dst) _
            (Ensures-move_step L u T idx h rec g same dir dst)
            λ _.
              Ensures-mono _ _ _ _ _ _ (entry_on u D g h) (Ensures-entry_on L u T g h)
                (λ σ k. (k.0, k.1)) (λ a σ k. k) (λ σ k. k)

  Ensures-move_found :
      (idx dir h : ℕ) (dst : Text) (rec : StorageRec)
      → get_elem? T idx ≡ some rec
      → (f : Resolved → Handler D Entry)
      → ((r : Resolved)
          → Ensures (Good L T (InDir L u rec.id dir h)) (λ _. End L u T) (End L u T) (f r))
      → Ensures
          (Good L T (InDir L u rec.id dir h))
          (λ _. End L u T)
          (End L u T)
          (resolve u D dst false >>= f)
  Ensures-move_found idx dir h dst rec found f k =
      Ensures-bind _ _ _ _ (resolve u D dst false) f
        (Ensures-mono _ _ _ _ _ _ (resolve u D dst false)
          (Stays-resolve L u T (InDir L u rec.id dir h) (InDir-tree L u rec.id dir h) dst false)
          (λ σ k. k) (λ a σ k. k) (λ σ k. (k.0, k.1)))
        k

  Ends-move_within :
      (src : DevPath) (dst : Text) (src_idx : ℕ)
      → Ends L u T (do
        src_parent ← walk_to_parent u D src src_idx
        target ← find_target u D src src_idx src_parent
        dst_dir ← resolve u D dst false
        if not dst_dir.entry.is_dir then fail wrong_kind else do
          rec ← storage D src_idx
          st ← open_storage D src_idx
          move_step u D rec st target.handle src_parent dst_dir.handle
          entry_on u D st target.handle)
  Ends-move_within src dst idx =
      look_then L u T (λ _. End L u T) (walk_to_parent u D src idx) _
        (Stays-walk_to_parent L u T (NothingMore L u) (NothingMore-tree L u) src idx)
        λ dir.
          Ensures-target_then L u T (λ _. End L u T) src idx dir _
            λ e rec found. Ensures-move_found idx dir e.handle dst rec found _ λ to.
              Ensures-if _ _ _ (not to.entry.is_dir) _ _
                (λ _. Ensures-fail _ _ _ wrong_kind (λ σ k. (k.0, k.1)))
                (λ _. Ensures-move_tail idx dir to.handle e.handle rec found)

  pub Ends-move_into : (src_raw dst_raw : Text) → Ends L u T (move_into u D src_raw dst_raw)
  unfolding move_into
  Ends-move_into src_raw dst_raw =
      look_then L u T (λ _. End L u T) (lift (parse src_raw)) _
        (Stays-lift L u T (NothingMore L u) (NothingMore-tree L u) (parse src_raw))
        λ src.
          look_then L u T (λ _. End L u T) (lift (parse dst_raw)) _
            (Stays-lift L u T (NothingMore L u) (NothingMore-tree L u) (parse dst_raw))
            λ dst. Ends-if L u T _ _ _ (Ends-fail L u T invalid_argument) (
              look_then L u T (λ _. End L u T) (storage_index u D src.storage_ref) _
                (Stays-storage_index L u T (NothingMore L u) (NothingMore-tree L u) src.storage_ref)
                λ src_idx.
                  look_then L u T (λ _. End L u T) (storage_index u D dst.storage_ref) _
                    (Stays-storage_index L u T (NothingMore L u) (NothingMore-tree L u)
                      dst.storage_ref)
                    λ dst_idx.
                      Ends-if L u T _ _ _ (Ends-fail L u T invalid_argument)
                        (Ends-move_within src dst_raw src_idx))
