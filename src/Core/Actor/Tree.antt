-- ===== src/Core/Actor/Tree.antt =====
-- The handlers that change the object tree: make, delete, rename and move.
use pereprava.Prelude.{
  ℕ, zero, suc, ◌+◌, ◌%◌, ◌^◌, Bool, false, not, ◌||◌, Option, none, some, List, [], ◌∷◌, ◌==◌,
  if◌then◌else◌,
}
use pereprava.Prelude.Text.{Text, text_eq, contains, slash}
use pereprava.Core.Error.{invalid_argument, not_found, wrong_kind}
use pereprava.Core.Names.{Unicode}
use pereprava.Core.Model.{Entry}
use pereprava.Core.Path.{parse, is_root}
use pereprava.Core.Cache.{invalidate, invalidate_handle}
use pereprava.Core.Actor.Device.{Device}
use pereprava.Core.Actor.Monad.{pure, fail, lift, ok_or, ◌>>=◌, ◌>>◌}
use pereprava.Core.Actor.State.{
  StorageRec, Handler, entry_of, child_by_name, call, storage, open_storage, parent_arg,
  change_cache, children_of,
}
use pereprava.Core.Actor.Lookup.{
  dir_entry, last_or_empty, has_no_segments, storage_index, resolve, walk_to_parent, find_target,
}

module _ (u : Unicode) (D : Device) where
  -- `self.cache.invalidate(self.storage(idx)?.id, dir)`
  unfoldable pub forget : ℕ → ℕ → Handler D (Unit {0})
  forget idx dir = do rec ← storage D idx; change_cache D (λ c. invalidate c rec.id dir)

  -- The object's metadata on a storage that is already open.
  unfoldable pub entry_on : D.Storage → ℕ → Handler D Entry
  entry_on st handle = do oi ← call D (D.get_object_info st handle); pure (entry_of oi)

  -- The inner loop of `mkdir_all`: everything from here down is made.
  unfoldable pub create_rest : ℕ → ℕ → List Text → Handler D ℕ
  unfolding forget
  create_rest idx cur [] = pure cur
  create_rest idx cur (seg ∷ segs) = do
    st ← open_storage D idx
    h ← call D (D.create_folder st (parent_arg D cur) seg)
    forget idx cur
    create_rest idx h segs

  -- The outer loop of `mkdir_all`.
  unfoldable pub make_dirs : ℕ → ℕ → List Text → Handler D ℕ
  make_dirs idx cur [] = pure cur
  make_dirs idx cur (seg ∷ segs) = do
    entries ← children_of D idx cur false
    elim (child_by_name u entries seg) [
      | none ↦ create_rest idx cur (seg ∷ segs)
      | some e ↦ if e.is_dir then make_dirs idx e.handle segs else fail wrong_kind
    ]

  -- `mkdir_all`
  unfoldable pub mkdir_all : Text → Handler D Entry
  mkdir_all raw = do
    p ← lift (parse raw)
    if is_root p then fail invalid_argument else do
      idx ← storage_index u D p.storage_ref
      cur ← make_dirs idx D.root p.segments
      pure (dir_entry cur 0 (last_or_empty p.segments))

  unfoldable pub delete_object : ℕ → ℕ → Handler D (Unit {0})
  delete_object idx handle = do st ← open_storage D idx; call D (D.delete st handle)

  -- `delete_tree`, with the number of objects deleted, a `u32`. The fuel bounds the depth; `none` means that
  -- it ran out. The loop over the entries is given the call for a directory below.
  unfoldable pub delete_entries :
      (ℕ → Handler D (Option ℕ)) → ℕ → List Entry → ℕ → Handler D (Option ℕ)
  delete_entries below idx [] count = pure (some count)
  delete_entries below idx (e ∷ es) count = do
    n ← if e.is_dir then below e.handle else (do delete_object idx e.handle; pure (some 1))
    elim n [ none ↦ pure none | some k ↦ delete_entries below idx es ((count + k) % 2 ^ 32) ]

  unfoldable pub delete_tree : ℕ → ℕ → ℕ → Handler D (Option ℕ)
  unfolding delete_entries
  delete_tree zero idx dir = pure none
  delete_tree (suc fuel) idx dir = do
    entries ← children_of D idx dir false
    n ← delete_entries (delete_tree fuel idx) idx entries 0
    elim n [
      | none ↦ pure none
      | some count ↦ (do delete_object idx dir; forget idx dir; pure (some ((count + 1) % 2 ^ 32)))
    ]

  unfoldable pub remove_target : ℕ → ℕ → Bool → Entry → Handler D (Option ℕ)
  remove_target fuel idx recursive target =
      if target.is_dir
      then (if recursive then delete_tree fuel idx target.handle else fail wrong_kind)
      else (do delete_object idx target.handle; pure (some 1))

  -- `remove`
  unfoldable pub remove : ℕ → Text → Bool → Handler D (Option ℕ)
  unfolding remove_target
  remove fuel raw recursive = do
    p ← lift (parse raw)
    if is_root p || has_no_segments p then fail invalid_argument else do
      idx ← storage_index u D p.storage_ref
      parent ← walk_to_parent u D p idx
      target ← find_target u D p idx parent
      n ← remove_target fuel idx recursive target
      elim n [ none ↦ pure none | some k ↦ (do forget idx parent; pure (some k)) ]

  -- The parts of `rename_handle` once the object `h` is found: the move, which `move_into` makes too,
  -- the renaming, and both.
  unfoldable pub move_step : StorageRec → D.Storage → ℕ → ℕ → ℕ → Handler D (Unit {0})
  move_step rec st h from_parent to_parent = do
    call D (D.move_object st h to_parent rec.id)
    change_cache D (λ c. invalidate c rec.id from_parent)
    change_cache D (λ c. invalidate c rec.id to_parent)

  unfoldable pub rename_step : StorageRec → D.Storage → ℕ → ℕ → Text → Handler D (Unit {0})
  rename_step rec st h dir name = do
    call D (D.rename st h name)
    change_cache D (λ c. invalidate c rec.id dir)

  unfoldable pub rename_opened : StorageRec → D.Storage → ℕ → ℕ → Text → ℕ → Text → Handler D Entry
  rename_opened rec st h from_parent from_name to_parent to_name = do
    if from_parent == to_parent then pure tt else move_step rec st h from_parent to_parent
    if text_eq from_name to_name then pure tt else rename_step rec st h to_parent to_name
    entry_on st h

  -- `rename_handle`
  unfoldable pub rename_handle : ℕ → ℕ → Text → ℕ → Text → Handler D Entry
  rename_handle idx from_parent from_name to_parent to_name = do
    entries ← children_of D idx from_parent false
    src ← ok_or (child_by_name u entries from_name) not_found
    rec ← storage D idx
    st ← open_storage D idx
    rename_opened rec st src.handle from_parent from_name to_parent to_name

  -- `rename`
  unfoldable pub rename : Text → Text → Handler D Entry
  rename raw new_name = do
    p ← lift (parse raw)
    if is_root p || has_no_segments p then fail invalid_argument else do
      if contains slash new_name then fail invalid_argument else do
        idx ← storage_index u D p.storage_ref
        parent ← walk_to_parent u D p idx
        target ← find_target u D p idx parent
        st ← open_storage D idx
        call D (D.rename st target.handle new_name)
        forget idx parent
        entry_on st target.handle

  -- `move_into`
  unfoldable pub move_into : Text → Text → Handler D Entry
  move_into src_raw dst_raw = do
    src ← lift (parse src_raw)
    dst ← lift (parse dst_raw)
    if is_root src || is_root dst || has_no_segments src || has_no_segments dst
        then fail invalid_argument
        else do
          src_idx ← storage_index u D src.storage_ref
          dst_idx ← storage_index u D dst.storage_ref
          if not (src_idx == dst_idx) then fail invalid_argument else do
            src_parent ← walk_to_parent u D src src_idx
            target ← find_target u D src src_idx src_parent
            dst_dir ← resolve u D dst_raw false
            if not dst_dir.entry.is_dir then fail wrong_kind else do
              rec ← storage D src_idx
              st ← open_storage D src_idx
              move_step rec st target.handle src_parent dst_dir.handle
              entry_on st target.handle

  -- `Request::HInfo`
  unfoldable pub hinfo : ℕ → ℕ → Handler D Entry
  hinfo idx handle = do st ← open_storage D idx; entry_on st handle

  -- `Request::HRead`
  unfoldable pub hread_range : ℕ → ℕ → ℕ → ℕ → Handler D (List ℕ)
  hread_range idx handle offset count = do
    st ← open_storage D idx
    call D (D.read_range st handle offset count)

  -- `Request::HDelete`
  unfoldable pub hdelete : ℕ → ℕ → Handler D (Unit {0})
  hdelete idx handle = do
    delete_object idx handle
    rec ← storage D idx
    change_cache D (λ c. invalidate_handle c rec.id handle)

  -- `Request::HMkdir`
  unfoldable pub hmkdir : ℕ → ℕ → Text → Handler D Entry
  hmkdir idx parent name = do
    st ← open_storage D idx
    h ← call D (D.create_folder st (parent_arg D parent) name)
    forget idx parent
    pure (dir_entry h parent name)
