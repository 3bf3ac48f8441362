-- ===== src/Cli/Bundle/Promotion.antt =====
-- A promotion puts the new tree in place or keeps the old one.
use pereprava.Prelude.{◌≡◌, refl, ◌∙◌, ◌⊎◌, inl, inr, Bool, true, false, Option, none, some}
use pereprava.Prelude.Text.{Text}
use pereprava.Core.Error.{Error, Result, ok, err}
use pereprava.Core.Actor.Monad.{continue, ◌>>◌}
use pereprava.Core.Ops.Local.{LocalPath}
use pereprava.Cli.Bundle.Disk.{TreeDisk}
use pereprava.Cli.Bundle.Unpack.{put_back, settle, move_in, set_aside, backup_of, promote}

abbrev pub is_there : {T : Type 0} → Option T → Bool
is_there none = false
is_there (some t) = true

-- What stands at the three paths of a promotion, of which none lies within another.
pub record IsLawfulAt (F : TreeDisk) (Tree : Type 0) (staging dest backup : LocalPath)
    : Type 1 where
  pub tree : F.State → LocalPath → Option Tree
  pub exists-tree : (p : LocalPath) (s : F.State) → F.exists p s ≡ is_there (tree s p)
  -- A renaming moves the tree, or changes nothing.
  pub rename-done :
      (p q : LocalPath) (s s' : F.State) → F.rename p q s ≡ (ok tt, s') → tree s' q ≡ tree s p
  pub rename-failed :
      (p q : LocalPath) (s s' : F.State) (e : Error)
      → F.rename p q s ≡ (err e, s')
      → (r : LocalPath) → tree s' r ≡ tree s r
  -- The calls on one of the paths leave the others alone.
  pub rename-dest_backup :
      (s s' : F.State) → F.rename dest backup s ≡ (ok tt, s') → tree s' staging ≡ tree s staging
  pub remove-backup :
      (s : F.State)
      → (tree (F.remove_dir_all backup s).1 dest ≡ tree s dest)
        × (tree (F.remove_dir_all backup s).1 staging ≡ tree s staging)

module _ {F : TreeDisk} {Tree : Type 0} {staging dest backup : LocalPath}
    (L : IsLawfulAt F Tree staging dest backup) where
  -- After a failure the old tree stands in its place, or beside it.
  abbrev pub Kept : Tree → F.State → Type 0
  Kept t s = (L.tree s dest ≡ some t) ⊎ (L.tree s backup ≡ some t)

  -- The outcome of a promotion of `new` in place of `old`.
  abbrev pub Promoted : Option Tree → Tree → Result (Unit {0}) × F.State → Type 0
  Promoted new old (ok _, s) = L.tree s dest ≡ new
  Promoted new old (err e, s) = Kept old s

  put_back-Kept :
      (t : Tree) (s : F.State) → L.tree s backup ≡ some t → Kept t (put_back F backup dest s)
  unfolding put_back
  put_back-Kept t s h = rw (L.exists-tree backup s, h) (go (F.rename backup dest s) refl)
    where
      go : (r : Result (Unit {0}) × F.State) → F.rename backup dest s ≡ r → Kept t r.1
      go (ok tt, s') e = inl (L.rename-done backup dest s s' e ∙ h)
      go (err x, s') e = inr (L.rename-failed backup dest s s' x e backup ∙ h)

  move_in-Promoted :
      (new : Option Tree) (old : Tree) (s : F.State)
      → L.tree s staging ≡ new
      → L.tree s backup ≡ some old
      → Promoted new old (move_in F staging backup dest s)
  unfolding move_in settle
  move_in-Promoted new old s n o = go (F.rename staging dest s) refl
    where
      go :
          (r : Result (Unit {0}) × F.State)
          → F.rename staging dest s ≡ r
          → Promoted new old (settle F backup dest r)
      go (ok tt, s') e = (L.remove-backup s').0 ∙ (L.rename-done staging dest s s' e ∙ n)
      go (err x, s') e = put_back-Kept old s' (L.rename-failed staging dest s s' x e backup ∙ o)

  aside-Promoted :
      (new : Option Tree) (old : Tree) (s : F.State)
      → L.tree s staging ≡ new
      → L.tree s dest ≡ some old
      → Promoted new old ((set_aside F backup dest >> move_in F staging backup dest) s)
  unfolding set_aside
  aside-Promoted new old s n o = rw (L.exists-tree dest s, o) (go (F.rename dest backup s) refl)
    where
      go :
          (r : Result (Unit {0}) × F.State)
          → F.rename dest backup s ≡ r
          → Promoted new old (continue r (λ _. move_in F staging backup dest))
      go (ok tt, s') e =
          move_in-Promoted new old s' (L.rename-dest_backup s s' e ∙ n)
            (L.rename-done dest backup s s' e ∙ o)
      go (err x, s') e = inl (L.rename-failed dest backup s s' x e dest ∙ o)

module _ {F : TreeDisk} {Tree : Type 0} {staging dest : LocalPath}
    (L : IsLawfulAt F Tree staging dest (backup_of F dest)) where
  -- Promoting the extracted tree over an existing one puts it in place if it succeeds; if it fails, the
  -- old tree still stands at the destination or at the path beside it to which it was moved. The three
  -- paths are assumed apart.
  pub promote_replaces :
      (new : Option Tree) (old : Tree) (s : F.State)
      → L.tree s staging ≡ new
      → L.tree s dest ≡ some old
      → Promoted L new old (promote F staging dest s)
  unfolding promote
  promote_replaces new old s n o =
      aside-Promoted L new old (F.remove_dir_all (backup_of F dest) s).1 ((L.remove-backup s).1 ∙ n)
        ((L.remove-backup s).0 ∙ o)

-- What stands at a destination that can be deleted.
pub record Removes (F : TreeDisk) (Tree : Type 0) (dest : LocalPath) : Type 1 where
  pub tree_at : F.State → Option Tree
  pub exists-tree_at : (s : F.State) → F.exists dest s ≡ is_there (tree_at s)
  pub remove-empties : (s : F.State) → tree_at (F.remove_dir_all dest s).1 ≡ none
  -- A renaming that fails changes nothing.
  pub rename-keeps :
      (p q : LocalPath) (s s' : F.State) (e : Error)
      → F.rename p q s ≡ (err e, s')
      → tree_at s' ≡ tree_at s
