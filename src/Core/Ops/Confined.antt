-- ===== src/Core/Ops/Confined.antt =====
-- Pulling a tree stays inside the directory that it is pulled to.
use pereprava.Prelude.{ℕ, zero, suc, ◌≡◌, refl, ap, false, Option, none, some, List, [], ◌∷◌}
use pereprava.Prelude.Text.{Text}
use pereprava.Core.Error.{Result, ok, err}
use pereprava.Core.Names.{Unicode}
use pereprava.Core.Model.{Entry}
use pereprava.Core.Actor.Device.{Device}
use pereprava.Core.Actor.Monad.{Act, lift, ◌>>=◌}
use pereprava.Core.Actor.State.{Handler}
use pereprava.Core.Actor.Lookup
use pereprava.Core.Actor.Coherence.Rules.{Ensures, Ensures-bind}
use pereprava.Core.Ops.Local.{LocalPath, Disk, join, temp_sibling}
use pereprava.Core.Ops.Stats.{
  is_safe_component, check_depth, TreeStats, one_dir, skip_one, count_file, join_device,
}
use pereprava.Core.Ops.Pull.{
  World, on_actor, on_disk, next_temp, create_temp, remove_temp, writer_of, try_download,
  settle_file, stage_file, pull_file, with_sub, pull_entry, pull_entries, pull_tree_inner,
  pull_tree,
}
use pereprava.Core.Ops.Inside.{
  IsPlain, Below, is_safe_component-IsPlain, Below-join, Below-temp_sibling, Below-self,
}
use pereprava.Core.Ops.Outside.{
  IsOutside, Keeps, Keeps-of, at_end, Keeps-bind, Keeps-if, Keeps-pure, Keeps-fail, Keeps-lift,
  download_into-keeps,
}

module _ {D : Device} {F : Disk} (u : Unicode) {root : LocalPath} {P : F.State → Type 0}
    {Q : F.File → Type 0} (O : IsOutside F root P Q) where
  abbrev Held : World D F → Type 0
  Held w = P w.disk

  on_disk-Keeps :
      {A : Type 0} (op : F.State → Result A × F.State)
      → ((s : F.State) → P s → P (op s).1)
      → Keeps Held (on_disk op)
  unfolding on_disk
  on_disk-Keeps op k = Keeps-of Held (on_disk op) (λ w h. k w.disk h)

  on_actor-Keeps : {A : Type 0} (m : Handler D A) → Keeps Held (on_actor m)
  unfolding on_actor
  on_actor-Keeps m = Keeps-of Held (on_actor m) (λ w h. h)

  remove_temp-Keeps : (p : LocalPath) → Below root p → Keeps Held (on_disk (remove_temp F p))
  unfolding remove_temp
  remove_temp-Keeps p inside =
      on_disk-Keeps (remove_temp F p) (λ s h. O.remove_file-keeps p s inside h)

  settle_file-Keeps :
      (tmp child_local : LocalPath) (stats : TreeStats) (r : Result ℕ)
      → Below root tmp
      → Below root child_local
      → Keeps Held (settle_file u tmp child_local stats r)
  unfolding settle_file
  settle_file-Keeps tmp child_local stats (ok n) a b =
      Keeps-bind Held (on_disk (F.rename tmp child_local)) _
        (on_disk-Keeps (F.rename tmp child_local) (λ s h. O.rename-keeps tmp child_local s a b h))
        λ _. Keeps-pure Held (some (count_file n stats))
  settle_file-Keeps tmp child_local stats (err e) a b =
      Keeps-bind Held (on_disk (remove_temp F tmp)) _ (remove_temp-Keeps tmp a)
        λ _. Keeps-fail Held e

  try_download-Keeps : (f : F.File) (remote : Text) → Q f → Keeps Held (try_download u f remote)
  unfolding try_download
  try_download-Keeps f remote q = Keeps-of Held (try_download u f remote) (λ w h.
      download_into-keeps (writer_of F f) P (λ bs s k. O.write_all-keeps f bs s q k)
        (λ s k. O.flush-keeps f s q k) u D remote w.disk w.actor h)

  stage_file-Keeps :
      (remote : Text) (tmp child_local : LocalPath) (stats : TreeStats) (o : Option F.File)
      → Below root tmp
      → Below root child_local
      → ((f : F.File) → o ≡ some f → Q f)
      → Keeps Held (stage_file u remote tmp child_local stats o)
  unfolding stage_file
  stage_file-Keeps remote tmp child_local stats none a b q = Keeps-pure Held _
  stage_file-Keeps remote tmp child_local stats (some f) a b q =
      Keeps-bind Held (try_download u f remote) _ (try_download-Keeps f remote (q f refl))
        λ r. settle_file-Keeps tmp child_local stats r a b

  -- A file that is created inside is one that may be written to.
  create_temp-Ensures :
      (tmp : LocalPath)
      → Below root tmp
      → Ensures Held
          (λ o w. ((f : F.File) → o ≡ some f → Q f) × Held w)
          Held
          (on_disk (create_temp F tmp))
  unfolding on_disk create_temp
  create_temp-Ensures tmp a = record {
    at = λ w h. (
      λ f e.
          O.create-opens tmp w.disk (F.create tmp w.disk).1 f a
            (ap (λ (o : Option F.File). (o, (F.create tmp w.disk).1)) e),
      O.create-keeps tmp w.disk a h,
    );
  }

  pull_staged :
      (remote : Text) (tmp child_local : LocalPath) (stats : TreeStats)
      → Below root tmp
      → Below root child_local
      → Keeps Held (on_disk (create_temp F tmp) >>= stage_file u remote tmp child_local stats)
  pull_staged remote tmp child_local stats a b =
      Ensures-bind _ _ _ _ (on_disk (create_temp F tmp)) _ (create_temp-Ensures tmp a) λ o. record {
        at = λ w (q, h). (stage_file-Keeps remote tmp child_local stats o a b q).at w h;
      }

  pull_file-Keeps :
      (remote : Text) (local : LocalPath) (name : Text) (stats : TreeStats)
      → Below root local
      → IsPlain name
      → Keeps Held (pull_file u remote (join local name) stats)
  unfolding pull_file next_temp
  pull_file-Keeps remote local name stats inside plain = record {
    at = λ w h.
        (pull_staged remote (temp_sibling F.pid w.counter (join local name)) (join local name) stats
            (Below-temp_sibling F.pid w.counter root local name inside plain)
            (Below-join root local name inside plain)).at
          _ h;
  }

  module _ (below : Text → LocalPath → Act (World D F) (Option TreeStats))
      (keeps : (r : Text) (l : LocalPath) → Below root l → Keeps Held (below r l)) (remote : Text)
      (local : LocalPath) (inside : Below root local) where
    pull_entry-Keeps :
        (stats : TreeStats) (e : Entry) → Keeps Held (pull_entry u below remote local stats e)
    unfolding pull_entry
    pull_entry-Keeps stats e =
        Keeps-if Held (is_safe_component e.name) _ _
          (λ safe.
            Keeps-if Held e.is_dir _ _
              (λ _.
                Keeps-bind Held (below (join_device remote e.name) (join local e.name)) _
                  (keeps _ _
                    (Below-join root local e.name inside (is_safe_component-IsPlain e.name safe)))
                  λ sub. Keeps-pure Held (with_sub stats sub))
              (pull_file-Keeps (join_device remote e.name) local e.name stats inside
                (is_safe_component-IsPlain e.name safe)))
          (Keeps-pure Held (some (skip_one stats)))

    pull_entries-Keeps :
        (o : Option TreeStats) (es : List Entry)
        → Keeps Held (pull_entries u below remote local o es)
    unfolding pull_entries
    pull_entries-Keeps none es = Keeps-pure Held none
    pull_entries-Keeps (some stats) [] = Keeps-pure Held (some stats)
    pull_entries-Keeps (some stats) (e ∷ es) =
        Keeps-bind Held (pull_entry u below remote local stats e) _ (pull_entry-Keeps stats e)
          λ o. pull_entries-Keeps o es

  pull_tree_inner-Keeps :
      (fuel depth : ℕ) (remote : Text) (local : LocalPath)
      → Below root local
      → Keeps Held (pull_tree_inner u fuel depth remote local)
  unfolding pull_tree_inner
  pull_tree_inner-Keeps zero depth remote local inside = Keeps-pure Held none
  pull_tree_inner-Keeps (suc fuel) depth remote local inside =
      Keeps-bind Held (lift (check_depth depth)) _ (Keeps-lift Held (check_depth depth)) λ _.
        Keeps-bind Held (on_disk (F.create_dir_all local)) _
          (on_disk-Keeps (F.create_dir_all local) (λ s h. O.create_dir_all-keeps local s inside h))
          λ _.
            Keeps-bind Held (on_actor (Lookup.list u D remote false)) _
              (on_actor-Keeps (Lookup.list u D remote false))
              λ es.
                pull_entries-Keeps (λ r l. pull_tree_inner u fuel (suc depth) r l)
                  (λ r l i. pull_tree_inner-Keeps fuel (suc depth) r l i) remote local inside
                  (some one_dir) es

  -- Whatever names the device gives to its objects, and whether the transfer succeeds or fails,
  -- pulling a tree changes nothing outside the directory that it is pulled to: a fact about the disk
  -- that no call on a path inside this directory changes, holds afterwards if it held before.
  pub pull_tree_outside :
      (fuel : ℕ) (remote : Text) (w : World D F)
      → P w.disk
      → P (pull_tree u fuel remote root w).1.disk
  unfolding pull_tree
  pull_tree_outside fuel remote w h =
      at_end Held (pull_tree_inner u fuel 0 remote root)
        (pull_tree_inner-Keeps fuel 0 remote root (Below-self root)) w h
