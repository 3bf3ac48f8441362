-- ===== src/Core/Ops/Staged.antt =====
-- A file that is pulled replaces the one at its destination only when it has arrived.
use mathlib.Core.Path.{subst}
use mathlib.Core.Option.{some-injective}
use pereprava.Prelude.{
  ℕ, ◌≡◌, ◌≢◌, refl, sym, ap, ◌∙◌, Option, none, some, List, [], ◌∷◌, ◌++◌, length, length-append,
  last?, arith,
}
use pereprava.Prelude.Text.{Text}
use pereprava.Core.Error.{Error, Result, ok, err}
use pereprava.Core.Names.{Unicode}
use pereprava.Core.Actor.Device.{Device}
use pereprava.Core.Actor.Monad.{Act, pure, ◌>>=◌, ◌>>◌}
use pereprava.Core.Actor.Coherence.Rules.{Ensures, Post, Ensures-bind}
use pereprava.Core.Ops.Local.{LocalPath, Disk, join, temp_sibling}
use pereprava.Core.Ops.Stats.{TreeStats, count_file}
use pereprava.Core.Ops.Pull.{
  World, on_disk, next_temp, create_temp, remove_temp, writer_of, try_download, settle_file,
  stage_file, pull_file,
}
use pereprava.Core.Ops.Inside.{
  IsPlain, suffix, join-plain, last-append, temp_sibling-join, temp_name-IsPlain,
}
use pereprava.Core.Ops.Outside.{Keeps, Keeps-of, download_into-keeps}

-- A fact about what is at the path `dest`: calls on other paths do not change it, nor does a renaming
-- that fails. What is written to is a file that was created elsewhere.
pub record IsAbout (F : Disk) (dest : LocalPath) (P : F.State → Type 0) (Q : F.File → Type 0)
    : Type 0 where
  pub create-keeps : (p : LocalPath) (s : F.State) → p ≢ dest → P s → P (F.create p s).1
  pub create-opens :
      (p : LocalPath) (s s' : F.State) (f : F.File) → p ≢ dest → F.create p s ≡ (some f, s') → Q f
  pub write_all-keeps :
      (f : F.File) (bs : List ℕ) (s : F.State) → Q f → P s → P (F.write_all f bs s).1
  pub flush-keeps : (f : F.File) (s : F.State) → Q f → P s → P (F.flush f s).1
  pub rename-failed :
      (p q : LocalPath) (s s' : F.State) (e : Error) → F.rename p q s ≡ (err e, s') → P s → P s'
  pub remove_file-keeps : (p : LocalPath) (s : F.State) → p ≢ dest → P s → P (F.remove_file p s)

longer-ne : (s : Text) (pid n : ℕ) → b'.' ∷ (s ++ suffix pid n) ≢ s
longer-ne s pid n e = omega (arith, ap length e, length-append s (suffix pid n))

-- The temporary file is another than the one that it is for.
pub temp_sibling-ne :
    (pid n : ℕ) (p : LocalPath) (s : Text) → IsPlain s → temp_sibling pid n (join p s) ≢ join p s
temp_sibling-ne pid n p s h e = longer-ne s pid n (some-injective _ _ named)
  where
    paths :
        ◌≡◌ {A = LocalPath}
          (record { absolute = p.absolute; parts = p.parts ++ (b'.' ∷ (s ++ suffix pid n)) ∷ [] })
          (record { absolute = p.absolute; parts = p.parts ++ s ∷ [] })
    paths =
        sym (join-plain p (b'.' ∷ (s ++ suffix pid n)) (temp_name-IsPlain pid n s h))
        ∙ sym (temp_sibling-join pid n p s h)
        ∙ e
        ∙ join-plain p s h

    named : some (b'.' ∷ (s ++ suffix pid n)) ≡ some s
    named =
        sym (last-append p.parts (b'.' ∷ (s ++ suffix pid n)))
        ∙ ap (λ (q : LocalPath). last? q.parts) paths
        ∙ last-append p.parts s

module _ {D : Device} {F : Disk} (u : Unicode) {dest : LocalPath} {P : F.State → Type 0}
    {Q : F.File → Type 0} (O : IsAbout F dest P Q) where
  abbrev Held : World D F → Type 0
  Held w = P w.disk

  -- If the step fails, the fact still holds.
  abbrev Fails : {A : Type 0} → Act (World D F) A → Type 0
  Fails m = Ensures Held (λ _ _. Unit {0}) Held m

  Fails-rename :
      (tmp : LocalPath) (stats : TreeStats) (n : ℕ)
      → Fails (on_disk (F.rename tmp dest) >> pure (some (count_file n stats)))
  unfolding on_disk
  Fails-rename tmp stats n =
      Ensures-bind Held Held (λ _ _. Unit {0}) _ (on_disk (F.rename tmp dest)) _
        (record { at = λ w h. go w (F.rename tmp dest w.disk) refl h })
        λ _. record { at = λ w _. tt }
    where
      go :
          (w : World D F) (r : Result (Unit {0}) × F.State)
          → F.rename tmp dest w.disk ≡ r
          → P w.disk
          → Post (λ _ _. Unit {0}) Held (r.0, record w { disk = r.1 })
      go w (ok a, s) e h = tt
      go w (err x, s) e h = O.rename-failed tmp dest w.disk s x e h

  Keeps-remove : (p : LocalPath) → p ≢ dest → Keeps Held (on_disk (remove_temp F p))
  unfolding on_disk remove_temp
  Keeps-remove p other =
      Keeps-of Held (on_disk (remove_temp F p)) (λ w h. O.remove_file-keeps p w.disk other h)

  Fails-settle_file :
      (tmp : LocalPath) (stats : TreeStats) (r : Result ℕ)
      → tmp ≢ dest
      → Fails (settle_file u tmp dest stats r)
  unfolding settle_file
  Fails-settle_file tmp stats (ok n) other = Fails-rename tmp stats n
  Fails-settle_file tmp stats (err e) other =
      Ensures-bind _ _ _ _ (on_disk (remove_temp F tmp)) _ (Keeps-remove tmp other)
        λ _. record { at = λ w h. h }

  Keeps-try_download : (f : F.File) (remote : Text) → Q f → Keeps Held (try_download u f remote)
  unfolding try_download
  Keeps-try_download f remote q = Keeps-of Held (try_download u f remote) (λ w h.
      download_into-keeps (writer_of F f) P (λ bs s k. O.write_all-keeps f bs s q k)
        (λ s k. O.flush-keeps f s q k) u D remote w.disk w.actor h)

  Fails-stage_file :
      (remote : Text) (tmp : LocalPath) (stats : TreeStats) (o : Option F.File)
      → tmp ≢ dest
      → ((f : F.File) → o ≡ some f → Q f)
      → Fails (stage_file u remote tmp dest stats o)
  unfolding stage_file
  Fails-stage_file remote tmp stats none other q = record { at = λ w h. tt }
  Fails-stage_file remote tmp stats (some f) other q =
      Ensures-bind _ _ _ _ (try_download u f remote) _ (Keeps-try_download f remote (q f refl))
        λ r. Fails-settle_file tmp stats r other

  Ensures-create_temp :
      (tmp : LocalPath)
      → tmp ≢ dest
      → Ensures Held
          (λ o w. ((f : F.File) → o ≡ some f → Q f) × Held w)
          Held
          (on_disk (create_temp F tmp))
  unfolding on_disk create_temp
  Ensures-create_temp tmp other = record {
    at = λ w h. (
      λ f e.
          O.create-opens tmp w.disk (F.create tmp w.disk).1 f other
            (ap (λ (o : Option F.File). (o, (F.create tmp w.disk).1)) e),
      O.create-keeps tmp w.disk other h,
    );
  }

  Fails-staged :
      (remote : Text) (tmp : LocalPath) (stats : TreeStats)
      → tmp ≢ dest
      → Fails (on_disk (create_temp F tmp) >>= stage_file u remote tmp dest stats)
  Fails-staged remote tmp stats other =
      Ensures-bind _ _ _ _ (on_disk (create_temp F tmp)) _ (Ensures-create_temp tmp other)
        λ o. record { at = λ w (q, h). (Fails-stage_file remote tmp stats o other q).at w h }

  failed-Post :
      {A : Type 0} (r : Result A × World D F) (e : Error)
      → Post (λ _ _. Unit {0}) Held r
      → r.0 ≡ err e
      → P r.1.disk
  failed-Post (ok a, w) e h k = absurd (cc)
  failed-Post (err x, w) e h k = h

  -- Pulling a file that fails, at whichever call, leaves what is at its destination as it was: a fact
  -- about the destination, which no call on another path changes and no renaming that fails, still
  -- holds. The name of the file is a plain one.
  pub pull_file_failed :
      (remote : Text) (local : LocalPath) (name : Text) (stats : TreeStats) (w : World D F)
      (e : Error)
      → dest ≡ join local name
      → IsPlain name
      → P w.disk
      → (pull_file u remote dest stats w).0 ≡ err e
      → P (pull_file u remote dest stats w).1.disk
  unfolding pull_file next_temp
  pull_file_failed remote local name stats w e same plain h k =
      failed-Post (pull_file u remote dest stats w) e
        ((Fails-staged remote (temp_sibling F.pid w.counter dest) stats (
            subst (λ q. temp_sibling F.pid w.counter q ≢ q) (sym same)
              (temp_sibling-ne F.pid w.counter local name plain))).at
          _ h)
        k
