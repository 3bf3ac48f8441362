-- ===== src/Core/Ops/Outside.antt =====
-- Facts about the disk that calls inside a directory do not change, and what a download leaves.
use pereprava.Prelude.{
  ℕ, ◌+◌, ◌≡◌, Bool, true, false, ◌==◌, some, List, [], ◌∷◌, length, if◌then◌else◌,
}
use pereprava.Prelude.Text.{Text}
use pereprava.Core.Error.{Error, Result, ok, err, wrong_kind}
use pereprava.Core.Names.{Unicode}
use pereprava.Core.Actor.Device.{Device, Reply, map_err}
use pereprava.Core.Actor.Monad.{Act, pure, fail, lift, ◌>>=◌}
use pereprava.Core.Actor.State.{ActorState}
use pereprava.Core.Actor.Lookup.{Resolved, resolve}
use pereprava.Core.Actor.Transfer.{
  Writer, copy_chunks, receive, download, open_download, run_download,
}
use pereprava.Core.Actor.Handle.{download_into, download_resolved}
use pereprava.Core.Actor.Coherence.Rules.{Ensures, Post, Ensures-bind, Ensures-if}
use pereprava.Core.Ops.Local.{LocalPath, Disk}
use pereprava.Core.Ops.Inside.{Below}

-- A fact about the disk that no call on a path inside the directory changes. What is written to is a
-- file that was created there.
pub record IsOutside (F : Disk) (root : LocalPath) (P : F.State → Type 0) (Q : F.File → Type 0)
    : Type 0 where
  pub create_dir_all-keeps :
      (p : LocalPath) (s : F.State) → Below root p → P s → P (F.create_dir_all p s).1
  pub create-keeps : (p : LocalPath) (s : F.State) → Below root p → P s → P (F.create p s).1
  pub create-opens :
      (p : LocalPath) (s s' : F.State) (f : F.File)
      → Below root p
      → F.create p s ≡ (some f, s')
      → Q f
  pub write_all-keeps :
      (f : F.File) (bs : List ℕ) (s : F.State) → Q f → P s → P (F.write_all f bs s).1
  pub flush-keeps : (f : F.File) (s : F.State) → Q f → P s → P (F.flush f s).1
  pub rename-keeps :
      (p q : LocalPath) (s : F.State) → Below root p → Below root q → P s → P (F.rename p q s).1
  pub remove_file-keeps : (p : LocalPath) (s : F.State) → Below root p → P s → P (F.remove_file p s)

module _ {S : Type 0} (P : S → Type 0) where
  abbrev pub Keeps : {A : Type 0} → Act S A → Type 0
  Keeps m = Ensures P (λ _. P) P m

  pub Keeps-of : {A : Type 0} (m : Act S A) → ((s : S) → P s → P (m s).1) → Keeps m
  Keeps-of {A} m k = record { at = λ s h. go (m s) (k s h) }
    where
      go : (r : Result A × S) → P r.1 → Post (λ _. P) P r
      go (ok a, t) h = h
      go (err e, t) h = h

  pub at_end : {A : Type 0} (m : Act S A) → Keeps m → (s : S) → P s → P (m s).1
  at_end {A} m k s h = go (m s) (k.at s h)
    where
      go : (r : Result A × S) → Post (λ _. P) P r → P r.1
      go (ok a, t) h = h
      go (err e, t) h = h

  pub Keeps-bind :
      {A B : Type 0} (m : Act S A) (f : A → Act S B)
      → Keeps m
      → ((a : A) → Keeps (f a))
      → Keeps (m >>= f)
  Keeps-bind m f km kf = Ensures-bind _ _ _ _ m f km kf

  pub Keeps-if :
      {A : Type 0} (b : Bool) (m n : Act S A)
      → (b ≡ true → Keeps m)
      → Keeps n
      → Keeps (if b then m else n)
  Keeps-if b m n km kn = Ensures-if _ _ _ b m n km (λ _. kn)

  pub Keeps-pure : {A : Type 0} (a : A) → Keeps (pure a)
  Keeps-pure a = record { at = λ s h. h }

  pub Keeps-fail : {A : Type 0} (e : Error) → Keeps (fail {A = A} e)
  Keeps-fail e = record { at = λ s h. h }

  pub Keeps-lift : {A : Type 0} (r : Result A) → Keeps (lift r)
  Keeps-lift r = Keeps-of (lift r) (λ s h. h)

module _ (W : Writer) (P : W.State → Type 0)
    (writes : (bs : List ℕ) (s : W.State) → P s → P (W.write_all bs s).1)
    (flushes : (s : W.State) → P s → P (W.flush s).1) where
  copy_chunks-Keeps : (cs : List (Reply (List ℕ))) (n : ℕ) → Keeps P (copy_chunks W cs n)
  unfolding copy_chunks
  copy_chunks-Keeps [] n = Keeps-pure P n
  copy_chunks-Keeps (c ∷ cs) n = Keeps-bind P (lift (map_err c)) _ (Keeps-lift P (map_err c)) λ bs.
      Keeps-bind P (W.write_all bs) _ (Keeps-of P (W.write_all bs) (writes bs))
        λ _. copy_chunks-Keeps cs (n + length bs)

  receive-Keeps : (total : ℕ) (cs : List (Reply (List ℕ))) → Keeps P (receive W total cs)
  unfolding receive
  receive-Keeps total cs = Keeps-bind P (copy_chunks W cs 0) _ (copy_chunks-Keeps cs 0) λ n.
      Keeps-bind P W.flush _ (Keeps-of P W.flush flushes)
        λ _. Keeps-if P (n == total) _ _ (λ _. Keeps-pure P n) (Keeps-fail P Error.mtp)

  module _ (u : Unicode) (D : Device) where
    run_download-keeps :
        (w : W.State)
        (r : Result (record { size : ℕ; chunks : List (Reply (List ℕ)) }) × ActorState D)
        → P w
        → P (run_download u D W w r).1
    unfolding run_download
    run_download-keeps w (ok r, s) h =
        at_end P (receive W r.size r.chunks) (receive-Keeps r.size r.chunks) w h
    run_download-keeps w (err e, s) h = h

    download-keeps :
        (target : Resolved) (w : W.State) (s : ActorState D) → P w → P (download u D W target w s).1
    unfolding download
    download-keeps target w s h = run_download-keeps w (open_download u D target s) h

    download_resolved-keeps :
        (r : Result Resolved × ActorState D) (w : W.State) → P w → P (download_resolved u D W r w).1
    unfolding download_resolved
    download_resolved-keeps (err e, s) w h = h
    download_resolved-keeps (ok target, s) w h = go target.entry.is_dir
      where
        go : (b : Bool) → P (if b then (err wrong_kind, w, s) else download u D W target w s).1
        go true = h
        go false = download-keeps target w s h

    pub download_into-keeps :
        (path : Text) (w : W.State) (s : ActorState D) → P w → P (download_into u D W path w s).1
    unfolding download_into
    download_into-keeps path w s h = download_resolved-keeps (resolve u D path false s) w h
