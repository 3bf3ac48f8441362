-- ===== src/Cli/Commands/Moving.antt =====
-- What `mv` leaves alone when it refuses.
use mathlib.Core.Path.{subst}
use pereprava.Prelude.{refl, ◌∙◌, List, true, false, Option, none, some, ◌≡◌}
use pereprava.Prelude.Text.{Text}
use pereprava.Core.Error.{Result, ok, err}
use pereprava.Core.Names.{Unicode}
use pereprava.Core.Actor.Device.{Device}
use pereprava.Core.Actor.Monad.{pure, ◌>>=◌}
use pereprava.Core.Actor.State.{ActorState, StorageRec, Handler}
use pereprava.Core.Actor.Lookup.{Resolved, resolve}
use pereprava.Core.Actor.Tree.{move_into}
use pereprava.Core.Actor.Coherence.{IsLawful, IsCoherent}
use pereprava.Core.Actor.Coherence.Rules.{
  Ensures, Post, Ensures-if, Ensures-bind, Ensures-mono, Same,
}
use pereprava.Core.Actor.Coherence.Children.{IsOfTree, Good}
use pereprava.Core.Actor.Coherence.Lookups.{Stays-resolve}
use pereprava.Core.Ops.Stats.{join_device}
use pereprava.Cli.Commands.{
  Moved, is_refusal, already_exists, renamed, moved, moved_and_renamed, Target, target, refused,
  mv_target, mv_checked, missing, mv_onto, is_same_parent, attempt, ensure_parent_exists,
  rename_unless, mv_within, mv_to, mv_body,
}

module _ {D : Device} (u : Unicode) where
  -- No success of the steps is a refusal.
  abbrev Never : Handler D Moved → Type 0
  Never m = Ensures (λ _. Unit {0}) (λ r _. is_refusal r ≡ false) (λ _. Unit {0}) m

  Never-then :
      {A : Type 0} (m : Handler D A) (f : A → Handler D Moved)
      → ((a : A) → Never (f a))
      → Never (m >>= f)
  Never-then {A} m f k =
      Ensures-bind _ _ (λ _ _. Unit {0}) _ m f (record { at = λ σ _. go (m σ) }) k
    where
      go : (r : Result A × ActorState D) → Post (λ _ _. Unit {0}) (λ _. Unit {0}) r
      go (ok a, t) = tt
      go (err e, t) = tt

  Never-pure : (r : Moved) → is_refusal r ≡ false → Never (pure r)
  Never-pure r h = record { at = λ σ _. h }

  Never-mv_within : (from parent leaf : Text) → Never (mv_within u {D = D} from parent leaf)
  unfolding mv_within
  Never-mv_within from parent leaf = Never-then (resolve u D from false) _ λ src.
      Never-then (resolve u D parent false) _ λ dst.
        Ensures-if _ _ _ (is_same_parent src dst) _ _
          (λ _.
            Never-then (rename_unless u from src.entry.name leaf) _ λ _. Never-pure renamed refl)
          (λ _. Never-then (move_into u D from parent) _ λ e.
            Never-then (rename_unless u (join_device parent e.name) e.name leaf) _
              λ _. Never-pure moved_and_renamed refl)

module _ {D : Device} (L : IsLawful D) (u : Unicode) (T : List StorageRec) (s0 : D.State) where
  -- The tree is that of `s0`.
  abbrev Untouched : D.State → Type 0
  Untouched s = Same L s0 s

  Untouched-tree : IsOfTree L Untouched
  Untouched-tree s t same h j d = same j d ∙ h j d

  abbrev Before : ActorState D → Type 0
  Before = Good L T Untouched

  -- A refusal leaves the tree as it was.
  abbrev Spares : Handler D Moved → Type 0
  Spares m = Ensures Before (λ r σ. is_refusal r ≡ true → Untouched σ.device) (λ _. Unit {0}) m

  Spares-Never : (m : Handler D Moved) → Never u m → Spares m
  Spares-Never m k = Ensures-mono _ _ _ _ _ _ m k (λ σ h. tt) (λ r σ h q. absurd (cc)) (λ σ h. tt)

  Spares-pure : (r : Moved) → Spares (pure r)
  Spares-pure r = record { at = λ σ h q. h.2 }

  -- A look at the phone, before anything is done.
  Spares-look :
      {A : Type 0} (path : Text) (f : Result Resolved → A) (g : A → Handler D Moved)
      → ((a : A) → Spares (g a))
      → Spares ((do hit ← attempt u (resolve u D path false); pure (f hit)) >>= g)
  Spares-look {A} path f g k = record {
    at = λ σ h.
        go (resolve u D path false σ)
          ((Stays-resolve L u T Untouched Untouched-tree path false).at σ h);
  }
    where
      go :
          (r : Result Resolved × ActorState D)
          → Post (λ _. Before) Before r
          → Post (λ v σ. is_refusal v ≡ true → Untouched σ.device) (λ _. Unit {0}) (g (f r.0) r.1)
      go (ok a, t) h = (k (f (ok a))).at t h
      go (err e, t) h = (k (f (err e))).at t h

  Spares-mv_checked :
      (from parent leaf : Text) (why_not : Option Moved)
      → Spares (mv_checked u {D = D} from parent leaf why_not)
  unfolding mv_checked
  Spares-mv_checked from parent leaf none =
      Spares-Never (mv_within u from parent leaf) (Never-mv_within u from parent leaf)
  Spares-mv_checked from parent leaf (some why) = Spares-pure why

  Spares-mv_to : (from : Text) (t : Target) → Spares (mv_to u {D = D} from t)
  unfolding mv_to ensure_parent_exists
  Spares-mv_to from (refused why) = Spares-pure why
  Spares-mv_to from (target parent leaf) =
      Spares-look parent missing (mv_checked u from parent leaf)
        λ why_not. Spares-mv_checked from parent leaf why_not

  Spares-mv_onto : (from to : Text) (hit : Result Resolved) → Spares (mv_onto u {D = D} from to hit)
  unfolding mv_onto
  Spares-mv_onto from to (err e) = Spares-mv_to from (mv_target from to)
  Spares-mv_onto from to (ok found) =
      Ensures-if _ _ _ found.entry.is_dir _ _
        (λ _.
          Spares-Never (do e ← move_into u D from to; pure (moved e.name))
            (Never-then u (move_into u D from to) _ λ e. Never-pure u (moved e.name) refl))
        (λ _. Spares-pure already_exists)

  Spares-mv_body : (from to : Text) → Spares (mv_body u {D = D} from to)
  unfolding mv_body
  Spares-mv_body from to = Spares-look to (λ hit. hit) (mv_onto u from to) (Spares-mv_onto from to)

  Spares-Post :
      (o : Result Moved × ActorState D)
      → Post (λ r σ. is_refusal r ≡ true → Untouched σ.device) (λ _. Unit {0}) o
      → (r : Moved) (σ' : ActorState D) → o ≡ (ok r, σ')
      → is_refusal r ≡ true
      → Untouched σ'.device
  Spares-Post o h r σ' e q =
      subst (Post (λ r σ. is_refusal r ≡ true → Untouched σ.device) (λ _. Unit {0})) e h q

-- When `mv` refuses by itself, whatever the reason, the listing of every directory on the phone is what
-- it was: it looks before it moves or renames anything.
pub mv_body_refused :
    {D : Device} (L : IsLawful D) (u : Unicode) (from to : Text) (σ σ' : ActorState D) (r : Moved)
    → IsCoherent L σ
    → mv_body u from to σ ≡ (ok r, σ')
    → is_refusal r ≡ true
    → Same L σ.device σ'.device
mv_body_refused L u from to σ σ' r b e q =
    Spares-Post L u σ.storages σ.device _
      ((Spares-mv_body L u σ.storages σ.device from to).at σ (refl, b, λ j d. refl)) r σ' e q
