-- ===== src/Core/Actor/Connect/Claims.antt =====
-- What a connection leaves of the USB claims, and with what state an actor starts.
use mathlib.Core.Path.{subst}
use pereprava.Prelude.{ℕ, suc, ◌-◌, ◌≡◌, ◌≢◌, refl, ◌∙◌, List, [], ◌∷◌, arith}
use pereprava.Core.Error.{Error, MtpError, Result, ok, err}
use pereprava.Core.Actor.Device.{Device, Reply, done, failed}
use pereprava.Core.Actor.State.{ActorState, StorageRec}
use pereprava.Core.Actor.Coherence.{IsLawful, IsCoherent}
use pereprava.Core.Actor.Connect.{
  Usb, Probe, answered, panicked, late, table_of, spawned, probed, spawn_actor, tried, or_next,
  connect_each, connect_listed, connect_first,
}

-- What `mtp_rs` documents of its claims: an open device holds one, and gives it back when it goes out of
-- scope. Looking for devices and a device that cannot be opened leave none.
pub record IsClaiming {D : Device} (B : Usb D) : Type 0 where
  pub claims : B.State → ℕ
  pub listed-claims : (s : B.State) → claims (B.list_devices s).1 ≡ claims s
  pub opened-claims :
      (c : B.Candidate) (s s' : B.State) (d : D.State)
      → B.open_by_location c s ≡ (done d, s')
      → claims s' ≡ suc (claims s)
  pub unopened-claims :
      (c : B.Candidate) (s s' : B.State) (e : MtpError)
      → B.open_by_location c s ≡ (failed e, s')
      → claims s' ≡ claims s
  pub dropped-claims : (d : D.State) (s : B.State) → claims (B.drop d s) ≡ claims s - 1

module _ {D : Device} (L : IsLawful D) {B : Usb D} (C : IsClaiming B) where
  -- The state of a new actor.
  pub record IsFresh (a : ActorState D) : Type 0 where
    pub usable : a.storages ≢ []
    pub coherent : IsCoherent L a

  -- From `n` claims: a phone holds one more, a failure none.
  abbrev pub Connected : ℕ → Result (ActorState D) × B.State → Type 0
  Connected n (ok a, s) = (C.claims s ≡ suc n) × IsFresh a
  Connected n (err e, s) = C.claims s ≡ n

  spawned-Connected :
      (n : ℕ) (d : D.State) (table : List StorageRec) (s : B.State)
      → C.claims s ≡ suc n
      → Connected n (spawned B d table s)
  unfolding spawned
  spawned-Connected n d [] s h = C.dropped-claims (D.close d).1 s ∙ omega (arith, h)
  spawned-Connected n d (r ∷ rs) s h =
      (h, record { usable = λ e. absurd (cc); coherent = record { agrees = tt; exact = tt } })

  probed-Connected :
      (n : ℕ) (d : D.State) (p : Probe D) (s : B.State)
      → C.claims s ≡ suc n
      → Connected n (probed B d p s)
  unfolding probed
  probed-Connected n d (answered r d') s h = spawned-Connected n d' (table_of r) s h
  probed-Connected n d panicked s h = C.dropped-claims d s ∙ omega (arith, h)
  probed-Connected n d late s h = C.dropped-claims d s ∙ omega (arith, h)

  tried-Connected :
      (c : B.Candidate) (s : B.State) → Connected (C.claims s) (tried B (B.open_by_location c s))
  unfolding tried spawn_actor
  tried-Connected c s = go (B.open_by_location c s) refl
    where
      go :
          (r : Reply D.State × B.State)
          → B.open_by_location c s ≡ r
          → Connected (C.claims s) (tried B r)
      go (done d, s') e =
          probed-Connected (C.claims s) d (B.probe d) s' (C.opened-claims c s s' d e)
      go (failed x, s') e = C.unopened-claims c s s' x e

  connect_each-Connected :
      (cs : List B.Candidate) (last : Error) (s : B.State)
      → Connected (C.claims s) (connect_each B cs last s)
  unfolding connect_each or_next
  connect_each-Connected [] last s = refl
  connect_each-Connected (c ∷ cs) last s =
      go (tried B (B.open_by_location c s)) (tried-Connected c s) (connect_each-Connected cs)
    where
      go :
          (r : Result (ActorState D) × B.State)
          → Connected (C.claims s) r
          → ((e : Error) (t : B.State) → Connected (C.claims t) (connect_each B cs e t))
          → Connected (C.claims s) (or_next B r (connect_each B cs))
      go (ok a, t) h k = h
      go (err e, t) h k = subst (λ n. Connected n (connect_each B cs e t)) h (k e t)

  -- Whatever stands on the bus and however each candidate answers, a connection that succeeds holds one
  -- claim more than before, on a device with a storage, and its actor starts from a true cache; a
  -- connection that fails holds none.
  pub connect_first-Connected : (s : B.State) → Connected (C.claims s) (connect_first B s)
  unfolding connect_first connect_listed
  connect_first-Connected s = go (B.list_devices s) (C.listed-claims s)
    where
      go :
          (r : Reply (List B.Candidate) × B.State)
          → C.claims r.1 ≡ C.claims s
          → Connected (C.claims s) (connect_listed B r)
      go (done cs, t) h =
          subst (λ n. Connected n (connect_each B cs Error.mtp t)) h
            (connect_each-Connected cs Error.mtp t)
      go (failed e, t) h = h
