-- ===== src/Core/Actor/Coherence/Rules.antt =====
-- Rules for what a handler ensures, one for each way to build it.
use mathlib.Core.Path.{subst}
use pereprava.Prelude.{
  ℕ, ◌≡◌, refl, sym, ap, ◌∙◌, ◌⊎◌, inl, inr, Bool, true, false, Option, none, some, List, map,
  get_elem?, if◌then◌else◌,
}
use pereprava.Core.Error.{Error, MtpError, invalid_argument, Result, ok, err}
use pereprava.Core.Cache.{MetaCache, Listing}
use pereprava.Core.Cache.Each.{map-Each}
use pereprava.Core.Actor.Device.{Device, Reply, done, failed, map_err}
use pereprava.Core.Actor.Monad.{Act, pure, fail, lift, ok_or, continue, ◌>>=◌}
use pereprava.Core.Actor.State.{ActorState, StorageRec, entry_of, call, storage, open_storage}
use pereprava.Core.Actor.Coherence.{IsLawful, listed, TrueBut}

-- What holds of an outcome.
abbrev pub Post : {S A : Type 0} → (A → S → Type 0) → (S → Type 0) → Result A × S → Type 0
Post Q E (ok a, t) = Q a t
Post Q E (err e, t) = E t

-- From a state in `P`, a success ends in `Q` of its value and a failure in `E`.
pub record Ensures {S A : Type 0} (P : S → Type 0) (Q : A → S → Type 0) (E : S → Type 0)
    (m : Act S A) : Type 0 where
  pub at : (s : S) → P s → Post Q E (m s)

module _ {S : Type 0} (P E : S → Type 0) where
  pub Ensures-pure :
      {A : Type 0} (Q : A → S → Type 0) (a : A) → ((s : S) → P s → Q a s) → Ensures P Q E (pure a)
  Ensures-pure Q a f = record { at = f }

  pub Ensures-fail :
      {A : Type 0} (Q : A → S → Type 0) (e : Error)
      → ((s : S) → P s → E s)
      → Ensures P Q E (fail {A = A} e)
  Ensures-fail Q e f = record { at = f }

  pub Ensures-lift :
      {A : Type 0} (r : Result A)
      → ((s : S) → P s → E s)
      → Ensures P (λ a s. (r ≡ ok a) × P s) E (lift r)
  Ensures-lift (ok a) f = record { at = λ s h. (refl, h) }
  Ensures-lift (err e) f = record { at = f }

  pub Ensures-ok_or :
      {A : Type 0} (o : Option A) (e : Error)
      → ((s : S) → P s → E s)
      → Ensures P (λ a s. (o ≡ some a) × P s) E (ok_or o e)
  Ensures-ok_or none e f = record { at = f }
  Ensures-ok_or (some a) e f = record { at = λ s h. (refl, h) }

  pub Ensures-if :
      {A : Type 0} (Q : A → S → Type 0) (b : Bool) (m n : Act S A)
      → (b ≡ true → Ensures P Q E m)
      → (b ≡ false → Ensures P Q E n)
      → Ensures P Q E (if b then m else n)
  Ensures-if Q true m n km kn = km refl
  Ensures-if Q false m n km kn = kn refl

  pub Ensures-bind :
      {A B : Type 0} (Q : A → S → Type 0) (R : B → S → Type 0) (m : Act S A) (f : A → Act S B)
      → Ensures P Q E m
      → ((a : A) → Ensures (Q a) R E (f a))
      → Ensures P R E (m >>= f)
  Ensures-bind {A} {B} Q R m f km kf = record { at = λ s h. go (m s) (km.at s h) }
    where
      go : (r : Result A × S) → Post Q E r → Post R E (continue r f)
      go (ok a, t) h = (kf a).at t h
      go (err e, t) h = h

module _ {S A : Type 0} (P : S → Type 0) (Q : A → S → Type 0) (E : S → Type 0) where
  pub Ensures-mono :
      (P' : S → Type 0) (Q' : A → S → Type 0) (E' : S → Type 0) (m : Act S A)
      → Ensures P Q E m
      → ((s : S) → P' s → P s)
      → ((a : A) (s : S) → Q a s → Q' a s)
      → ((s : S) → E s → E' s)
      → Ensures P' Q' E' m
  Ensures-mono P' Q' E' m k f g h = record { at = λ s p. go (m s) (k.at s (f s p)) }
    where
      go : (r : Result A × S) → Post Q E r → Post Q' E' r
      go (ok a, t) x = g a t x
      go (err e, t) x = h t x

module _ {D : Device} (L : IsLawful D) where
  -- The device went on, and its tree did not change.
  abbrev pub Same : D.State → D.State → Type 0
  Same s t = (j d : ℕ) → L.contents t j d ≡ L.contents s j d

  -- `P` holds still when the session goes on without a change of the tree.
  abbrev pub IsStable : (ActorState D → Type 0) → Type 0
  IsStable P =
      (σ : ActorState D) (d : D.State) → Same σ.device d → P σ → P (record σ { device = d })

  pub listed-Same : {s t : D.State} (j d : ℕ) → Same s t → listed L t j d ≡ listed L s j d
  listed-Same j d h = ap (map entry_of) (h j d)

  pub TrueBut-Same :
      (X : ℕ → ℕ → Type 0) (s t : D.State) (c : MetaCache)
      → Same s t
      → TrueBut L X s c
      → TrueBut L X t c
  TrueBut-Same X s t c h b = record {
    agrees = map-Each _ _ (λ j d l x. still j d l x) c b.agrees;
    exact = b.exact;
  }
    where
      still :
          (j d : ℕ) (l : Listing)
          → (l.children ≡ listed L s j d) ⊎ X j d
          → (l.children ≡ listed L t j d) ⊎ X j d
      still j d l (inl e) = inl (e ∙ sym (listed-Same j d h))
      still j d l (inr x) = inr x

  -- A call, by what its two answers leave behind.
  pub Ensures-call :
      {A : Type 0} (P E : ActorState D → Type 0) (Q : A → ActorState D → Type 0)
      (op : D.State → Reply A × D.State)
      → ((σ : ActorState D) (a : A) (d : D.State)
          → P σ
          → op σ.device ≡ (done a, d)
          → Q a (record σ { device = d }))
      → ((σ : ActorState D) (e : MtpError) (d : D.State)
          → P σ
          → op σ.device ≡ (failed e, d)
          → E (record σ { device = d }))
      → Ensures P Q E (call D op)
  unfolding call map_err
  Ensures-call {A} P E Q op good bad = record { at = λ σ p. go σ p (op σ.device) refl }
    where
      go :
          (σ : ActorState D)
          → P σ
          → (r : Reply A × D.State) → op σ.device ≡ r
          → Post Q E (map_err r.0, record σ { device = r.1 })
      go σ p (done a, d) e = good σ a d p e
      go σ p (failed x, d) e = bad σ x d p e

  -- A call that does not change the tree.
  pub Ensures-call-Same :
      {A : Type 0} (P : ActorState D → Type 0) (Q : A → ActorState D → Type 0)
      (op : D.State → Reply A × D.State)
      → IsStable P
      → ((s : D.State) → Same s (op s).1)
      → ((σ : ActorState D) (a : A) (d : D.State)
          → P σ
          → op σ.device ≡ (done a, d)
          → Q a (record σ { device = d }))
      → Ensures P (λ a σ. Q a σ × P σ) P (call D op)
  Ensures-call-Same {A} P Q op stable same good =
      Ensures-call P P _ op (λ σ a d p e. (good σ a d p e, stable σ d (moved σ d (done a) e) p))
        (λ σ x d p e. stable σ d (moved σ d (failed x) e) p)
    where
      moved :
          (σ : ActorState D) (d : D.State) (r : Reply A) → op σ.device ≡ (r, d) → Same σ.device d
      moved σ d r e = subst (Same σ.device) (ap (λ (x : Reply A × D.State). x.1) e) (same σ.device)

  module _ (T : List StorageRec) where
    abbrev pub HasTable : (ActorState D → Type 0) → Type 0
    HasTable P = (σ : ActorState D) → P σ → σ.storages ≡ T

    pub Ensures-storage :
        (P : ActorState D → Type 0) (idx : ℕ)
        → HasTable P
        → Ensures P (λ rec σ. (get_elem? T idx ≡ some rec) × P σ) P (storage D idx)
    unfolding storage
    Ensures-storage P idx table = record {
      at = λ σ p.
          subst
            (λ t.
              Post (λ rec σ. (get_elem? T idx ≡ some rec) × P σ) P
                (ok_or (get_elem? t idx) invalid_argument σ))
            (sym (table σ p))
            ((Ensures-ok_or P P (get_elem? T idx) invalid_argument (λ _ q. q)).at σ p);
    }

    -- An open storage is that of the table.
    abbrev pub IsOpen : ℕ → D.Storage → Type 0
    IsOpen idx g = (rec : StorageRec) × (get_elem? T idx ≡ some rec) × (L.sid_of g ≡ rec.id)

    pub Ensures-open_storage :
        (P : ActorState D → Type 0) (idx : ℕ)
        → HasTable P
        → IsStable P
        → Ensures P (λ g σ. IsOpen idx g × P σ) P (open_storage D idx)
    unfolding open_storage
    Ensures-open_storage P idx table stable =
        Ensures-bind P P (λ rec σ. (get_elem? T idx ≡ some rec) × P σ) _ (storage D idx) _
          (Ensures-storage P idx table)
          λ rec.
            Ensures-mono (λ σ. (get_elem? T idx ≡ some rec) × P σ)
              (λ g σ. IsOpen idx g × ((get_elem? T idx ≡ some rec) × P σ))
              (λ σ. (get_elem? T idx ≡ some rec) × P σ) _ _ _ (call D (D.storage rec.id))
              (Ensures-call-Same (λ σ. (get_elem? T idx ≡ some rec) × P σ) (λ g σ. IsOpen idx g)
                (D.storage rec.id) (λ σ d same h. (h.0, stable σ d same h.1))
                (L.storage-same rec.id)
                (λ σ g d h e. (rec, h.0, L.storage-done rec.id σ.device d g e)))
              (λ σ h. h) (λ g σ h. (h.0, h.1.1)) (λ σ h. h.1)
