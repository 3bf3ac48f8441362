-- ===== src/Core/Actor/Coherence.antt =====
-- The cache against the phone: what the actor relies on of a device on which nobody else changes
-- anything, and what it means that the cached listings are true.
pub mod Rules
pub mod Children
pub mod Walks
pub mod Resolving
pub mod Invalidation
pub mod Mutations
pub mod Renaming
pub mod Lookups
pub mod Paths
pub mod Moves
pub mod Serving
pub mod Descent
pub mod Deletion
pub mod Removal
use pereprava.Prelude.{ℕ, ◌≡◌, ◌≢◌, ◌⊎◌, Option, none, some, List, [], ◌∷◌, map, All}
use pereprava.Prelude.Maps.{Map, get, Every}
use pereprava.Core.Model.{Entry}
use pereprava.Core.Cache.{MetaCache, StorageCache, Listing}
use pereprava.Core.Cache.Each.{Each}
use pereprava.Core.Cache.Parents.{Shows}
use pereprava.Core.Cache.Exact.{AllExact}
use pereprava.Core.Actor.Device.{
  Device, ObjectInfo, Reply, done, failed, UploadReply, uploaded, NewObjectInfo, Item,
}
use pereprava.Core.Actor.State.{ActorState, StorageRec, entry_of}

-- The directory that an optional parent stands for.
abbrev pub dir_of : (D : Device) → Option ℕ → ℕ
dir_of D none = D.root
dir_of D (some d) = d

abbrev pub Occurs : {A : Type 0} → A → List A → Type 0
Occurs x [] = ⊥
Occurs x (y ∷ ys) = (x ≡ y) ⊎ Occurs x ys

-- The items of a list all occur in another.
abbrev pub IsPartOf : {A : Type 0} → List A → List A → Type 0
IsPartOf [] ys = Unit {0}
IsPartOf (x ∷ xs) ys = Occurs x ys × IsPartOf xs ys

-- What the session says of the object tree. `contents s sid dir` is the listing of a directory, by
-- storage id and handle. Handles are not used again while the session lives.
pub record IsLawful (D : Device) : Type 0 where
  pub contents : D.State → ℕ → ℕ → List ObjectInfo
  pub sid_of : D.Storage → ℕ
  pub storage-done :
      (sid : ℕ) (s s' : D.State) (g : D.Storage) → D.storage sid s ≡ (done g, s') → sid_of g ≡ sid
  pub storage-same :
      (sid : ℕ) (s : D.State) (j d : ℕ) → contents (D.storage sid s).1 j d ≡ contents s j d
  pub list_objects-done :
      (g : D.Storage) (p : Option ℕ) (s s' : D.State) (objs : List ObjectInfo)
      → D.list_objects g p s ≡ (done objs, s')
      → objs ≡ contents s (sid_of g) (dir_of D p)
  pub list_objects-same :
      (g : D.Storage) (p : Option ℕ) (s : D.State) (j d : ℕ)
      → contents (D.list_objects g p s).1 j d ≡ contents s j d
  pub get_object_info-same :
      (g : D.Storage) (h : ℕ) (s : D.State) (j d : ℕ)
      → contents (D.get_object_info g h s).1 j d ≡ contents s j d
  pub read_range-same :
      (g : D.Storage) (h offset count : ℕ) (s : D.State) (j d : ℕ)
      → contents (D.read_range g h offset count s).1 j d ≡ contents s j d
  pub download-same :
      (g : D.Storage) (h : ℕ) (s : D.State) (j d : ℕ)
      → contents (D.download g h s).1 j d ≡ contents s j d
  -- An object stands in one directory of its storage.
  pub one_parent :
      (s : D.State) (sid d e h : ℕ)
      → Shows h (map entry_of (contents s sid d))
      → Shows h (map entry_of (contents s sid e))
      → d ≡ e
  -- A deletion and a renaming change the directory of the object.
  pub delete-changes :
      (g : D.Storage) (h : ℕ) (s : D.State) (j d : ℕ)
      → ((j ≡ sid_of g) × Shows h (map entry_of (contents s (sid_of g) d)))
        ⊎ (contents (D.delete g h s).1 j d ≡ contents s j d)
  pub rename-changes :
      (g : D.Storage) (h : ℕ) (name : List ℕ) (s : D.State) (j d : ℕ)
      → ((j ≡ sid_of g) × Shows h (map entry_of (contents s (sid_of g) d)))
        ⊎ (contents (D.rename g h name s).1 j d ≡ contents s j d)
  -- A move changes the directory that the object leaves and the one that it enters.
  pub move_object-changes :
      (g : D.Storage) (h dst sid : ℕ) (s : D.State) (j d : ℕ)
      → ((j ≡ sid_of g) × (Shows h (map entry_of (contents s (sid_of g) d)) ⊎ (d ≡ dst)))
        ⊎ (contents (D.move_object g h dst sid s).1 j d ≡ contents s j d)
  pub move_object-done :
      (g : D.Storage) (h dst sid : ℕ) (s s' : D.State)
      → D.move_object g h dst sid s ≡ (done tt, s')
      → Shows h (map entry_of (contents s' (sid_of g) dst))
  -- A call that fails changes nothing.
  pub delete-failed :
      (g : D.Storage) (h : ℕ) (s s' : D.State) {e : _}
      → D.delete g h s ≡ (failed e, s')
      → (j d : ℕ) → contents s' j d ≡ contents s j d
  pub rename-failed :
      (g : D.Storage) (h : ℕ) (name : List ℕ) (s s' : D.State) {e : _}
      → D.rename g h name s ≡ (failed e, s')
      → (j d : ℕ) → contents s' j d ≡ contents s j d
  pub move_object-failed :
      (g : D.Storage) (h dst sid : ℕ) (s s' : D.State) {e : _}
      → D.move_object g h dst sid s ≡ (failed e, s')
      → (j d : ℕ) → contents s' j d ≡ contents s j d
  pub create_folder-failed :
      (g : D.Storage) (p : Option ℕ) (name : List ℕ) (s s' : D.State) {e : _}
      → D.create_folder g p name s ≡ (failed e, s')
      → (j d : ℕ) → contents s' j d ≡ contents s j d
  -- A deletion adds nothing to a listing.
  pub delete-shrinks :
      (g : D.Storage) (h : ℕ) (s : D.State) (j d : ℕ)
      → IsPartOf (contents (D.delete g h s).1 j d) (contents s j d)
  -- A new directory, and a new file, changes the directory in which it is made.
  pub create_folder-changes :
      (g : D.Storage) (p : Option ℕ) (name : List ℕ) (s : D.State) (j d : ℕ)
      → ((j ≡ sid_of g) × (d ≡ dir_of D p))
        ⊎ (contents (D.create_folder g p name s).1 j d ≡ contents s j d)
  pub upload-changes :
      (g : D.Storage) (p : Option ℕ) (info : NewObjectInfo) (items : List Item) (s : D.State)
      (j d : ℕ)
      → ((j ≡ sid_of g) × (d ≡ dir_of D p))
        ⊎ (contents (D.upload g p info items s).1 j d ≡ contents s j d)

module _ {D : Device} (L : IsLawful D) where
  abbrev pub listed : D.State → ℕ → ℕ → List Entry
  listed s sid d = map entry_of (L.contents s sid d)

  -- Every cached listing is what the device would answer, but where `X` allows for another.
  pub record TrueBut (X : ℕ → ℕ → Type 0) (s : D.State) (c : MetaCache) : Type 0 where
    pub agrees : Each (λ j d l. (l.children ≡ listed s j d) ⊎ X j d) c
    pub exact : AllExact c

  -- Every cached listing is what the device would answer now, and records its objects' directory.
  abbrev pub IsCoherent : ActorState D → Type 0
  IsCoherent σ = TrueBut (λ _ _. ⊥) σ.device σ.cache
