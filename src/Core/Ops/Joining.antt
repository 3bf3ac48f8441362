-- ===== src/Core/Ops/Joining.antt =====
-- `join_device` on the printed form of a path names the child.
use mathlib.Core.List.{append-nil, append_assoc}
use pereprava.Prelude.{
  ◌≡◌, refl, sym, ap, ◌∙◌, false, List, [], ◌∷◌, ◌++◌, All, All-append, arith, if◌then◌else◌,
}
use pereprava.Prelude.Text.{
  Text, contains, any_char, slash, trim_end, keep_nonblank, trim_start_slashes, trim_end_slashes,
  keep_unless_slash,
}
use pereprava.Core.Error.{ok}
use pereprava.Core.Path.{DevPath, is_empty, is_root, parse, display, push_segments}
use pereprava.Core.Path.Laws.{IsPart, IsValid}
use pereprava.Core.Path.Roundtrip.{IsPart-is_empty, parse-display}
use pereprava.Core.Ops.Stats.{join_device}

-- The path of a child.
pub child : DevPath → Text → DevPath
child p name =
    if is_root p
    then record { storage_ref = name; segments = [] }
    else record p { segments = p.segments ++ name ∷ [] }

trim_end_slashes-front :
    (s t : Text) → is_empty t ≡ false → trim_end_slashes t ≡ t → trim_end_slashes (s ++ t) ≡ s ++ t
unfolding trim_end_slashes keep_unless_slash is_empty
trim_end_slashes-front s [] h k = cc
trim_end_slashes-front [] (d ∷ t) h k = k
trim_end_slashes-front (c ∷ []) (d ∷ t) h k = rw k refl
trim_end_slashes-front (c ∷ e ∷ s) (d ∷ t) h k =
    rw (trim_end_slashes-front (e ∷ s) (d ∷ t) h k) refl

trim_end-front : (s t : Text) → is_empty t ≡ false → trim_end t ≡ t → trim_end (s ++ t) ≡ s ++ t
unfolding trim_end keep_nonblank is_empty
trim_end-front s [] h k = cc
trim_end-front [] (d ∷ t) h k = k
trim_end-front (c ∷ []) (d ∷ t) h k = rw k refl
trim_end-front (c ∷ e ∷ s) (d ∷ t) h k = rw (trim_end-front (e ∷ s) (d ∷ t) h k) refl

trim_end_slashes-plain : (s : Text) → contains slash s ≡ false → trim_end_slashes s ≡ s
unfolding trim_end_slashes keep_unless_slash any_char
trim_end_slashes-plain [] h = refl
trim_end_slashes-plain (c ∷ []) h = ground arith
trim_end_slashes-plain (c ∷ d ∷ s) h = ground (arith, trim_end_slashes-plain (d ∷ s))

trim_start_slashes-plain : (s : Text) → contains slash s ≡ false → trim_start_slashes s ≡ s
unfolding trim_start_slashes any_char
trim_start_slashes-plain [] h = refl
trim_start_slashes-plain (c ∷ s) h = ground arith

is_empty-append : (s t : Text) → is_empty s ≡ false → is_empty (s ++ t) ≡ false
unfolding is_empty
is_empty-append [] t h = cc
is_empty-append (c ∷ s) t h = refl

trim_end_slashes-parts :
    (a : Text) (ss : List Text)
    → IsPart a
    → All IsPart ss
    → trim_end_slashes (a ++ push_segments ss) ≡ a ++ push_segments ss
unfolding push_segments is_empty
trim_end_slashes-parts a [] h k = rw (append-nil a) (trim_end_slashes-plain a h.no_slash)
trim_end_slashes-parts a (s ∷ ss) h k =
    trim_end_slashes-front a (slash ∷ (s ++ push_segments ss)) refl (
      trim_end_slashes-front (slash ∷ []) (s ++ push_segments ss)
        (is_empty-append s (push_segments ss) (IsPart-is_empty s k.0))
        (trim_end_slashes-parts s ss k.0 k.1))

push_segments-append :
    (ss : List Text) (name : Text)
    → push_segments (ss ++ name ∷ []) ≡ push_segments ss ++ slash ∷ name
unfolding push_segments
push_segments-append [] name = ap (◌∷◌ slash) (append-nil name)
push_segments-append (s ∷ ss) name =
    ap (λ (t : Text). slash ∷ (s ++ t)) (push_segments-append ss name)
    ∙ ap (◌∷◌ slash) (sym (append_assoc s (push_segments ss) (slash ∷ name)))

join_device-plain :
    (base name : Text)
    → trim_end_slashes base ≡ base
    → contains slash name ≡ false
    → join_device base name ≡ base ++ slash ∷ name
unfolding join_device
join_device-plain base name h k = rw (h, trim_start_slashes-plain name k) refl

abbrev at : Text → List Text → DevPath
at a ss = record { storage_ref = a; segments = ss }

display-at :
    (a : Text) (ss : List Text)
    → is_empty a ≡ false
    → display (at a ss) ≡ slash ∷ (a ++ push_segments ss)
unfolding display is_root
display-at a ss h = rw h refl

child-at :
    (a : Text) (ss : List Text) (name : Text)
    → is_empty a ≡ false
    → child (at a ss) name ≡ at a (ss ++ name ∷ [])
unfolding child is_root
child-at a ss name h = rw h refl

-- The printed form of a child of a path below the device root.
joined :
    (a : Text) (ss : List Text) (name : Text)
    → slash ∷ (a ++ push_segments (ss ++ name ∷ []))
      ≡ slash ∷ (a ++ push_segments ss) ++ slash ∷ name
joined a ss name =
    ap (λ (t : Text). slash ∷ (a ++ t)) (push_segments-append ss name)
    ∙ ap (◌∷◌ slash) (sym (append_assoc a (push_segments ss) (slash ∷ name)))

join_device-at :
    (a : Text) (ss : List Text) (name : Text)
    → IsPart a
    → All IsPart ss
    → IsPart name
    → join_device (display (at a ss)) name ≡ display (child (at a ss) name)
join_device-at a ss name h k n =
    rw
      (
        child-at a ss name (IsPart-is_empty a h),
        display-at a ss (IsPart-is_empty a h),
        display-at a (ss ++ name ∷ []) (IsPart-is_empty a h),
      )
      (join_device-plain (slash ∷ (a ++ push_segments ss)) name
          (trim_end_slashes-front (slash ∷ []) (a ++ push_segments ss)
            (is_empty-append a (push_segments ss) (IsPart-is_empty a h))
            (trim_end_slashes-parts a ss h k))
          n.no_slash
        ∙ sym (joined a ss name))

child-root : (p : DevPath) (name : Text) → p.storage_ref ≡ [] → child p name ≡ at name []
unfolding child is_root is_empty
child-root p name e = rw e refl

display-root : (p : DevPath) → p.storage_ref ≡ [] → display p ≡ slash ∷ []
unfolding display is_root is_empty
display-root p e = rw e refl

join_device-root :
    (p : DevPath) (name : Text)
    → p.storage_ref ≡ []
    → IsPart name
    → join_device (display p) name ≡ display (child p name)
unfolding join_device trim_end_slashes keep_unless_slash push_segments
join_device-root p name e h =
    rw
      (
        display-root p e,
        child-root p name e,
        display-at name [] (IsPart-is_empty name h),
        trim_start_slashes-plain name h.no_slash,
      )
      (ap (◌∷◌ slash) (sym (append-nil name)))

join_device-child :
    (p : DevPath) (name : Text)
    → IsValid p
    → IsPart name
    → join_device (display p) name ≡ display (child p name)
join_device-child p name (IsValid.root e k) h = join_device-root p name e h
join_device-child p name (IsValid.below a k) h = join_device-at p.storage_ref p.segments name a k h

IsValid-child : (p : DevPath) (name : Text) → IsValid p → IsPart name → IsValid (child p name)
IsValid-child p name (IsValid.root e k) h = rw (child-root p name e) (IsValid.below h tt)
IsValid-child p name (IsValid.below a k) h =
    rw (child-at p.storage_ref p.segments name (IsPart-is_empty p.storage_ref a))
      (IsValid.below a (All-append IsPart p.segments (name ∷ []) k (h, tt)))

trim_end-child :
    (p : DevPath) (name : Text)
    → IsValid p
    → IsPart name
    → trim_end name ≡ name
    → trim_end (display (child p name)) ≡ display (child p name)
unfolding push_segments is_empty
trim_end-child p name (IsValid.root e k) h t =
    rw (child-root p name e, display-at name [] (IsPart-is_empty name h), append-nil name)
      (trim_end-front (slash ∷ []) name (IsPart-is_empty name h) t)
trim_end-child p name (IsValid.below a k) h t =
    rw
      (
        child-at p.storage_ref p.segments name (IsPart-is_empty p.storage_ref a),
        display-at p.storage_ref (p.segments ++ name ∷ []) (IsPart-is_empty p.storage_ref a),
        joined p.storage_ref p.segments name,
      )
      (trim_end-front (slash ∷ (p.storage_ref ++ push_segments p.segments)) (slash ∷ name) refl
        (trim_end-front (slash ∷ []) name (IsPart-is_empty name h) t))

-- The text that the transfers build for an entry of a directory is read as the path of that entry:
-- joining a name to the printed form of a well-formed path gives a text that parses to the path with
-- the name below it, or, at the device root, to the storage of that name. The name is one that the
-- parser accepts as a part, and does not end in white space.
pub parse-join_device :
    (p : DevPath) (name : Text)
    → IsValid p
    → IsPart name
    → trim_end name ≡ name
    → parse (join_device (display p) name) ≡ ok (child p name)
parse-join_device p name v h t =
    rw (join_device-child p name v h)
      (parse-display (child p name) (IsValid-child p name v h) (trim_end-child p name v h t))
