-- ===== src/Core/Path/Roundtrip.antt =====
-- Reading back what `display` prints.
use pereprava.Prelude.{◌≡◌, refl, ap, false, List, [], ◌∷◌, ◌++◌, arith, All}
use pereprava.Prelude.Text.{
  Text, trim, trim_start, trim_end, split_slash, push_head, slash, contains, any_char,
  is_whitespace,
}
use pereprava.Core.Error.{ok}
use pereprava.Core.Path.{
  DevPath, is_empty, drop_first_empty, drop_last_empty, from_parts, path_parts, parse, is_root,
  push_segments, display,
}
use pereprava.Core.Path.Laws.{IsPart, IsValid, root, below, IsPart-check_parts}

split_slash-parts :
    (ss : List Text) (a : Text)
    → contains slash a ≡ false
    → All IsPart ss
    → split_slash (a ++ push_segments ss) ≡ a ∷ ss
unfolding split_slash push_head push_segments any_char
split_slash-parts [] [] h k = refl
split_slash-parts [] (c ∷ a) h k = ground (arith, split_slash-parts [] a)
split_slash-parts (s ∷ ss) [] h k = ap (◌∷◌ []) (split_slash-parts ss s k.0.no_slash k.1)
split_slash-parts (s ∷ ss) (c ∷ a) h k = ground (arith, split_slash-parts (s ∷ ss) a)

pub IsPart-is_empty : (p : Text) → IsPart p → is_empty p ≡ false
unfolding is_empty trim trim_start trim_end
IsPart-is_empty [] h = h.not_blank
IsPart-is_empty (c ∷ p) h = refl

drop_last_empty-parts :
    (p : Text) (ps : List Text) → IsPart p → All IsPart ps → drop_last_empty (p ∷ ps) ≡ p ∷ ps
unfolding drop_last_empty
drop_last_empty-parts p [] h k = rw (IsPart-is_empty p h)
drop_last_empty-parts p (q ∷ ps) h k = ap (◌∷◌ p) (drop_last_empty-parts q ps k.0 k.1)

trim_start-slash : (s : Text) → trim_start (slash ∷ s) ≡ slash ∷ s
unfolding trim_start is_whitespace
trim_start-slash s = refl

path_parts-below :
    (a : Text) (ss : List Text)
    → IsPart a
    → All IsPart ss
    → trim_end (slash ∷ (a ++ push_segments ss)) ≡ slash ∷ (a ++ push_segments ss)
    → path_parts (slash ∷ (a ++ push_segments ss)) ≡ a ∷ ss
unfolding path_parts trim split_slash drop_first_empty is_empty
path_parts-below a ss h k e =
    rw (trim_start-slash (a ++ push_segments ss), e, split_slash-parts ss a h.no_slash k)
      (drop_last_empty-parts a ss h k)

parse-below :
    (a : Text) (ss : List Text)
    → IsPart a
    → All IsPart ss
    → trim_end (slash ∷ (a ++ push_segments ss)) ≡ slash ∷ (a ++ push_segments ss)
    → parse (slash ∷ (a ++ push_segments ss)) ≡ ok (record { storage_ref = a; segments = ss })
unfolding parse from_parts
parse-below a ss h k e = rw (path_parts-below a ss h k e, IsPart-check_parts (a ∷ ss) (h, k))

parse-root :
    (a : Text) (ss : List Text)
    → a ≡ []
    → ss ≡ []
    → parse (display (record { storage_ref = a; segments = ss }))
      ≡ ok (record { storage_ref = a; segments = ss })
unfolding parse display is_root trim trim_start trim_end is_whitespace split_slash
parse-root a ss e k = rw (e, k)

parse-display_below :
    (a : Text) (ss : List Text)
    → IsPart a
    → All IsPart ss
    → let p : DevPath = record { storage_ref = a; segments = ss } in
      trim_end (display p) ≡ display p → parse (display p) ≡ ok p
unfolding display is_root
parse-display_below [] ss h k e = cc (IsPart-is_empty [] h)
parse-display_below (c ∷ a) ss h k e = parse-below (c ∷ a) ss h k e

-- A well-formed path whose printed form does not end in white space is read back unchanged: parsing
-- what `display` prints gives the path itself.
pub parse-display :
    (p : DevPath) → IsValid p → trim_end (display p) ≡ display p → parse (display p) ≡ ok p
parse-display p (root e k) h = parse-root p.storage_ref p.segments e k
parse-display p (below h k) e = parse-display_below p.storage_ref p.segments h k e
