-- ===== src/Cli/Commands/Splitting.antt =====
-- How a path of `mv` is split at its last slash.
use mathlib.Core.Path.{subst}
use mathlib.Core.Option.{some-injective}
use pereprava.Prelude.{
  ◌∙◌, ◌↔◌, ◌≡◌, refl, sym, ap, Bool-cases, false, Option, none, some, [], ◌∷◌, ◌++◌, ◌==◌, arith,
  inl, inr, if◌then◌else◌,
}
use pereprava.Prelude.Text.{Text, slash, contains, any_char, trim}
use pereprava.Core.Path.{is_empty}
use pereprava.Cli.Commands.{both_named, split_last, prepend, split_device_parent_leaf}

-- The two parts with the slash between them are the text, and the second has no slash; where there
-- are no parts, the text has none.
Parts : Text → Option (Text × Text) → Type 0
Parts s none = contains slash s ≡ false
Parts s (some (a, b)) = (s ≡ a ++ slash ∷ b) × (contains slash b ≡ false)

Parts-split_last : (s : Text) → Parts s (split_last s)
unfolding Parts split_last any_char
Parts-split_last [] = refl
Parts-split_last (c ∷ s) = grow (split_last s) (Parts-split_last s)
  where
    grow :
        (r : Option (Text × Text))
        → Parts s r
        → Parts (c ∷ s) (elim r [
          | some parts ↦ some (prepend c parts)
          | none ↦ if c == slash then some ([], s) else none
        ])
    grow (some (a, b)) (e, h) = (ap (λ t. c ∷ t) e, h)
    grow none h = elim (Bool-cases (c == slash)) [
      | inl here ↦ rw here (ap (λ d. d ∷ s) (ground arith), h)
      | inr other ↦ rw other (ground arith)
    ]

both_named-some :
    (r : Option (Text × Text)) (parent leaf : Text)
    → both_named r ≡ some (parent, leaf)
    → (r ≡ some (parent, leaf)) × (is_empty parent ≡ false) × (is_empty leaf ≡ false)
unfolding both_named is_empty
both_named-some none parent leaf h = absurd (ground arith)
both_named-some (some ([], b)) parent leaf h = absurd (ground arith)
both_named-some (some (c ∷ a, [])) parent leaf h = absurd (ground arith)
both_named-some (some (c ∷ a, d ∷ b)) parent leaf h = (
  h,
  sym (ap (λ (q : Text × Text). is_empty q.0) (some-injective (c ∷ a, d ∷ b) (parent, leaf) h)),
  sym (ap (λ (q : Text × Text). is_empty q.1) (some-injective (c ∷ a, d ∷ b) (parent, leaf) h)),
)

split_last-none : (b : Text) → contains slash b ≡ false → split_last b ≡ none
unfolding split_last any_char
split_last-none [] h = refl
split_last-none (c ∷ b) h = ground (arith, split_last-none b)

split_last-append :
    (a b : Text) → contains slash b ≡ false → split_last (a ++ slash ∷ b) ≡ some (a, b)
unfolding split_last
split_last-append [] b h = rw (split_last-none b h) refl
split_last-append (c ∷ a) b h = rw (split_last-append a b h) refl

-- The text is the two parts with a slash between them, neither is empty, and the second has no slash.
pub record Splits (text parent leaf : Text) : Type 0 where
  pub joined : text ≡ parent ++ slash ∷ leaf
  pub no_slash : contains slash leaf ≡ false
  pub parent_named : is_empty parent ≡ false
  pub leaf_named : is_empty leaf ≡ false

split_device_parent_leaf-Splits :
    (path parent leaf : Text)
    → split_device_parent_leaf path ≡ some (parent, leaf)
    → Splits (trim path) parent leaf
unfolding split_device_parent_leaf Parts
split_device_parent_leaf-Splits path parent leaf h =
    let (found, parent_named, leaf_named) =
      both_named-some (split_last (trim path)) parent leaf h in
    let parts = subst (Parts (trim path)) found (Parts-split_last (trim path)) in
    record {
      joined = parts.0;
      no_slash = parts.1;
      parent_named = parent_named;
      leaf_named = leaf_named;
    }

Splits-split_device_parent_leaf :
    (path parent leaf : Text)
    → Splits (trim path) parent leaf
    → split_device_parent_leaf path ≡ some (parent, leaf)
unfolding split_device_parent_leaf both_named
Splits-split_device_parent_leaf path parent leaf h =
    ap both_named (ap split_last h.joined ∙ split_last-append parent leaf h.no_slash)
    ∙ (rw (h.parent_named, h.leaf_named) refl)

-- A path is split into two parts exactly when its trimmed text is these parts with a slash between
-- them, neither of them empty and the second without a slash.
pub split_device_parent_leaf-iff-Splits :
    (path parent leaf : Text)
    → (split_device_parent_leaf path ≡ some (parent, leaf)) ↔ Splits (trim path) parent leaf
split_device_parent_leaf-iff-Splits path parent leaf = (
  split_device_parent_leaf-Splits path parent leaf,
  Splits-split_device_parent_leaf path parent leaf,
)
