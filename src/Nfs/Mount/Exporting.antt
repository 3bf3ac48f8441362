-- ===== src/Nfs/Mount/Exporting.antt =====
-- The form of the export path.
use mathlib.Core.Path.{subst}
use pereprava.Prelude.{
  ℕ, ◌≡◌, refl, ◌∙◌, sym, Bool, true, false, not, ◌||◌, ◌==◌, [], ◌∷◌, arith, Bool-cases, ◌⊎◌, inl,
  inr,
}
use pereprava.Prelude.Text.{Text, text_eq, slash, trim_end_slashes, keep_unless_slash, any_char}
use pereprava.Core.Path.{is_empty}
use pereprava.Core.Ops.Local.{starts_with_slash}
use pereprava.Nfs.Mount.{normalize_export}

abbrev has_name : Text → Bool
has_name = any_char (λ c. not (c == slash))

-- The text is not empty, and its last character is no slash.
abbrev pub EndsApart : Text → Type 0
EndsApart [] = ⊥
EndsApart (c ∷ []) = (c == slash) ≡ false
EndsApart (c ∷ d ∷ s) = EndsApart (d ∷ s)

trim_end_slashes-slashes : (s : Text) → has_name s ≡ false → trim_end_slashes s ≡ []
unfolding trim_end_slashes keep_unless_slash any_char
trim_end_slashes-slashes [] h = refl
trim_end_slashes-slashes (c ∷ s) h = ground (arith, trim_end_slashes-slashes s)

keep-EndsApart : (c : ℕ) (t : Text) → EndsApart t → EndsApart (keep_unless_slash c t)
unfolding keep_unless_slash
keep-EndsApart c [] h = elim h [ ]
keep-EndsApart c (d ∷ t) h = h

keep-alone : (c : ℕ) → (c == slash) ≡ false → EndsApart (keep_unless_slash c [])
unfolding keep_unless_slash
keep-alone c h = rw h h

trim_end_slashes-EndsApart : (s : Text) → has_name s ≡ true → EndsApart (trim_end_slashes s)
unfolding trim_end_slashes any_char
trim_end_slashes-EndsApart [] h = cc
trim_end_slashes-EndsApart (c ∷ s) h = elim (Bool-cases (has_name s)) [
  | inl e ↦ keep-EndsApart c (trim_end_slashes s) (trim_end_slashes-EndsApart s e)
  | inr e ↦ rw (trim_end_slashes-slashes s e) (keep-alone c (ground arith))
]

none_kept : (c : ℕ) → (c == slash) ≡ true → EndsApart (keep_unless_slash c []) → ⊥
unfolding keep_unless_slash
none_kept c e h = rw e at h

starts-keep :
    (c : ℕ) (t : Text)
    → EndsApart (keep_unless_slash c t)
    → starts_with_slash (keep_unless_slash c t) ≡ (c == slash)
unfolding keep_unless_slash starts_with_slash
starts-keep c [] h = elim (Bool-cases (c == slash)) [
  | inl e ↦ absurd (none_kept c e h)
  | inr e ↦ rw e (rw e refl)
]
starts-keep c (d ∷ t) h = refl

starts-trim :
    (s : Text)
    → EndsApart (trim_end_slashes s)
    → starts_with_slash (trim_end_slashes s) ≡ starts_with_slash s
unfolding trim_end_slashes starts_with_slash
starts-trim [] h = refl
starts-trim (c ∷ s) h = starts-keep c (trim_end_slashes s) h

-- The root, or a path that starts with a slash and does not end with one.
pub data IsExport (s : Text) : Type 0 where
  root : s ≡ slash ∷ [] → IsExport s
  below : starts_with_slash s ≡ true → EndsApart s → IsExport s

slash-EndsApart : (t : Text) → EndsApart t → EndsApart (slash ∷ t)
slash-EndsApart [] h = elim h [ ]
slash-EndsApart (c ∷ t) h = h

named-IsExport : (export : Text) → has_name export ≡ true → IsExport (normalize_export export)
unfolding normalize_export starts_with_slash
named-IsExport export h = elim (Bool-cases (is_empty export || text_eq export (slash ∷ []))) [
  | inl e ↦ rw e (IsExport.root refl)
  | inr e ↦ elim (Bool-cases (starts_with_slash export)) [
    | inl k ↦
        rw (e, k)
          (IsExport.below (starts-trim export (trim_end_slashes-EndsApart export h) ∙ k)
            (trim_end_slashes-EndsApart export h))
    | inr k ↦
        rw (e, k)
          (IsExport.below refl
            (slash-EndsApart (trim_end_slashes export) (trim_end_slashes-EndsApart export h)))
  ]
]

-- The export that the mount asks for is the root or starts with a slash and does not end with one, if
-- the configured export is empty, is the root, or has a character other than a slash.
pub normalize_export-IsExport :
    (export : Text)
    → (is_empty export ≡ true)
      ⊎ ((export ≡ slash ∷ []) ⊎ (any_char (λ c. not (c == slash)) export ≡ true))
    → IsExport (normalize_export export)
unfolding normalize_export is_empty text_eq
normalize_export-IsExport export (inl e) = rw e (IsExport.root refl)
normalize_export-IsExport export (inr (inl e)) =
    subst (λ t. IsExport (normalize_export t)) (sym e) (IsExport.root refl)
normalize_export-IsExport export (inr (inr h)) = named-IsExport export h

-- An export of several slashes and nothing else becomes the empty path.
pub normalize_export_slashes :
    (s : Text)
    → any_char (λ c. not (c == slash)) s ≡ false
    → normalize_export (slash ∷ slash ∷ s) ≡ []
unfolding normalize_export is_empty text_eq starts_with_slash trim_end_slashes any_char
normalize_export_slashes s h = trim_end_slashes-slashes (slash ∷ slash ∷ s) h
