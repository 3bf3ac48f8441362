-- ===== src/Core/Names.antt =====
-- crates/core/src/names.rs. The Unicode tables are not part of the repository: lower-casing and the
-- normal form C are parameters.
use pereprava.Prelude.{◌≡◌, ◌↔◌, Bool, true, ◌||◌, arith}
use pereprava.Prelude.{if◌then◌else◌}
use pereprava.Prelude.Text.{Text, text_eq, text_eq_iff, eq_ignore_ascii_case}

-- `str::to_lowercase` and `UnicodeNormalization::nfc`
pub record Unicode : Type 0 where
  pub to_lowercase : Text → Text
  pub nfc : Text → Text

-- Texts that differ in the case of ASCII letters alone have one lower-case form.
pub record IsLawful (u : Unicode) : Type 0 where
  pub folds_ascii :
      (a b : Text) → eq_ignore_ascii_case a b ≡ true → u.to_lowercase a ≡ u.to_lowercase b

module _ (u : Unicode) where
  unfoldable pub names_eq : Text → Text → Bool
  names_eq a b = if text_eq a b then true else text_eq (u.nfc a) (u.nfc b)

  unfoldable pub names_eq_ci : Text → Text → Bool
  unfolding names_eq
  names_eq_ci a b = eq_ignore_ascii_case a b || names_eq (u.to_lowercase a) (u.to_lowercase b)

  -- The key by which names are told apart.
  abbrev pub fold_name : Text → Text
  fold_name a = u.nfc (u.to_lowercase a)

  names_eq_lem : (a b : Text) → (names_eq a b ≡ true) ↔ (u.nfc a ≡ u.nfc b)
  unfolding names_eq
  names_eq_lem a b = ground (arith, text_eq_iff a b, text_eq_iff (u.nfc a) (u.nfc b))

  -- With lawful tables, two names match exactly when their lower-cased normal forms are equal.
  pub names_eq_ci-iff-fold_name :
      IsLawful u → (a b : Text) → (names_eq_ci a b ≡ true) ↔ (fold_name a ≡ fold_name b)
  unfolding names_eq_ci
  names_eq_ci-iff-fold_name L a b =
      ground (arith, names_eq_lem (u.to_lowercase a) (u.to_lowercase b), L.folds_ascii a b)

  -- Without any law of the tables, a name matches itself.
  pub names_eq_ci_refl : (a : Text) → names_eq_ci a a ≡ true
  unfolding names_eq_ci
  names_eq_ci_refl a = ground (arith, names_eq_lem (u.to_lowercase a) (u.to_lowercase a))
