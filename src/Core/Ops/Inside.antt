-- ===== src/Core/Ops/Inside.antt =====
-- A safe name leads one level down, and so does the temporary name beside it.
use mathlib.Core.List.{append-nil}
use pereprava.Prelude.{
  ℕ, zero, suc, ◌+◌, ◌/◌, ◌%◌, ◌≡◌, refl, ap, ◌∙◌, Bool, true, false, ◌||◌, ◌==◌, some, List, [],
  ◌∷◌, ◌++◌, last?, All, All-append, arith, sym,
}
use pereprava.Prelude.Text.{Text, codes, text_eq, any_char, contains, split_slash, push_head, slash}
use pereprava.Core.Path.{is_empty}
use pereprava.Core.Ops.Local.{
  LocalPath, components, drop_here, starts_with_slash, join, file_name, normal, parent_or_here,
  parent_of_parts, all_but_last, digits, decimal, temp_sibling,
}
use pereprava.Core.Ops.Stats.{is_safe_component}

-- One ordinary component.
pub record IsPlain (s : Text) : Type 0 where
  pub no_slash : contains slash s ≡ false
  pub not_empty : is_empty s ≡ false
  pub not_dot : text_eq s (codes ".") ≡ false
  pub not_dot_dot : text_eq s (codes "..") ≡ false

-- The path is that of a directory, or lies below it: plain components follow it, none of them `..`.
pub record Below (root p : LocalPath) : Type 0 where
  pub kind : p.absolute ≡ root.absolute
  pub rest : List Text
  pub same : p.parts ≡ root.parts ++ rest
  pub plain : All IsPlain rest

any_char_either :
    (p q : ℕ → Bool) (s : Text) → any_char (λ c. p c || q c) s ≡ false → any_char p s ≡ false
unfolding any_char
any_char_either p q [] h = refl
any_char_either p q (c ∷ s) h = ground (arith, any_char_either p q s)

pub is_safe_component-IsPlain : (s : Text) → is_safe_component s ≡ true → IsPlain s
unfolding is_safe_component
is_safe_component-IsPlain s h = record {
  no_slash = any_char_either (λ c. c == slash) (λ c. c == b'\\' || c == 0) s (ground arith);
  not_empty = ground arith;
  not_dot = ground arith;
  not_dot_dot = ground arith;
}

split_slash-plain : (s : Text) → contains slash s ≡ false → split_slash s ≡ s ∷ []
unfolding split_slash push_head any_char
split_slash-plain [] h = refl
split_slash-plain (c ∷ s) h = ground (arith, split_slash-plain s)

components-plain : (s : Text) → IsPlain s → components s ≡ s ∷ []
unfolding components drop_here
components-plain s h = rw (split_slash-plain s h.no_slash, h.not_empty, h.not_dot) refl

starts_with_slash-plain : (s : Text) → contains slash s ≡ false → starts_with_slash s ≡ false
unfolding starts_with_slash any_char
starts_with_slash-plain [] h = refl
starts_with_slash-plain (c ∷ s) h = ground arith

pub join-plain :
    (p : LocalPath) (s : Text)
    → IsPlain s
    → join p s ≡ record { absolute = p.absolute; parts = p.parts ++ s ∷ [] }
unfolding join
join-plain p s h = rw (starts_with_slash-plain s h.no_slash, components-plain s h) refl

append_last : (xs ys : List Text) (s : Text) → (xs ++ ys) ++ s ∷ [] ≡ xs ++ (ys ++ s ∷ [])
append_last [] ys s = refl
append_last (x ∷ xs) ys s = ap (◌∷◌ x) (append_last xs ys s)

module _ (root p : LocalPath) (s : Text) (inside : Below root p) (h : IsPlain s) where
  Below-step : Below root (record { absolute = p.absolute; parts = p.parts ++ s ∷ [] })
  Below-step = record {
    kind = inside.kind;
    rest = inside.rest ++ s ∷ [];
    same = ap (λ (xs : List Text). xs ++ s ∷ []) inside.same ∙ append_last root.parts inside.rest s;
    plain = All-append IsPlain inside.rest (s ∷ []) inside.plain (h, tt);
  }

  pub Below-join : Below root (join p s)
  Below-join = rw (join-plain p s h) Below-step

pub last-append : (xs : List Text) (s : Text) → last? (xs ++ s ∷ []) ≡ some s
last-append [] s = refl
last-append (x ∷ []) s = refl
last-append (x ∷ y ∷ xs) s = last-append (y ∷ xs) s

all_but_last-append : (xs : List Text) (s : Text) → all_but_last (xs ++ s ∷ []) ≡ xs
unfolding all_but_last
all_but_last-append [] s = refl
all_but_last-append (x ∷ []) s = refl
all_but_last-append (x ∷ y ∷ xs) s = ap (◌∷◌ x) (all_but_last-append (y ∷ xs) s)

parent_of_parts-append :
    (a : Bool) (xs : List Text) (s : Text)
    → parent_of_parts a (xs ++ s ∷ []) ≡ record { absolute = a; parts = xs }
unfolding parent_of_parts
parent_of_parts-append a [] s = rw (all_but_last-append [] s) refl
parent_of_parts-append a (x ∷ xs) s = rw (all_but_last-append (x ∷ xs) s) refl

append-no_slash :
    (s t : Text)
    → contains slash s ≡ false
    → contains slash t ≡ false
    → contains slash (s ++ t) ≡ false
unfolding any_char
append-no_slash [] t h k = k
append-no_slash (c ∷ s) t h k = ground (arith, append-no_slash s t)

digits-no_slash :
    (fuel n : ℕ) (rest : Text)
    → contains slash rest ≡ false
    → contains slash (digits fuel n rest) ≡ false
unfolding digits any_char
digits-no_slash zero n rest h = h
digits-no_slash (suc fuel) n rest h =
    go (n / 10) (digits-no_slash fuel (n / 10) ((b'0' + n % 10) ∷ rest) one)
  where
    one : contains slash ((b'0' + n % 10) ∷ rest) ≡ false
    one = ground arith

    go :
        (q : ℕ)
        → contains slash (digits fuel (n / 10) ((b'0' + n % 10) ∷ rest)) ≡ false
        → contains slash (elim q as (λ _. Text) [
          | zero ↦ (b'0' + n % 10) ∷ rest
          | suc m ↦ digits fuel (n / 10) ((b'0' + n % 10) ∷ rest)
        ])
          ≡ false
    go zero ih = one
    go (suc m) ih = ih

-- What follows the name in the temporary name.
abbrev pub suffix : ℕ → ℕ → Text
suffix pid n = codes ".pereprava-" ++ (decimal pid ++ (b'-' ∷ (decimal n ++ codes ".tmp")))

suffix-no_slash : (pid n : ℕ) → contains slash (suffix pid n) ≡ false
unfolding decimal any_char
suffix-no_slash pid n =
    append-no_slash (codes ".pereprava-") (decimal pid ++ (b'-' ∷ (decimal n ++ codes ".tmp"))) refl
      (append-no_slash (decimal pid) (b'-' ∷ (decimal n ++ codes ".tmp"))
        (digits-no_slash (suc pid) pid [] refl)
        (append-no_slash (decimal n) (codes ".tmp") (digits-no_slash (suc n) n [] refl) refl))

not_two : (pid n c : ℕ) (s : Text) → text_eq (b'.' ∷ c ∷ (s ++ suffix pid n)) (codes "..") ≡ false
unfolding text_eq
not_two pid n c [] = ground arith
not_two pid n c (d ∷ s) = ground arith

pub temp_name-IsPlain : (pid n : ℕ) (s : Text) → IsPlain s → IsPlain (b'.' ∷ (s ++ suffix pid n))
unfolding any_char text_eq is_empty
temp_name-IsPlain pid n [] h = absurd (cc h.not_empty)
temp_name-IsPlain pid n (c ∷ s) h = record {
  no_slash = append-no_slash (b'.' ∷ (c ∷ s)) (suffix pid n) h.no_slash (suffix-no_slash pid n);
  not_empty = refl;
  not_dot = refl;
  not_dot_dot = not_two pid n c s;
}

pub temp_sibling-join :
    (pid n : ℕ) (p : LocalPath) (s : Text)
    → IsPlain s
    → temp_sibling pid n (join p s) ≡ join p (b'.' ∷ (s ++ suffix pid n))
unfolding temp_sibling file_name normal parent_or_here
temp_sibling-join pid n p s h =
    rw
      (
        join-plain p s h,
        last-append p.parts s,
        h.not_dot_dot,
        parent_of_parts-append p.absolute p.parts s,
      )
      refl

-- A temporary file lies beside the file that it is for.
pub Below-temp_sibling :
    (pid n : ℕ) (root p : LocalPath) (s : Text)
    → Below root p
    → IsPlain s
    → Below root (temp_sibling pid n (join p s))
Below-temp_sibling pid n root p s inside h =
    rw (temp_sibling-join pid n p s h)
      (Below-join root p (b'.' ∷ (s ++ suffix pid n)) inside (temp_name-IsPlain pid n s h))

pub Below-self : (root : LocalPath) → Below root root
Below-self root = record { kind = refl; rest = []; same = sym (append-nil root.parts); plain = tt }
