-- ===== src/Nfs/Mount/Quoting.antt =====
-- What the shell and AppleScript read of a quoted text, and the form of an export path.
use mathlib.Core.List.{append_assoc}
use pereprava.Prelude.{
  ==_iff, ℕ, ◌≡◌, refl, sym, ap, ◌∙◌, Bool, true, false, ◌||◌, ◌==◌, Option, none, some, [], ◌∷◌,
  ◌++◌, arith, Bool-cases, ◌⊎◌, inl, inr, if◌then◌else◌,
}
use pereprava.Prelude.Text.{Text, codes, any_char}
use pereprava.Nfs.Mount.{replace, sh_quote, osascript_escape}

-- Where the shell stands in a word: outside quotes, behind a backslash, between single quotes.
pub data Quote : Type 0 where
  bare escaped single : Quote

-- The characters that end a word.
is_end : ℕ → Bool
is_end c = c == 32 || c == 9 || c == 10 || c == b';'

-- The characters that the shell acts on outside quotes.
is_special : ℕ → Bool
is_special c = any_char (λ d. d == c) (b'"' ∷ codes "|&<>()$`*?[#~=%{}!")

keep : ℕ → Option (Text × Text) → Option (Text × Text)
keep c none = none
keep c (some (s, rest)) = some (c ∷ s, rest)

-- A word of a command as the shell reads it, by the rules of POSIX for the two quotes in use, and what
-- follows it. `none` is an open quote, or a character that the shell would act on.
unfoldable pub read_word : Quote → Text → Option (Text × Text)
unfolding is_end is_special keep
read_word bare [] = some ([], [])
read_word escaped [] = none
read_word single [] = none
read_word escaped (c ∷ s) = keep c (read_word bare s)
read_word single (c ∷ s) =
    let after = read_word bare s in
    let within = keep c (read_word single s) in if c == b'\'' then after else within
read_word bare (c ∷ s) =
    let quoted = read_word single s in
    let behind = read_word escaped s in
    let plain = keep c (read_word bare s) in
    if c == b'\''
    then quoted
    else if c == b'\\'
    then behind
    else if is_end c
    then some ([], c ∷ s)
    else if is_special c
    then none
    else plain

-- What follows ends the word.
abbrev pub EndsWord : Text → Type 0
EndsWord [] = Unit {0}
EndsWord (c ∷ s) = (c ≡ 32) ⊎ (c ≡ 10)

read_word-end : (rest : Text) → EndsWord rest → read_word bare rest ≡ some ([], rest)
unfolding read_word
read_word-end [] h = refl
read_word-end (c ∷ s) h = ground arith

replace-same :
    (c d : ℕ) (by s : Text) → (d == c) ≡ true → replace c by (d ∷ s) ≡ by ++ replace c by s
unfolding replace
replace-same c d by s h = rw h refl

replace-other :
    (c d : ℕ) (by s : Text) → (d == c) ≡ false → replace c by (d ∷ s) ≡ d ∷ replace c by s
unfolding replace
replace-other c d by s h = rw h refl

read_word-other :
    (c : ℕ) (s : Text)
    → (c == b'\'') ≡ false
    → read_word single (c ∷ s) ≡ keep c (read_word single s)
unfolding read_word
read_word-other c s h = rw h refl

-- A quote, as the script writes it inside quotes.
abbrev quote_in_quotes : Text
quote_in_quotes = b'\'' ∷ b'\\' ∷ b'\'' ∷ b'\'' ∷ []

read_word-again :
    (s : Text) → read_word single (quote_in_quotes ++ s) ≡ keep b'\'' (read_word single s)
unfolding read_word
read_word-again s = refl

read_word-quoted :
    (s rest : Text)
    → EndsWord rest
    → read_word single (replace b'\'' quote_in_quotes s ++ b'\'' ∷ rest) ≡ some (s, rest)
unfolding read_word replace keep
read_word-quoted [] rest h = read_word-end rest h
read_word-quoted (c ∷ s) rest h = elim (Bool-cases (c == b'\'')) [
  | inl e ↦ rw (replace-same b'\'' c quote_in_quotes s e) (
      read_word-again (replace b'\'' quote_in_quotes s ++ b'\'' ∷ rest)
      ∙ ap (keep b'\'') (read_word-quoted s rest h)
      ∙ ap (λ (d : ℕ). some (d ∷ s, rest)) (sym ((==_iff c b'\'').0 e)))
  | inr e ↦ rw (replace-other b'\'' c quote_in_quotes s e) (
      read_word-other c (replace b'\'' quote_in_quotes s ++ b'\'' ∷ rest) e
      ∙ ap (keep c) (read_word-quoted s rest h))
]

-- A text in the quotes that the scripts put round it is read by the shell as one word, which is the
-- text itself, whatever characters it holds; the word must be followed by nothing, by a space or by a
-- line feed.
pub read_word-sh_quote :
    (s rest : Text) → EndsWord rest → read_word bare (sh_quote s ++ rest) ≡ some (s, rest)
unfolding read_word sh_quote
read_word-sh_quote s rest h =
    ap (λ (t : Text). read_word single t)
      (append_assoc (replace b'\'' quote_in_quotes s) (b'\'' ∷ []) rest)
    ∙ read_word-quoted s rest h

-- The rest of an AppleScript text, after its opening quote, and what follows its closing one. `none` is
-- an open text, or an escape that is not in use.
unfoldable pub read_text : Bool → Text → Option (Text × Text)
unfolding keep
read_text open_escape [] = none
read_text true (c ∷ s) =
    let rest = keep c (read_text false s) in if c == b'"' || c == b'\\' then rest else none
read_text false (c ∷ s) =
    let behind = read_text true s in
    let plain = keep c (read_text false s) in
    if c == b'"' then some ([], s) else if c == b'\\' then behind else plain

read_text-plain :
    (c : ℕ) (s : Text)
    → (c == b'"') ≡ false
    → (c == b'\\') ≡ false
    → read_text false (c ∷ s) ≡ keep c (read_text false s)
unfolding read_text
read_text-plain c s h k = rw (h, k) refl

-- How one character is escaped, by the two replacements in turn.
data Escaped (c : ℕ) (s : Text) : Type 0 where
  special :
      (c == b'"' || c == b'\\') ≡ true
      → osascript_escape (c ∷ s) ≡ b'\\' ∷ c ∷ osascript_escape s
      → Escaped c s
  plain :
      (c == b'"') ≡ false
      → (c == b'\\') ≡ false
      → osascript_escape (c ∷ s) ≡ c ∷ osascript_escape s
      → Escaped c s

abbrev two_backslashes : Text
two_backslashes = b'\\' ∷ b'\\' ∷ []

abbrev escaped_quote : Text
escaped_quote = b'\\' ∷ b'"' ∷ []

abbrev doubled : Text → Text
doubled = replace b'\\' two_backslashes

Escaped-backslash : (c : ℕ) (s : Text) → (c == b'\\') ≡ true → Escaped c s
unfolding osascript_escape replace
Escaped-backslash c s e = special (ground arith) (
    ap (replace b'"' escaped_quote) (replace-same b'\\' c two_backslashes s e)
    ∙ ap (λ (d : ℕ). b'\\' ∷ d ∷ osascript_escape s) (sym ((==_iff c b'\\').0 e)))

Escaped-other : (c : ℕ) (s : Text) → (c == b'\\') ≡ false → (c == b'"') ≡ true → Escaped c s
unfolding osascript_escape
Escaped-other c s e q = special (ground arith) (
    ap (replace b'"' escaped_quote) (replace-other b'\\' c two_backslashes s e)
    ∙ replace-same b'"' c escaped_quote (doubled s) q
    ∙ ap (λ (d : ℕ). b'\\' ∷ d ∷ osascript_escape s) (sym ((==_iff c b'"').0 q)))

Escaped-not : (c : ℕ) (s : Text) → (c == b'\\') ≡ false → (c == b'"') ≡ false → Escaped c s
unfolding osascript_escape
Escaped-not c s e q = plain q e (
    ap (replace b'"' escaped_quote) (replace-other b'\\' c two_backslashes s e)
    ∙ replace-other b'"' c escaped_quote (doubled s) q)

Escaped-char : (c : ℕ) (s : Text) → Escaped c s
Escaped-char c s = elim (Bool-cases (c == b'\\')) [
  | inl e ↦ Escaped-backslash c s e
  | inr e ↦ elim (Bool-cases (c == b'"')) [
    | inl q ↦ Escaped-other c s e q
    | inr q ↦ Escaped-not c s e q
  ]
]

read_text-step :
    (c : ℕ) (s rest : Text)
    → Escaped c s
    → read_text false (osascript_escape s ++ b'"' ∷ rest) ≡ some (s, rest)
    → read_text false (osascript_escape (c ∷ s) ++ b'"' ∷ rest) ≡ some (c ∷ s, rest)
unfolding read_text keep
read_text-step c s rest (special h e) k = rw (e, h, k) refl
read_text-step c s rest (plain h j e) k = rw (e, h, j, k) refl

-- A script between double quotes, escaped as `mount_export` and `unmount` do, is the text that
-- AppleScript reads there, whatever characters it holds.
pub read_text-osascript_escape :
    (s rest : Text) → read_text false (osascript_escape s ++ b'"' ∷ rest) ≡ some (s, rest)
unfolding read_text osascript_escape replace
read_text-osascript_escape [] rest = refl
read_text-osascript_escape (c ∷ s) rest =
    read_text-step c s rest (Escaped-char c s) (read_text-osascript_escape s rest)
