-- ===== src/Cli/Json.antt =====
-- crates/cli/src/mountcmd.rs: `json_escape`, and what a reader of JSON makes of it.
use pereprava.Prelude.{
  ℕ, zero, suc, ◌+◌, ◌-◌, ◌*◌, ◌/◌, ◌%◌, ◌<◌, ◌≡◌, refl, sym, ap, ◌∙◌, true, false, ◌&&◌, ◌||◌,
  ◌==◌, ltb, leb, Option, none, some, [], ◌∷◌, ◌++◌, arith, Bool-cases, ==_iff, inl, inr,
  if◌then◌else◌, ltb→lt,
}
use pereprava.Prelude.Text.{Text, slash}
use mathlib.Core.Path.{subst}
use mathlib.Core.List.{append_assoc}

-- A digit of `{:x}`
hex_digit : ℕ → ℕ
hex_digit d = if ltb d 10 then b'0' + d else b'a' + (d - 10)

-- `\u{:04x}` of a character below 0x20
escape_control : ℕ → Text
unfolding hex_digit
escape_control c = b'\\' ∷ b'u' ∷ b'0' ∷ b'0' ∷ hex_digit (c / 16) ∷ hex_digit (c % 16) ∷ []

-- The arms of the `match`.
unfoldable pub escape_char : ℕ → Text
unfolding escape_control
escape_char c =
    if c == b'"'
    then b'\\' ∷ b'"' ∷ []
    else if c == b'\\'
    then b'\\' ∷ b'\\' ∷ []
    else if c == 10
    then b'\\' ∷ b'n' ∷ []
    else if c == 13
    then b'\\' ∷ b'r' ∷ []
    else if c == 9
    then b'\\' ∷ b't' ∷ []
    else if ltb c 0x20
    then escape_control c
    else c ∷ []

-- `json_escape`
unfoldable pub json_escape : Text → Text
unfolding escape_char
json_escape [] = []
json_escape (c ∷ s) = escape_char c ++ json_escape s

-- Where a reader stands in a string: between characters, behind a backslash, or before so many digits
-- of a `\u`.
pub data Mode : Type 0 where
  text behind : Mode
  digits : ℕ → ℕ → Mode

hex_value : ℕ → Option ℕ
hex_value c =
    if leb b'0' c && leb c b'9'
    then some (c - b'0')
    else if leb b'a' c && leb c b'f'
    then some (c - b'a' + 10)
    else if leb b'A' c && leb c b'F'
    then some (c - b'A' + 10)
    else none

keep : ℕ → Option (Text × Text) → Option (Text × Text)
keep c none = none
keep c (some (s, rest)) = some (c ∷ s, rest)

-- The character that stands for itself or for another behind a backslash.
short_escape : ℕ → Option ℕ
short_escape c =
    if c == b'"' || c == b'\\' || c == slash
    then some c
    else if c == b'b'
    then some 8
    else if c == b'f'
    then some 12
    else if c == b'n'
    then some 10
    else if c == b'r'
    then some 13
    else if c == b't'
    then some 9
    else none

-- A JSON string by RFC 8259, after its opening quote, and what follows its closing one. `none` is an
-- open string, an unknown escape, or a control character.
unfoldable pub read_json : Mode → Text → Option (Text × Text)
unfolding hex_value keep short_escape
read_json m [] = none
read_json text (c ∷ s) =
    let escaped = read_json behind s in
    let plain = keep c (read_json text s) in
    if c == b'"'
    then some ([], s)
    else if c == b'\\'
    then escaped
    else if ltb c 0x20
    then none
    else plain
read_json behind (c ∷ s) =
    let code = read_json (digits 3 0) s in
    let after = read_json text s in
    if c == b'u' then code else elim (short_escape c) [ none ↦ none | some d ↦ keep d after ]
read_json (digits zero n) (c ∷ s) =
    let last = read_json text s in
    elim (hex_value c) [ none ↦ none | some v ↦ keep (n * 16 + v) last ]
read_json (digits (suc k) n) (c ∷ s) = elim (hex_value c) [
  | none ↦ none
  | some v ↦ read_json (digits k (n * 16 + v)) s
]

hex_value-hex_digit : (d : ℕ) → d < 16 → hex_value (hex_digit d) ≡ some d
unfolding hex_value hex_digit
hex_value-hex_digit d h = ground arith

read_json-control :
    (c : ℕ) (t : Text) → c < 32 → read_json text (escape_control c ++ t) ≡ keep c (read_json text t)
unfolding read_json escape_control
read_json-control c t h =
    rw (hex_value-hex_digit (c / 16) (omega arith), hex_value-hex_digit (c % 16) (omega arith))
      (ap (λ (d : ℕ). keep d (read_json text t)) (omega arith))

at_code :
    (c d : ℕ) (t : Text)
    → (c == d) ≡ true
    → read_json text (escape_char d ++ t) ≡ keep d (read_json text t)
    → read_json text (escape_char c ++ t) ≡ keep c (read_json text t)
at_code c d t h k =
    subst (λ e. read_json text (escape_char e ++ t) ≡ keep e (read_json text t))
      (sym ((==_iff c d).0 h)) k

escape_char-plain :
    (c : ℕ) → (c == b'"') ≡ false → (c == b'\\') ≡ false → ltb c 32 ≡ false → escape_char c ≡ c ∷ []
unfolding escape_char
escape_char-plain c h k l = ground arith

read_json-plain :
    (c : ℕ) (t : Text)
    → (c == b'"') ≡ false
    → (c == b'\\') ≡ false
    → ltb c 32 ≡ false
    → read_json text (c ∷ t) ≡ keep c (read_json text t)
unfolding read_json
read_json-plain c t h k l = rw (h, k, l) refl

escape_char-control :
    (c : ℕ)
    → (c == 10) ≡ false
    → (c == 13) ≡ false
    → (c == 9) ≡ false
    → ltb c 32 ≡ true
    → escape_char c ≡ escape_control c
unfolding escape_char
escape_char-control c h k l m = ground arith

read_json-escape_char :
    (c : ℕ) (t : Text) → read_json text (escape_char c ++ t) ≡ keep c (read_json text t)
unfolding read_json escape_char short_escape
read_json-escape_char c t = elim (Bool-cases (c == b'"')) [
  | inl q ↦ at_code c b'"' t q refl
  | inr q ↦ elim (Bool-cases (c == b'\\')) [
    | inl b ↦ at_code c b'\\' t b refl
    | inr b ↦ elim (Bool-cases (c == 10)) [
      | inl n ↦ at_code c 10 t n refl
      | inr n ↦ elim (Bool-cases (c == 13)) [
        | inl r ↦ at_code c 13 t r refl
        | inr r ↦ elim (Bool-cases (c == 9)) [
          | inl x ↦ at_code c 9 t x refl
          | inr x ↦ elim (Bool-cases (ltb c 32)) [
            | inl l ↦ rw (escape_char-control c n r x l) (read_json-control c t (ltb→lt c 32 l))
            | inr l ↦ rw (escape_char-plain c q b l) (read_json-plain c t q b l)
          ]
        ]
      ]
    ]
  ]
]

-- A text escaped for the status file is read back by a reader of JSON as itself, whatever characters it
-- holds, quotes, backslashes and control characters included.
pub read_json-json_escape :
    (s rest : Text) → read_json text (json_escape s ++ b'"' ∷ rest) ≡ some (s, rest)
unfolding read_json json_escape keep
read_json-json_escape [] rest = refl
read_json-json_escape (c ∷ s) rest =
    ap (read_json text) (append_assoc (escape_char c) (json_escape s) (b'"' ∷ rest))
    ∙ read_json-escape_char c (json_escape s ++ b'"' ∷ rest)
    ∙ ap (keep c) (read_json-json_escape s rest)
