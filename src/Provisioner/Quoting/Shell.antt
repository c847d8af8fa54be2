-- ===== src/Provisioner/Quoting/Shell.antt =====
-- How a POSIX shell reads one word, and that it reads a quoted text as that text.
use remnanode_setup_bot.Base.{
  ℕ, Bool, false, ◌||◌, Option, none, some, List, [], ◌∷◌, ◌++◌, if◌then◌else◌, ◌==◌,
  nat_comparable, any, ◌≡◌, ap, arith, Bool-cases, inl, inr, ◌∙◌,
}
use mathlib.Core.Path.{subst}
use mathlib.Core.Option.{some-injective}
use mathlib.Core.List.{append_assoc, append-nil}
use remnanode_setup_bot.Provisioner.Quoting.{quote_byte, is_unsafe, escaped, shell_quote}

-- Outside quotes, in single quotes, in double quotes, and after a backslash outside quotes.
pub data Mode : Type 0 where
  bare single double after_backslash : Mode

-- Blanks and operators end a word.
abbrev ends_word : ℕ → Bool
ends_word c =
    c == b' '
    || c == 9
    || c == 10
    || c == b';'
    || c == b'&'
    || c == b'|'
    || c == b'<'
    || c == b'>'
    || c == b'('
    || c == b')'

-- What the shell would expand, so that the word is not the text as it stands.
abbrev expands : ℕ → Bool
expands c =
    c == b'$'
    || c == b'`'
    || c == b'*'
    || c == b'?'
    || c == b'['
    || c == b'~'
    || c == b'#'
    || c == b'!'

abbrev expands_in_double : ℕ → Bool
expands_in_double c = c == b'$' || c == b'`' || c == b'\\' || c == b'!'

pub record Word : Type 0 where
  pub text : List ℕ
  pub rest : List ℕ

abbrev with_byte : ℕ → Option Word → Option Word
with_byte c none = none
with_byte c (some word) = some (record word { text = c ∷ word.text })

-- The word at the start of the input, and what follows it; `none` if it is expanded or not closed.
unfoldable pub read_word : Mode → List ℕ → Option Word
read_word bare [] = some (record { text = []; rest = [] })
read_word _ [] = none
read_word bare (c ∷ input) =
    let in_single = read_word single input in
    let in_double = read_word double input in
    let escape = read_word after_backslash input in
    let more = with_byte c (read_word bare input) in
    if ends_word c
    then some (record { text = []; rest = c ∷ input })
    else if c == 39
    then in_single
    else if c == 34
    then in_double
    else if c == b'\\'
    then escape
    else if expands c
    then none
    else more
read_word single (c ∷ input) =
    let closed = read_word bare input in
    let more = with_byte c (read_word single input) in if c == 39 then closed else more
read_word double (c ∷ input) =
    let closed = read_word bare input in
    let more = with_byte c (read_word double input) in
    if c == 34 then closed else if expands_in_double c then none else more
read_word after_backslash (c ∷ input) = with_byte c (read_word bare input)

read_escaped :
    (value rest : List ℕ) (word : Word)
    → read_word bare rest ≡ some word
    → read_word single (escaped value ++ quote_byte ∷ rest)
      ≡ some (record word { text = value ++ word.text })
unfolding read_word escaped
read_escaped [] rest word h = h
read_escaped (c ∷ value) rest word h = elim (Bool-cases (c == quote_byte)) [
  | inl e ↦ rw e (
      ap (with_byte quote_byte) (read_escaped value rest word h)
      ∙ ap (λ q. some (record word { text = q ∷ value ++ word.text })) (ground (arith, e)))
  | inr e ↦ rw (e, e) (ap (with_byte c) (read_escaped value rest word h))
]

-- What a shell reads after a word has ended.
abbrev Ends : List ℕ → Type 0
Ends rest = read_word bare rest ≡ some (record { text = []; rest = rest })

read_quoted :
    (value rest : List ℕ)
    → Ends rest
    → read_word bare ((quote_byte ∷ escaped value ++ quote_byte ∷ []) ++ rest)
      ≡ some (record { text = value; rest = rest })
unfolding read_word
read_quoted value rest h =
    ap (read_word single) (append_assoc (escaped value) (quote_byte ∷ []) rest)
    ∙ read_escaped value rest _ h
    ∙ ap (λ t. some (record { text = t; rest = rest })) (append-nil value)

-- A shell reads a quoted text as exactly that text: wherever a word can end, the quoted text followed
-- by what ends the word is one word, whose text is the text that was quoted, whatever characters a
-- shell gives a meaning to it has.
pub read_word-shell_quote :
    (value quoted rest : List ℕ)
    → shell_quote value ≡ some quoted
    → Ends rest
    → read_word bare (quoted ++ rest) ≡ some (record { text = value; rest = rest })
unfolding shell_quote
read_word-shell_quote value quoted rest q h = elim (Bool-cases (any is_unsafe value)) [
  | inl e ↦ absurd (ground (arith, q, e))
  | inr e ↦
      subst (λ t. read_word bare (t ++ rest) ≡ some (record { text = value; rest = rest }))
        (some-injective _ _ (quoted_is e q)) (read_quoted value rest h)
]
  where
    quoted_is :
        any is_unsafe value ≡ false
        → shell_quote value ≡ some quoted
        → some (quote_byte ∷ escaped value ++ quote_byte ∷ []) ≡ some quoted
    quoted_is e q = ground (arith, e, q)
