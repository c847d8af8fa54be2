-- ===== src/Provisioner/Quoting.antt =====
-- The quoting of a text for a shell command: `shellQuote` and `shellPath` of
-- internal/provisioner/remote.go. Texts are lists of bytes.
pub mod Shell
use remnanode_setup_bot.Base.{
  ℕ, Bool, true, false, not, ◌||◌, Option, none, some, List, [], ◌∷◌, ◌++◌, if◌then◌else◌, ◌==◌,
  nat_comparable, any,
}

abbrev pub quote_byte : ℕ
quote_byte = 39

-- `strings.ContainsAny(value, "\r\n\x00")`.
abbrev pub is_unsafe : ℕ → Bool
is_unsafe c = c == 13 || c == 10 || c == 0

-- `strings.ReplaceAll(value, "'", …)`: a quote closes the text, is quoted itself, and opens it again.
unfoldable pub escaped : List ℕ → List ℕ
escaped [] = []
escaped (c ∷ value) =
    let rest = escaped value in if c == quote_byte then 39 ∷ 34 ∷ 39 ∷ 34 ∷ 39 ∷ rest else c ∷ rest

-- `shellQuote`; its error is `none`.
unfoldable pub shell_quote : List ℕ → Option (List ℕ)
unfolding escaped
shell_quote value =
    if any is_unsafe value then none else some (quote_byte ∷ escaped value ++ quote_byte ∷ [])

abbrev is_absolute : List ℕ → Bool
is_absolute [] = false
is_absolute (c ∷ _) = c == b'/'

-- `shellPath`.
unfoldable pub shell_path : List ℕ → Option (List ℕ)
unfolding shell_quote
shell_path value =
    if not (is_absolute value) || any is_unsafe value then none else shell_quote value
