-- ===== src/Tests/Quoting.antt =====
-- A text with a quote and a variable in it, and the theorem on the quoting of
-- internal/provisioner/remote.go at it.
use remnanode_setup_bot.Base.{ℕ, List, [], ◌∷◌, some, ◌≡◌, refl, ◌++◌}
use remnanode_setup_bot.Provisioner.Quoting.{shell_quote, escaped, quote_byte}
use remnanode_setup_bot.Provisioner.Quoting.Shell.{bare, read_word, read_word-shell_quote}

abbrev value : List ℕ
value = b'$' ∷ b'a' ∷ quote_byte ∷ b' ' ∷ []

abbrev after : List ℕ
after = b';' ∷ b'x' ∷ []

shell_quote_example :
    read_word bare ((quote_byte ∷ escaped value ++ quote_byte ∷ []) ++ after)
    ≡ some (record { text = value; rest = after })
unfolding shell_quote read_word
shell_quote_example =
    read_word-shell_quote value (quote_byte ∷ escaped value ++ quote_byte ∷ []) after refl refl
