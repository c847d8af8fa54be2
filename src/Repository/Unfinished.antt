-- ===== src/Repository/Unfinished.antt =====
-- The list of unfinished jobs of a panel: internal/repository/postgres/postgres.go.
use remnanode_setup_bot.Base.{
  ℕ, zero, suc, String, Bool, true, false, ◌&&◌, ◌||◌, List, [], ◌∷◌, ltb, leb, ◌==◌,
  nat_comparable, string_comparable, if◌then◌else◌, length, before,
}
use remnanode_setup_bot.Base.Net.{addr_comparable}
use remnanode_setup_bot.Deployment.{
  Status, completed, failed, cancelled, dns_failed, manual_review, Deployment,
}
use remnanode_setup_bot.Repository.{codes}

abbrev is_letter_or_digit : ℕ → Bool
is_letter_or_digit c = (leb b'a' c && leb c b'z') || (leb b'0' c && leb c b'9')

panel_rest : List ℕ → Bool
panel_rest [] = true
panel_rest (c ∷ cs) = (is_letter_or_digit c || c == b'-' || c == b'_') && panel_rest cs

panel_first : List ℕ → Bool
panel_first [] = false
panel_first (c ∷ cs) = is_letter_or_digit c && panel_rest cs

-- `validPanelID`.
unfoldable pub valid_panel_id : String → Bool
unfolding codes panel_first panel_rest
valid_panel_id value = let cs = codes value in leb (length cs) 32 && panel_first cs

-- `status NOT IN (…)`.
abbrev pub is_unfinished : Status → Bool
is_unfinished completed = false
is_unfinished failed = false
is_unfinished cancelled = false
is_unfinished dns_failed = false
is_unfinished manual_review = false
is_unfinished _ = true

-- `WHERE panel_id = $2 AND status NOT IN (…)`.
abbrev pub of_panel : String → Deployment → Bool
of_panel panel d = d.panel_id == panel && is_unfinished d.status

select : String → List Deployment → List Deployment
select panel [] = []
select panel (d ∷ ds) = let rest = select panel ds in if of_panel panel d then d ∷ rest else rest

-- `ORDER BY updated_at ASC, id ASC`.
abbrev pub earlier : Deployment → Deployment → Bool
earlier a b = ltb a.updated_at b.updated_at || (a.updated_at == b.updated_at && before a.id b.id)

insert : Deployment → List Deployment → List Deployment
insert d [] = d ∷ []
insert d (e ∷ es) = let rest = insert d es in if earlier e d then e ∷ rest else d ∷ e ∷ es

order : List Deployment → List Deployment
order [] = []
order (d ∷ ds) = insert d (order ds)

-- `LIMIT $1`.
take : ℕ → List Deployment → List Deployment
take zero ds = []
take (suc n) [] = []
take (suc n) (d ∷ ds) = d ∷ take n ds

-- The rows of `FindUnfinishedDeploymentsByPanel`.
unfoldable pub unfinished : String → ℕ → List Deployment → List Deployment
unfolding select insert order take
unfinished panel limit rows = take limit (order (select panel rows))
