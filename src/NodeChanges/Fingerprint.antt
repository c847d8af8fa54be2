-- ===== src/NodeChanges/Fingerprint.antt =====
-- The profile that a Node runs, and its comparison with a Host's: the functions at the end of
-- internal/orchestrator/node_host_move.go.
use remnanode_setup_bot.Base.{
  String, Bool, true, false, not, ◌&&◌, Option, none, some, List, [], ◌∷◌, if◌then◌else◌, ◌==◌,
  string_comparable, trim_space, sort_strings, ◌≡◌, ◌↔◌, arith, sorted_alike, sorted_Perm, eq_iff,
}
use mathlib.Core.List.{Perm}
use remnanode_setup_bot.Remnawave.{Host, DeploymentProfile, Node, profile_from_host}

-- The loop of `canonicalUUIDs`.
abbrev pub trimmed_ids : List String → List String
trimmed_ids [] = []
trimmed_ids (value ∷ values) =
    let rest = trimmed_ids values in
    if trim_space value == "" then rest else trim_space value ∷ rest

-- `canonicalUUIDs`.
unfoldable pub canonical_uuids : List String → List String
canonical_uuids values = sort_strings (trimmed_ids values)

abbrev pub text_or_empty : Option String → String
text_or_empty none = ""
text_or_empty (some text) = trim_space text

-- What `nodeProfileFingerprint` returns.
pub record Fingerprint : Type 0 where
  pub profile : String
  pub inbounds : List String

-- `nodeProfileFingerprint`.
unfoldable pub node_fingerprint : Node → Fingerprint
unfolding canonical_uuids
node_fingerprint node = record {
  profile = text_or_empty node.active_profile;
  inbounds = canonical_uuids node.active_inbounds;
}

-- The comparison of lengths and elements.
same_texts : List String → List String → Bool
same_texts [] [] = true
same_texts (x ∷ xs) (y ∷ ys) = x == y && same_texts xs ys
same_texts _ _ = false

-- `sameNodeProfile`.
unfoldable pub same_profile : Fingerprint → Fingerprint → Bool
unfolding canonical_uuids same_texts
same_profile left right =
    if not (trim_space left.profile == trim_space right.profile)
    then false
    else same_texts (canonical_uuids left.inbounds) (canonical_uuids right.inbounds)

abbrev pub of_profile : DeploymentProfile → Fingerprint
of_profile profile = record { profile = profile.profile_uuid; inbounds = profile.inbounds }

abbrev pub runs : Fingerprint → Option DeploymentProfile → Bool
runs current none = false
runs current (some profile) = same_profile current (of_profile profile)

-- The loop of `matchingNodeHosts`.
unfoldable pub hosts_of : Fingerprint → List Host → List Host
hosts_of current [] = []
hosts_of current (host ∷ hosts) =
    let rest = hosts_of current hosts in
    if host.is_disabled
    then rest
    else if runs current (profile_from_host host)
    then host ∷ rest
    else rest

-- `matchingNodeHosts`.
unfoldable pub matching_hosts : Node → List Host → List Host
unfolding node_fingerprint hosts_of
matching_hosts node hosts = hosts_of (node_fingerprint node) hosts

same_texts_iff : (l m : List String) → (same_texts l m ≡ true) ↔ (l ≡ m)
unfolding same_texts
same_texts_iff [] [] = ground arith
same_texts_iff [] (_ ∷ _) = ground arith
same_texts_iff (_ ∷ _) [] = ground arith
same_texts_iff (x ∷ xs) (y ∷ ys) = ground (arith, eq_iff x y, same_texts_iff xs ys)

same_profile_sorted :
    (left right : Fingerprint)
    → (same_profile left right ≡ true) ↔ (
        (trim_space left.profile ≡ trim_space right.profile)
        × (canonical_uuids left.inbounds ≡ canonical_uuids right.inbounds))
unfolding same_profile
same_profile_sorted left right = ground (
  arith,
  eq_iff (trim_space left.profile) (trim_space right.profile),
  same_texts_iff (canonical_uuids left.inbounds) (canonical_uuids right.inbounds),
)

-- Two profiles are the same exactly if their trimmed ids are equal and their inbounds, trimmed and
-- without the blank ones, are the same up to their order.
pub same_profile_iff :
    (left right : Fingerprint)
    → (same_profile left right ≡ true) ↔ (
        (trim_space left.profile ≡ trim_space right.profile)
        × Perm (trimmed_ids left.inbounds) (trimmed_ids right.inbounds))
unfolding canonical_uuids
same_profile_iff left right =
    let sorted = same_profile_sorted left right in
    (
      λ h. let (profile, inbounds) = sorted.0 h in (profile, sorted_Perm _ _ inbounds),
      λ (profile, inbounds). sorted_alike _ _ _ (λ e. sorted.1 (profile, e)) inbounds,
    )
