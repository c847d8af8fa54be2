-- ===== src/Dns/Zones/Replace.antt =====
-- What the entries of a zone are after a replacement.
use remnanode_setup_bot.Base.{String, ◌≡◌, refl, inl, inr}
use remnanode_setup_bot.Base.{Bool, not, ◌&&◌, ◌||◌, some, List, [], ◌∷◌, arith}
use remnanode_setup_bot.Base.{◌==◌, nat_comparable, string_comparable, if◌then◌else◌, Option-cases}
use remnanode_setup_bot.Base.{Result-cases, ok, trim_space}
use remnanode_setup_bot.Base.Net.{
  Addr, unmap, addr_comparable, addr_beq_iff, Std, IsLawful, unmap_idem,
}
use remnanode_setup_bot.Dns.Models.{ZoneNode}
use remnanode_setup_bot.Dns.Wire.{entry_addr}
use remnanode_setup_bot.Dns.Zones.Scan.{holds-nil}
use remnanode_setup_bot.Dns.Zones.{holds, scan_both, Found, node_ips, keep_ips, replace_nodes}

module _ (std : Std) (L : IsLawful std trim_space) where
  -- The canonical text of an entry that parses stands for the same address.
  pub entry-print :
      (text : String) (a : Addr)
      → entry_addr std text ≡ some a
      → entry_addr std (std.addr_string (unmap a)) ≡ some (unmap a)
  unfolding entry_addr
  entry-print text a h = L.parse-print text a h

  pub holds-cons :
      (x : Addr) (text : String) (a : Addr) (rest : List String)
      → entry_addr std text ≡ some a
      → holds std x (text ∷ rest) ≡ (unmap a == x || holds std x rest)
  unfolding holds
  holds-cons x text a rest h = rw (h, holds)

  keep_ips-nil : (old new : Addr) → keep_ips std old new [] ≡ []
  unfolding keep_ips
  keep_ips-nil old new = refl

  replace_nodes-nil :
      (old new : Addr) (found_new : Bool) → replace_nodes std old new found_new [] ≡ []
  unfolding replace_nodes
  replace_nodes-nil old new found_new = refl

  keep_ips-cons :
      (old new : Addr) (text : String) (a : Addr) (rest : List String)
      → entry_addr std text ≡ some a
      → keep_ips std old new (text ∷ rest) ≡ (
          let others = keep_ips std old new rest in
          if unmap a == old
          then others
          else if unmap a == new
          then std.addr_string new ∷ others
          else std.addr_string (unmap a) ∷ others)
  unfolding keep_ips
  keep_ips-cons old new text a rest h = rw (h, keep_ips)

  replace_nodes-cons :
      (old new : Addr) (found_new : Bool) (node : ZoneNode) (a : Addr) (rest : List ZoneNode)
      → entry_addr std node.ip ≡ some a
      → replace_nodes std old new found_new (node ∷ rest) ≡ (
          let others = replace_nodes std old new found_new rest in
          if unmap a == old
          then if found_new then others else record node { ip = std.addr_string new } ∷ others
          else node ∷ others)
  unfolding replace_nodes
  replace_nodes-cons old new found_new node a rest h = rw (h, replace_nodes)

  scan_both-cons :
      (old new : Addr) (text : String) (rest : List String) {seen : Found}
      → scan_both std old new (text ∷ rest) ≡ ok seen
      → (a : Addr) × (later : Found) × (entry_addr std text ≡ some a)
        × (scan_both std old new rest ≡ ok later)
  unfolding scan_both
  scan_both-cons old new text rest h = elim (Option-cases (entry_addr std text)) [
    | inl e ↦ absurd (ground (arith, e))
    | inr (a, e) ↦ elim (Result-cases (scan_both std old new rest)) [
      | inl (later, s) ↦ (a, later, e, s)
      | inr (x, s) ↦ absurd (ground arith)
    ]
  ]

  module _ (old new : Addr) (readable : entry_addr std (std.addr_string new) ≡ some new)
      (n_plain : unmap new ≡ new) where
    pub holds-keep_ips :
        (x : Addr) (texts : List String) {seen : Found}
        → scan_both std old new texts ≡ ok seen
        → holds std x (keep_ips std old new texts) ≡ (not (x == old) && holds std x texts)
    holds-keep_ips x [] h = ground (arith, keep_ips-nil old new, holds-nil std x)
    holds-keep_ips x (text ∷ rest) h =
        let (a, later, e, s) = scan_both-cons old new text rest h in
        let others = keep_ips std old new rest in
        ground (
          arith,
          e,
          keep_ips-cons old new text a rest e,
          holds-keep_ips x rest s,
          holds-cons x text a rest e,
          holds-cons x (std.addr_string new) new others readable,
          holds-cons x (std.addr_string (unmap a)) (unmap a) others (entry-print text a e),
          addr_beq_iff (unmap a) old,
          addr_beq_iff (unmap a) new,
          addr_beq_iff (unmap a) x,
          addr_beq_iff x old,
          addr_beq_iff new x,
          unmap_idem a,
        )

    -- A replacement in the advanced format: the same, and the new address if it took a place.
    pub holds-replace_nodes :
        (x : Addr) (found_new : Bool) (nodes : List ZoneNode) {seen : Found}
        → scan_both std old new (node_ips nodes) ≡ ok seen
        → holds std x (node_ips (replace_nodes std old new found_new nodes)) ≡ (
            (not (x == old) && holds std x (node_ips nodes))
            || (not found_new && (x == new && holds std old (node_ips nodes))))
    holds-replace_nodes x found_new [] h =
        ground (arith, replace_nodes-nil old new found_new, holds-nil std x, holds-nil std old)
    holds-replace_nodes x found_new (node ∷ rest) h =
        let (a, later, e, s) = scan_both-cons old new node.ip (node_ips rest) h in
        let others = replace_nodes std old new found_new rest in
        ground (
          arith,
          e,
          replace_nodes-cons old new found_new node a rest e,
          holds-replace_nodes x found_new rest s,
          holds-cons x node.ip a (node_ips rest) e,
          holds-cons old node.ip a (node_ips rest) e,
          holds-cons x node.ip a (node_ips others) e,
          holds-cons x (std.addr_string new) new (node_ips others) readable,
          addr_beq_iff (unmap a) old,
          addr_beq_iff (unmap a) x,
          addr_beq_iff x old,
          addr_beq_iff x new,
          addr_beq_iff new x,
        )
