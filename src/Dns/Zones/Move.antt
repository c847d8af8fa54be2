-- ===== src/Dns/Zones/Move.antt =====
-- What MoveIP takes out of one zone and puts into the other.
use remnanode_setup_bot.Base.{String, ◌≡◌, refl, ap, inl, inr}
use remnanode_setup_bot.Base.{
  Bool, true, false, not, ◌&&◌, ◌||◌, Option, none, some, List, [], ◌∷◌, ◌++◌, arith,
}
use remnanode_setup_bot.Base.{
  ◌==◌, nat_comparable, string_comparable, if◌then◌else◌, Bool-cases, Option-cases, is_some,
}
use remnanode_setup_bot.Base.{Result-cases, ok, trim_space}
use remnanode_setup_bot.Base.Net.{
  Addr, unmap, addr_comparable, addr_beq_iff, Std, IsLawful, unmap_idem,
}
use remnanode_setup_bot.Dns.Models.{ZoneNode, Zone, items}
use remnanode_setup_bot.Dns.Wire.{entry_addr, PatchZoneRequest}
use remnanode_setup_bot.Dns.Zones.{
  holds, scan, node_ips, NodeSplit, IpSplit, split_nodes, split_ips, Removal, zone_without_ip,
  Addition, zone_with_ip,
}
use remnanode_setup_bot.Dns.Zones.Scan.{holds-nil, holds-append, scan-holds}
use remnanode_setup_bot.Dns.Zones.Replace.{holds-cons, entry-print}

-- The entries of a zone in the format that it uses.
abbrev pub zone_entries : Option (List ZoneNode) → Option (List String) → List String
zone_entries (some nodes) ips = node_ips nodes
zone_entries none ips = items ips

abbrev pub entries : Zone → List String
entries zone = zone_entries zone.nodes zone.ips

-- The entries that a request sets.
abbrev pub request_entries : PatchZoneRequest → List String
request_entries r = zone_entries r.nodes r.ips

module _ (std : Std) (L : IsLawful std trim_space) where
  split_nodes-cons :
      (ip : Addr) (node : ZoneNode) (rest : List ZoneNode) (old : Option ZoneNode)
      {split : NodeSplit}
      → split_nodes std ip (node ∷ rest) old ≡ ok split
      → (a : Addr) × (later : NodeSplit) × (entry_addr std node.ip ≡ some a)
        × (split_nodes std ip rest (if unmap a == ip then some node else old) ≡ ok later)
        × (split ≡ (if unmap a == ip then later else record later { nodes = node ∷ later.nodes }))
  unfolding split_nodes
  split_nodes-cons ip node rest old h = elim (Option-cases (entry_addr std node.ip)) [
    | inl e ↦ absurd (ground (arith, e))
    | inr (a, e) ↦
        elim (Result-cases (split_nodes std ip rest (if unmap a == ip then some node else old))) [
          | inl (later, s) ↦ (a, later, e, s, ground arith)
          | inr (x, s) ↦ absurd (ground arith)
        ]
  ]

  holds-split_nodes :
      (ip x : Addr) (nodes : List ZoneNode) (old : Option ZoneNode) {split : NodeSplit}
      → split_nodes std ip nodes old ≡ ok split
      → (holds std x (node_ips split.nodes) ≡ (not (x == ip) && holds std x (node_ips nodes)))
        × (is_some split.moved ≡ (is_some old || holds std ip (node_ips nodes)))
  unfolding split_nodes
  holds-split_nodes ip x [] old h = ground (arith, holds-nil std x, holds-nil std ip)
  holds-split_nodes ip x (node ∷ rest) old h =
      let (a, later, e, s, d) = split_nodes-cons ip node rest old h in
      let (left, found) = holds-split_nodes ip x rest _ s in
      ground (
        arith,
        e,
        d,
        left,
        found,
        holds-cons std L x node.ip a (node_ips rest) e,
        holds-cons std L ip node.ip a (node_ips rest) e,
        holds-cons std L x node.ip a (node_ips later.nodes) e,
        addr_beq_iff (unmap a) ip,
        addr_beq_iff (unmap a) x,
        addr_beq_iff x ip,
      )

  split_ips-cons :
      (ip : Addr) (text : String) (rest : List String) {split : IpSplit}
      → split_ips std ip (text ∷ rest) ≡ ok split
      → (a : Addr) × (later : IpSplit) × (entry_addr std text ≡ some a)
        × (split_ips std ip rest ≡ ok later)
        × (split ≡ (
            if unmap a == ip
            then record later { found = true }
            else record later { ips = std.addr_string (unmap a) ∷ later.ips }))
  unfolding split_ips
  split_ips-cons ip text rest h = elim (Option-cases (entry_addr std text)) [
    | inl e ↦ absurd (ground (arith, e))
    | inr (a, e) ↦ elim (Result-cases (split_ips std ip rest)) [
      | inl (later, s) ↦ (a, later, e, s, ground arith)
      | inr (x, s) ↦ absurd (ground arith)
    ]
  ]

  holds-split_ips :
      (ip x : Addr) (texts : List String) {split : IpSplit}
      → split_ips std ip texts ≡ ok split
      → (holds std x split.ips ≡ (not (x == ip) && holds std x texts))
        × (split.found ≡ holds std ip texts)
  unfolding split_ips
  holds-split_ips ip x [] h = ground (arith, holds-nil std x, holds-nil std ip)
  holds-split_ips ip x (text ∷ rest) h =
      let (a, later, e, s, d) = split_ips-cons ip text rest h in
      let (left, found) = holds-split_ips ip x rest s in
      ground (
        arith,
        e,
        d,
        left,
        found,
        holds-cons std L x text a rest e,
        holds-cons std L ip text a rest e,
        holds-cons std L x (std.addr_string (unmap a)) (unmap a) later.ips
            (entry-print std L text a e),
        unmap_idem a,
        addr_beq_iff (unmap a) ip,
        addr_beq_iff (unmap a) x,
        addr_beq_iff x ip,
      )

  -- The request that takes an address out of a zone leaves every other address and no copy of it,
  -- and says whether it was there.
  pub holds-zone_without_ip :
      (zone : Zone) (ip x : Addr) {removal : Removal}
      → zone_without_ip std zone ip ≡ ok removal
      → (holds std x (request_entries removal.request)
          ≡ (not (x == ip) && holds std x (entries zone)))
        × (removal.found ≡ holds std ip (entries zone))
  unfolding zone_without_ip
  holds-zone_without_ip zone ip x h = elim (Option-cases zone.nodes) [
    | inl e ↦ elim (Result-cases (split_ips std ip (items zone.ips))) [
      | inl (split, s) ↦ ground (arith, holds-split_ips ip x (items zone.ips) s)
      | inr (f, s) ↦ absurd (ground arith)
    ]
    | inr (nodes, e) ↦ elim (Result-cases (split_nodes std ip nodes none)) [
      | inl (split, s) ↦ ground (arith, holds-split_nodes ip x nodes none s)
      | inr (f, s) ↦ absurd (ground arith)
    ]
  ]

  none_absent :
      (ip : Addr) (text : String) → entry_addr std text ≡ none → holds std ip (text ∷ []) ≡ true → ⊥
  unfolding holds
  none_absent ip text e h = ground (arith, e)

  -- An entry for `ip` is an entry for no other address.
  holds-single :
      (ip x : Addr) (text : String)
      → holds std ip (text ∷ []) ≡ true
      → holds std x (text ∷ []) ≡ (x == ip)
  holds-single ip x text h = elim (Option-cases (entry_addr std text)) [
    | inl e ↦ absurd (none_absent ip text e h)
    | inr (a, e) ↦ ground (
      arith,
      holds-cons std L ip text a [] e,
      holds-cons std L x text a [] e,
      holds-nil std ip,
      holds-nil std x,
      addr_beq_iff (unmap a) ip,
      addr_beq_iff (unmap a) x,
      addr_beq_iff x ip,
    )
  ]

  -- The advanced entry that `zoneWithoutIP` remembers is one for the address.
  abbrev pub carries : Addr → Option ZoneNode → Bool
  carries ip none = true
  carries ip (some node) = holds std ip (node.ip ∷ [])

  carries-split_nodes :
      (ip : Addr) (nodes : List ZoneNode) (old : Option ZoneNode) {split : NodeSplit}
      → split_nodes std ip nodes old ≡ ok split
      → carries ip old ≡ true
      → carries ip split.moved ≡ true
  unfolding split_nodes
  carries-split_nodes ip [] old h c = ground arith
  carries-split_nodes ip (node ∷ rest) old h c =
      let (a, later, e, s, d) = split_nodes-cons ip node rest old h in
      let next = carries-split_nodes ip rest _ s in
      ground (arith, d, next, holds-cons std L ip node.ip a [] e)

  pub carries-zone_without_ip :
      (zone : Zone) (ip : Addr) {removal : Removal}
      → zone_without_ip std zone ip ≡ ok removal
      → carries ip removal.moved ≡ true
  unfolding zone_without_ip
  carries-zone_without_ip zone ip h = elim (Option-cases zone.nodes) [
    | inl e ↦ elim (Result-cases (split_ips std ip (items zone.ips))) [
      | inl (split, s) ↦ ground arith
      | inr (f, s) ↦ absurd (ground arith)
    ]
    | inr (nodes, e) ↦ elim (Result-cases (split_nodes std ip nodes none)) [
      | inl (split, s) ↦ ground (arith, carries-split_nodes ip nodes none s)
      | inr (f, s) ↦ absurd (ground arith)
    ]
  ]

  node_ips-append :
      (nodes : List ZoneNode) (node : ZoneNode)
      → node_ips (nodes ++ (node ∷ [])) ≡ node_ips nodes ++ (node.ip ∷ [])
  node_ips-append [] node = refl
  node_ips-append (first ∷ nodes) node = ap (λ t. first.ip ∷ t) (node_ips-append nodes node)

  -- Whether an address is among the entries after one that stands for `ip` is appended.
  holds-appended :
      (ip x : Addr) (texts : List String) (text : String)
      → holds std ip (text ∷ []) ≡ true
      → holds std x (texts ++ (text ∷ [])) ≡ (x == ip || holds std x texts)
  holds-appended ip x texts text h =
      ground (arith, holds-append std x texts (text ∷ []), holds-single ip x text h)

  pub holds-appended_string :
      (ip x : Addr) (texts : List String)
      → entry_addr std (std.addr_string ip) ≡ some ip
      → unmap ip ≡ ip
      → holds std x (texts ++ (std.addr_string ip ∷ [])) ≡ (x == ip || holds std x texts)
  holds-appended_string ip x texts v u =
      holds-appended ip x texts (std.addr_string ip)
        (ground (arith, u, holds-cons std L ip (std.addr_string ip) ip [] v, addr_beq_iff ip ip))

  -- An address that occurs already: nothing is gained by adding it.
  pub holds-already :
      (ip x : Addr) (texts : List String)
      → holds std ip texts ≡ true
      → holds std x texts ≡ (x == ip || holds std x texts)
  holds-already ip x texts h = elim (Bool-cases (x == ip)) [
    | inl e ↦ rw ((addr_beq_iff x ip).0 e) (ground (arith, addr_beq_iff ip ip))
    | inr e ↦ ground arith
  ]

  -- The request that puts an address into a zone keeps every other address of it.
  pub holds-zone_with_ip :
      (zone : Zone) (ip x : Addr) (source_node : Option ZoneNode) {addition : Addition}
      → entry_addr std (std.addr_string ip) ≡ some ip
      → unmap ip ≡ ip
      → carries ip source_node ≡ true
      → zone_with_ip std zone ip source_node ≡ ok addition
      → (holds std x (request_entries addition.request) ≡ (x == ip || holds std x (entries zone)))
        × (addition.found ≡ holds std ip (entries zone))
  unfolding zone_with_ip
  holds-zone_with_ip zone ip x source_node v u c h = elim (Option-cases zone.nodes) [
    | inl e ↦ elim (Result-cases (scan std ip (items zone.ips))) [
      | inl (b, s) ↦ ground (
        arith,
        scan-holds std ip (items zone.ips) s,
        holds-already ip x (items zone.ips),
        holds-appended_string ip x (items zone.ips) v u,
      )
      | inr (f, s) ↦ absurd (ground arith)
    ]
    | inr (nodes, e) ↦ elim (Result-cases (scan std ip (node_ips nodes))) [
      | inl (true, s) ↦
          ground (arith, scan-holds std ip (node_ips nodes) s, holds-already ip x (node_ips nodes))
      | inl (false, s) ↦ elim (Option-cases source_node) [
        | inl n ↦ absurd (ground arith)
        | inr (node, n) ↦ ground (
          arith,
          scan-holds std ip (node_ips nodes) s,
          node_ips-append nodes node,
          holds-appended ip x (node_ips nodes) node.ip,
        )
      ]
      | inr (f, s) ↦ absurd (ground arith)
    ]
  ]
