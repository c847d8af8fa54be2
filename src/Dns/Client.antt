-- ===== src/Dns/Client.antt =====
-- The operations of the client: internal/dnsbalancer/client.go. The balancer and the lock answer
-- by the number of the call, so every behaviour of theirs is covered; the calls are recorded.
pub mod AddIp
pub mod ReplaceIp
pub mod MoveIp
pub mod Locks
use remnanode_setup_bot.Base.{ℕ, suc, String}
use remnanode_setup_bot.Base.{
  Bool, true, false, not, ◌&&◌, ◌||◌, Option, none, some, List, [], ◌∷◌, ◌++◌,
}
use remnanode_setup_bot.Base.{
  ◌==◌, nat_comparable, string_comparable, if◌then◌else◌, is_none, is_some,
}
use remnanode_setup_bot.Base.{Result, ok, err, ◌>>=◌, ◌>>◌, return, throw, attempt, lift, before}
use remnanode_setup_bot.Base.Net.{Addr, is_valid, unmap, addr_comparable, Std}
use remnanode_setup_bot.Dns.Models.{
  Error, not_found, invalid_input, unauthorized, conflict, unprocessable, invalid_response,
  lock_failed, transport, http_error, ZoneNode, Zone, Domain, ZoneMatch, AddIpResult,
  ReplaceIpResult, MoveIpResult, items, and_then,
}
use Prim.Native.String.{◌++◌ as ◌<>◌}
use remnanode_setup_bot.Dns.Wire.{DomainWire, domain_model, PatchZoneRequest, Body, marshal}
use remnanode_setup_bot.Dns.Matching.{normalize_fqdn, locate_zone}
use remnanode_setup_bot.Dns.Zones.{
  ips_request, nodes_request, node_ips, scan, scan_both, replace_nodes, keep_ips, zone_without_ip,
  Addition, zone_with_ip, zone_snapshot_request, holds,
}

-- What comes back from an HTTP request: nothing, or a status with a body that may not decode.
pub data Reply (A : Type 0) : Type 0 where
  no_reply : Reply A
  reply : ℕ → Option A → Reply A

-- The balancer and the locker.
pub record Remote : Type 0 where
  pub domains : ℕ → Reply (Option (List DomainWire))
  pub patch : ℕ → String → String → Body → Reply (Option String)
  pub lock : ℕ → String → Bool

-- What the client does to the outside.
pub data Event : Type 0 where
  locked : String → Event
  unlocked : String → Event
  patched : String → String → Body → Event

-- The number of calls made, and what they did, newest first.
pub record World : Type 0 where
  pub tick : ℕ
  pub events : List Event

abbrev pub Dns : Type 0 → Type 0
Dns A = World → Result Error A × World

-- `HTTPError.Unwrap`.
unfoldable pub unwrap : ℕ → Option Error
unwrap status =
    if status == 401
    then some unauthorized
    else if status == 404
    then some not_found
    else if status == 409
    then some conflict
    else if status == 422
    then some unprocessable
    else none

-- The tail of `doJSON`: from the reply to the value or an error.
unfoldable pub decode : {A : Type 0} → Reply A → Result Error A
decode no_reply = err transport
decode (reply status body) =
    if not (status == 200)
    then err (http_error status)
    else elim body [ none ↦ err invalid_response | some value ↦ ok value ]

module _ (std : Std) where
  domain_models : List DomainWire → Result Error (List Domain)
  domain_models [] = ok []
  domain_models (item ∷ rest) = elim (domain_model std item) [
    | err _ ↦ err invalid_response
    | ok domain ↦ and_then (domain_models rest) (λ domains. ok (domain ∷ domains))
  ]

  unfoldable pub read_domains : Reply (Option (List DomainWire)) → Result Error (List Domain)
  unfolding domain_models decode
  read_domains answer = and_then (decode answer) (λ response. elim response [
    | none ↦ err invalid_response
    | some domains ↦ domain_models domains
  ])

abbrev moved : ZoneMatch → ZoneMatch → Bool → MoveIpResult
moved source target changed = record {
  source_fqdn = source.fqdn;
  target_fqdn = target.fqdn;
  changed = changed;
}

abbrev pub status_ok : Option String → Result Error (Unit {0})
status_ok none = err invalid_response
status_ok (some status) = if status == "ok" then ok tt else err invalid_response

module _ (std : Std) (remote : Remote) where
  -- `GetDomains`.
  unfoldable pub get_domains : Dns (List Domain)
  get_domains w = (read_domains std (remote.domains w.tick), record w { tick = suc w.tick })

  -- `FindZone`.
  unfoldable pub find_zone : String → Dns ZoneMatch
  unfolding get_domains
  find_zone fqdn = do domains ← get_domains; lift (locate_zone std domains fqdn)

  -- The locker, with the error of a wait that was given up.
  unfoldable pub lock : String → Dns (Unit {0})
  lock key w =
      if remote.lock w.tick key
      then (ok tt, record w { tick = suc w.tick; events = locked key ∷ w.events })
      else (err lock_failed, record w { tick = suc w.tick })

  unfoldable pub unlock : String → Dns (Unit {0})
  unlock key w = (ok tt, record w { events = unlocked key ∷ w.events })

  -- `Lock`, then `defer unlock()` over the rest of the function.
  unfoldable pub with_lock : {A : Type 0} → String → Dns A → Dns A
  unfolding lock unlock
  with_lock key body = do lock key; result ← attempt body; unlock key; lift result

  -- `patchZone`, and the same lines in `AddIP` and `ReplaceIP`.
  unfoldable pub patch_zone : ZoneMatch → PatchZoneRequest → Dns (Unit {0})
  unfolding decode marshal
  patch_zone found request w =
      let body = marshal request in
      (
        and_then (decode (remote.patch w.tick found.domain found.zone_name body)) status_ok,
        record w {
          tick = suc w.tick;
          events = patched found.domain found.zone_name body ∷ w.events;
        },
      )

  add_ip_patch : ZoneMatch → List String → Dns AddIpResult
  add_ip_patch found complete = do
    patch_zone found (ips_request complete)
    return (record { fqdn = found.fqdn; added = true; ips = complete })

  -- `AddIP` once the configuration is read.
  unfoldable pub add_ip_found : ZoneMatch → Addr → Dns AddIpResult
  unfolding add_ip_patch
  add_ip_found found ip = do
    in_ips ← lift (scan std ip (items found.zone.ips))
    in_zone ← lift (if in_ips then ok true else scan std ip (node_ips (items found.zone.nodes)))
    if in_zone
        then return (record { fqdn = found.fqdn; added = false; ips = items found.zone.ips })
        else add_ip_patch found (items found.zone.ips ++ (std.addr_string ip ∷ []))

  -- `AddIP`.
  unfoldable pub add_ip : String → Addr → Dns AddIpResult
  unfolding add_ip_found with_lock find_zone
  add_ip fqdn ip =
      let key = normalize_fqdn std fqdn in
      if key == "" || not (is_valid ip)
      then throw invalid_input
      else with_lock key (do found ← find_zone key; add_ip_found found (unmap ip))

  -- The advanced branch of `ReplaceIP`.
  replace_in_nodes : ZoneMatch → List ZoneNode → Addr → Addr → Dns ReplaceIpResult
  replace_in_nodes found nodes old new = do
    seen ← lift (scan_both std old new (node_ips nodes))
    if seen.old
        then (do
          let complete = replace_nodes std old new seen.new nodes
          patch_zone found (nodes_request complete)
          return (record { fqdn = found.fqdn; changed = true; ips = []; nodes = complete }))
        else if seen.new
        then return (record { fqdn = found.fqdn; changed = false; ips = []; nodes = nodes })
        else throw not_found

  -- The simple branch of `ReplaceIP`.
  replace_in_ips : ZoneMatch → List String → Addr → Addr → Dns ReplaceIpResult
  replace_in_ips found ips old new = do
    seen ← lift (scan_both std old new ips)
    let kept = keep_ips std old new ips
    if seen.old
        then (do
          let complete = if seen.new then kept else kept ++ (std.addr_string new ∷ [])
          patch_zone found (ips_request complete)
          return (record { fqdn = found.fqdn; changed = true; ips = complete; nodes = [] }))
        else if seen.new
        then return (record { fqdn = found.fqdn; changed = false; ips = kept; nodes = [] })
        else throw not_found

  replace_ip_dispatch : ZoneMatch → List ZoneNode → Addr → Addr → Dns ReplaceIpResult
  replace_ip_dispatch found [] old new = replace_in_ips found (items found.zone.ips) old new
  replace_ip_dispatch found (node ∷ nodes) old new = replace_in_nodes found (node ∷ nodes) old new

  -- `ReplaceIP` once the configuration is read.
  unfoldable pub replace_ip_found : ZoneMatch → Addr → Addr → Dns ReplaceIpResult
  unfolding replace_ip_dispatch replace_in_ips replace_in_nodes
  replace_ip_found found = replace_ip_dispatch found (items found.zone.nodes)

  -- `ReplaceIP`.
  unfoldable pub replace_ip : String → Addr → Addr → Dns ReplaceIpResult
  unfolding replace_ip_found with_lock find_zone
  replace_ip fqdn old new =
      let key = normalize_fqdn std fqdn in
      if key == "" || not (is_valid old) || not (is_valid new) || unmap old == unmap new
      then throw invalid_input
      else with_lock key (do found ← find_zone key; replace_ip_found found (unmap old) (unmap new))

  -- The end of `MoveIP`: patch the target, then the source; undo the first if the second fails.
  patch_target : ZoneMatch → Addition → Dns (Unit {0})
  patch_target target addition =
      if addition.found then return tt else patch_zone target addition.request

  after_source : ZoneMatch → Addition → Result Error (Unit {0}) → Dns (Unit {0})
  after_source target addition (ok _) = return tt
  after_source target addition (err e) =
      if addition.found
      then throw e
      else (do ignored ← attempt (patch_zone target (zone_snapshot_request target.zone)); throw e)

  unfoldable pub move_patches : ZoneMatch → ZoneMatch → PatchZoneRequest → Addition → Dns (Unit {0})
  unfolding patch_target after_source
  move_patches source target source_request addition = do
    patch_target target addition
    result ← attempt (patch_zone source source_request)
    after_source target addition result

  -- `MoveIP` once both zones are found.
  unfoldable pub move_ip_found : ZoneMatch → ZoneMatch → Addr → Dns MoveIpResult
  unfolding move_patches
  move_ip_found source target ip =
      if is_some source.zone.nodes && is_none target.zone.nodes
        || is_none source.zone.nodes && is_some target.zone.nodes
      then throw invalid_input
      else (do
        removal ← lift (zone_without_ip std source.zone ip)
        addition ← lift (zone_with_ip std target.zone ip removal.moved)
        if removal.found
            then (do
              move_patches source target removal.request addition
              return (moved source target true))
            else if addition.found
            then return (moved source target false)
            else throw not_found)

  -- `MoveIP`.
  unfoldable pub move_ip : String → String → Addr → Dns MoveIpResult
  unfolding move_ip_found with_lock get_domains
  move_ip source_fqdn target_fqdn ip =
      let source_key = normalize_fqdn std source_fqdn in
      let target_key = normalize_fqdn std target_fqdn in
      let first = if before target_key source_key then target_key else source_key in
      let second = if before target_key source_key then source_key else target_key in
      if source_key == "" || target_key == "" || source_key == target_key || not (is_valid ip)
      then throw invalid_input
      else with_lock first (
          with_lock second (do
            domains ← get_domains
            source ← lift (locate_zone std domains source_key)
            target ← lift (locate_zone std domains target_key)
            move_ip_found source target (unmap ip)))

  abbrev zone_name_fqdn : Domain → Zone → String
  zone_name_fqdn domain zone =
      if zone.name == "@" then domain.name else zone.name <> "." <> domain.name

  zones_with_ip : Addr → Domain → List Zone → List ZoneMatch
  zones_with_ip ip domain [] = []
  zones_with_ip ip domain (zone ∷ zones) =
      let others = zones_with_ip ip domain zones in
      if holds std ip (items zone.ips) || holds std ip (node_ips (items zone.nodes))
      then record {
        domain = domain.name;
        zone_name = zone.name;
        fqdn = normalize_fqdn std (zone_name_fqdn domain zone);
        zone = zone;
      }
        ∷ others
      else others

  domains_with_ip : Addr → List Domain → List ZoneMatch
  domains_with_ip ip [] = []
  domains_with_ip ip (domain ∷ domains) =
      zones_with_ip ip domain domain.zones ++ domains_with_ip ip domains

  -- `FindZonesByIP`.
  unfoldable pub find_zones_by_ip : Addr → Dns (List ZoneMatch)
  unfolding domains_with_ip zones_with_ip get_domains
  find_zones_by_ip ip =
      if not (is_valid ip)
      then throw invalid_input
      else (do domains ← get_domains; return (domains_with_ip (unmap ip) domains))
