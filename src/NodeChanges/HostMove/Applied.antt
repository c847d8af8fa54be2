-- ===== src/NodeChanges/HostMove/Applied.antt =====
-- What a move of a Node has done when it returns, and that it has undone it when it fails: the changes
-- of `MoveNodeToHost` of internal/orchestrator/node_host_move.go.
use remnanode_setup_bot.Base.{
  is_some, not, Bool, true, false, ◌||◌, Option, none, some, List, ◌∷◌, if◌then◌else◌, ◌≡◌, refl,
  ap, arith, Triple, Triple-bind, Triple-return, Triple-throw, Triple-if, Triple-weaken, suc,
  return,
}
use remnanode_setup_bot.Deployment.{Deployment}
use remnanode_setup_bot.Remnawave.{Node}
use remnanode_setup_bot.Orchestrator.World.{
  SniSwitch, Error, Kind, persistence_failed, Config, Outside, Event, World, Answer, refused,
  unchanged, changed, profile_updated, ip_moved, sni_switched, binding_saved,
}
use remnanode_setup_bot.NodeChanges.Calls.{
  Services, did, set_host_binding, update_profile, move_ip, switch_sni,
}
use remnanode_setup_bot.NodeChanges.Fingerprint.{node_fingerprint, same_profile, of_profile}
use remnanode_setup_bot.NodeChanges.HostMove.{
  Plan, HostMoveResult, forward, fail, on_answer, move_dns, on_node, bind_host, on_switched,
  apply_move,
}
use remnanode_setup_bot.NodeChanges.HostMove.Restored.{
  untouched, is_back, dns_back, untouched-is_back, unswitched-is_back, IsMapped, fail-IsBack,
}

-- The switch of the server that a plan asks for, and what the operator is told of it.
abbrev pub asked_switch : Plan → SniSwitch
asked_switch p = record {
  address = p.address;
  previous_sni = p.previous.profile.sni_domain;
  target_sni = p.target.profile.sni_domain;
  password = p.password;
  previous_certificate = p.previous_certificate;
  certificate = p.target_certificate;
}

abbrev pub told_result : Config → Plan → HostMoveResult
told_result config p = record {
  node_name = p.node.name;
  previous_host = p.previous.host.remark;
  target_host = p.target.host.remark;
  target_address = p.target.profile.sni_domain;
  managed = is_some p.job;
  dns_updated = not config.dns_disabled;
}

module _ (services : Services) (p : Plan) (base : List Event) where
  -- The record of calls after each change, on the record before the first.
  abbrev switched_events : List Event
  switched_events = sni_switched (asked_switch p) true ∷ base

  abbrev updated_events : List Event
  updated_events = profile_updated p.node.uuid p.target.host true ∷ switched_events

  abbrev moved_answer : Bool → Answer
  moved_answer true = changed
  moved_answer false = unchanged

  abbrev dns_events : Bool → Bool → List Event
  dns_events true dns_changed = updated_events
  dns_events false dns_changed =
      ip_moved p.previous.profile.sni_domain p.target.profile.sni_domain p.address
        (moved_answer dns_changed)
      ∷ updated_events

  -- The record of a move that was carried out: the server was switched, the panel took the new Host,
  -- the address was moved in DNS if there is DNS, and the job of the Node, if it has one, was bound.
  abbrev pub applied_events : Bool → Bool → Option Deployment → List Event
  applied_events dns_disabled dns_changed none = dns_events dns_disabled dns_changed
  applied_events dns_disabled dns_changed (some job) =
      binding_saved job.id p.target.profile.sni_domain true ∷ dns_events dns_disabled dns_changed

module _ (o : Outside) (config : Config) (services : Services) (p : Plan) (mapped : IsMapped p)
    (base : List Event) (fresh : untouched base ≡ true) where
  abbrev Reached : List Event → World → Type 0
  Reached es w = w.events ≡ es

  abbrev Failed : Error → World → Type 0
  Failed _ w = is_back p w.events ≡ true

  abbrev Switched : Bool → World → Type 0
  Switched true w = Reached (switched_events services p base) w
  Switched false w = is_back p w.events ≡ true

  switched : Triple (Reached base) (switch_sni services (forward services p)) Switched Failed
  unfolding switch_sni
  switched = record { run = λ w h. by_test (services.switch_sni w.tick (forward services p)) w h }
    where
      by_test :
          (done : Bool) (w : World)
          → Reached base w
          → Switched done (record w {
            tick = suc w.tick;
            events = sni_switched (forward services p) done ∷ w.events;
          })
      by_test true w h = ap (λ es. sni_switched (forward services p) true ∷ es) h
      by_test false w h =
          rw h (unswitched-is_back p (forward services p) base (untouched-is_back p base fresh))

  unzoned : dns_back p base ≡ true
  unzoned = ground (arith, untouched-is_back p base fresh)

  -- A failure, with what is known of the record.
  failed :
      {A : Type 0} {Q : A → World → Type 0} (dns_changed : Bool) (kind : Kind) (es : List Event)
      → (dns_changed || dns_back p es) ≡ true
      → Triple (Reached es) (fail services p dns_changed kind) Q Failed
  failed dns_changed kind es b =
      Triple-weaken (fail-IsBack services p mapped dns_changed kind) (λ w e. rw e b) (λ _ _ q. q)
        (λ _ _ q. q)

  abbrev Updated : Option Node → World → Type 0
  Updated node =
      Reached
        (profile_updated p.node.uuid p.target.host (did node) ∷ switched_events services p base)

  updated :
      Triple
        (Reached (switched_events services p base))
        (update_profile services p.node.uuid p.target.host)
        Updated
        Failed
  unfolding update_profile
  updated = record { run = λ w h. cc h }

  accepted :
      (node : Option Node)
      → Triple
          (Updated node)
          (on_node services p node)
          (λ _. Reached (updated_events services p base))
          Failed
  accepted none = failed false _ _ unzoned
  accepted (some node) =
      Triple-if (same_profile (node_fingerprint node) (of_profile p.target.profile))
        (λ _. Triple-return tt (λ w h. h)) (λ _. failed false _ _ unzoned)

  abbrev Moved : Answer → World → Type 0
  Moved answer = Reached (
      ip_moved p.previous.profile.sni_domain p.target.profile.sni_domain p.address answer
      ∷ updated_events services p base)

  moved :
      Triple
        (Reached (updated_events services p base))
        (move_ip services p.previous.profile.sni_domain p.target.profile.sni_domain p.address)
        Moved
        Failed
  unfolding move_ip
  moved = record { run = λ w h. cc h }

  answered :
      (answer : Answer)
      → Triple
          (Moved answer)
          (on_answer services p answer)
          (λ b. Reached (dns_events services p base false b))
          Failed
  answered refused = failed false _ _ (ground (arith, unzoned))
  answered unchanged = Triple-return false (λ w h. h)
  answered changed = Triple-return true (λ w h. h)

  moved_dns :
      (off : Bool)
      → Triple
          (Reached (updated_events services p base))
          (move_dns services p off)
          (λ b. Reached (dns_events services p base off b))
          Failed
  moved_dns true = Triple-return false (λ w h. h)
  moved_dns false = Triple-bind moved answered

  dns_pending : (off b : Bool) → (b || dns_back p (dns_events services p base off b)) ≡ true
  dns_pending off true = refl
  dns_pending true false = unzoned
  dns_pending false false = ground (arith, unzoned)

  abbrev Bound : Bool → Bool → Deployment → Bool → World → Type 0
  Bound off b job saved =
      Reached
        (binding_saved job.id p.target.profile.sni_domain saved ∷ dns_events services p base off b)

  bound :
      (off b : Bool) (job : Deployment)
      → Triple
          (Reached (dns_events services p base off b))
          (set_host_binding o job.id (record {
            host_uuid = p.target.host.uuid;
            host_remark = p.target.host.remark;
            sni_domain = p.target.profile.sni_domain;
          }))
          (Bound off b job)
          Failed
  unfolding set_host_binding
  bound off b job = record { run = λ w h. cc h }

  abbrev Applied : Bool → Bool → World → Type 0
  Applied off b = Reached (applied_events services p base off b p.job)

  bind_host-Applied :
      (off b : Bool) (job : Option Deployment)
      → Triple
          (Reached (dns_events services p base off b))
          (bind_host o services p b job)
          (λ _. Reached (applied_events services p base off b job))
          Failed
  bind_host-Applied off b none = Triple-return tt (λ w h. h)
  bind_host-Applied off b (some job) = Triple-bind (bound off b job) by_saved
    where
      by_saved :
          (saved : Bool)
          → Triple
              (Bound off b job saved)
              (if saved then return tt else fail services p b persistence_failed)
              (λ _. Reached (applied_events services p base off b (some job)))
              Failed
      by_saved true = Triple-return tt (λ w h. h)
      by_saved false = failed b _ _ (dns_pending off b)

  -- The result of a move, and the record of it.
  abbrev pub Done : HostMoveResult → World → Type 0
  Done result w = (result ≡ told_result config p) × ((b : Bool) × Applied config.dns_disabled b w)

  on_switched-Done :
      (done : Bool) → Triple (Switched done) (on_switched o services p config done) Done Failed
  on_switched-Done false = Triple-throw _ (λ w h. h)
  on_switched-Done true = Triple-bind (Triple-bind updated accepted) λ _.
      Triple-bind (moved_dns config.dns_disabled) λ b.
        Triple-bind (bind_host-Applied config.dns_disabled b p.job)
          λ _. Triple-return _ (λ w h. (refl, (b, h)))

  pub apply_move-Done : Triple (Reached base) (apply_move o services p config) Done Failed
  unfolding apply_move
  apply_move-Done = Triple-bind switched on_switched-Done
