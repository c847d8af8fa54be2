-- ===== src/NodeChanges/HostMove/Restored.antt =====
-- What a move of a Node leaves in the record of calls once all is checked: a move that fails takes
-- back all that it did. `rollbackNodeHostMove` of internal/orchestrator/node_host_move.go.
use remnanode_setup_bot.Base.{
  Bool, true, false, not, ◌&&◌, ◌||◌, some, List, [], ◌∷◌, ◌==◌, string_comparable, ◌≡◌, refl,
  arith, eq_iff, Triple, Triple-bind, Triple-return, Triple-throw,
}
use remnanode_setup_bot.Remnawave.{profile_from_host}
use remnanode_setup_bot.Orchestrator.World.{
  SniSwitch, Error, Kind, Event, World, profile_updated, ip_moved, sni_switched, binding_saved,
}
use remnanode_setup_bot.NodeChanges.Calls.{
  Services, took_effect, update_profile, move_ip, switch_sni,
}
use remnanode_setup_bot.NodeChanges.HostMove.{Plan, backward, restore, rollback, fail}

-- No change of a Node's Host is recorded.
abbrev pub untouched : List Event → Bool
untouched [] = true
untouched (sni_switched _ _ ∷ _) = false
untouched (profile_updated _ _ _ ∷ _) = false
untouched (ip_moved _ _ _ _ ∷ _) = false
untouched (binding_saved _ _ _ ∷ _) = false
untouched (_ ∷ before) = untouched before

module _ (p : Plan) where
  -- In a record of calls, newest first: the last switch of the server that was carried out or that
  -- goes back goes back to the previous SNI.
  abbrev pub sni_back : List Event → Bool
  sni_back [] = true
  sni_back (sni_switched input done ∷ before) =
      let rest = sni_back before in
      input.target_sni == p.previous.profile.sni_domain || (not done && rest)
  sni_back (_ ∷ before) = sni_back before

  -- The last update of the Node's profile asks for the previous Host.
  abbrev pub profile_back : List Event → Bool
  profile_back [] = true
  profile_back (profile_updated uuid host done ∷ before) = host.uuid == p.previous.host.uuid
  profile_back (_ ∷ before) = profile_back before

  -- The last move in DNS that changed something or that goes back goes back to the previous zone.
  abbrev pub dns_back : List Event → Bool
  dns_back [] = true
  dns_back (ip_moved from to address answer ∷ before) =
      let rest = dns_back before in
      to == p.previous.profile.sni_domain || (not (took_effect answer) && rest)
  dns_back (_ ∷ before) = dns_back before

  abbrev pub is_back : List Event → Bool
  is_back es = sni_back es && profile_back es && dns_back es

  pub untouched-is_back : (es : List Event) → untouched es ≡ true → is_back es ≡ true
  untouched-is_back [] h = refl
  untouched-is_back (e ∷ es) h = ground (arith, untouched-is_back es, h)

  -- A switch that failed leaves nothing to take back.
  pub unswitched-is_back :
      (input : SniSwitch) (es : List Event)
      → is_back es ≡ true
      → is_back (sni_switched input false ∷ es) ≡ true
  unswitched-is_back input es h = ground (arith, h)

  abbrev IsBack : World → Type 0
  IsBack w = is_back w.events ≡ true

  -- The zone is back, unless it is still to be moved.
  abbrev pub ZonePending : Bool → World → Type 0
  ZonePending dns_changed w = (dns_changed || dns_back w.events) ≡ true

  abbrev ProfileBack : Bool → World → Type 0
  ProfileBack dns_changed w = (profile_back w.events ≡ true) × ZonePending dns_changed w

module _ (services : Services) (p : Plan) {R : Error → World → Type 0} where
  reprofiled :
      (dns_changed : Bool)
      → Triple
          (ZonePending p dns_changed)
          (update_profile services p.node.uuid p.previous.host)
          (λ _. ProfileBack p dns_changed)
          R
  unfolding update_profile
  reprofiled dns_changed = record {
    run = λ w h. (ground (arith, eq_iff p.previous.host.uuid p.previous.host.uuid), h);
  }

  moved_back :
      Triple
        (ProfileBack p true)
        (move_ip services p.target.profile.sni_domain p.previous.profile.sni_domain p.address)
        (λ _. ProfileBack p false)
        R
  unfolding move_ip
  moved_back = record {
    run = λ w (q, d).
        (q, ground (arith, eq_iff p.previous.profile.sni_domain p.previous.profile.sni_domain));
  }

  sni_returned :
      Triple
        (ProfileBack p false)
        (switch_sni services (backward services p p.previous.profile.sni_domain))
        (λ _. IsBack p)
        R
  unfolding switch_sni
  sni_returned = record {
    run = λ w (q, d).
        ground (arith, q, d, eq_iff p.previous.profile.sni_domain p.previous.profile.sni_domain);
  }

  restore-IsBack :
      (dns_changed : Bool)
      → Triple
          (ProfileBack p dns_changed)
          (restore services p dns_changed (some p.previous.profile))
          (λ _. IsBack p)
          R
  restore-IsBack true =
      Triple-bind (Triple-bind moved_back λ _. Triple-return tt (λ w h. h))
        λ _. Triple-bind sni_returned λ _. Triple-return tt (λ w h. h)
  restore-IsBack false =
      Triple-bind {Q = λ _. ProfileBack p false} (Triple-return tt (λ w h. h))
        λ _. Triple-bind sni_returned λ _. Triple-return tt (λ w h. h)

-- The previous Host maps to the profile that the plan holds of it.
abbrev pub IsMapped : Plan → Type 0
IsMapped p = profile_from_host p.previous.host ≡ some p.previous.profile

module _ (services : Services) (p : Plan) (mapped : IsMapped p) where
  rollback-IsBack :
      {R : Error → World → Type 0} (dns_changed : Bool)
      → Triple (ZonePending p dns_changed) (rollback services p dns_changed) (λ _. IsBack p) R
  unfolding rollback
  rollback-IsBack dns_changed =
      Triple-bind (reprofiled services p dns_changed)
        λ _. rw mapped (restore-IsBack services p dns_changed)

  pub fail-IsBack :
      {A : Type 0} {Q : A → World → Type 0} (dns_changed : Bool) (kind : Kind)
      → Triple (ZonePending p dns_changed) (fail services p dns_changed kind) Q (λ _. IsBack p)
  unfolding fail
  fail-IsBack dns_changed kind =
      Triple-bind (rollback-IsBack dns_changed) λ _. Triple-throw _ (λ w h. h)
