-- ===== src/Certificates/Statements.antt =====
-- The calls of the manager: the statements of internal/repository/postgres/certificates.go, the
-- store, the clock and the other components.
use remnanode_setup_bot.Base.{
  ℕ, suc, String, Bool, true, false, ◌||◌, Option, none, some, List, [], ◌∷◌, any, if◌then◌else◌,
  ◌==◌, string_comparable, Result, ok, err, is_some,
}
use remnanode_setup_bot.Certificates.{
  Error, not_found, storage_failed, persistence_failed, RecordStatus, issuing, VersionStatus,
  current, superseded, Material, Info, Version, Active, Target, Resolution, Delivery, Reason,
  delivered, unneeded, resolved, marked, Config, Event, activated, Outside, World, Run,
}

abbrev pub tick_on : World → World
tick_on w = record w { tick = suc w.tick }

unfoldable pub find_version : String → List Version → Option Version
find_version version [] = none
find_version version (v ∷ vs) = if v.version == version then some v else find_version version vs

-- `status = CASE WHEN version = $3 THEN 'ACTIVE' ELSE 'SUPERSEDED' END` of the rows concerned.
abbrev is_current : VersionStatus → Bool
is_current current = true
is_current _ = false

unfoldable pub promote : String → List Version → List Version
promote version [] = []
promote version (v ∷ vs) =
    let rest = promote version vs in
    if v.version == version
    then record v { status = current } ∷ rest
    else if is_current v.status
    then record v { status = superseded } ∷ rest
    else v ∷ rest

unfoldable pub set_status_of : String → VersionStatus → List Version → List Version
set_status_of version status [] = []
set_status_of version status (v ∷ vs) =
    let rest = set_status_of version status vs in
    if v.version == version then record v { status = status } ∷ rest else v ∷ rest

abbrev pub with_resolved : Result Error Resolution → List Event → List Event
with_resolved (ok resolution) es = resolved resolution ∷ es
with_resolved (err _) es = es

module _ (o : Outside) where
  -- `GetActive`.
  unfoldable pub get_active : Run Active
  get_active w = (
    if o.db_fails w.tick
        then err persistence_failed
        else elim (w.active) [ none ↦ err not_found | some a ↦ ok a ],
    tick_on w,
  )

  -- `ListVersions`.
  unfoldable pub list_versions : Run (List Version)
  list_versions w = (if o.db_fails w.tick then err persistence_failed else ok w.versions, tick_on w)

  -- `SaveVersion`, one transaction; the version is a part of the primary key.
  unfoldable pub save_version : Version → Run (Unit {0})
  save_version v w =
      if o.db_fails w.tick || any (λ (u : Version). u.version == v.version) w.versions
      then (err persistence_failed, tick_on w)
      else (ok tt, record w { tick = suc w.tick; status = some issuing; versions = v ∷ w.versions })

  -- `SetVersionStatus`.
  unfoldable pub set_version_status : String → VersionStatus → Run (Unit {0})
  set_version_status version status w =
      if o.db_fails w.tick then (err persistence_failed, tick_on w) else (
        if is_some (find_version version w.versions) then ok tt else err not_found,
        record w { tick = suc w.tick; versions = set_status_of version status w.versions },
      )

  -- `SetStatus`.
  unfoldable pub set_status : RecordStatus → Run (Unit {0})
  set_status status w =
      if o.db_fails w.tick
      then (err persistence_failed, tick_on w)
      else (ok tt, record w { tick = suc w.tick; status = some status })

  -- `ActivateVersion`, one transaction.
  unfoldable pub activate_version : String → Run (Unit {0})
  activate_version version w = elim (find_version version w.versions) [
    | none ↦ (err not_found, tick_on w)
    | some v ↦ if o.db_fails w.tick then (err persistence_failed, tick_on w) else (
      ok tt,
      record w {
        tick = suc w.tick;
        status = some RecordStatus.active;
        active =
            some (record {
              version = version;
              fingerprint = v.fingerprint;
              expires_at = v.expires_at;
            });
        versions = promote version w.versions;
        events = activated version ∷ w.events;
      },
    )
  ]

  -- `RecordDistribution` and `RecordTargetReview`; the rows are for the operator.
  unfoldable pub record_row : Run (Unit {0})
  record_row w = (if o.db_fails w.tick then err persistence_failed else ok tt, tick_on w)

  -- `store.ActiveVersion`; no marker is an error.
  unfoldable pub active_marker : Run String
  active_marker w = (
    if o.marker_fails w.tick
        then err storage_failed
        else elim (w.marker) [ none ↦ err not_found | some version ↦ ok version ],
    tick_on w,
  )

  -- `store.Activate`.
  unfoldable pub mark : Reason → String → Run (Unit {0})
  mark reason version w = elim (o.mark w.tick version) [
    | err e ↦ (err e, tick_on w)
    | ok _ ↦ (
      ok tt,
      record w {
        tick = suc w.tick;
        marker = some version;
        events = marked reason version ∷ w.events;
      },
    )
  ]

  -- `m.now()`.
  unfoldable pub ask_now : Run ℕ
  ask_now w = (ok (o.now w.tick), tick_on w)

  unfoldable pub ask_load : String → Run Material
  ask_load version w = (o.load w.tick version, tick_on w)

  unfoldable pub ask_issue : Run Material
  ask_issue w = (o.issue w.tick, tick_on w)

  unfoldable pub ask_stage : Material → Run String
  ask_stage material w = (o.stage w.tick material, tick_on w)

  -- `certificates.Validate(material, domain, m.now())`.
  unfoldable pub ask_validate : Material → Run (Option Info)
  ask_validate material w = (ok (o.validate (o.now w.tick) material), tick_on w)

  unfoldable pub ask_resolve : Run Resolution
  ask_resolve w =
      let answer = o.resolve w.tick in
      (answer, record w { tick = suc w.tick; events = with_resolved answer w.events })

  unfoldable pub ask_distribute : String → Material → List Target → Run (List Delivery)
  ask_distribute version material targets w =
      let results = o.distribute w.tick material targets in
      (
        ok results,
        record w { tick = suc w.tick; events = delivered version targets results ∷ w.events },
      )

-- A distribution that has nothing to do.
unfoldable pub skip_distribution : Config → String → Run (Unit {0})
skip_distribution config version w =
    (ok tt, record w { events = unneeded version config.has_resolver ∷ w.events })
