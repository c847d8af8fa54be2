-- ===== src/Certificates/Distribution.antt =====
-- Distribution and loading of the certificates of one domain: internal/certmanager/manager.go.
use remnanode_setup_bot.Base.{
  String, Bool, true, false, not, ◌&&◌, Option, none, some, List, [], ◌∷◌, any, length,
  if◌then◌else◌, ◌==◌, string_comparable, nat_comparable, Result, ok, err, ◌>>=◌, ◌>>◌, return,
  throw, attempt,
}
use remnanode_setup_bot.Base.Net.{Addr}
use remnanode_setup_bot.Certificates.{
  Error, not_found, invalid_material, storage_failed, persistence_failed, distribution_failed,
  cancelled, Material, Info, Active, Target, Resolution, Delivery, repaired, Config, Outside, Run,
}
use remnanode_setup_bot.Certificates.Statements.{
  tick_on, get_active, record_row, active_marker, mark, ask_load, ask_validate, ask_resolve,
  ask_distribute, skip_distribution,
}

-- `errors.Is(err, ErrNotFound) || errors.Is(err, ErrInvalidMaterial)`.
abbrev pub is_missing : Error → Bool
is_missing not_found = true
is_missing invalid_material = true
is_missing _ = false

-- Whether every target accepted the certificate.
abbrev pub is_complete : List Target → List Delivery → Bool
is_complete targets results =
    length results == length targets && not (any (λ (r : Delivery). not r.succeeded) results)

-- `if err != nil { return e }`.
unfoldable pub replaced : {A : Type 0} → Error → Result Error A → Run A
replaced e (ok a) = return a
replaced e (err _) = throw e

unfoldable pub or_throw : {A : Type 0} → Run A → Error → Run A
unfolding replaced
or_throw m e = attempt m >>= replaced e

-- The tests on what `Validate` returns.
abbrev pub has_fingerprint : String → Option Info → Bool
has_fingerprint fingerprint none = false
has_fingerprint fingerprint (some info) = info.fingerprint == fingerprint

module _ (o : Outside) (config : Config) where
  -- The loops that record a result or a review for each target.
  unfoldable pub record_rows : {A : Type 0} → List A → Run (Unit {0})
  record_rows [] = return tt
  record_rows (x ∷ xs) = do or_throw (record_row o) persistence_failed; record_rows xs

  -- `distributeTargets`.
  unfoldable pub distribute_targets : String → Material → List Target → Run (Unit {0})
  unfolding record_rows or_throw
  distribute_targets version material [] = skip_distribution config version
  distribute_targets version material (target ∷ targets) =
      if not config.has_distributor then throw distribution_failed else (do
        results ← ask_distribute o version material (target ∷ targets)
        record_rows results
        if is_complete (target ∷ targets) results then return tt else throw distribution_failed)

  unfoldable pub distribute_resolved : String → Material → Resolution → List Addr → Run (Unit {0})
  distribute_resolved version material resolution [] =
      distribute_targets version material resolution.managed
  distribute_resolved version material resolution (ip ∷ ips) = do
    record_rows (ip ∷ ips)
    throw distribution_failed

  -- `distribute`.
  unfoldable pub distribute : String → Material → Run (Unit {0})
  unfolding distribute_targets distribute_resolved
  distribute version material =
      if not config.has_resolver then skip_distribution config version else (do
        resolution ← or_throw (ask_resolve o) distribution_failed
        distribute_resolved version material resolution resolution.unmanaged)

  unfoldable pub restore_material : Active → Result Error Material → Run (Unit {0})
  restore_material previous (err _) = return tt
  restore_material previous (ok material) = do
    info ← ask_validate o material
    if has_fingerprint previous.fingerprint info
        then (do ignored ← attempt (distribute previous.version material); return tt)
        else return tt

  -- `restoreDistributedVersion`.
  unfoldable pub restore_distributed_version : Option Active → Run (Unit {0})
  unfolding restore_material distribute
  restore_distributed_version none = return tt
  restore_distributed_version (some previous) =
      if previous.version == ""
      then return tt
      else (do loaded ← attempt (ask_load o previous.version); restore_material previous loaded)

  -- The marker of the store when the record was read.
  unfoldable pub repair_marker : Bool → Active → Result Error String → Run (Unit {0})
  repair_marker repair a (ok marker) =
      if marker == a.version
      then return tt
      else if repair
      then mark o repaired a.version
      else throw storage_failed
  repair_marker repair a (err _) =
      if repair then mark o repaired a.version else throw storage_failed

  -- `loadActive`.
  unfoldable pub load_active : Bool → Run (Active × Material)
  unfolding repair_marker
  load_active repair = do
    a ← get_active o
    marker ← attempt (active_marker o)
    repair_marker repair a marker
    material ← ask_load o a.version
    info ← ask_validate o material
    if has_fingerprint a.fingerprint info then return (a, material) else throw invalid_material

  -- `Lock`; the unlocking has no effect here.
  unfoldable pub lock : Run (Unit {0})
  lock w = (
    if o.locks w.tick
        then ok tt
        else if o.ended w.tick
        then err cancelled
        else err persistence_failed,
    tick_on w,
  )
