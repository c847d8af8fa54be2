-- ===== src/Certificates/Rollback.antt =====
-- `Rollback` of internal/certmanager/manager.go.
use remnanode_setup_bot.Base.{
  String, Option, none, some, any, if◌then◌else◌, ◌==◌, string_comparable, nat_comparable, Result,
  ok, err, ◌>>=◌, ◌>>◌, return, throw, attempt, is_blank, is_some,
}
use remnanode_setup_bot.Certificates.{
  Error, not_found, invalid_material, persistence_failed, invalid_input, Version, Active, chosen,
  undone, Config, Outside, Run,
}
use remnanode_setup_bot.Certificates.Statements.{
  get_active, list_versions, activate_version, active_marker, mark, ask_load, ask_validate,
}
use remnanode_setup_bot.Certificates.Distribution.{
  or_throw, distribute, restore_distributed_version, lock,
}

module _ (o : Outside) (config : Config) where
  abbrev pub found_of : Result Error Active → Option Active
  found_of (ok a) = some a
  found_of (err _) = none

  abbrev pub marker_of : Result Error String → String
  marker_of (ok version) = version
  marker_of (err _) = ""

  unfoldable pub fail_rollback : Option Active → Error → Run (Unit {0})
  fail_rollback previous e = do restore_distributed_version o config previous; throw e

  unfoldable pub back_to : String → Run (Unit {0})
  back_to version =
      if version == "" then return tt else (do ignored ← attempt (mark o undone version); return tt)

  unfoldable pub rolled_record : Option Active → String → Result Error (Unit {0}) → Run (Unit {0})
  rolled_record previous marker (ok _) = return tt
  rolled_record previous marker (err _) = do
    back_to marker
    fail_rollback previous persistence_failed

  unfoldable pub rolled_mark :
      Option Active → String → String → Result Error (Unit {0}) → Run (Unit {0})
  rolled_mark previous version marker (err e) = fail_rollback previous e
  rolled_mark previous version marker (ok _) = do
    recorded ← attempt (activate_version o version)
    rolled_record previous marker recorded

  unfoldable pub rolled_distribution :
      Option Active → String → Result Error (Unit {0}) → Run (Unit {0})
  rolled_distribution previous version (err e) = fail_rollback previous e
  rolled_distribution previous version (ok _) = do
    marker ← attempt (active_marker o)
    set ← attempt (mark o chosen version)
    rolled_mark previous version (marker_of marker) set

  unfoldable pub roll_back_to : String → Run (Unit {0})
  roll_back_to version = do
    found ← attempt (get_active o)
    material ← ask_load o version
    info ← ask_validate o material
    if is_some info then return tt else throw invalid_material
    sent ← attempt (distribute o config version material)
    rolled_distribution (found_of found) version sent

  -- `Rollback`.
  unfoldable pub rollback : String → Run (Unit {0})
  unfolding roll_back_to rolled_distribution rolled_mark rolled_record back_to fail_rollback
  rollback version = if is_blank version then throw invalid_input else (do
    lock o config
    versions ← or_throw (list_versions o) persistence_failed
    if any (λ (v : Version). v.version == version) versions
        then roll_back_to version
        else throw not_found)
