-- ===== src/Certificates/Issuance.antt =====
-- Issuing, preparing and renewing, once the name of the domain is canonical:
-- internal/certmanager/manager.go.
use remnanode_setup_bot.Base.{
  ◌+◌, String, true, Option, none, some, ltb, if◌then◌else◌, ◌==◌, string_comparable,
  nat_comparable, Result, ok, err, ◌>>=◌, ◌>>◌, return, throw, attempt,
}
use remnanode_setup_bot.Certificates.{
  Error, invalid_material, issuance_failed, persistence_failed, invalid, distribution_missed,
  pending, undistributed, Material, Info, Active, chosen, undone, Config, Outside, Run,
}
use remnanode_setup_bot.Certificates.Statements.{
  save_version, set_version_status, set_status, activate_version, mark, ask_now, ask_issue,
  ask_stage, ask_validate,
}
use remnanode_setup_bot.Certificates.Distribution.{
  is_missing, or_throw, distribute, restore_distributed_version, load_active, lock,
}

module _ (o : Outside) (config : Config) where
  -- What follows a candidate that could not be distributed or activated.
  unfoldable pub fail_candidate : {A : Type 0} → Option Active → String → Error → Run A
  unfolding restore_distributed_version
  fail_candidate previous version e = do
    restore_distributed_version o config previous
    first ← attempt (set_version_status o version undistributed)
    second ← attempt (set_status o distribution_missed)
    throw e

  -- The marker set back to the version before, if there was one.
  unfoldable pub undo_marker : Option Active → Run (Unit {0})
  undo_marker none = return tt
  undo_marker (some previous) =
      if previous.version == ""
      then return tt
      else (do ignored ← attempt (mark o undone previous.version); return tt)

  unfoldable pub after_record :
      Option Active → String → Material → Result Error (Unit {0}) → Run Material
  after_record previous version material (ok _) = return material
  after_record previous version material (err _) = do
    undo_marker previous
    fail_candidate previous version persistence_failed

  unfoldable pub after_mark :
      Option Active → String → Material → Result Error (Unit {0}) → Run Material
  after_mark previous version material (err e) = fail_candidate previous version e
  after_mark previous version material (ok _) = do
    recorded ← attempt (activate_version o version)
    after_record previous version material recorded

  unfoldable pub after_distribution :
      Option Active → String → Material → Result Error (Unit {0}) → Run Material
  after_distribution previous version material (err e) = fail_candidate previous version e
  after_distribution previous version material (ok _) = do
    set ← attempt (mark o chosen version)
    after_mark previous version material set

  unfoldable pub issued_valid : Option Active → Material → Option Info → Run Material
  issued_valid previous material none = do
    ignored ← attempt (set_status o invalid)
    throw invalid_material
  issued_valid previous material (some info) = do
    version ← ask_stage o material
    or_throw
        (save_version o (record {
          version = version;
          fingerprint = info.fingerprint;
          expires_at = info.expires_at;
          status = pending;
        }))
        persistence_failed
    sent ← attempt (distribute o config version material)
    after_distribution previous version material sent

  -- `issueAndActivate`.
  unfoldable pub issue_and_activate : Option Active → Run Material
  unfolding issued_valid after_distribution after_mark after_record undo_marker fail_candidate
  issue_and_activate previous = do
    material ← or_throw (ask_issue o) issuance_failed
    info ← ask_validate o material
    issued_valid previous material info

  unfoldable pub after_renewal : Active → Material → Result Error Material → Run Material
  after_renewal a material (ok renewed) = return renewed
  after_renewal a material (err e) = do
    time ← ask_now o
    if ltb time a.expires_at then return material else throw e

  unfoldable pub prepared : Result Error (Active × Material) → Run Material
  prepared (ok (a, material)) = do
    time ← ask_now o
    if ltb (time + config.renew_before) a.expires_at
        then return material
        else (do renewed ← attempt (issue_and_activate (some a)); after_renewal a material renewed)
  prepared (err e) = if is_missing e then issue_and_activate none else throw e

  -- `Prepare`.
  unfoldable pub prepare : Run Material
  unfolding prepared after_renewal load_active issue_and_activate
  prepare = do lock o config; found ← attempt (load_active o config true); prepared found

  unfoldable pub renewed_from : Result Error (Active × Material) → Run Material
  renewed_from (ok (a, material)) = issue_and_activate (some a)
  renewed_from (err e) = if is_missing e then issue_and_activate none else throw e

  -- `Renew`; the material is dropped after it.
  unfoldable pub renew : Run Material
  unfolding renewed_from load_active issue_and_activate
  renew = do lock o config; found ← attempt (load_active o config true); renewed_from found
