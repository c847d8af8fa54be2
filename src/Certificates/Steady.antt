-- ===== src/Certificates/Steady.antt =====
-- Predicates that the calls of the manager keep: internal/certmanager/manager.go.
use remnanode_setup_bot.Base.{
  String, Bool, not, Option, none, some, List, [], ◌∷◌, ◌==◌, string_comparable, Result, ok, err,
  Keeps, Keeps-bind, Keeps-return, Keeps-throw, Keeps-if, Keeps-attempt,
}
use remnanode_setup_bot.Base.Net.{Addr}
use remnanode_setup_bot.Certificates.{
  Error, RecordStatus, VersionStatus, Material, Active, Target, Resolution, repaired, undone,
  Config, Outside, World, Run,
}
use remnanode_setup_bot.Certificates.Statements.{
  tick_on, get_active, list_versions, set_version_status, set_status, record_row, active_marker,
  mark, ask_now, ask_load, ask_issue, ask_stage, ask_validate, ask_resolve, ask_distribute,
  skip_distribution,
}
use remnanode_setup_bot.Certificates.Distribution.{
  replaced, or_throw, has_fingerprint, is_complete, record_rows, distribute_targets,
  distribute_resolved, distribute, restore_material, restore_distributed_version, repair_marker,
  load_active, lock,
}
use remnanode_setup_bot.Certificates.Issuance.{fail_candidate, undo_marker}

-- Kept by a distribution.
pub record IsCalm (o : Outside) (I : World → Type 0) : Type 0 where
  pub ticks : (w : World) → I w → I (tick_on w)
  pub delivers :
      (version : String) (material : Material) (targets : List Target)
      → Keeps I (ask_distribute o version material targets)
  pub resolves : Keeps I (ask_resolve o)
  pub skips : (config : Config) (version : String) → Keeps I (skip_distribution config version)

-- Kept by everything but the choice of a version.
pub record IsSteady (o : Outside) (I : World → Type 0) : Type 0 where
  pub calm : IsCalm o I
  pub version_status :
      (version : String) (status : VersionStatus) → Keeps I (set_version_status o version status)
  pub status : (status : RecordStatus) → Keeps I (set_status o status)
  pub repairs : (version : String) → Keeps I (mark o repaired version)
  pub undoes : (version : String) → Keeps I (mark o undone version)

module _ {I : World → Type 0} where
  replaced-Keeps : {A : Type 0} (e : Error) (r : Result Error A) → Keeps I (replaced e r)
  unfolding replaced
  replaced-Keeps e (ok a) = Keeps-return I a
  replaced-Keeps e (err _) = Keeps-throw I e

  pub or_throw-Keeps : {A : Type 0} {m : Run A} (e : Error) → Keeps I m → Keeps I (or_throw m e)
  unfolding or_throw
  or_throw-Keeps e k = Keeps-bind I (Keeps-attempt I k) (replaced-Keeps e)

module _ (o : Outside) (config : Config) {I : World → Type 0} (c : IsCalm o I) where
  pub get_active-Keeps : Keeps I (get_active o)
  unfolding get_active
  get_active-Keeps = record { run = c.ticks }

  pub list_versions-Keeps : Keeps I (list_versions o)
  unfolding list_versions
  list_versions-Keeps = record { run = c.ticks }

  pub active_marker-Keeps : Keeps I (active_marker o)
  unfolding active_marker
  active_marker-Keeps = record { run = c.ticks }

  pub ask_now-Keeps : Keeps I (ask_now o)
  unfolding ask_now
  ask_now-Keeps = record { run = c.ticks }

  pub ask_load-Keeps : (version : String) → Keeps I (ask_load o version)
  unfolding ask_load
  ask_load-Keeps version = record { run = c.ticks }

  pub ask_issue-Keeps : Keeps I (ask_issue o)
  unfolding ask_issue
  ask_issue-Keeps = record { run = c.ticks }

  pub ask_stage-Keeps : (material : Material) → Keeps I (ask_stage o material)
  unfolding ask_stage
  ask_stage-Keeps material = record { run = c.ticks }

  pub ask_validate-Keeps : (material : Material) → Keeps I (ask_validate o material)
  unfolding ask_validate
  ask_validate-Keeps material = record { run = c.ticks }

  ask_resolve-Keeps : Keeps I (ask_resolve o)
  ask_resolve-Keeps = c.resolves

  record_row-Keeps : Keeps I (record_row o)
  unfolding record_row
  record_row-Keeps = record { run = c.ticks }

  pub lock-Keeps : Keeps I (lock o config)
  unfolding lock
  lock-Keeps = record { run = c.ticks }

  pub record_rows-Keeps : {A : Type 0} (l : List A) → Keeps I (record_rows o config l)
  unfolding record_rows
  record_rows-Keeps [] = Keeps-return I tt
  record_rows-Keeps (x ∷ xs) =
      Keeps-bind I (or_throw-Keeps _ record_row-Keeps) (λ _. record_rows-Keeps xs)

  pub resolution-Keeps : Keeps I (or_throw (ask_resolve o) Error.distribution_failed)
  resolution-Keeps = or_throw-Keeps _ ask_resolve-Keeps

  targets-Keeps :
      (version : String) (material : Material) (targets : List Target)
      → Keeps I (distribute_targets o config version material targets)
  unfolding distribute_targets
  targets-Keeps version material [] = c.skips config version
  targets-Keeps version material (target ∷ targets) =
      Keeps-if I (not config.has_distributor) (Keeps-throw I _) (
        Keeps-bind I (c.delivers version material _) (λ results.
          Keeps-bind I (record_rows-Keeps results) (λ _.
            Keeps-if I (is_complete (target ∷ targets) results) (Keeps-return I tt)
              (Keeps-throw I _))))

  resolved-Keeps :
      (version : String) (material : Material) (resolution : Resolution) (ips : List Addr)
      → Keeps I (distribute_resolved o config version material resolution ips)
  unfolding distribute_resolved
  resolved-Keeps version material resolution [] = targets-Keeps version material _
  resolved-Keeps version material resolution (ip ∷ ips) =
      Keeps-bind I (record_rows-Keeps (ip ∷ ips)) (λ _. Keeps-throw I _)

  pub distribute-Keeps :
      (version : String) (material : Material) → Keeps I (distribute o config version material)
  unfolding distribute
  distribute-Keeps version material =
      Keeps-if I (not config.has_resolver) (c.skips config version) (
        Keeps-bind I resolution-Keeps
          (λ resolution. resolved-Keeps version material resolution resolution.unmanaged))

  restored-Keeps :
      (previous : Active) (r : Result Error Material)
      → Keeps I (restore_material o config previous r)
  unfolding restore_material
  restored-Keeps previous (err e) = Keeps-return I tt
  restored-Keeps previous (ok material) = Keeps-bind I (ask_validate-Keeps material) (λ info.
      Keeps-if I (has_fingerprint previous.fingerprint info)
        (Keeps-bind I (Keeps-attempt I (distribute-Keeps _ material)) (λ _. Keeps-return I tt))
        (Keeps-return I tt))

  pub restore-Keeps :
      (previous : Option Active) → Keeps I (restore_distributed_version o config previous)
  unfolding restore_distributed_version
  restore-Keeps none = Keeps-return I tt
  restore-Keeps (some previous) =
      Keeps-if I (previous.version == "") (Keeps-return I tt)
        (Keeps-bind I (Keeps-attempt I (ask_load-Keeps previous.version)) (restored-Keeps previous))

module _ (o : Outside) (config : Config) {I : World → Type 0} (s : IsSteady o I) where
  pub repair-Keeps :
      (repair : Bool) (a : Active) (r : Result Error String)
      → Keeps I (repair_marker o config repair a r)
  unfolding repair_marker
  repair-Keeps repair a (ok marker) =
      Keeps-if I (marker == a.version) (Keeps-return I tt)
        (Keeps-if I repair (s.repairs a.version) (Keeps-throw I _))
  repair-Keeps repair a (err _) = Keeps-if I repair (s.repairs a.version) (Keeps-throw I _)

  pub load_active-Keeps : (repair : Bool) → Keeps I (load_active o config repair)
  unfolding load_active
  load_active-Keeps repair = Keeps-bind I (get_active-Keeps o config s.calm) (λ a.
      Keeps-bind I (Keeps-attempt I (active_marker-Keeps o config s.calm)) (λ marker.
        Keeps-bind I (repair-Keeps repair a marker) (λ _.
          Keeps-bind I (ask_load-Keeps o config s.calm a.version) (λ material.
            Keeps-bind I (ask_validate-Keeps o config s.calm material) (λ info.
              Keeps-if I (has_fingerprint a.fingerprint info) (Keeps-return I _)
                (Keeps-throw I _))))))

  pub fail_candidate-Keeps :
      {A : Type 0} (previous : Option Active) (version : String) (e : Error)
      → Keeps I (fail_candidate o config {A = A} previous version e)
  unfolding fail_candidate
  fail_candidate-Keeps previous version e =
      Keeps-bind I (restore-Keeps o config s.calm previous) (λ _.
        Keeps-bind I (Keeps-attempt I (s.version_status version _))
          (λ _. Keeps-bind I (Keeps-attempt I (s.status _)) (λ _. Keeps-throw I e)))

  pub undo_marker-Keeps : (previous : Option Active) → Keeps I (undo_marker o config previous)
  unfolding undo_marker
  undo_marker-Keeps none = Keeps-return I tt
  undo_marker-Keeps (some previous) =
      Keeps-if I (previous.version == "") (Keeps-return I tt)
        (Keeps-bind I (Keeps-attempt I (s.undoes previous.version)) (λ _. Keeps-return I tt))
