-- ===== src/Tests/Certificates.antt =====
-- A certificate near its expiry, and the theorems on internal/certmanager/manager.go at it.
use remnanode_setup_bot.Base.{
  ◌≡◌, refl, true, false, some, [], ◌∷◌, ok, if◌then◌else◌, ◌==◌, string_comparable, After,
  run_effects, map,
}
use remnanode_setup_bot.Base.Net.{v4}
use remnanode_setup_bot.Certificates.{
  RecordStatus, current, Material, Active, Target, Config, Outside, World, activated, marked,
  chosen, delivered, resolved,
}
use remnanode_setup_bot.Certificates.Statements.{
  get_active, active_marker, ask_load, ask_validate, ask_now, ask_issue, ask_stage, save_version,
  ask_resolve, ask_distribute, record_row, mark, activate_version, find_version,
}
use remnanode_setup_bot.Certificates.Distribution.{load_active, or_throw, distribute, lock}
use remnanode_setup_bot.Certificates.Issuance.{prepare, issue_and_activate}
use remnanode_setup_bot.Certificates.Served.{IsServed}
use remnanode_setup_bot.Certificates.Served.Prepare.{prepare-IsServed, prepare-is_ok, is_ok}

abbrev old_material : Material
old_material = record { fullchain = "old"; private_key = "key" }

abbrev new_material : Material
new_material = record { fullchain = "new"; private_key = "key" }

abbrev in_use : Active
in_use = record { version = "v-1"; fingerprint = "old"; expires_at = 100 }

abbrev node : Target
node = record { deployment_id = "1"; ip = v4 1 }

abbrev outside : Outside
outside = record {
  locks = λ _. true;
  ended = λ _. false;
  now = λ _. 10;
  db_fails = λ _. false;
  issue = λ _. ok new_material;
  validate = λ _ material. some (record { fingerprint = material.fullchain; expires_at = 200 });
  stage = λ _ _. ok "v-2";
  load = λ _ version. ok (if version == "v-1" then old_material else new_material);
  marker_fails = λ _. false;
  mark = λ _ _. ok tt;
  resolve = λ _. ok (record { managed = node ∷ []; unmanaged = []; acknowledged = [] });
  distribute = λ _ _ targets. map (λ (t : Target). record { target = t; succeeded = true }) targets;
}

-- No Node accepts the new certificate.
abbrev failing : Outside
failing = record outside { distribute = λ _ _ _. [] }

abbrev config : Config
config = record { renew_before = 95; has_resolver = true; has_distributor = true }

abbrev stored : World
stored = record {
  tick = 0;
  status = some RecordStatus.active;
  active = some in_use;
  versions =
      record { version = "v-1"; fingerprint = "old"; expires_at = 100; status = current } ∷ [];
  marker = some "v-1";
  events = [];
}

prepare-IsServed_example :
    After (IsServed outside) (λ _ w'. w'.active ≡ some in_use) (prepare outside config stored)
prepare-IsServed_example = prepare-IsServed outside config stored

prepare-is_ok_example : is_ok (prepare failing config stored).0 ≡ true
unfolding load_active run_effects get_active active_marker ask_load ask_validate
prepare-is_ok_example =
    prepare-is_ok failing config in_use old_material (λ _. refl) stored refl refl

-- Near its expiry the certificate is replaced, after the Node has the new one.
renewed_run :
    (prepare outside config stored).1.events
    ≡ activated "v-2"
      ∷ marked chosen "v-2"
      ∷ delivered "v-2" (node ∷ []) (record { target = node; succeeded = true } ∷ [])
      ∷ resolved (record { managed = node ∷ []; unmanaged = []; acknowledged = [] })
      ∷ []
unfolding prepare lock load_active run_effects get_active active_marker ask_load ask_validate
    ask_now ask_issue ask_stage issue_and_activate or_throw save_version distribute ask_resolve
    ask_distribute record_row mark activate_version find_version
renewed_run = refl
