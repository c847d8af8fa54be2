-- ===== src/Orchestrator/Provision.antt =====
-- The certificate and the VPS: prepareAndProvision of internal/orchestrator/service.go.
use remnanode_setup_bot.Base.{String}
use remnanode_setup_bot.Base.{Bool, true, false, Option, none, some}
use remnanode_setup_bot.Base.{if◌then◌else◌}
use remnanode_setup_bot.Base.{Result, ok, err, ◌>>=◌, ◌>>◌, return, is_blank}
use remnanode_setup_bot.Deployment.{
  preparing_certificate, provisioning, creating_remnawave, failed, Deployment,
}
use remnanode_setup_bot.Orchestrator.World.{
  certificate_unavailable, provisioning_failed, safe, CertificateFailure, issuance, distribution,
  storage, persistence, unclassified, Material, Outside, Run, check_context,
}
use remnanode_setup_bot.Orchestrator.Stages.{begin_stage, complete_stage, fail_stage}
use remnanode_setup_bot.Orchestrator.Calls.{
  step_prepare_certificate, step_provisioning, step_create_node, is_provisioning, ask_certificate,
  ask_secret_key, ask_provision, unless,
}

-- The code of a failure to prepare the certificate.
unfoldable pub certificate_code : CertificateFailure → String
certificate_code issuance = "CERTIFICATE_ISSUANCE_FAILED"
certificate_code distribution = "CERTIFICATE_DISTRIBUTION_FAILED"
certificate_code storage = "CERTIFICATE_STORAGE_FAILED"
certificate_code persistence = "CERTIFICATE_PERSISTENCE_FAILED"
certificate_code unclassified = "CERTIFICATE_UNAVAILABLE"

module _ (o : Outside) where
  -- What follows each call of a component that may have failed.
  unfoldable pub certificate_of : Deployment → Result CertificateFailure Material → Run Material
  certificate_of current (ok material) = return material
  certificate_of current (err failure) =
      fail_stage o current.id step_prepare_certificate failed (certificate_code failure)
        (safe (certificate_code failure) certificate_unavailable)

  unfoldable pub no_key : Deployment → Run String
  no_key current =
      fail_stage o current.id step_provisioning failed "KEYGEN_FAILED"
        (safe "KEYGEN_FAILED" provisioning_failed)

  unfoldable pub secret_of : Deployment → Option String → Run String
  secret_of current none = no_key current
  secret_of current (some secret) = if is_blank secret then no_key current else return secret

  unfoldable pub provisioned_of : Deployment → Bool → Run (Unit {0})
  provisioned_of current true = return tt
  provisioned_of current false =
      fail_stage o current.id step_provisioning failed "PROVISIONING_FAILED"
        (safe "PROVISIONING_FAILED" provisioning_failed)

  -- `prepareAndProvision`.
  unfoldable pub prepare_and_provision : Deployment → Run (Unit {0})
  prepare_and_provision current = do
    let resumed = is_provisioning current.status
    unless resumed (begin_stage o current.id preparing_certificate step_prepare_certificate)
    prepared ← ask_certificate o current.sni_domain
    check_context o
    material ← certificate_of current prepared
    unless resumed (complete_stage o current.id step_prepare_certificate)
    begin_stage o current.id provisioning step_provisioning
    key ← ask_secret_key o
    check_context o
    secret ← secret_of current key
    provisioned ← ask_provision o (record {
      deployment_id = current.id;
      address = current.target_ip;
      sni_domain = current.sni_domain;
      secret_key = secret;
      certificate = material;
    })
    check_context o
    provisioned_of current provisioned
    complete_stage o current.id step_provisioning
    begin_stage o current.id creating_remnawave step_create_node
