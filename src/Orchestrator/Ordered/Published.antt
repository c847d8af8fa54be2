-- ===== src/Orchestrator/Ordered/Published.antt =====
-- What is published is the job's own: addDNS of internal/orchestrator/service.go, as Deploy and RetryDNS
-- come to it.
use remnanode_setup_bot.Base.{
  String, ◌≡◌, refl, Bool, true, false, ◌&&◌, ◌==◌, string_comparable, Option, none, some, arith,
  if◌then◌else◌, Result, ok, err, Keeps, Keeps-bind, Keeps-return, Keeps-throw, Keeps-if,
  Keeps-attempt, Triple, Triple-bind, Triple-return, Triple-throw, Triple-if, Triple-weaken,
  Triple-Keeps, Keeps-Triple, ◌>>◌, throw, After, Triple-caught, After-kept, not, sym, ap, ◌∙◌,
}
use remnanode_setup_bot.Base.Net.{addr_comparable, Std}
use remnanode_setup_bot.Deployment.{adding_to_dns, Deployment}
use mathlib.Core.Path.{subst}
use mathlib.Core.Option.{some-injective}
use remnanode_setup_bot.NodeChanges.Guarded.{guarded-Triple}
use remnanode_setup_bot.Repository.{Db, find_row, valid_uuid}
use remnanode_setup_bot.Orchestrator.World.{
  not_runnable, plain, not_found, from_option, tick_on, Error, Config, Outside, World, or_fail,
  or_else,
}
use remnanode_setup_bot.Orchestrator.Stages.{
  get_deployment, deployment_for_panel, begin_stage, failed_call,
}
use remnanode_setup_bot.Orchestrator.Calls.{step_add_dns, is_adding}
use remnanode_setup_bot.Orchestrator.Connect.{
  healthy, publish, skip_dns, dns_step, add_dns_for, add_dns,
}
use remnanode_setup_bot.Orchestrator.Deploy.{
  Entry, finished, refused, runnable, retries_dns, dns_stage, retry_from, retry_dns_job, retry_dns,
  entry,
}
use remnanode_setup_bot.Orchestrator.Ordered.Runs.{
  check_context-On, record_step-On, complete_stage-On,
}
use remnanode_setup_bot.Orchestrator.Ordered.Own.{
  own_connected, own_events, F, I, ReadyOn, Ready, begin_stage-Own, failing, completed-Own, Checked,
  own_node, own_address,
}

module _ (std : Std) (o : Outside) (config : Config) (job : Deployment) where
  publish-Own :
      (uuid : String)
      → job.node_uuid ≡ some uuid
      → Keeps (I std o config job) (publish o config job uuid)
  unfolding publish
  publish-Own uuid own = Keeps-Triple (
      Triple-bind ((own_node std o config job) uuid own) λ answer.
        Triple-bind
          (Triple-weaken
            (Triple-Keeps {I = λ w. (Checked std o config job) answer w.events}
              (check_context-On o ((Checked std o config job) answer)))
            (λ w i. i) (λ _ w i. i) (λ _ w (i, _). i))
          λ _.
            Triple-bind
              {Q = λ _ w. (I std o config job) w × (own_connected config job w.events ≡ true)}
              (Triple-if (healthy o config answer) (λ h. Triple-return tt (λ w (i, k). (i, k h)))
                (λ _. (failing std o config job) _ _ _ _ refl (λ w (i, _). i)))
              λ _. Triple-bind (own_address std o config job) λ added.
                Triple-bind {Q = λ _. (Ready std o config job)}
                  (Triple-if added (λ h. Triple-return tt (λ w (i, k). (i, ground (arith, k, h))))
                    (λ _.
                      Triple-bind
                        (Triple-weaken (Triple-Keeps (check_context-On o (F std o config job)))
                          (λ w (i, _). i) (λ _ w i. i) (λ _ w i. i))
                        (λ _. (failing std o config job) _ _ _ _ refl (λ w i. i))))
                  λ _.
                    Triple-bind
                      (Triple-weaken
                        (Triple-Keeps {I = (Ready std o config job)}
                          (complete_stage-On o (ReadyOn std o config job) job.id step_add_dns))
                        (λ w i. i) (λ _ w i. i) (λ _ w (i, _). i))
                      λ _. (completed-Own std o config job) "completed" "")

  skip_dns-Own : config.dns_disabled ≡ true → Keeps (I std o config job) (skip_dns o config job)
  unfolding skip_dns
  skip_dns-Own off =
      Keeps-bind (I std o config job)
        (Keeps-attempt (I std o config job) (record_step-On o (F std o config job) _ _ _))
        λ recorded.
          Keeps-bind (I std o config job)
            (Keeps-if (I std o config job) (failed_call recorded)
              (Keeps-throw (I std o config job) _) (Keeps-return (I std o config job) tt))
            λ _. Keeps-Triple (
              Triple-weaken ((completed-Own std o config job) "completed" "")
                (λ w i. (i, ground (arith, off))) (λ _ w i. i) (λ _ w i. i))

  dns_step-Own :
      (uuid : String) (b : Bool)
      → job.node_uuid ≡ some uuid
      → config.dns_disabled ≡ b
      → Keeps (I std o config job) (dns_step o config job uuid b)
  unfolding dns_step
  dns_step-Own uuid true own e = skip_dns-Own e
  dns_step-Own uuid false own e = publish-Own uuid own

  add_dns_for-Own :
      (uuid : Option String)
      → job.node_uuid ≡ uuid
      → Keeps (I std o config job) (add_dns_for o config job uuid)
  unfolding add_dns_for
  add_dns_for-Own none own = Keeps-throw (I std o config job) _
  add_dns_for-Own (some uuid) own =
      Keeps-bind (I std o config job)
        (Keeps-if (I std o config job) (is_adding job.status) (Keeps-return (I std o config job) tt)
          ((begin_stage-Own std o config job) _ _ refl))
        (λ _. dns_step-Own uuid config.dns_disabled own refl)

  add_dns-Own : Keeps (I std o config job) (add_dns o config job)
  unfolding add_dns
  add_dns-Own = add_dns_for-Own job.node_uuid refl

  dns_stage-Own : Keeps (I std o config job) (dns_stage std o config job)
  unfolding dns_stage
  dns_stage-Own = Keeps-if (I std o config job) _ add_dns-Own (Keeps-throw (I std o config job) _)

module _ (std : Std) (o : Outside) (config : Config) (job : Deployment) where
  -- The job, marked as in its DNS stage, is published.
  retried : Keeps (I std o config job) (
      if retries_dns std o config job.status
      then (do
        begin_stage o job.id adding_to_dns step_add_dns
        add_dns o config (record job { status = adding_to_dns }))
      else throw (plain not_runnable))
  retried =
      Keeps-if (I std o config job) _
        (Keeps-bind (I std o config job) (begin_stage-Own std o config job _ _ refl)
          (λ _. add_dns-Own std o config (record job { status = adding_to_dns })))
        (Keeps-throw (I std o config job) _)

  retry_from-Own : (e : Entry) → Keeps (I std o config job) (retry_from std o config job e)
  unfolding retry_from
  retry_from-Own finished = Keeps-return (I std o config job) tt
  retry_from-Own (refused kind) = retried
  retry_from-Own runnable = retried

  -- The job that is read is the one that the tables hold.
  module _ (id : String) (db : Db) (held : find_row id db.deployments ≡ some job) where
    abbrev J : World → Type 0
    J = I std o config job

    abbrev Found : World → Type 0
    Found w = (w.db ≡ db) × J w

    abbrev Handed : Deployment → World → Type 0
    Handed d w = (job ≡ d) × J w

    job_read : Triple Found (get_deployment o id) Handed (λ _. J)
    unfolding get_deployment
    job_read = record {
      run = λ w (e, i).
          by_test (valid_uuid id && not (o.db_fails w.tick)) (find_row id w.db.deployments) w
            (sym held ∙ ap (λ (d : Db). find_row id d.deployments) (sym e)) i;
    }
      where
        by_test :
            (b : Bool) (found : Option Deployment) (w : World)
            → some job ≡ found
            → J w
            → After Handed
                (λ _. J)
                (if b then from_option found not_found else err not_found, tick_on w)
        by_test false found w h i = i
        by_test true none w h i = absurd (ground (arith, h))
        by_test true (some d) w h i = (some-injective _ _ h, i)

    panel_job : Triple Found (deployment_for_panel o config id) Handed (λ _. J)
    unfolding deployment_for_panel
    panel_job = Triple-bind job_read λ item.
        Triple-if (not (item.panel_id == "") && not (item.panel_id == config.panel_id))
          (λ _. Triple-throw _ (λ w (_, i). i)) (λ _. Triple-return item (λ w h. h))

    or_fail-Handed :
        (e : Error) (r : Result Error Deployment)
        → Triple (λ w. After Handed (λ _. J) (r, w)) (or_fail o e r) Handed (λ _. J)
    unfolding or_fail
    or_fail-Handed e (ok d) = Triple-return d (λ w h. h)
    or_fail-Handed e (err _) =
        Triple-bind (Triple-Keeps (check_context-On o (F std o config job)))
          (λ _. Triple-throw e (λ w i. i))

    retry_dns_job-Own : Triple Found (retry_dns_job std o config id) (λ _. J) (λ _. J)
    unfolding retry_dns_job or_else
    retry_dns_job-Own = Triple-bind (Triple-bind (Triple-caught panel_job) (or_fail-Handed _)) λ d.
        record {
          run = λ w (e, i).
              subst
                (λ (current : Deployment).
                  After (λ _. J) (λ _. J)
                    (retry_from std o config current (entry current.status) w))
                e ((Triple-Keeps (retry_from-Own (entry job.status))).run w i);
        }

    retry_dns-Own : Triple Found (retry_dns std o config id) (λ _. J) (λ _. J)
    unfolding retry_dns
    retry_dns-Own =
        guarded-Triple (λ d es. (d ≡ db) × F std o config job es) (λ _ _ es. F std o config job es)
          (λ _ _ es. F std o config job es) (λ _ _ _ (_, i). i) o id retry_dns_job-Own

  -- What RetryDNS, and Deploy in its DNS stage, do for a job concerns that job alone, whatever else
  -- answers and whenever the context ends. The job is the one that the tables hold under the id, for
  -- Deploy the one that the stage is given. From a record of calls in which it is so: they read Nodes,
  -- write the state of the job, and change DNS only by adding the job's address to the job's zone,
  -- directly after the panel said that the job's own Node is connected; and the job is completed only
  -- directly after that address was added, or on a panel without a balancer.
  pub published-own :
      (id : String) (w : World)
      → find_row id w.db.deployments ≡ some job
      → own_events config job w.events ≡ true
      → (own_events config job (retry_dns std o config id w).1.events ≡ true)
        × (own_events config job (dns_stage std o config job w).1.events ≡ true)
  published-own id w held h = (
    After-kept (λ v. I std o config job v) _ ((retry_dns-Own id w.db held).run w (refl, h)),
    (dns_stage-Own std o config job).run w h,
  )
