-- ===== src/NodeChanges/HostMove/Planned.antt =====
-- What a plan of a move is tied to, and what each call before the first change of `MoveNodeToHost` in
-- internal/orchestrator/node_host_move.go establishes.
use remnanode_setup_bot.Base.{
  String, Bool, true, false, not, Option, none, some, List, [], ◌∷◌, string_comparable, ◌≡◌, ◌∙◌,
  sym, ap, inl, inr, refl, arith, eq_iff, Result, ok, err, All, Triple, Triple-bind, Triple-return,
  Triple-throw, Triple-weaken, Bool-cases, Option-cases, ◌||◌, ℕ, After, run_effects, if◌then◌else◌,
  ◌>>=◌, throw,
}
use mathlib.Core.Path.{subst}
use mathlib.Core.Option.{some-injective}
use remnanode_setup_bot.Base.Net.{Std}
use remnanode_setup_bot.Remnawave.{Host, Node, profile_from_host}
use remnanode_setup_bot.Orchestrator.World.{
  CertificateFailure, Material, node_host_move_failed, invalid_input, not_found, plain, message,
  from_option, tick_on, Error, Kind, Config, Outside, World,
}
use remnanode_setup_bot.Orchestrator.Nodes.{Selected, find_host}
use remnanode_setup_bot.Orchestrator.Calls.{unless, ask_nodes, ask_hosts, ask_certificate}
use remnanode_setup_bot.Deployment.{Deployment}
use remnanode_setup_bot.Repository.{Db, valid_uuid}
use remnanode_setup_bot.Repository.Unfinished.{valid_panel_id}
use remnanode_setup_bot.NodeChanges.Calls.{
  Services, expect, latest_job, find_job, managed_of, managed_job,
}
use remnanode_setup_bot.NodeChanges.Fingerprint.{
  Fingerprint, node_fingerprint, runs, hosts_of, matching_hosts,
}
use remnanode_setup_bot.NodeChanges.HostMove.{Plan}
use remnanode_setup_bot.NodeChanges.HostMove.Request.{
  HostMoveInput, find_node, node_address, only, selected_of, previous_of, issued, is_expected,
}
use remnanode_setup_bot.NodeChanges.HostMove.Restored.{untouched}

pub find_node-uuid :
    (uuid : String) (nodes : List Node) {node : Node}
    → find_node uuid nodes ≡ some node
    → node.uuid ≡ uuid
unfolding find_node
find_node-uuid uuid [] h = absurd (ground (arith, h))
find_node-uuid uuid (first ∷ nodes) {node} h =
    ground (arith, eq_iff first.uuid uuid, find_node-uuid uuid nodes {node = node}, h)

pub Runs : Fingerprint → Host → Type 0
Runs current host = runs current (profile_from_host host) ≡ true

pub hosts_of-Runs :
    (current : Fingerprint) (hosts : List Host) → All (Runs current) (hosts_of current hosts)
unfolding hosts_of Runs profile_from_host
hosts_of-Runs current [] = tt
hosts_of-Runs current (host ∷ hosts) = elim (Bool-cases host.is_disabled) [
  | inl e ↦ rw e (hosts_of-Runs current hosts)
  | inr e ↦ elim (Bool-cases (runs current (profile_from_host host))) [
    | inl r ↦ rw (e, r) (r, hosts_of-Runs current hosts)
    | inr r ↦ rw (e, r) (hosts_of-Runs current hosts)
  ]
]

-- The previous Host of a Node: it is mapped, and the Node runs its profile.
abbrev pub IsPrevious : Node → Selected → Type 0
IsPrevious node previous =
    (profile_from_host previous.host ≡ some previous.profile)
    × (runs (node_fingerprint node) (profile_from_host previous.host) ≡ true)

pub previous_of-IsPrevious :
    (node : Node) (hosts : List Host) (previous : Selected)
    → All (Runs (node_fingerprint node)) hosts
    → previous_of (only hosts) ≡ some previous
    → IsPrevious node previous
unfolding previous_of Runs
previous_of-IsPrevious node [] previous a h = absurd (ground (arith, h))
previous_of-IsPrevious node (host ∷ []) previous (r, _) h =
    elim (Option-cases (profile_from_host host)) [
      | inl e ↦ absurd (ground (arith, e, h))
      | inr (profile, e) ↦
          subst (IsPrevious node) (some-injective _ _ (sym (ap (selected_of host) e) ∙ h)) (e, r)
    ]
previous_of-IsPrevious node (_ ∷ _ ∷ _) previous a h = absurd (ground (arith, h))

module _ (std : Std) (o : Outside) (config : Config) (services : Services)
    (input : HostMoveInput) where
  -- The Node and the two Hosts are those that the panel listed and that were asked for: the Node has
  -- the id and the profile that were, the target is the Host of the id that was, the previous one is
  -- the only Host listed with it that the Node runs, and their SNIs differ.
  pub record IsChoice (node : Node) (previous target : Selected) : Type 0 where
    pub node_uuid : node.uuid ≡ input.node_uuid
    pub listed :
        (read : ℕ) × ((nodes : List Node) × ((o.nodes read ≡ some nodes)
            × (find_node input.node_uuid nodes ≡ some node)))
    pub expects : is_expected std o config services input node ≡ true
    pub target_uuid : target.host.uuid ≡ input.target_host_uuid
    pub is_previous : IsPrevious node previous
    pub hosted :
        (read : ℕ) × ((hosts : List Host) × ((o.hosts read ≡ some hosts)
            × ((find_host input.target_host_uuid hosts ≡ some target)
                × (previous_of (only (matching_hosts node hosts)) ≡ some previous))))
    pub differs : std.equal_fold previous.profile.sni_domain target.profile.sni_domain ≡ false

  abbrev pub IsIssued : String → Material → Type 0
  IsIssued sni material = (read : ℕ) × (o.certificate read sni ≡ ok material)

  -- What ties a plan to what was asked, to what the panel and the certificate manager answered, and to
  -- the tables before the move: beside its Node and Hosts, the address is the Node's, the job the
  -- latest one of the Node in the tables, and the certificates are issued for the two SNIs.
  pub record IsPlanFor (db : Db) (p : Plan) : Type 0 where
    pub choice : IsChoice p.node p.previous p.target
    pub has_address : node_address std p.node.address ≡ some p.address
    pub has_job : latest_job config.panel_id p.node.uuid db.deployments ≡ p.job
    pub has_password : p.password ≡ input.password
    pub previous_issued : IsIssued p.previous.profile.sni_domain p.previous_certificate
    pub target_issued : IsIssued p.target.profile.sni_domain p.target_certificate

-- A fact is known, no change is recorded, and the tables are those from before.
abbrev pub Known : Db → Type 0 → World → Type 0
Known db K w = K × ((untouched w.events ≡ true) × (w.db ≡ db))

abbrev pub FreshError : Error → World → Type 0
FreshError _ w = untouched w.events ≡ true

module _ {db : Db} {K : Type 0} where
  -- What `expect` returns is what was found.
  pub found :
      {A : Type 0} (kind : Kind) (answer : Option A)
      → Triple (Known db K) (expect kind answer) (λ a. Known db ((answer ≡ some a) × K)) FreshError
  unfolding expect
  found kind none = Triple-throw _ (λ w (_, (f, _)). f)
  found kind (some a) = Triple-return a (λ w (k, f). ((refl, k), f))

  pub guard :
      (b : Bool) (e : Error)
      → Triple (Known db K) (unless b (throw e)) (λ _. Known db ((b ≡ true) × K)) FreshError
  guard true e = Triple-return tt (λ w (k, f). ((refl, k), f))
  guard false e = Triple-throw _ (λ w (_, (f, _)). f)

  pub nodes_asked :
      (o : Outside)
      → Triple
          (Known db K)
          (ask_nodes o)
          (λ answer. Known db (((read : ℕ) × (o.nodes read ≡ answer)) × K))
          FreshError
  unfolding ask_nodes
  nodes_asked o = record {
    run = λ w (k, (f, d)). elim (Option-cases (o.nodes w.tick)) [
      | inl e ↦ rw e (((w.tick, e), k), (f, d))
      | inr (nodes, e) ↦ rw e (((w.tick, e), k), (f, d))
    ];
  }

  pub hosts_asked :
      (o : Outside)
      → Triple
          (Known db K)
          (ask_hosts o)
          (λ answer. Known db (((read : ℕ) × (o.hosts read ≡ answer)) × K))
          FreshError
  unfolding ask_hosts
  hosts_asked o = record { run = λ w (k, f). (((w.tick, refl), k), f) }

  pub certificate_asked :
      (o : Outside) (sni : String)
      → Triple
          (Known db K)
          (ask_certificate o sni)
          (λ answer. Known db (((read : ℕ) × (o.certificate read sni ≡ answer)) × K))
          FreshError
  unfolding ask_certificate
  certificate_asked o sni = record { run = λ w (k, f). (((w.tick, refl), k), f) }

  pub was_issued :
      (r : Result CertificateFailure Material)
      → Triple (Known db K) (issued r) (λ material. Known db ((r ≡ ok material) × K)) FreshError
  was_issued (ok material) = Triple-return material (λ w (k, f). ((refl, k), f))
  was_issued (err _) = Triple-throw _ (λ w (_, (f, _)). f)

module _ {db : Db} {K : Type 0} where
  pub certified :
      (o : Outside) (sni : String)
      → Triple
          (Known db K)
          (ask_certificate o sni >>= issued)
          (λ material. Known db (((read : ℕ) × (o.certificate read sni ≡ ok material)) × K))
          FreshError
  certified o sni = Triple-bind (certificate_asked o sni) λ answer.
      Triple-weaken (was_issued answer) (λ w h. h)
        (λ material w ((e, ((read, a), k)), f). (((read, a ∙ e), k), f)) (λ _ w h. h)

  pub nodes_listed_by :
      (o : Outside)
      → Triple
          (Known db K)
          (ask_nodes o >>= expect node_host_move_failed)
          (λ nodes. Known db (((read : ℕ) × (o.nodes read ≡ some nodes)) × K))
          FreshError
  nodes_listed_by o = Triple-bind (nodes_asked o) λ answer.
      Triple-weaken (found node_host_move_failed answer) (λ w h. h)
        (λ nodes w ((e, ((read, a), k)), f). (((read, a ∙ e), k), f)) (λ _ w h. h)

  pub hosts_listed_by :
      (o : Outside)
      → Triple
          (Known db K)
          (ask_hosts o >>= expect node_host_move_failed)
          (λ hosts. Known db (((read : ℕ) × (o.hosts read ≡ some hosts)) × K))
          FreshError
  hosts_listed_by o = Triple-bind (hosts_asked o) λ answer.
      Triple-weaken (found node_host_move_failed answer) (λ w h. h)
        (λ hosts w ((e, ((read, a), k)), f). (((read, a ∙ e), k), f)) (λ _ w h. h)

  -- The job that is found is the latest one of the Node in the tables.
  pub job_found :
      (o : Outside) (config : Config) (uuid : String)
      → Triple
          (Known db K)
          (managed_job o config uuid)
          (λ job. Known db ((latest_job config.panel_id uuid db.deployments ≡ job) × K))
          FreshError
  unfolding managed_job find_job run_effects
  job_found o config uuid = record {
    run = λ w h.
        answered (not (valid_panel_id config.panel_id) || not (valid_uuid uuid)) (o.db_fails w.tick)
          (latest_job config.panel_id uuid w.db.deployments) (tick_on w)
          (ap (λ (d : Db). latest_job config.panel_id uuid d.deployments) (sym h.1.1)) h;
  }
    where
      answered :
          (b c : Bool) (job : Option Deployment) (w : World)
          → latest_job config.panel_id uuid db.deployments ≡ job
          → Known db K w
          → After
              (λ job. Known db ((latest_job config.panel_id uuid db.deployments ≡ job) × K))
              FreshError
              (managed_of
                (if b
                  then err (plain invalid_input)
                  else if c
                  then err (message "find deployment by panel Node UUID")
                  else from_option job not_found)
                w)
      answered true c job w e (k, (f, d)) = f
      answered false true job w e (k, (f, d)) = f
      answered false false none w e (k, f) = ((e, k), f)
      answered false false (some job) w e (k, f) = ((e, k), f)
