-- ===== src/NodeChanges/HostMove/Checked.antt =====
-- What the checks of `MoveNodeToHost` in internal/orchestrator/node_host_move.go establish: a plan for
-- what was asked and answered.
use remnanode_setup_bot.Base.{
  not, some, List, string_comparable, ◌≡◌, refl, arith, Triple, Triple-bind, Triple-return,
  Triple-weaken, ℕ,
}
use remnanode_setup_bot.Base.Net.{Std}
use remnanode_setup_bot.Remnawave.{Node}
use remnanode_setup_bot.Orchestrator.World.{
  node_not_found, host_unavailable, node_host_move_failed, Config, Outside,
}
use remnanode_setup_bot.Orchestrator.Nodes.{find_host}
use remnanode_setup_bot.Orchestrator.Nodes.Laws.{find_host-uuid}
use remnanode_setup_bot.Repository.{Db}
use remnanode_setup_bot.NodeChanges.Calls.{Services}
use remnanode_setup_bot.NodeChanges.Fingerprint.{matching_hosts}
use remnanode_setup_bot.NodeChanges.HostMove.Request.{
  HostMoveInput, find_node, node_address, node_by_uuid, Choice, is_expected, runs_already, same_sni,
  choose_hosts, plan_move,
}
use remnanode_setup_bot.NodeChanges.HostMove.Planned.{
  find_node-uuid, hosts_of-Runs, previous_of-IsPrevious, Known, FreshError, found, guard, certified,
  nodes_listed_by, hosts_listed_by, job_found, IsChoice, IsPlanFor,
}

module _ (std : Std) (o : Outside) (config : Config) (services : Services) (input : HostMoveInput)
    (db : Db) where
  node_by_uuid-Known :
      Triple
        (Known db Unit)
        (node_by_uuid std o config services input.node_uuid)
        (λ node. Known db (
          (read : ℕ) × ((nodes : List Node) × ((o.nodes read ≡ some nodes)
              × (find_node input.node_uuid nodes ≡ some node)))))
        FreshError
  unfolding node_by_uuid
  node_by_uuid-Known = Triple-bind (nodes_listed_by o) λ nodes.
      Triple-weaken (found node_not_found (find_node input.node_uuid nodes)) (λ w h. h)
        (λ node w ((e, ((read, a), _)), f). ((read, (nodes, (a, e))), f)) (λ _ w h. h)

  pub choose_hosts-Known :
      Triple
        (Known db Unit)
        (choose_hosts std o config services input)
        (λ choice.
          Known db (IsChoice std o config services input choice.node choice.previous choice.target))
        FreshError
  unfolding choose_hosts matching_hosts
  choose_hosts-Known = Triple-bind node_by_uuid-Known λ node.
      Triple-bind (guard (is_expected std o config services input node) _) λ _.
        Triple-bind (hosts_listed_by o) λ hosts.
          Triple-bind (found host_unavailable (find_host input.target_host_uuid hosts)) λ target.
            Triple-bind (guard (not (runs_already std o config services node target)) _) λ _.
              Triple-bind (found node_host_move_failed _) λ previous.
                Triple-bind (guard (not (same_sni std o config services previous target)) _) λ _.
                  Triple-return _
                    (λ w ((d, (p, (_, (t, ((hosted, h), (x, (listed, (nodes, (l, n))))))))), fresh).
                      (
                        record {
                          node_uuid = find_node-uuid input.node_uuid nodes n;
                          listed = (listed, (nodes, (l, n)));
                          expects = x;
                          target_uuid = find_host-uuid input.target_host_uuid hosts t;
                          is_previous =
                              previous_of-IsPrevious node _ previous (hosts_of-Runs _ hosts) p;
                          hosted = (hosted, (hosts, (h, (t, p))));
                          differs = ground (arith, d);
                        },
                        fresh,
                      ))

  pub plan_move-Known :
      (choice : Choice)
      → Triple
          (Known db
            (IsChoice std o config services input choice.node choice.previous choice.target))
          (plan_move std o config services input choice)
          (λ p. Known db (IsPlanFor std o config services input db p))
          FreshError
  unfolding plan_move
  plan_move-Known choice =
      Triple-bind (found node_host_move_failed (node_address std choice.node.address)) λ address.
        Triple-bind (job_found o config choice.node.uuid) λ job.
          Triple-bind (certified o choice.previous.profile.sni_domain) λ _.
            Triple-bind (certified o choice.target.profile.sni_domain) λ _.
              Triple-return _ (λ w ((t, (p, (j, (a, c)))), fresh). (
                record {
                  choice = c;
                  has_address = a;
                  has_job = j;
                  has_password = refl;
                  previous_issued = p;
                  target_issued = t;
                },
                fresh,
              ))
