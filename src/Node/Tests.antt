-- ===== src/Node/Tests.antt =====
-- Runs of the node manager at concrete inputs.
use smart_scanner.Common.{
  ℕ, ◌*◌, String, ◌≡◌, refl, Bool, true, false, List, [], ◌∷◌, map, Outcome, ok, err, if◌then◌else◌,
  ◌==◌, range_from,
}
use smart_scanner.Node.{
  NodePool, blocks_forever, is_healthy, healthy_nodes, node_at, select_node_by_weight,
  get_healthy_node, change_node, record_failure, record_success, call_loop, call_with_retry,
  check_node,
}
use smart_scanner.Node.Selection.{select_node_by_weight-shares}
use smart_scanner.Node.Calls.{check_node-blocks}

abbrev node : (id weight : ℕ) → Bool → NodePool
node id weight healthy = record {
  id = id;
  url = "http://node";
  weight = weight;
  healthy = healthy;
  last_check = 0;
  failure_count = 0;
  success_count = 0;
  locked = false;
}

select_node_by_weight-shares_example :
    map
      (λ draw. select_node_by_weight draw (node 1 2 true) (node 2 0 true ∷ node 3 1 true ∷ []))
      (range_from 0 3)
    ≡ node 1 2 true ∷ node 1 2 true ∷ node 3 1 true ∷ []
select_node_by_weight-shares_example =
    select_node_by_weight-shares (node 1 2 true) (node 2 0 true ∷ node 3 1 true ∷ [])

check_node-blocks_example :
    (left : NodePool) × (check_node 3 2 9 true (node 1 2 true) ≡ err left)
    × (get_healthy_node 0 (node 2 1 true ∷ left ∷ []) ≡ err blocks_forever)
check_node-blocks_example =
    check_node-blocks 3 2 9 0 true (node 2 1 true ∷ []) [] (node 1 2 true) refl

-- The first node never answers.
abbrev rpc : ℕ → NodePool → Outcome String ℕ
rpc retry n = if n.id == 1 then err "timeout" else ok 42

abbrev draw : ℕ → ℕ
draw retry = retry * 2

abbrev nodes : List NodePool
nodes = node 1 2 true ∷ node 2 5 false ∷ node 3 1 true ∷ []

answers : (call_with_retry rpc draw (λ retry. 7) nodes).0 ≡ ok 42
unfolding call_with_retry call_loop get_healthy_node healthy_nodes is_healthy select_node_by_weight
    node_at change_node record_failure record_success
answers = refl
