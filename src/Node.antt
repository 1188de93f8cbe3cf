-- ===== src/Node.antt =====
-- internal/node/node_manager.go: the choice of a node, the calls with failover, and the health
-- check. A node's lock is a flag, and to wait for a lock that its holder never gives back is an
-- error, `blocks_forever`. `id` stands for a node's address. The average response time is left out,
-- and the counters stay below 2^31.
pub mod Selection
pub mod Calls
pub mod EvmClient
pub mod Tests
use smart_scanner.Common.{
  ◌>>=◌, ℕ, zero, suc, ◌+◌, String, Bool, true, false, not, ◌||◌, List, [], ◌∷◌, Outcome, ok, err,
  if◌then◌else◌, ltb, leb, ◌==◌,
}

pub record NodePool : Type 0 where
  pub id : ℕ
  pub url : String
  pub weight : ℕ
  pub healthy : Bool
  pub last_check : ℕ
  pub failure_count : ℕ
  pub success_count : ℕ
  pub locked : Bool

pub data NodeError : Type 0 where
  blocks_forever no_healthy_nodes : NodeError
  all_nodes_failed : ℕ → NodeError

-- `IsHealthy`, which takes the read lock for the moment.
unfoldable pub is_healthy : NodePool → Outcome NodeError Bool
is_healthy n = if n.locked then err blocks_forever else ok n.healthy

-- The loop of `GetHealthyNode`.
unfoldable pub healthy_nodes : List NodePool → Outcome NodeError (List NodePool)
healthy_nodes [] = ok []
healthy_nodes (n ∷ ns) = do
  healthy ← is_healthy n
  rest ← healthy_nodes ns
  ok (if healthy then n ∷ rest else rest)

abbrev pub total_weight : List NodePool → ℕ
total_weight [] = 0
total_weight (n ∷ ns) = n.weight + total_weight ns

-- The loop of `selectNodeByWeight`, with the weight of the nodes before.
unfoldable pub node_at : (fallback : NodePool) → (current draw : ℕ) → List NodePool → NodePool
node_at fallback current draw [] = fallback
node_at fallback current draw (n ∷ ns) =
    let later = node_at fallback (current + n.weight) draw ns in
    if ltb draw (current + n.weight) then n else later

-- `selectNodeByWeight`; `draw` is the random number below the total weight.
unfoldable pub select_node_by_weight : (draw : ℕ) → NodePool → List NodePool → NodePool
select_node_by_weight draw n ns =
    if total_weight (n ∷ ns) == 0 then n else node_at n 0 draw (n ∷ ns)

-- `GetHealthyNode`.
unfoldable pub get_healthy_node : (draw : ℕ) → List NodePool → Outcome NodeError NodePool
get_healthy_node draw nodes = elim (healthy_nodes nodes) [
  | err e ↦ err e
  | ok [] ↦ err no_healthy_nodes
  | ok (n ∷ ns) ↦ ok (select_node_by_weight draw n ns)
]

-- The node at an address, changed.
unfoldable pub change_node : ℕ → (NodePool → NodePool) → List NodePool → List NodePool
change_node id f [] = []
change_node id f (n ∷ ns) = (if n.id == id then f n else n) ∷ change_node id f ns

-- `RecordFailure` and `RecordSuccess`.
unfoldable pub record_failure : (now : ℕ) → NodePool → NodePool
record_failure now n = record n { failure_count = n.failure_count + 1; last_check = now }

unfoldable pub record_success : (now : ℕ) → NodePool → NodePool
record_success now n = record n { success_count = n.success_count + 1; last_check = now }

module _ {Answer : Type 0} (rpc : (retry : ℕ) → NodePool → Outcome String Answer)
    (draw : (retry : ℕ) → ℕ) (now : (retry : ℕ) → ℕ) where
  -- The loop of `callWithRetry` and of `batchCallWithRetry` with `left` rounds left.
  unfoldable pub call_loop :
      (left retry : ℕ) → List NodePool → Outcome NodeError Answer × List NodePool
  call_loop zero retry nodes = (err (all_nodes_failed retry), nodes)
  call_loop (suc left) retry nodes = elim (get_healthy_node (draw retry) nodes) [
    | err e ↦ (err e, nodes)
    | ok node ↦
        let again =
          call_loop left (retry + 1) (change_node node.id (record_failure (now retry)) nodes) in
        elim (rpc retry node) [
          | err e ↦ again
          | ok answer ↦ (ok answer, change_node node.id (record_success (now retry)) nodes)
        ]
  ]

  unfoldable pub call_with_retry : List NodePool → Outcome NodeError Answer × List NodePool
  call_with_retry nodes = call_loop 3 0 nodes

-- A step that holds a node: the node after it, or the node that it leaves behind when it blocks
-- forever.
abbrev pub Held : Type 0
Held = Outcome NodePool NodePool

unfoldable pub acquire : NodePool → Held
acquire n = if n.locked then err n else ok (record n { locked = true })

-- `updateAvgResponseTime`: it takes and releases the node's lock.
unfoldable pub update_avg_response_time : NodePool → Held
update_avg_response_time n = do held ← acquire n; ok (record held { locked = false })

-- `checkNode` after the call, which was answered or not.
unfoldable pub check_node :
    (failure_threshold success_threshold now : ℕ) → (answered : Bool) → NodePool → Held
check_node failure_threshold success_threshold now false n = do
  held ← acquire n
  updated ←
      update_avg_response_time
        (record held { last_check = now; failure_count = held.failure_count + 1 })
  ok (record updated {
    healthy = if leb failure_threshold updated.failure_count then false else updated.healthy;
    locked = false;
  })
check_node failure_threshold success_threshold now true n = do
  held ← acquire n
  updated ←
      update_avg_response_time (record held {
        last_check = now;
        success_count = held.success_count + 1;
        failure_count = 0;
      })
  ok (record updated {
    healthy = updated.healthy || leb success_threshold updated.success_count;
    locked = false;
  })
