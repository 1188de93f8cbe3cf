-- ===== src/Node/Calls.antt =====
-- Which nodes internal/node/node_manager.go calls, and what a health check leaves behind.
use smart_scanner.Common.{
  ℕ, zero, suc, ◌+◌, ◌<◌, String, ◌≡◌, inl, inr, refl, sym, ap, ◌∙◌, Bool, true, false, List, [],
  ◌∷◌, ◌++◌, map, arith, Outcome, ok, err, ltb, ◌==◌, All, Outcome-cases, Bool-cases,
}
use mathlib.Core.Path.{subst}
use smart_scanner.Node.{
  NodePool, NodeError, blocks_forever, is_healthy, healthy_nodes, node_at, select_node_by_weight,
  get_healthy_node, total_weight, change_node, record_failure, record_success, call_loop,
  call_with_retry, acquire, update_avg_response_time, check_node,
}

abbrev AllHealthy : Outcome NodeError (List NodePool) → Type 0
AllHealthy (ok nodes) = All (λ n. n.healthy ≡ true) nodes
AllHealthy (err e) = Unit

healthy_nodes-AllHealthy : (nodes : List NodePool) → AllHealthy (healthy_nodes nodes)
unfolding healthy_nodes is_healthy
healthy_nodes-AllHealthy [] = tt
healthy_nodes-AllHealthy (n ∷ ns) = elim (Bool-cases n.locked) [
  | inl e ↦ rw e tt
  | inr e ↦ elim (Outcome-cases (healthy_nodes ns)) [
    | inr (x, f) ↦ rw (e, f) tt
    | inl (l, f) ↦
        let all : All (λ n. n.healthy ≡ true) l =
          subst AllHealthy f (healthy_nodes-AllHealthy ns) in
        elim (Bool-cases n.healthy) [
          | inl h ↦ rw (e, f) (rw h (refl, all))
          | inr h ↦ rw (e, f) (rw h all)
        ]
  ]
]

node_at-All :
    (P : NodePool → Type 0) (fallback : NodePool) (current draw : ℕ) (nodes : List NodePool)
    → P fallback
    → All P nodes
    → P (node_at fallback current draw nodes)
unfolding node_at
node_at-All P fallback current draw [] p all = p
node_at-All P fallback current draw (n ∷ ns) p (q, all) =
    elim (Bool-cases (ltb draw (current + n.weight))) [
      | inl e ↦ rw e q
      | inr e ↦ rw e (node_at-All P fallback (current + n.weight) draw ns p all)
    ]

select_node_by_weight-healthy :
    (draw : ℕ) (n : NodePool) (ns : List NodePool)
    → All (λ n. n.healthy ≡ true) (n ∷ ns)
    → (select_node_by_weight draw n ns).healthy ≡ true
unfolding select_node_by_weight
select_node_by_weight-healthy draw n ns all = elim (Bool-cases (total_weight (n ∷ ns) == 0)) [
  | inl e ↦ rw e all.0
  | inr e ↦ rw e (node_at-All (λ n. n.healthy ≡ true) n 0 draw (n ∷ ns) all.0 all)
]

abbrev healthy_of : Outcome NodeError NodePool → Bool
healthy_of (ok n) = n.healthy
healthy_of (err e) = true

get_healthy_node-healthy_of :
    (draw : ℕ) (nodes : List NodePool) → healthy_of (get_healthy_node draw nodes) ≡ true
unfolding get_healthy_node
get_healthy_node-healthy_of draw nodes = elim (Outcome-cases (healthy_nodes nodes)) [
  | inr (x, f) ↦ rw (f, get_healthy_node, healthy_of) refl
  | inl ([], f) ↦ rw (f, get_healthy_node, healthy_of) refl
  | inl (n ∷ ns, f) ↦
      rw (f, get_healthy_node, healthy_of)
        (select_node_by_weight-healthy draw n ns
          (subst AllHealthy f (healthy_nodes-AllHealthy nodes)))
]

healthy_nodes-blocks :
    (before after : List NodePool) (n : NodePool)
    → n.locked ≡ true
    → healthy_nodes (before ++ n ∷ after) ≡ err blocks_forever
unfolding healthy_nodes is_healthy
healthy_nodes-blocks [] after n held = rw held refl
healthy_nodes-blocks (m ∷ before) after n held =
    ground (arith, healthy_nodes-blocks before after n held)

-- A health check never ends: with the node's lock held it waits for that lock, whether or not the
-- node answered. It leaves the lock taken, so that no node can be chosen any more.
pub check_node-blocks :
    (failure_threshold success_threshold now draw : ℕ) (answered : Bool)
    (before after : List NodePool) (n : NodePool)
    → n.locked ≡ false
    → (left : NodePool) × (check_node failure_threshold success_threshold now answered n ≡ err left)
      × (get_healthy_node draw (before ++ left ∷ after) ≡ err blocks_forever)
unfolding check_node acquire update_avg_response_time get_healthy_node
check_node-blocks failure_threshold success_threshold now draw false before after n free =
    let left : NodePool = record n {
      locked = true;
      last_check = now;
      failure_count = n.failure_count + 1;
    } in
    (left, rw free refl, rw (healthy_nodes-blocks before after left refl, get_healthy_node) refl)
check_node-blocks failure_threshold success_threshold now draw true before after n free =
    let left : NodePool = record n {
      locked = true;
      last_check = now;
      success_count = n.success_count + 1;
      failure_count = 0;
    } in
    (left, rw free refl, rw (healthy_nodes-blocks before after left refl, get_healthy_node) refl)

module _ {Answer : Type 0} (rpc : (retry : ℕ) → NodePool → Outcome String Answer)
    (draw : (retry : ℕ) → ℕ) (now : (retry : ℕ) → ℕ) where
  abbrev answer_of : Answer → Outcome NodeError Answer → Answer
  answer_of fallback (ok a) = a
  answer_of fallback (err e) = fallback

  -- A node that is marked as healthy answered the retry `r`.
  abbrev pub Answered : ℕ → Answer → Type 0
  Answered limit a = (r : ℕ) × (n : NodePool) × (r < limit) × (n.healthy ≡ true) × (rpc r n ≡ ok a)

  call_loop-Answered :
      (left retry : ℕ) (nodes : List NodePool) (a : Answer)
      → (call_loop rpc draw now left retry nodes).0 ≡ ok a
      → Answered (retry + left) a
  unfolding call_loop
  call_loop-Answered zero retry nodes a = ground arith
  call_loop-Answered (suc left) retry nodes a =
      elim (Outcome-cases (get_healthy_node (draw retry) nodes)) [
        | inr (e, f) ↦ rw (f, call_loop) (ground arith)
        | inl (n, f) ↦ elim (Outcome-cases (rpc retry n)) [
          | inl (b, g) ↦
              rw (f, g, call_loop)
                (λ found. (
                  retry,
                  n,
                  omega arith,
                  sym (ap healthy_of f) ∙ get_healthy_node-healthy_of (draw retry) nodes,
                  g ∙ ap ok (ap (answer_of b) found),
                ))
          | inr (e, g) ↦
              rw (f, g, call_loop)
                (λ found.
                  subst (λ k. Answered k a) (omega arith)
                    (call_loop-Answered left (retry + 1)
                      (change_node n.id (record_failure (now retry)) nodes) a found))
        ]
      ]

  -- A call that succeeds was answered, in one of three tries, by a node that is marked as healthy.
  pub call_with_retry-Answered :
      (nodes : List NodePool) (a : Answer)
      → (call_with_retry rpc draw now nodes).0 ≡ ok a
      → Answered 3 a
  unfolding call_with_retry
  call_with_retry-Answered nodes a found = call_loop-Answered 3 0 nodes a found

  abbrev pub marks : List NodePool → List Bool
  marks nodes = map (λ n. n.healthy) nodes

  change_node-marks :
      (id : ℕ) (f : NodePool → NodePool)
      → ((n : NodePool) → (f n).healthy ≡ n.healthy)
      → (nodes : List NodePool) → marks (change_node id f nodes) ≡ marks nodes
  unfolding change_node
  change_node-marks id f kept [] = refl
  change_node-marks id f kept (n ∷ ns) = elim (Bool-cases (n.id == id)) [
    | inl e ↦ rw e (
        ap (λ h. h ∷ marks (change_node id f ns)) (kept n)
        ∙ ap (λ l. n.healthy ∷ l) (change_node-marks id f kept ns))
    | inr e ↦ rw e (ap (λ l. n.healthy ∷ l) (change_node-marks id f kept ns))
  ]

  call_loop-marks :
      (left retry : ℕ) (nodes : List NodePool)
      → marks (call_loop rpc draw now left retry nodes).1 ≡ marks nodes
  unfolding call_loop record_failure record_success
  call_loop-marks zero retry nodes = refl
  call_loop-marks (suc left) retry nodes =
      elim (Outcome-cases (get_healthy_node (draw retry) nodes)) [
        | inr (e, f) ↦ rw (f, call_loop) refl
        | inl (n, f) ↦ elim (Outcome-cases (rpc retry n)) [
          | inl (b, g) ↦
              rw (f, g, call_loop)
                (change_node-marks n.id (record_success (now retry)) (λ m. refl) nodes)
          | inr (e, g) ↦
              rw (f, g, call_loop)
                (call_loop-marks left (retry + 1)
                    (change_node n.id (record_failure (now retry)) nodes)
                  ∙ change_node-marks n.id (record_failure (now retry)) (λ m. refl) nodes)
        ]
      ]

  -- A call marks no node as unhealthy, whatever fails, so a retry may choose the same node again.
  pub call_with_retry-marks :
      (nodes : List NodePool) → marks (call_with_retry rpc draw now nodes).1 ≡ marks nodes
  unfolding call_with_retry
  call_with_retry-marks nodes = call_loop-marks 3 0 nodes
