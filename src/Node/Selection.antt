-- ===== src/Node/Selection.antt =====
-- How the random numbers of internal/node/node_manager.go share the calls among the nodes.
use smart_scanner.Common.{
  range_from-append, ℕ, zero, suc, ◌+◌, ◌≤◌, ◌<◌, ◌≡◌, refl, sym, ap, ◌∙◌, List, [], ◌∷◌, ◌++◌, map,
  arith, le→ltb_false, lt→ltb, range_from, ℕ_discrete, ne→==_false,
}
use mathlib.Core.List.{map-append}
use smart_scanner.Node.{NodePool, total_weight, node_at, select_node_by_weight}

abbrev pub copies : ℕ → NodePool → List NodePool
copies zero n = []
copies (suc k) n = n ∷ copies k n

-- Every node as often as its weight says.
abbrev pub shares : List NodePool → List NodePool
shares [] = []
shares (n ∷ ns) = copies n.weight n ++ shares ns

map-constant :
    (f : ℕ → NodePool) (n : NodePool) (k w : ℕ)
    → ((d : ℕ) → k ≤ d → d < k + w → f d ≡ n)
    → map f (range_from k w) ≡ copies w n
map-constant f n k zero same = refl
map-constant f n k (suc w) same =
    ap (λ x. x ∷ map f (range_from (suc k) w)) (same k (omega arith) (omega arith))
    ∙ ap (λ l. n ∷ l) (map-constant f n (suc k) w (λ d a b. same d (omega arith) (omega arith)))

map-agree :
    (f g : ℕ → NodePool) (k w : ℕ)
    → ((d : ℕ) → k ≤ d → f d ≡ g d)
    → map f (range_from k w) ≡ map g (range_from k w)
map-agree f g k zero same = refl
map-agree f g k (suc w) same =
    ap (λ x. x ∷ map f (range_from (suc k) w)) (same k (omega arith))
    ∙ ap (λ l. g k ∷ l) (map-agree f g (suc k) w (λ d a. same d (omega arith)))

node_at-shares :
    (fallback : NodePool) (current : ℕ) (nodes : List NodePool)
    → map (λ d. node_at fallback current d nodes) (range_from current (total_weight nodes))
      ≡ shares nodes
unfolding node_at
node_at-shares fallback current [] = refl
node_at-shares fallback current (n ∷ ns) =
    let f : ℕ → NodePool = λ d. node_at fallback current d (n ∷ ns) in
    let first = range_from current n.weight in
    let rest = range_from (current + n.weight) (total_weight ns) in
    ap (map f) (range_from-append current n.weight (total_weight ns))
    ∙ map-append f first rest
    ∙ ap (λ l. l ++ map f rest)
        (map-constant f n current n.weight (λ d a b. rw (lt→ltb d (current + n.weight) b) refl))
    ∙ ap (λ l. copies n.weight n ++ l)
        (map-agree f (λ d. node_at fallback (current + n.weight) d ns) (current + n.weight)
            (total_weight ns) (λ d a. rw (le→ltb_false d (current + n.weight) a) refl)
          ∙ node_at-shares fallback (current + n.weight) ns)

-- Over the random numbers below the total weight, every node is chosen as often as its weight says:
-- a random number that is equally likely to be any of them shares the calls in proportion.
pub select_node_by_weight-shares :
    (n : NodePool) (ns : List NodePool)
    → map (λ draw. select_node_by_weight draw n ns) (range_from 0 (total_weight (n ∷ ns)))
      ≡ shares (n ∷ ns)
unfolding select_node_by_weight
select_node_by_weight-shares n ns =
    let f : ℕ → NodePool = λ draw. select_node_by_weight draw n ns in
    let g : ℕ → NodePool = λ draw. node_at n 0 draw (n ∷ ns) in
    let total = total_weight (n ∷ ns) in
    let agree : map f (range_from 0 total) ≡ map g (range_from 0 total) =
      elim (ℕ_discrete total 0) [
        | yes e ↦ ap (λ k. map f (range_from 0 k)) e ∙ sym (ap (λ k. map g (range_from 0 k)) e)
        | no ne ↦ map-agree f g 0 total (λ d a. rw (ne→==_false total 0 ne) refl)
      ] in
    agree ∙ node_at-shares n 0 (n ∷ ns)
