-- ===== src/Node/EvmClient/Ancestors.antt =====
-- What DetectReorg of internal/node/evm_client.go reports.
use smart_scanner.Common.{
  ℕ, zero, suc, ◌<◌, String, ◌≡◌, refl, inl, inr, not, Outcome, ok, ◌>>=◌, str_eq, arith,
  Bool-cases,
}
use smart_scanner.Types.{Block}
use smart_scanner.Parser.Json.{Json}
use smart_scanner.Node.EvmClient.{Request, get_block, find_common_ancestor, detect_reorg}

module _ (chain_id : String) (call : Request → Outcome String Json) where
  own_ancestor :
      (n : ℕ) (b : Block)
      → 0 < n
      → get_block chain_id call n ≡ ok b
      → find_common_ancestor chain_id call n ≡ ok n
  unfolding find_common_ancestor
  own_ancestor zero b above e = absurd (ground arith)
  own_ancestor (suc n) b above e = rw (find_common_ancestor, e) refl

  -- DetectReorg says of a block above 0, where the node has a block of this number, whether that
  -- has another hash, and the common ancestor that it reports is this block itself, whatever lies
  -- below it.
  pub detect_reorg-own_block :
      (old_number : ℕ) (old_hash : String) (b : Block)
      → 0 < old_number
      → get_block chain_id call old_number ≡ ok b
      → detect_reorg chain_id call old_number old_hash
        ≡ ok (not (str_eq b.hash old_hash), old_number)
  unfolding detect_reorg
  detect_reorg-own_block old_number old_hash b above e =
      let own = own_ancestor old_number b above e in
      elim (Bool-cases (str_eq b.hash old_hash)) [
        | inl same ↦ rw (e, ◌>>=◌, same) refl
        | inr other ↦ rw (e, ◌>>=◌, other, own) refl
      ]
