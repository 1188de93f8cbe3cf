-- ===== src/Plugin/Adapter/Reorgs.antt =====
-- What DetectReorg reports with the Tron HTTP client, and the blocks of Solana.
use Prim.Native.String.{◌++◌ as append}
use smart_scanner.Common.{
  ℕ, ◌<◌, String, ◌≡◌, ◌≢◌, refl, ◌∙◌, true, false, Option, none, some, [], ok, is_ok, sym, ap, inl,
  inr, Bool-cases, Option-cases, bind-ok, wrap-ok, wrap, ok-injective, str_eq, str_eq_ne,
}
use mathlib.Core.Bool.{true≢false}
use mathlib.Core.Path.{subst}
use smart_scanner.Types.{ReorgEvent}
use smart_scanner.Plugin.Adapter.{FullBlock}
use smart_scanner.Plugin.Adapter.Tron.{TronClient, new_tron_http_client}
use smart_scanner.Plugin.Adapter.Tron
use smart_scanner.Plugin.Adapter.Solana.{SolanaClient, SolanaBlock}
use smart_scanner.Plugin.Adapter.Solana

-- The event that a stored block without a reorg leads to.
abbrev pub to_nothing : (chain_id : String) (at number : ℕ) (hash : String) → ReorgEvent
to_nothing chain_id at number hash = record {
  chain_id = chain_id;
  detected_at = at;
  old_block_number = number;
  old_block_hash = hash;
  new_block_number = number;
  new_block_hash = "";
  depth = 1;
  affected_txs = [];
  processed = false;
}

-- With the HTTP client that the code has, the Tron adapter reports a reorg of every stored block that
-- has a hash, to a block of the same number without one.
pub detect_reorg-http_client :
    (now : ℕ) (url : String) (client : TronClient) (chain_id : String) (at number : ℕ)
    (hash : String)
    → new_tron_http_client now url ≡ ok client
    → hash ≢ ""
    → Tron.detect_reorg client chain_id at number hash
      ≡ ok (true, some (to_nothing chain_id at number hash))
unfolding new_tron_http_client Tron.detect_reorg Tron.get_block Tron.convert_block Tron.convert_all
detect_reorg-http_client now url client chain_id at number hash made some_hash =
    elim (Bool-cases (str_eq url "")) [
      | inl e ↦ absurd (true≢false (sym (ap is_ok (rw e at made))))
      | inr e ↦
          subst
            (λ c.
              Tron.detect_reorg c chain_id at number hash
              ≡ ok (true, some (to_nothing chain_id at number hash)))
            (ok-injective (rw e at made))
            (rw (str_eq_ne "" hash (λ same. some_hash (sym same))) refl)
    ]

module _ (client : SolanaClient) where
  converted_number :
      (chain_id : String) (o : Option SolanaBlock) (block : FullBlock)
      → Solana.convert_block client chain_id o ≡ ok block
      → (b : SolanaBlock) × (o ≡ some b) × (block.number ≡ b.parent_slot)
  unfolding Solana.convert_block
  converted_number chain_id none block done = absurd (true≢false (sym (ap is_ok done)))
  converted_number chain_id (some b) block done = elim (Option-cases b.block_time) [
    | inl e ↦ absurd (true≢false (sym (ap is_ok (rw e at done))))
    | inr (t, e) ↦ (b, refl, sym (ap (λ x. x.number) (ok-injective (rw e at done))))
  ]

  -- Where the parent of a slot's block is in a slot before it, a block that GetBlock of the Solana
  -- adapter answers with bears the slot of its parent as its number, which is below the number
  -- that was asked for.
  pub get_block-below :
      (chain_id : String) (n : ℕ) (block : FullBlock)
      → ((m : ℕ) (b : SolanaBlock) → client.get_block m ≡ ok (some b) → b.parent_slot < m)
      → Solana.get_block client chain_id n ≡ ok block
      → (b : SolanaBlock) × (client.get_block n ≡ ok (some b))
        × (block.number ≡ b.parent_slot)
        × (block.number < n)
  unfolding Solana.get_block
  get_block-below chain_id n block parents done =
      let (o, found, rest) =
        bind-ok (wrap (append "failed to get block: ") (client.get_block n)) _ block done in
      let (b, same, number) = converted_number chain_id o block rest in
      let answered : client.get_block n ≡ ok (some b) =
        wrap-ok (append "failed to get block: ") (client.get_block n) o found ∙ ap ok same in
      (b, answered, number, rw number (parents n b answered))
