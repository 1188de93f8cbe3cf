-- ===== src/Plugin/Adapter/Tests.antt =====
-- Runs of the adapters with clients that are given by tables.
use smart_scanner.Common.{
  Option, ℕ, suc, zero, String, ◌≡◌, ◌≢◌, ◌<◌, refl, none, some, [], ◌∷◌, Outcome, ok, err, pos,
  arith, ap, sym, is_ok, str_ne, some-injective, ok-injective, pos_part,
}
use mathlib.Core.Bool.{true≢false}
use mathlib.Core.Path.{subst}
use smart_scanner.Plugin.{create_adapter}
use smart_scanner.Plugin.Adapter.{AdapterConfig, FullBlock}
use smart_scanner.Plugin.Adapter.Evm.{
  EthTypes, EthClient, EthBlock, EthTransaction, EthLog, EthReceipt, convert_block,
  convert_raw_transaction, convert_all, get_block_with_transactions,
}
use smart_scanner.Plugin.Adapter.Tron.{new_tron_http_client, TronClient}
use smart_scanner.Plugin.Adapter.Tron
use smart_scanner.Plugin.Adapter.Solana.{SolanaClient, SolanaBlock}
use smart_scanner.Plugin.Adapter.Factories.{tron_config, tron_factory, chains, registered}
use smart_scanner.Plugin.Adapter.Created.{created, create_adapter_iff}
use smart_scanner.Plugin.Adapter.Numbered.{Numbered, get_block_with_transactions-Numbered}

-- Hashes, addresses and bytes that are their texts.
abbrev texts : EthTypes
texts = record {
  Hash = String;
  Address = String;
  Bytes = String;
  hash_hex = λ h. h;
  address_hex = λ a. a;
  hex_to_hash = λ h. h;
  encode = λ b. b;
  decode_uint64 = λ s. err "no number";
  decode_big = λ s. err "no number";
}

abbrev nile : AdapterConfig
nile = record {
  chain_id = "728126428";
  chain_name = "tron";
  rpc_url = "https://tron";
  second_url = "";
  finality = 19;
  time = pos 3;
}

three-ne : ◌≢◌ {A = ℕ} 3 0
three-ne e = absurd (omega arith)

create_adapter_iff_example :
    (create_adapter (chains texts) "tron" (tron_config nile) (registered texts) tt).0
    ≡ ok (created texts tron_factory nile)
create_adapter_iff_example =
    (create_adapter_iff texts "tron" (tron_config nile) (created texts tron_factory nile)).1 (
      tron_factory,
      refl,
      (
        nile,
        refl,
        (
          str_ne "728126428" "" refl,
          str_ne "tron" "" refl,
          str_ne "https://tron" "" refl,
          omega arith,
          λ same. absurd (three-ne (ap pos_part same)),
        ),
        refl,
      ),
    )

abbrev http : TronClient
http = record {
  get_block = λ n. ok (some (Tron.empty_block "" n 60));
  get_block_by_hash = λ h. ok (some (Tron.empty_block h 0 60));
  get_transaction = λ h. ok (some (Tron.empty_transaction h));
  get_latest_height = ok 0;
  get_now_block = ok (some (Tron.empty_block "" 0 60));
}

abbrev block_of : ℕ → Outcome String (Option SolanaBlock)
block_of zero = err "no parent"
block_of (suc n) = ok (
    some (record {
      parent_slot = n;
      block_hash = "So1";
      block_time = some (pos 60);
      transactions = 0;
    }))

abbrev slots : SolanaClient
slots = record {
  signature_from_base58 = λ s. err "no signature";
  decimal = λ n. "7";
  get_block = block_of;
  get_transaction = λ s. ok none;
  get_slot = ok 8;
  get_health = ok "ok";
}

block_of-below : (m : ℕ) (b : SolanaBlock) → block_of m ≡ ok (some b) → b.parent_slot < m
block_of-below zero b h = absurd (true≢false (sym (ap is_ok h)))
block_of-below (suc n) b h =
    subst (λ x. x.parent_slot < suc n) (some-injective (ok-injective h)) (omega arith)

abbrev slot_8 : FullBlock
slot_8 = record {
  chain_id = "sol";
  number = 7;
  hash = "So1";
  parent_hash = "7";
  timestamp = pos 60;
  transactions = [];
}

abbrev logged : EthLog texts
logged = record { address = "0xc"; topics = "0xddf2" ∷ []; log_data = "0x07" }

abbrev call_of : String → EthTransaction texts
call_of h = record { hash = h; to = some "0xc"; value = pos 0; gas_price = pos 1; input = "0xa9" }

abbrev receipt : EthReceipt texts
receipt = record {
  status = 1;
  block_hash = "0xb5";
  block_number = 5;
  gas_used = 21000;
  transaction_index = 0;
  logs = logged ∷ [];
}

abbrev eth_block : EthBlock texts
eth_block = record {
  number = 5;
  hash = "0xb5";
  parent_hash = "0xb4";
  time = 60;
  transactions = call_of "0xa" ∷ call_of "0xb" ∷ [];
}

abbrev one_block : EthClient texts
one_block = record {
  chain_id = ok 1;
  block_by_number = λ n. ok eth_block;
  block_by_hash = λ h. ok eth_block;
  transaction_by_hash = λ h. ok (call_of h);
  transaction_receipt = λ h. ok receipt;
  latest_header = ok 5;
}

abbrev converted : FullBlock
converted = record (convert_block texts "1" eth_block) {
  transactions =
      convert_raw_transaction texts "1" (call_of "0xa") receipt 5 0
      ∷ convert_raw_transaction texts "1" (call_of "0xb") receipt 5 1
      ∷ [];
}

get_block_with_transactions-Numbered_example :
    Numbered texts converted.number 0 eth_block.transactions converted.transactions
get_block_with_transactions-Numbered_example =
    get_block_with_transactions-Numbered texts one_block "1" 5 eth_block converted refl
      (unfold get_block_with_transactions convert_all convert_block in refl)
