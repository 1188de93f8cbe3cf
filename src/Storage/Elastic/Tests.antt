-- ===== src/Storage/Elastic/Tests.antt =====
-- Runs on a server that is a list of documents.
use smart_scanner.Common.{
  length, ◌<◌, ◌≡◌, refl, arith, Bool, true, false, ◌&&◌, Option, none, some, [], ◌∷◌, ok,
  some-injective, is_ok, pos, sym, ap, inl, inr, Bool-cases,
}
use mathlib.Core.Bool.{true≢false}
use mathlib.Core.Path.{subst}
use smart_scanner.Types.{Block, Transaction, Log, LogFilter, confirmed, pending, reverted}
use smart_scanner.Storage.Elastic.{
  Document, Index, DocumentId, parsed, blocks_index, transactions_index, logs_index, number_id,
  hash_id, log_id,
}
use smart_scanner.Storage.Elastic.Documents.{
  ExactTransaction, ExactLog, read_log, block_document, transaction_document, log_document,
}
use smart_scanner.Storage.Elastic.Writes.{
  save_block, delete_blocks, save_transaction, update_transaction_status,
  mark_transactions_as_reverted,
}
use smart_scanner.Storage.Elastic.Numbers.{reread, reread64, reread_large}
use smart_scanner.Storage.Elastic.Reads.{get_block, get_block_by_hash, get_transaction, get_logs}
use smart_scanner.Storage.Elastic.Stale.{get_block-delete_blocks_stale, get_block_by_hash-fails}
use smart_scanner.Storage.Elastic.Saved.{
  get_block-save_block, get_transaction-update_transaction_status,
  get_transaction-mark_transactions_as_reverted_elastic, get_transaction-large,
}
use smart_scanner.Storage.Elastic.Filtered.{HasLog, FewHits, get_logs-unfiltered}
use smart_scanner.Storage.Elastic.Server.{
  list_server, list_server-query_laws, list_server-document_laws, list_server-search_laws, searched,
  length-hits_of, Documents, find, index_eq, id_eq, reply_of-some,
}

abbrev block_5 : Block
block_5 = record {
  chain_id = "1";
  number = 5;
  hash = "0xb5";
  parent_hash = "0xb4";
  timestamp = pos 60;
  transactions = [];
}

abbrev tx_a : Transaction
tx_a = record {
  chain_id = "1";
  hash = "0xa";
  block_number = 5;
  block_hash = "0xb5";
  from = "0x1";
  to = "0x2";
  value = some (pos 7);
  gas_price = some (pos 1);
  status = pending;
  index = 0;
  input_data = "0x";
}

abbrev transfer : Log
transfer = record {
  chain_id = "1";
  tx_hash = "0xa";
  block_number = 5;
  address = "0xc";
  topics = "0xddf2" ∷ "0x1" ∷ [];
  data_text = "0x07";
  log_index = 0;
  tx_index = 0;
}

abbrev of_contract : LogFilter
of_contract = record {
  block_number = none;
  from_block = some 3;
  to_block = some 8;
  address = "0xc";
  topics = "0xddf2" ∷ [];
  tx_hash = "";
  limit = 10;
  offset = 0;
}

abbrev one_block : Documents
one_block = (blocks_index "1", number_id 5, block_document block_5) ∷ []

abbrev one_transaction : Documents
one_transaction = (transactions_index "1", hash_id "0xa", transaction_document tx_a) ∷ []

abbrev one_log : Documents
one_log = (logs_index "1", log_id "0xa" 0, log_document transfer) ∷ []

-- The log of another contract is found, too.
logs_found :
    get_logs list_server "1" (record of_contract { address = "0xd" }) one_log ≡ ok (transfer ∷ [])
unfolding get_logs log_document read_log reread64
logs_found = refl

few_hits : FewHits list_server list_server-search_laws "1" 10 one_log
few_hits q hits l e list =
    let same = searched (logs_index "1") q one_log hits l e list in
    subst (λ l. length l < 10) same
      (omega (arith, length-hits_of (logs_index "1") q.query one_log one_log))

small_transaction : ExactTransaction tx_a
small_transaction = (omega arith, omega arith, omega arith, omega arith)

small_log : ExactLog transfer
small_log = (omega arith, omega arith, omega arith)

abbrev is_some : Option Document → Bool
is_some none = false
is_some (some d) = true

-- The only document of a list.
only :
    (ix : Index) (i j : DocumentId) (d e : Document)
    → list_server.get ix i ((ix, j, e) ∷ []) ≡ parsed (some d)
    → d ≡ e
only ix i j d e h =
    let found = reply_of-some (find ix i ((ix, j, e) ∷ [])) d h in
    elim (Bool-cases (index_eq ix ix && id_eq i j)) [
      | inl same ↦ sym (some-injective (rw same at found))
      | inr other ↦ absurd (true≢false (sym (ap is_some (rw other at found))))
    ]

get_block-delete_blocks_stale_example :
    get_block list_server "1" 5 (delete_blocks list_server "1" 3 8 one_block).1
    ≡ get_block list_server "1" 5 one_block
get_block-delete_blocks_stale_example =
    get_block-delete_blocks_stale list_server list_server-query_laws "1" 5 3 8 block_5 one_block
      refl

get_block_by_hash-fails_example : is_ok (get_block_by_hash list_server "1" "0xb5" one_block) ≡ false
get_block_by_hash-fails_example =
    get_block_by_hash-fails list_server list_server-query_laws "1" "0xb5" one_block
      (λ i d h. (block_5, only (blocks_index "1") i (number_id 5) d (block_document block_5) h))

get_block-save_block_example :
    get_block list_server "1" 5 (save_block list_server block_5 []).1 ≡ ok block_5
get_block-save_block_example =
    get_block-save_block list_server list_server-document_laws block_5 [] (omega arith, tt)
      (unfold save_block in refl)

get_transaction-update_transaction_status_example :
    get_transaction list_server "1" "0xa"
      (update_transaction_status list_server "1" "0xa" confirmed
        (save_transaction list_server tx_a []).1).1
    ≡ ok (record tx_a { status = confirmed })
get_transaction-update_transaction_status_example =
    get_transaction-update_transaction_status list_server list_server-document_laws tx_a confirmed
      [] small_transaction (unfold save_transaction in refl)
      (unfold update_transaction_status in refl)

get_transaction-mark_transactions_as_reverted_elastic_example :
    get_transaction list_server "1" "0xa"
      (mark_transactions_as_reverted list_server "1" 3 8 one_transaction).1
    ≡ ok (record tx_a { status = reverted })
unfolding list_server-document_laws
get_transaction-mark_transactions_as_reverted_elastic_example =
    get_transaction-mark_transactions_as_reverted_elastic list_server list_server-document_laws "1"
      "0xa" tx_a 3 8 one_transaction small_transaction refl tt
      (unfold mark_transactions_as_reverted in refl)

abbrev whale : Transaction
whale = record tx_a { value = some (pos 1000000000000000000000) }

abbrev one_whale : Documents
one_whale = (transactions_index "1", hash_id "0xa", transaction_document whale) ∷ []

get_transaction-large_example : is_ok (get_transaction list_server "1" "0xa" one_whale) ≡ false
get_transaction-large_example =
    get_transaction-large list_server "1" "0xa" whale 1000000000000000000000 one_whale refl
      (omega arith) refl

get_logs-unfiltered_example : HasLog transfer (transfer ∷ [])
unfolding list_server-search_laws
get_logs-unfiltered_example =
    get_logs-unfiltered list_server list_server-search_laws (record of_contract { address = "0xd" })
      "1" one_log (transfer ∷ []) refl logs_found few_hits transfer (log_id "0xa" 0) small_log refl
      tt

one_ether_rounds : reread 1234567890123456789 ≡ some 1234567890123456800
unfolding reread reread_large
one_ether_rounds = refl

two_to_the_60 : reread 1152921504606846976 ≡ some 1152921504606847000
unfolding reread reread_large
two_to_the_60 = refl

ether_is_kept : reread 1000000000000000000 ≡ some 1000000000000000000
unfolding reread reread_large
ether_is_kept = refl

largest_of_uint64 : reread64 18446744073709551615 ≡ none
unfolding reread64 reread_large
largest_of_uint64 = refl
