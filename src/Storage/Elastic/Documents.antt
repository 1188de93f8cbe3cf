-- ===== src/Storage/Elastic/Documents.antt =====
-- The documents that encoding/json makes of the types of pkg/types/types.go by their tags, and what it
-- reads from them, where a number has passed through a float64. The raw data of a block is left out; all
-- other fields can be marshalled. Keys are compared as they are.
use Prim.Native.String.{◌++◌ as append}
use smart_scanner.Common.{
  ℕ, String, Bool, false, Option, none, some, List, [], ◌∷◌, Outcome, ok, err, ◌>>=◌, ℤ, pos,
  look_up, ◌≡◌, refl, ◌≤◌, All, is_ok, Option-cases, inl, inr,
}
use smart_scanner.Types.{Block, Transaction, TransactionStatus, Log, ReorgEvent, other_status}
use smart_scanner.Storage.Elastic.Numbers.{
  reread64, reread_integer, max_exact, ExactAmount, reread64-exact, reread_integer-exact,
  exponent_from, reread-large,
}
use smart_scanner.Storage.Elastic.{
  Value, Document, text, integer, date, flag, amount, status_text, texts, nested,
}

unfoldable pub block_document : Block → Document
block_document b =
    ("chain_id", text b.chain_id)
    ∷ ("number", integer b.number)
    ∷ ("hash", text b.hash)
    ∷ ("parent_hash", text b.parent_hash)
    ∷ ("timestamp", date b.timestamp)
    ∷ ("transactions", nested b.transactions)
    ∷ []

unfoldable pub transaction_document : Transaction → Document
transaction_document tx =
    ("chain_id", text tx.chain_id)
    ∷ ("hash", text tx.hash)
    ∷ ("block_number", integer tx.block_number)
    ∷ ("block_hash", text tx.block_hash)
    ∷ ("from", text tx.from)
    ∷ ("to", text tx.to)
    ∷ ("value", amount tx.value)
    ∷ ("gas_price", amount tx.gas_price)
    ∷ ("status", status_text tx.status)
    ∷ ("index", integer tx.index)
    ∷ ("input_data", text tx.input_data)
    ∷ []

unfoldable pub log_document : Log → Document
log_document log =
    ("chain_id", text log.chain_id)
    ∷ ("tx_hash", text log.tx_hash)
    ∷ ("block_number", integer log.block_number)
    ∷ ("address", text log.address)
    ∷ ("topics", texts log.topics)
    ∷ ("data", text log.data_text)
    ∷ ("log_index", integer log.log_index)
    ∷ ("tx_index", integer log.tx_index)
    ∷ []

unfoldable pub event_document : ReorgEvent → Document
event_document e =
    ("chain_id", text e.chain_id)
    ∷ ("detected_at", date (pos e.detected_at))
    ∷ ("old_block_number", integer e.old_block_number)
    ∷ ("old_block_hash", text e.old_block_hash)
    ∷ ("new_block_number", integer e.new_block_number)
    ∷ ("new_block_hash", text e.new_block_hash)
    ∷ ("depth", integer e.depth)
    ∷ ("affected_txs", texts e.affected_txs)
    ∷ ("processed", flag e.processed)
    ∷ []

abbrev pub converted : {A : Type 0} → String → Option A → Outcome String A
converted key (some a) = ok a
converted key none = err (append "json: cannot unmarshal into Go struct field " key)

-- A field of a Go value: nothing stands there where the document has no such key.
abbrev pub field_of :
    {A : Type 0} → (Value → Option A) → A → String → Option Value → Outcome String A
field_of reads default key none = ok default
field_of reads default key (some v) = converted key (reads v)

abbrev pub field : {A : Type 0} → (Value → Option A) → A → Document → String → Outcome String A
field reads default d key = field_of reads default key (look_up key d)

abbrev pub as_string : Value → Option String
as_string (text s) = some s
as_string _ = none

abbrev pub as_number : Value → Option ℕ
as_number (integer n) = reread64 n
as_number _ = none

abbrev pub as_date : Value → Option ℤ
as_date (date t) = some t
as_date _ = none

abbrev pub as_time : Value → Option ℕ
as_time (date (pos t)) = some t
as_time _ = none

abbrev pub as_flag : Value → Option Bool
as_flag (flag b) = some b
as_flag _ = none

abbrev pub reread_amount : Option ℤ → Option (Option ℤ)
reread_amount none = none
reread_amount (some z) = some (some z)

abbrev pub as_amount : Value → Option (Option ℤ)
as_amount (amount none) = some none
as_amount (amount (some z)) = reread_amount (reread_integer z)
as_amount _ = none

abbrev pub as_status : Value → Option TransactionStatus
as_status (status_text t) = some t
as_status _ = none

abbrev pub as_texts : Value → Option (List String)
as_texts (texts l) = some l
as_texts _ = none

unfoldable pub read_transaction : Document → Outcome String Transaction
read_transaction d = do
  chain_id ← field as_string "" d "chain_id"
  hash ← field as_string "" d "hash"
  block_number ← field as_number 0 d "block_number"
  block_hash ← field as_string "" d "block_hash"
  from ← field as_string "" d "from"
  to ← field as_string "" d "to"
  value ← field as_amount none d "value"
  gas_price ← field as_amount none d "gas_price"
  status ← field as_status (other_status "") d "status"
  index ← field as_number 0 d "index"
  input_data ← field as_string "" d "input_data"
  ok (record {
    chain_id = chain_id;
    hash = hash;
    block_number = block_number;
    block_hash = block_hash;
    from = from;
    to = to;
    value = value;
    gas_price = gas_price;
    status = status;
    index = index;
    input_data = input_data;
  })

-- The transactions of a block, of which none may fail.
abbrev pub or_none :
    Outcome String Transaction → Option (List Transaction) → Option (List Transaction)
or_none (ok tx) (some l) = some (tx ∷ l)
or_none _ _ = none

abbrev pub reread_all : List Transaction → Option (List Transaction)
reread_all [] = some []
reread_all (tx ∷ l) = or_none (read_transaction (transaction_document tx)) (reread_all l)

abbrev pub as_nested : Value → Option (List Transaction)
as_nested (nested l) = reread_all l
as_nested _ = none

unfoldable pub read_block : Document → Outcome String Block
read_block d = do
  chain_id ← field as_string "" d "chain_id"
  number ← field as_number 0 d "number"
  hash ← field as_string "" d "hash"
  parent_hash ← field as_string "" d "parent_hash"
  timestamp ← field as_date (pos 0) d "timestamp"
  transactions ← field as_nested [] d "transactions"
  ok (record {
    chain_id = chain_id;
    number = number;
    hash = hash;
    parent_hash = parent_hash;
    timestamp = timestamp;
    transactions = transactions;
  })

unfoldable pub read_log : Document → Outcome String Log
read_log d = do
  chain_id ← field as_string "" d "chain_id"
  tx_hash ← field as_string "" d "tx_hash"
  block_number ← field as_number 0 d "block_number"
  address ← field as_string "" d "address"
  topics ← field as_texts [] d "topics"
  data_text ← field as_string "" d "data"
  log_index ← field as_number 0 d "log_index"
  tx_index ← field as_number 0 d "tx_index"
  ok (record {
    chain_id = chain_id;
    tx_hash = tx_hash;
    block_number = block_number;
    address = address;
    topics = topics;
    data_text = data_text;
    log_index = log_index;
    tx_index = tx_index;
  })

unfoldable pub read_event : Document → Outcome String ReorgEvent
read_event d = do
  chain_id ← field as_string "" d "chain_id"
  detected_at ← field as_time 0 d "detected_at"
  old_block_number ← field as_number 0 d "old_block_number"
  old_block_hash ← field as_string "" d "old_block_hash"
  new_block_number ← field as_number 0 d "new_block_number"
  new_block_hash ← field as_string "" d "new_block_hash"
  depth ← field as_number 0 d "depth"
  affected_txs ← field as_texts [] d "affected_txs"
  processed ← field as_flag false d "processed"
  ok (record {
    chain_id = chain_id;
    detected_at = detected_at;
    old_block_number = old_block_number;
    old_block_hash = old_block_hash;
    new_block_number = new_block_number;
    new_block_hash = new_block_hash;
    depth = depth;
    affected_txs = affected_txs;
    processed = processed;
  })

-- The numbers are float64s.
abbrev pub ExactTransaction : Transaction → Type 0
ExactTransaction tx =
    tx.block_number ≤ max_exact
    × tx.index ≤ max_exact
    × ExactAmount tx.value
    × ExactAmount tx.gas_price

abbrev pub ExactBlock : Block → Type 0
ExactBlock b = b.number ≤ max_exact × All ExactTransaction b.transactions

abbrev pub ExactLog : Log → Type 0
ExactLog log = log.block_number ≤ max_exact × log.log_index ≤ max_exact × log.tx_index ≤ max_exact

as_amount_exact : (o : Option ℤ) → ExactAmount o → as_amount (amount o) ≡ some o
as_amount_exact none h = refl
as_amount_exact (some z) h = rw (reread_integer-exact z h) refl

-- What was marshalled is read back.
pub read_transaction-transaction_document :
    (tx : Transaction) → ExactTransaction tx → read_transaction (transaction_document tx) ≡ ok tx
unfolding read_transaction transaction_document
read_transaction-transaction_document tx (number, index, value, gas_price) =
    rw
      (
        reread64-exact tx.block_number number,
        reread64-exact tx.index index,
        as_amount_exact tx.value value,
        as_amount_exact tx.gas_price gas_price,
      )
      refl

reread_all_exact : (l : List Transaction) → All ExactTransaction l → reread_all l ≡ some l
reread_all_exact [] all = refl
reread_all_exact (tx ∷ l) (exact, all) =
    rw (read_transaction-transaction_document tx exact, reread_all_exact l all) refl

pub read_block-block_document : (b : Block) → ExactBlock b → read_block (block_document b) ≡ ok b
unfolding read_block block_document
read_block-block_document b (number, all) =
    rw (reread64-exact b.number number, reread_all_exact b.transactions all) refl

pub read_log-log_document : (log : Log) → ExactLog log → read_log (log_document log) ≡ ok log
unfolding read_log log_document
read_log-log_document log (number, log_index, tx_index) =
    rw
      (
        reread64-exact log.block_number number,
        reread64-exact log.log_index log_index,
        reread64-exact log.tx_index tx_index,
      )
      refl

pub read_transaction-large :
    (tx : Transaction) (n : ℕ)
    → tx.value ≡ some (pos n)
    → exponent_from ≤ n
    → is_ok (read_transaction (transaction_document tx)) ≡ false
unfolding read_transaction transaction_document
read_transaction-large tx n value large = elim (Option-cases (reread64 tx.block_number)) [
  | inl e ↦ rw e refl
  | inr (m, e) ↦ rw (e, value, reread-large n large) refl
]
