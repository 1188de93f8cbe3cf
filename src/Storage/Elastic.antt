-- ===== src/Storage/Elastic.antt =====
-- internal/storage/elasticsearch.go: the storage in Elasticsearch. The server is a parameter; an index
-- and a document's identifier are the parts that their texts are made of, and a query is the tree that
-- the code marshals.
mod Numbers
pub mod Documents
pub mod Writes
pub mod Reads
pub mod Batches
pub mod Implementation
pub mod Laws
pub mod Stale
pub mod Saved
pub mod Filtered
mod Server
mod Tests
use Prim.Native.String.{◌++◌ as append}
use smart_scanner.Common.{
  ℕ, String, Bool, true, false, ◌&&◌, ◌||◌, Option, none, some, List, [], ◌∷◌, Outcome, ok, err, ℤ,
  leb, ◌==◌, str_eq, look_up,
}
use smart_scanner.Common.Actions.{Action}
use smart_scanner.Types.{Transaction, TransactionStatus}
use smart_scanner.Util.{contains_string}

-- A value of a document, by the Go type that it is marshalled from.
pub data Value : Type 0 where
  text : String → Value
  integer : ℕ → Value
  date : ℤ → Value
  flag : Bool → Value
  amount : Option ℤ → Value
  status_text : TransactionStatus → Value
  texts : List String → Value
  nested : List Transaction → Value

abbrev pub Document : Type 0
Document = List (String × Value)

pub data Index : Type 0 where
  blocks_index transactions_index logs_index : String → Index
  reorg_events_index : Index

pub data DocumentId : Type 0 where
  number_id : ℕ → DocumentId
  hash_id : String → DocumentId
  log_id event_id : String → ℕ → DocumentId

pub data Clause : Type 0 where
  term : (key value : String) → Clause
  term_number : (key : String) (value : ℕ) → Clause
  range : (key : String) (gte lte : Option ℕ) → Clause

-- `bool.must`, and `bool.should` with one match at least.
pub data Query : Type 0 where
  match_all : Query
  clause : Clause → Query
  must should : List Clause → Query

pub data SortOrder : Type 0 where
  asc desc : String → SortOrder

-- Where no size is given, the server answers with ten hits at most.
pub record Search : Type 0 where
  pub query : Query
  pub sort : List SortOrder
  pub from : ℕ
  pub size : Option ℕ

-- The answer to a search: what the type assertions of the code find in it, from the outside in.
pub data Hit : Type 0 where
  no_map no_source : Hit
  source : Document → Hit

pub record Hits : Type 0 where
  pub total : Option (Option ℕ)
  pub hits : Option (List Hit)

-- No reply, an error status with its text, or a body.
pub data Reply (A : Type 0) : Type 0 where
  unreachable : String → Reply A
  refused : (status_code : ℕ) (status : String) → Reply A
  answered : A → Reply A

-- What the server offers. `get` answers with the source, if it is a map, and `search` with the hits,
-- if they are one, where the body is JSON. A script is the change that it makes to a document.
pub record Elastic : Type 1 where
  pub State : Type 0
  pub index : Index → DocumentId → Document → State → Reply (Unit {0}) × State
  pub bulk : List (Index × DocumentId × Document) → State → Reply (Unit {0}) × State
  pub get : Index → DocumentId → State → Reply (Outcome String (Option Document))
  pub search : Index → Search → State → Reply (Outcome String (Option Hits))
  pub delete_by_query : Index → Query → State → Reply (Unit {0}) × State
  pub update : Index → DocumentId → (doc : Document) → State → Reply (Unit {0}) × State
  pub update_by_query :
      Index → Query → (script : Document → Document) → State → Reply (Unit {0}) × State
  pub cluster_health : State → Reply (Unit {0})

-- An answer whose body is JSON.
abbrev pub parsed : {A : Type 0} → A → Reply (Outcome String A)
parsed a = answered (ok a)

-- The error of a request that was not answered.
abbrev pub settled : {A : Type 0} → (unsent : String) → Reply A → Outcome String A
settled unsent (unreachable e) = err (append unsent e)
settled unsent (refused code status) = err (append "Elasticsearch returned error: " status)
settled unsent (answered a) = ok a

-- A request that changes the server's state.
abbrev pub request :
    {S : Type 0} → (unsent : String) → (S → Reply (Unit {0}) × S) → Action S String (Unit {0})
request unsent send s = let (reply, s') = send s in (settled unsent reply, s')

-- Which documents a query finds, as the server documents it: a clause on a field that a document does
-- not have does not hold, and a term holds for a list with such an item.
abbrev pub value_is : String → Value → Bool
value_is t (text s) = str_eq s t
value_is t (texts l) = contains_string l t
value_is t _ = false

abbrev pub at_least : Option ℕ → ℕ → Bool
at_least none n = true
at_least (some m) n = leb m n

abbrev pub at_most : Option ℕ → ℕ → Bool
at_most none n = true
at_most (some m) n = leb n m

abbrev pub number_is : (ℕ → Bool) → Value → Bool
number_is p (integer n) = p n
number_is p _ = false

abbrev pub on_field : (Value → Bool) → Option Value → Bool
on_field p none = false
on_field p (some v) = p v

abbrev pub holds : Clause → Document → Bool
holds (term key t) d = on_field (value_is t) (look_up key d)
holds (term_number key n) d = on_field (number_is (λ m. m == n)) (look_up key d)
holds (range key lo hi) d =
    on_field (number_is (λ m. at_least lo m && at_most hi m)) (look_up key d)

abbrev pub all_hold : List Clause → Document → Bool
all_hold [] d = true
all_hold (c ∷ cs) d = holds c d && all_hold cs d

abbrev pub one_holds : List Clause → Document → Bool
one_holds [] d = false
one_holds (c ∷ cs) d = holds c d || one_holds cs d

abbrev pub matches : Query → Document → Bool
matches match_all d = true
matches (clause c) d = holds c d
matches (must cs) d = all_hold cs d
matches (should cs) d = one_holds cs d
