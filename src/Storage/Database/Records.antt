-- ===== src/Storage/Database/Records.antt =====
-- The logs, watermarks and reorg events of internal/storage/database.go.
use Prim.Native.String.{◌++◌ as append}
use smart_scanner.Common.{
  ℕ, String, Bool, true, Option, none, some, List, [], ◌∷◌, Outcome, ok, err, ◌&&◌, ◌||◌, leb, ◌==◌,
  str_eq, map,
}
use smart_scanner.Common.Actions.{Action}
use smart_scanner.Types.{Log, LogFilter, Watermark, ReorgEvent}
use smart_scanner.Storage.Database.Table.{asc, desc}
use smart_scanner.Storage.Database.Models.{
  LogModel, WatermarkModel, ReorgEventModel, Database, DatabaseState,
}
use smart_scanner.Storage.Database.Blocks.{failed, queried, mapped}
use smart_scanner.Storage.Database.Transactions.{decode_rows}

abbrev pub indexed : Log → LogModel → Bool
indexed log r =
    str_eq r.chain_id log.chain_id && (str_eq r.tx_hash log.tx_hash && r.log_index == log.log_index)

abbrev pub in_range : String → (from to : ℕ) → LogModel → Bool
in_range chain_id from to r =
    str_eq r.chain_id chain_id && (leb from r.block_number && leb r.block_number to)

-- A condition that a pointer of the filter adds, and one that a text adds.
abbrev pub when_set : Option ℕ → (ℕ → Bool) → Bool
when_set none test = true
when_set (some n) test = test n

abbrev pub unless_empty : String → Bool → Bool
unless_empty s test = str_eq s "" || test

unfoldable pub log_condition : String → LogFilter → LogModel → Bool
log_condition chain_id filter r =
    str_eq r.chain_id chain_id
    && (when_set filter.block_number (λ n. r.block_number == n)
        && (when_set filter.from_block (λ n. leb n r.block_number)
            && (when_set filter.to_block (λ n. leb r.block_number n)
                && (unless_empty filter.address (str_eq r.address filter.address)
                    && unless_empty filter.tx_hash (str_eq r.tx_hash filter.tx_hash)))))

abbrev pub of_chain : String → WatermarkModel → Bool
of_chain chain_id r = str_eq r.chain_id chain_id

unfoldable pub watermark_model : Watermark → WatermarkModel
watermark_model w = record {
  chain_id = w.chain_id;
  scanned_height = w.scanned_height;
  confirmed_height = w.confirmed_height;
  finalized_height = w.finalized_height;
  reorg_boundary = w.reorg_boundary;
  last_update_time = w.last_update_time;
}

-- `Updates` with a map: it sets these columns, also to zero.
unfoldable pub watermark_columns : Watermark → WatermarkModel → WatermarkModel
watermark_columns w r = record r {
  scanned_height = w.scanned_height;
  confirmed_height = w.confirmed_height;
  finalized_height = w.finalized_height;
  reorg_boundary = w.reorg_boundary;
  last_update_time = w.last_update_time;
}

unfoldable pub watermark_of : WatermarkModel → Watermark
watermark_of r = record {
  chain_id = r.chain_id;
  scanned_height = r.scanned_height;
  confirmed_height = r.confirmed_height;
  finalized_height = r.finalized_height;
  reorg_boundary = r.reorg_boundary;
  last_update_time = r.last_update_time;
}

module _ (db : Database) where
  abbrev pub on_logs :
      Action db.logs.State String (Unit {0}) → Action (DatabaseState db) String (Unit {0})
  on_logs write s = let (r, rows) = write s.log_rows in (r, record s { log_rows = rows })

  abbrev pub on_watermarks :
      Action db.watermarks.State String (Unit {0}) → Action (DatabaseState db) String (Unit {0})
  on_watermarks write s =
      let (r, rows) = write s.watermark_rows in (r, record s { watermark_rows = rows })

  abbrev pub on_events :
      Action db.events.State String (Unit {0}) → Action (DatabaseState db) String (Unit {0})
  on_events write s = let (r, rows) = write s.event_rows in (r, record s { event_rows = rows })

  unfoldable pub log_model : Log → (data_text : String) → LogModel
  log_model log data_text = record {
    chain_id = log.chain_id;
    tx_hash = log.tx_hash;
    block_number = log.block_number;
    address = log.address;
    data_text = data_text;
    log_index = log.log_index;
  }

  -- The topics, a list of texts, are always marshalled.
  unfoldable pub save_log : Log → Action (DatabaseState db) String (Unit {0})
  save_log log s = elim (db.log_json.marshal log) [
    | err e ↦ (err (append "failed to marshal log: " e), s)
    | ok data_text ↦
        let (r, s') = on_logs (db.logs.first_or_create (indexed log) (log_model log data_text)) s in
        (failed "failed to save log: " r, s')
  ]

  unfoldable pub save_each_log : List Log → Action (DatabaseState db) String (Unit {0})
  save_each_log [] s = (ok tt, s)
  save_each_log (log ∷ logs) s =
      let (r, s') = save_log log s in elim r [ err e ↦ (err e, s') | ok u ↦ save_each_log logs s' ]

  unfoldable pub batch_save_logs : List Log → Action (DatabaseState db) String (Unit {0})
  batch_save_logs [] s = (ok tt, s)
  batch_save_logs (log ∷ logs) s = save_each_log (log ∷ logs) s

  unfoldable pub get_logs : String → LogFilter → DatabaseState db → Outcome String (List Log)
  get_logs chain_id filter s =
      mapped (λ rows. decode_rows db.log_json.unmarshal (map (λ m. m.data_text) rows))
        (failed "failed to get logs: " (
          db.logs.find
            (record {
              condition = log_condition chain_id filter;
              order = (λ r. r.block_number, asc) ∷ (λ r. r.log_index, asc) ∷ [];
              limit = some filter.limit;
              offset = some filter.offset;
            })
            s.log_rows))

  unfoldable pub delete_logs : String → (from to : ℕ) → Action (DatabaseState db) String (Unit {0})
  delete_logs chain_id from to s =
      let (r, s') = on_logs (db.logs.delete_where (in_range chain_id from to)) s in
      (failed "failed to delete logs: " r, s')

  unfoldable pub save_watermark : Watermark → Action (DatabaseState db) String (Unit {0})
  save_watermark w s =
      let (r, s') =
        on_watermarks (db.watermarks.first_or_create (of_chain w.chain_id) (watermark_model w)) s in
      (failed "failed to save watermark: " r, s')

  unfoldable pub get_watermark : String → DatabaseState db → Outcome String Watermark
  get_watermark chain_id s = mapped watermark_of (
      queried (append "watermark not found for chain " chain_id) "failed to get watermark: "
        (db.watermarks.first (of_chain chain_id) [] s.watermark_rows))

  unfoldable pub update_watermark : String → Watermark → Action (DatabaseState db) String (Unit {0})
  update_watermark chain_id w s =
      let (r, s') =
        on_watermarks (db.watermarks.update_where (of_chain chain_id) (watermark_columns w)) s in
      (failed "failed to update watermark: " r, s')

  unfoldable pub event_model : ReorgEvent → (data_text : String) → ReorgEventModel
  event_model event data_text = record {
    chain_id = event.chain_id;
    detected_at = event.detected_at;
    data_text = data_text;
  }

  unfoldable pub save_reorg_event : ReorgEvent → Action (DatabaseState db) String (Unit {0})
  save_reorg_event event s = elim (db.event_json.marshal event) [
    | err e ↦ (err (append "failed to marshal reorg event: " e), s)
    | ok data_text ↦
        let (r, s') = on_events (db.events.create (event_model event data_text)) s in
        (failed "failed to save reorg event: " r, s')
  ]

  unfoldable pub get_reorg_events :
      String → (limit offset : ℕ) → DatabaseState db → Outcome String (List ReorgEvent)
  get_reorg_events chain_id limit offset s =
      mapped (λ rows. decode_rows db.event_json.unmarshal (map (λ m. m.data_text) rows))
        (failed "failed to get reorg events: " (
          db.events.find
            (record {
              condition = λ r. str_eq r.chain_id chain_id;
              order = (λ r. r.detected_at, desc) ∷ [];
              limit = some limit;
              offset = some offset;
            })
            s.event_rows))
