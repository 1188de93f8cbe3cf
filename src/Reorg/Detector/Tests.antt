-- ===== src/Reorg/Detector/Tests.antt =====
-- Runs of the detector on two chains that part above the height 3.
use smart_scanner.Common.{
  pos, none, str_ne, lt→leb_false, ℕ, String, ◌≡◌, refl, sym, ap, Bool, true, false, not, ◌&&◌,
  none, some, List, [], ◌∷◌, map, arith, Outcome, ok, err, if◌then◌else◌, leb, ◌==◌, str_eq,
}
use smart_scanner.Types.{Block, ReorgEvent}
use smart_scanner.Storage.{Storage}
use smart_scanner.Storage.Memory.{memory, Tables, keep, find_first, within}
use smart_scanner.Scheduler.Scanner.{Scanner, block_at}
use smart_scanner.Reorg.Fork.{
  DetectorConfig, Watch, DetectorStatistics, at_match, find_fork_point, fork_loop, max_depth,
  create_reorg_event,
}
use smart_scanner.Reorg.Fork.Search.{Readable, ForksAt, find_fork_point-finds}
use smart_scanner.Reorg.Detector.{World, auto_process_reorg}
use smart_scanner.Reorg.Detector.Processing.{BlockLaws, find_fork_point-keeps_stale}

abbrev block : ℕ → String → Block
block n h = record {
  chain_id = "1";
  number = n;
  hash = h;
  timestamp = pos 0;
  parent_hash = "";
  transactions = [];
}

-- Both chains share the blocks up to the height 3.
abbrev stored : ℕ → Block
stored n = block n (if leb n 3 then "common" else "stale")

abbrev node : ℕ → Block
node n = block n (if leb n 3 then "common" else "new")

-- A storage that holds every block of the stored chain.
abbrev endless : (ℕ → Block) → Storage
endless chain = record memory {
  get_block = λ c n s. ok (chain n);
  get_latest_block = λ c s. ok (chain 9);
}

abbrev tables : Tables
tables = record { blocks = []; transactions = []; events = []; logs = []; watermarks = [] }

abbrev scanner : Scanner
scanner = record {
  client = record { get_current_height = ok 12; get_block = λ n. ok (node n) };
  watermark = record {
    chain_id = "1";
    reorg_detection_depth = 12;
    watermark = none;
    block_hashes = [];
  };
}

abbrev stats : DetectorStatistics
stats = record {
  total_checks = 5;
  successful_checks = 4;
  failed_checks = 1;
  reorgs_detected = 0;
  total_reorg_depth = 0;
  max_reorg_depth = 0;
  average_reorg_depth = (0, 0);
  last_reorg_time = none;
}

readable : Readable (endless stored) scanner "1" tables stored node 9
unfolding block_at
readable = record {
  read_stored = λ n h. refl;
  read_node = λ n h. refl;
  small = omega arith;
  numbered = λ n h. refl;
}

forks : ForksAt stored node 3 9
forks = record {
  agree = refl;
  differ = λ n above below. rw (lt→leb_false n 3 above) (str_ne "new" "stale" refl);
}

abbrev event : ReorgEvent
event = record {
  chain_id = "1";
  detected_at = 77;
  old_block_number = 3;
  old_block_hash = "common";
  new_block_number = 4;
  new_block_hash = "new";
  depth = 6;
  affected_txs = [];
  processed = false;
}

find_fork_point-finds_example :
    find_fork_point (endless stored) scanner "1" 3 77 (stored 9) stats tables ≡ (
      ok (some event),
      record stats { total_reorg_depth = 6; max_reorg_depth = 6; average_reorg_depth = (6, 0) },
    )
unfolding create_reorg_event
find_fork_point-finds_example =
    find_fork_point-finds (endless stored) scanner "1" 3 tables stored node 9 readable 77 3 stats
      forks (omega arith) (omega arith)

find_first-keep {ℓ} :
    {A : Type ℓ} (test kept : A → Bool) (e : String)
    → ((x : A) → test x ≡ true → kept x ≡ true)
    → (xs : List A) → find_first test e (keep kept xs) ≡ find_first test e xs
find_first-keep test kept e only [] = refl
find_first-keep test kept e only (x ∷ xs) =
    ground (arith, only x, find_first-keep test kept e only xs)

memory-BlockLaws : BlockLaws memory
memory-BlockLaws = record {
  outside_range = λ c from to s d n outside.
      find_first-keep (λ b. str_eq b.chain_id d && b.number == n)
        (λ b. not (str_eq b.chain_id c && within from to b.number)) "block not found"
        (λ b found. ground (arith, found, outside)) s.blocks;
  logs_apart = λ c from to d n s. refl;
  marks_apart = λ c from to d n s. refl;
  events_apart = λ e d n s. refl;
}

abbrev stored_blocks : Tables
stored_blocks = record tables { blocks = map stored (9 ∷ 8 ∷ 7 ∷ 6 ∷ 5 ∷ 4 ∷ 3 ∷ []) }

abbrev world : World memory
world = record { scanner = some scanner; store = stored_blocks }

finds_event :
    (find_fork_point memory scanner "1" 3 77 (stored 9) stats stored_blocks).0 ≡ ok (some event)
unfolding find_fork_point fork_loop at_match max_depth create_reorg_event block_at
finds_event = refl

abbrev number_of : Outcome String Block → ℕ
number_of (ok b) = b.number
number_of (err e) = 0

find_fork_point-keeps_stale_example :
    memory.get_block "1" 6 (auto_process_reorg memory true 77 event world).1.store ≡ ok (stored 6)
unfolding block_at
find_fork_point-keeps_stale_example =
    find_fork_point-keeps_stale memory scanner (λ n c read. sym (ap number_of read)) "1" 3
      stored_blocks memory-BlockLaws 77 (stored 9) stats event finds_event (omega arith) true world
      "1" 6

abbrev new_from : ℕ → Block
new_from n = block n "new"

abbrev stale_from : ℕ → Block
stale_from n = block n "stale"

abbrev new_scanner : Scanner
new_scanner = record scanner {
  client = record { get_current_height = ok 312; get_block = λ n. ok (new_from n) };
}

abbrev config : DetectorConfig
config = record { reorg_depth_threshold = 3; enable_auto_processing = true }

abbrev watch : Watch
watch = record {
  state = record { last_check_time = 0; consecutive_failures = 2; is_processing_reorg = false };
  stats = stats;
}
