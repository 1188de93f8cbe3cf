-- ===== src/Scheduler/Manager/Tests.antt =====
-- Runs of the manager over scanners that are numbered.
use smart_scanner.Common.{String, ◌≡◌, refl, List, [], ◌∷◌, ok, err, if◌then◌else◌, str_eq}
use smart_scanner.Scheduler.Manager.{
  Scanners, ScannerMap, build, build_all, initialize_scanners, stop, stop_all, add_scanner,
  remove_scanner,
}

-- The scanner of a chain is its name; the chain "tron" has no client, and "btc" does not stop. The
-- world is the list of the calls, the last one first.
abbrev named : Scanners
named = record {
  Scanner = String;
  ChainConfig = Unit {0};
  Client = Unit {0};
  World = List String;
  enabled_chains = "eth" ∷ "tron" ∷ "bsc" ∷ [];
  get_chain_config = λ c. ok tt;
  get_client = λ c. if str_eq c "tron" then err "no client" else ok tt;
  new_chain_scanner = λ c client config. ok c;
  start_scanner = λ s w. (ok tt, s ∷ w);
  stop_scanner = λ s w. (if str_eq s "btc" then err "busy" else ok tt, s ∷ w);
}

abbrev initial : ScannerMap named
initial = ("eth", "eth") ∷ ("bsc", "bsc") ∷ []

initializes : initialize_scanners named ≡ ok initial
unfolding initialize_scanners build_all build
initializes = refl

stops_all : stop named (("btc", "btc") ∷ initial) [] ≡ (err "busy", "bsc" ∷ "eth" ∷ "btc" ∷ [])
unfolding stop stop_all
stops_all = refl

adds : (add_scanner named "sol" (initial, [])).0 ≡ ok tt
unfolding add_scanner build
adds = refl

removes : (remove_scanner named "sol" ((add_scanner named "sol" (initial, [])).1.0, [])).0 ≡ ok tt
unfolding add_scanner remove_scanner build
removes = refl
