-- ===== src/Scheduler/Manager.antt =====
-- internal/scheduler/scheduler_manager.go: the scanners of the enabled chains. The configuration, the
-- clients and the scanners are parameters, and so is what starting and stopping a scanner does to the
-- world.
pub mod Running
mod Tests
use smart_scanner.Common.{
  String, ◌≡◌, Bool, Option, none, some, List, [], ◌∷◌, Outcome, ok, err, ◌>>=◌, wrap, look_up,
  insert, remove, values,
}
use smart_scanner.Common.Actions.{Action}

pub data SchedulerError : Type 0 where
  no_scanners : SchedulerError
  scanner_missing scanner_exists : String → SchedulerError
  config_failed client_failed create_failed start_failed stop_failed : String → SchedulerError

pub record Scanners : Type 1 where
  pub Scanner : Type 0
  pub ChainConfig : Type 0
  pub Client : Type 0
  pub World : Type 0
  pub enabled_chains : List String
  pub get_chain_config : String → Outcome String ChainConfig
  pub get_client : String → Outcome String Client
  pub new_chain_scanner : String → Client → ChainConfig → Outcome String Scanner
  pub start_scanner : Scanner → Action World String (Unit {0})
  pub stop_scanner : Scanner → Action World String (Unit {0})

module _ (sc : Scanners) where
  open sc use {Scanner, World}

  abbrev pub ScannerMap : Type 0
  ScannerMap = List (String × Scanner)

  -- The scanner that is built for a chain.
  unfoldable pub build : String → Outcome SchedulerError Scanner
  build chain_id = do
    config ← wrap config_failed (sc.get_chain_config chain_id)
    client ← wrap client_failed (sc.get_client chain_id)
    wrap create_failed (sc.new_chain_scanner chain_id client config)

  -- The loop of `initializeScanners`: a chain whose scanner cannot be built is left out.
  unfoldable pub build_all : List String → ScannerMap → ScannerMap
  build_all [] m = m
  build_all (chain_id ∷ chains) m =
      build_all chains (elim (build chain_id) [ ok s ↦ insert chain_id s m | err e ↦ m ])

  unfoldable pub initialize_scanners : Outcome SchedulerError ScannerMap
  initialize_scanners =
      let m = build_all sc.enabled_chains [] in
      elim m [ [] ↦ err no_scanners | s ∷ rest ↦ ok (s ∷ rest) ]

  -- `Start`: a scanner that does not start is only logged.
  unfoldable pub start_all : List Scanner → World → World
  start_all [] w = w
  start_all (s ∷ ss) w = start_all ss (sc.start_scanner s w).1

  unfoldable pub start : ScannerMap → Action World SchedulerError (Unit {0})
  start m w = (ok tt, start_all (values m) w)

  -- `Stop`: every scanner, and the last error.
  unfoldable pub stop_all :
      List Scanner → Outcome String (Unit {0}) → Action World String (Unit {0})
  stop_all [] last w = (last, w)
  stop_all (s ∷ ss) last w =
      let (r, w') = sc.stop_scanner s w in stop_all ss (elim r [ ok u ↦ last | err e ↦ err e ]) w'

  unfoldable pub stop : ScannerMap → Action World String (Unit {0})
  stop m w = stop_all (values m) (ok tt) w

  unfoldable pub get_scanner : String → ScannerMap → Outcome SchedulerError Scanner
  get_scanner chain_id m = elim (look_up chain_id m) [
    | none ↦ err (scanner_missing chain_id)
    | some s ↦ ok s
  ]

  unfoldable pub restart_scanner : String → ScannerMap → Action World SchedulerError (Unit {0})
  restart_scanner chain_id m w = elim (look_up chain_id m) [
    | none ↦ (err (scanner_missing chain_id), w)
    | some s ↦
        let (r, w') = sc.stop_scanner s w in
        let (q, w'') = sc.start_scanner s w' in
        elim r [ err e ↦ (err (stop_failed e), w') | ok u ↦ (wrap start_failed q, w'') ]
  ]

  unfoldable pub add_scanner : String → Action (ScannerMap × World) SchedulerError (Unit {0})
  add_scanner chain_id (m, w) = elim (look_up chain_id m) [
    | some s ↦ (err (scanner_exists chain_id), (m, w))
    | none ↦ elim (build chain_id) [
      | err e ↦ (err e, (m, w))
      | ok s ↦
          let (r, w') = sc.start_scanner s w in
          elim r [
            | err e ↦ (err (start_failed e), (m, w'))
            | ok u ↦ (ok tt, (insert chain_id s m, w'))
          ]
    ]
  ]

  unfoldable pub remove_scanner : String → Action (ScannerMap × World) SchedulerError (Unit {0})
  remove_scanner chain_id (m, w) = elim (look_up chain_id m) [
    | none ↦ (err (scanner_missing chain_id), (m, w))
    | some s ↦
        let (r, w') = sc.stop_scanner s w in
        elim r [ err e ↦ (err (stop_failed e), (m, w')) | ok u ↦ (ok tt, (remove chain_id m, w')) ]
  ]
