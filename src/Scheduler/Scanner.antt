-- ===== src/Scheduler/Scanner.antt =====
-- What `ChainScanner` of internal/scheduler/chain_scanner.go offers to the reorg components:
-- `GetLatestHeight`, `GetBlock` and `ResetWatermark`. The chain's node is a parameter, seen through
-- its answers during one call.
use smart_scanner.Common.{ℕ, String, Bool, Outcome, Option}
use smart_scanner.Types.{Block}
use smart_scanner.Scheduler.Watermark.{WatermarkManager, WatermarkError, reset_to_height}

-- The methods of `node.ChainClient` that are used.
pub record ChainClient : Type 0 where
  pub get_current_height : Outcome String ℕ
  pub get_block : ℕ → Outcome String Block

pub record Scanner : Type 0 where
  pub client : ChainClient
  pub watermark : WatermarkManager

unfoldable pub latest_height : Scanner → Outcome String ℕ
latest_height s = s.client.get_current_height

unfoldable pub block_at : Scanner → ℕ → Outcome String Block
block_at s n = s.client.get_block n

-- `ResetWatermark`; `locked` and `now` are those of `ResetToHeight`.
unfoldable pub reset_watermark :
    (locked : Bool) → (now : ℕ) → ℕ → Scanner → Scanner × Option WatermarkError
reset_watermark locked now height s =
    let (m, e) = reset_to_height locked s.watermark height now in (record s { watermark = m }, e)
