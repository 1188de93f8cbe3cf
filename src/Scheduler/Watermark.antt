-- ===== src/Scheduler/Watermark.antt =====
-- internal/scheduler/watermark.go. The mutex makes each method one step; the time of a call is
-- its argument `now`, and whether the Redis lock was taken is the argument `locked`. The two stubs
-- `loadWatermark` and `saveWatermark` always return nil, so they leave no trace.
pub mod Boundary
pub mod History
pub mod Hashes
mod Tests
use smart_scanner.Common.{
  ℕ, ◌+◌, ◌-◌, ◌*◌, ◌%◌, ◌≡◌, String, Bool, true, false, Option, none, some, List, [], ◌∷◌, ltb,
  leb, ◌==◌, if◌then◌else◌, not, sub64, mul64, ◌||◌, i64_min, Outcome, ok, err, length, take, map,
}
use smart_scanner.Types.{Watermark}

-- `blockHashes` holds each block number at most once.
pub record WatermarkManager : Type 0 where
  pub chain_id : String
  pub reorg_detection_depth : ℕ
  pub watermark : Option Watermark
  pub block_hashes : List (ℕ × String)

pub data WatermarkError : Type 0 where
  lock_manager_nil lock_not_acquired not_initialized block_hash_not_found : WatermarkError
  cannot_reset : ℕ → ℕ → WatermarkError

-- `lock_manager` tells whether the argument is not nil.
pub new_watermark_manager :
    String → (lock_manager : Bool) → (depth now : ℕ) → Outcome WatermarkError WatermarkManager
new_watermark_manager chain_id false depth now = err lock_manager_nil
new_watermark_manager chain_id true depth now = ok (record {
  chain_id = chain_id;
  reorg_detection_depth = depth;
  watermark = some (record {
    chain_id = chain_id;
    scanned_height = 0;
    confirmed_height = 0;
    finalized_height = 0;
    reorg_boundary = 0;
    last_update_time = now;
  });
  block_hashes = [];
})

unfoldable pub get_watermark : WatermarkManager → Outcome WatermarkError Watermark
get_watermark m = elim m.watermark [ none ↦ err not_initialized | some w ↦ ok w ]

-- `int64(height) - int64(depth)`, cut off at 0: the difference as a 64-bit word is negative if its
-- top bit is set.
pub reorg_boundary_of : ℕ → ℕ → ℕ
reorg_boundary_of height depth =
    let difference = sub64 height depth in if leb i64_min difference then 0 else difference

-- The new state and the error, nil as `none`.
abbrev pub Step : Type 0
Step = WatermarkManager × Option WatermarkError

scanned_step : WatermarkManager → Watermark → ℕ → ℕ → Step
unfolding reorg_boundary_of
scanned_step m current height now = if leb height current.scanned_height then (m, none) else (
  record m {
    watermark = some (record current {
      scanned_height = height;
      reorg_boundary = reorg_boundary_of height m.reorg_detection_depth;
      last_update_time = now;
    });
  },
  none,
)

confirmed_step : WatermarkManager → Watermark → ℕ → ℕ → Step
confirmed_step m current height now = if leb height current.confirmed_height then (m, none) else (
  record m {
    watermark = some (record current {
      confirmed_height = height;
      reorg_boundary = reorg_boundary_of current.scanned_height m.reorg_detection_depth;
      last_update_time = now;
    });
  },
  none,
)

finalized_step : WatermarkManager → Watermark → ℕ → ℕ → Step
finalized_step m current height now = if leb height current.finalized_height then (m, none) else (
  record m {
    watermark = some (record current { finalized_height = height; last_update_time = now });
  },
  none,
)

-- `cleanupBlockHashesAfter`.
unfoldable pub cleanup_block_hashes_after : ℕ → List (ℕ × String) → List (ℕ × String)
cleanup_block_hashes_after height [] = []
cleanup_block_hashes_after height ((n, h) ∷ rest) =
    let kept = cleanup_block_hashes_after height rest in
    if ltb height n then kept else (n, h) ∷ kept

unfoldable pub reset_step : WatermarkManager → Watermark → ℕ → ℕ → Step
reset_step m current height now =
    if ltb current.scanned_height height
    then (m, some (cannot_reset height current.scanned_height))
    else (
      record m {
        watermark = some (record current { scanned_height = height; last_update_time = now });
        block_hashes = cleanup_block_hashes_after height m.block_hashes;
      },
      none,
    )

-- `current := m.watermark.Load()` and its nil check.
unfoldable pub with_current : WatermarkManager → (Watermark → Step) → Step
with_current m f = elim m.watermark [ none ↦ (m, some not_initialized) | some w ↦ f w ]

pub update_scanned_height : (locked : Bool) → WatermarkManager → ℕ → ℕ → Step
unfolding scanned_step with_current
update_scanned_height locked m height now =
    if locked
    then with_current m (λ current. scanned_step m current height now)
    else (m, some lock_not_acquired)

pub update_confirmed_height : WatermarkManager → ℕ → ℕ → Step
unfolding confirmed_step with_current
update_confirmed_height m height now =
    with_current m (λ current. confirmed_step m current height now)

pub update_finalized_height : WatermarkManager → ℕ → ℕ → Step
unfolding finalized_step with_current
update_finalized_height m height now =
    with_current m (λ current. finalized_step m current height now)

unfoldable pub reset_to_height : (locked : Bool) → WatermarkManager → ℕ → ℕ → Step
unfolding reset_step with_current
reset_to_height locked m height now =
    if locked
    then with_current m (λ current. reset_step m current height now)
    else (m, some lock_not_acquired)

-- `sync.Map`'s Store, Load and Delete.
store_hash : ℕ → String → List (ℕ × String) → List (ℕ × String)
store_hash k v [] = (k, v) ∷ []
store_hash k v ((n, h) ∷ rest) = if n == k then (k, v) ∷ rest else (n, h) ∷ store_hash k v rest

load_hash : ℕ → List (ℕ × String) → Option String
load_hash k [] = none
load_hash k ((n, h) ∷ rest) = if n == k then some h else load_hash k rest

delete_hash : ℕ → List (ℕ × String) → List (ℕ × String)
delete_hash k [] = []
delete_hash k ((n, h) ∷ rest) = if n == k then rest else (n, h) ∷ delete_hash k rest

-- The clean-up that `SetBlockHash` starts in the background is a step of its own.
pub set_block_hash : WatermarkManager → ℕ → String → WatermarkManager
unfolding store_hash
set_block_hash m n h = record m { block_hashes = store_hash n h m.block_hashes }

pub get_block_hash : WatermarkManager → ℕ → Outcome WatermarkError String
unfolding load_hash
get_block_hash m n = elim (load_hash n m.block_hashes) [
  | none ↦ err block_hash_not_found
  | some h ↦ ok h
]

-- `sort.Slice`, ascending.
insert_number : ℕ → List ℕ → List ℕ
insert_number x [] = x ∷ []
insert_number x (y ∷ ys) = if leb x y then x ∷ y ∷ ys else y ∷ insert_number x ys

sort_numbers : List ℕ → List ℕ
unfolding insert_number
sort_numbers [] = []
sort_numbers (x ∷ xs) = insert_number x (sort_numbers xs)

delete_all : List ℕ → List (ℕ × String) → List (ℕ × String)
unfolding delete_hash
delete_all [] hashes = hashes
delete_all (n ∷ ns) hashes = delete_all ns (delete_hash n hashes)

abbrev numbers : List (ℕ × String) → List ℕ
numbers = map (λ e. e.0)

cleanup_old : ℕ → List (ℕ × String) → List (ℕ × String)
unfolding sort_numbers delete_all
cleanup_old keep_count hashes =
    if keep_count == 0
    then hashes
    else if leb (length (numbers hashes)) keep_count
    then hashes
    else delete_all (take (length (numbers hashes) - keep_count) (sort_numbers (numbers hashes)))
        hashes

-- `cleanupOldBlockHashes` keeps twice the detection depth, `int(depth) * 2`; it returns at once
-- where that is not positive.
pub cleanup_old_block_hashes : WatermarkManager → WatermarkManager
unfolding cleanup_old
cleanup_old_block_hashes m = record m {
  block_hashes = cleanup_old (mul64 m.reorg_detection_depth 2) m.block_hashes;
}
