-- ===== src/Scheduler/Watermark/Hashes.antt =====
-- The cache of block hashes under `SetBlockHash` and `ResetToHeight`.
use smart_scanner.Common.{
  Bool, ℕ, ◌≤◌, ◌≡◌, refl, arith, true, some, none, List, [], ◌∷◌, String, ltb, ◌==◌, if◌then◌else◌,
  ok, err,
}
use smart_scanner.Types.{Watermark}
use smart_scanner.Scheduler.Watermark.{
  update_scanned_height, cleanup_block_hashes_after, WatermarkManager, block_hash_not_found,
  load_hash, store_hash, cleanup_block_hashes_after, get_block_hash, set_block_hash,
  reset_to_height,
}

load_hash-store_hash :
    (n k : ℕ) (h : String) (hashes : List (ℕ × String))
    → load_hash n (store_hash k h hashes) ≡ (if k == n then some h else load_hash n hashes)
unfolding load_hash store_hash
load_hash-store_hash n k h [] = refl
load_hash-store_hash n k h ((j, v) ∷ rest) = ground (arith, load_hash-store_hash n k h rest)

load_hash-cleanup :
    (n height : ℕ) (hashes : List (ℕ × String))
    → load_hash n (cleanup_block_hashes_after height hashes)
      ≡ (if ltb height n then none else load_hash n hashes)
unfolding load_hash cleanup_block_hashes_after
load_hash-cleanup n height [] = ground arith
load_hash-cleanup n height ((j, v) ∷ rest) = ground (arith, load_hash-cleanup n height rest)

-- A hash that was set is read back, and setting it changes no other block's hash.
pub get_block_hash-set_block_hash :
    (m : WatermarkManager) (n k : ℕ) (h : String)
    → get_block_hash (set_block_hash m k h) n ≡ (if k == n then ok h else get_block_hash m n)
unfolding get_block_hash set_block_hash
get_block_hash-set_block_hash m n k h = ground (arith, load_hash-store_hash n k h m.block_hashes)

-- After a reset to a height that was scanned, the hashes above it are gone and those up to it are
-- kept.
pub get_block_hash-reset_to_height :
    (m : WatermarkManager) (w : Watermark) (height now n : ℕ)
    → m.watermark ≡ some w
    → height ≤ w.scanned_height
    → get_block_hash (reset_to_height true m height now).0 n
      ≡ (if ltb height n then err block_hash_not_found else get_block_hash m n)
unfolding get_block_hash reset_to_height
get_block_hash-reset_to_height m w height now n e h =
    ground (arith, load_hash-cleanup n height m.block_hashes)

-- A report of a scanned height leaves the block hashes alone.
pub update_scanned_height-hashes :
    (locked : Bool) (m : WatermarkManager) (height now : ℕ)
    → (update_scanned_height locked m height now).0.block_hashes ≡ m.block_hashes
unfolding update_scanned_height
update_scanned_height-hashes locked m height now = ground arith

pub reset_to_height-hashes :
    (locked : Bool) (m : WatermarkManager) (height now : ℕ)
    → m.block_hashes ≡ []
    → (reset_to_height locked m height now).0.block_hashes ≡ []
unfolding reset_to_height cleanup_block_hashes_after
reset_to_height-hashes locked m height now empty = ground (arith, empty)

pub get_block_hash-empty :
    (m : WatermarkManager) (n : ℕ)
    → m.block_hashes ≡ []
    → get_block_hash m n ≡ err block_hash_not_found
unfolding get_block_hash load_hash
get_block_hash-empty m n empty = rw (empty, get_block_hash) refl
