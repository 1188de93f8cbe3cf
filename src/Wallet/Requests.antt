-- ===== src/Wallet/Requests.antt =====
-- The blocks whose logs GetTransactions of internal/wallet/service.go asks for.
use smart_scanner.Common.{
  ℕ, ◌+◌, ◌<◌, ◌≤◌, ◌≡◌, ◌⊎◌, inl, inr, sub64, u64_mod, ltb, arith, le→ltb_false, Bool-cases, refl,
}
use smart_scanner.Wallet.{from_block}

from_block-sub64 : (h : ℕ) → from_block h ≡ sub64 h 1000
unfolding from_block
from_block-sub64 h = rw (le→ltb_false (sub64 h 1000) 0 (omega arith)) refl

-- On a chain of at least 1000 blocks the logs start 1000 blocks below the head; on a shorter one they
-- start above the head.
pub from_block-above :
    (current_height : ℕ)
    → current_height < u64_mod
    → ((1000 ≤ current_height) × (from_block current_height + 1000 ≡ current_height))
      ⊎ ((current_height < 1000) × (current_height < from_block current_height))
from_block-above h fits =
    let start = from_block-sub64 h in
    elim (Bool-cases (ltb h 1000)) [
      | inl short ↦
          let below : h < 1000 = ground arith in
          let wrapped : h < sub64 h 1000 = omega arith in inr (below, rw start wrapped)
      | inr long ↦
          let above : 1000 ≤ h = ground arith in
          let exact : sub64 h 1000 + 1000 ≡ h = omega arith in inl (above, rw start exact)
    ]
