-- ===== src/DepthBook.antt =====
-- market-data/crates/coinext-adapters-binance/src/book.rs: the continuity of update ids in a depth
-- stream. The ids are u64; the additions of one are written without the wrap-around, which the code
-- would panic on or reach only at the last id.
pub mod Contiguous
use coinext.Prelude.{
  ℕ, ◌+◌, Bool, true, false, ◌&&◌, Option, none, some, leb, nat_beq, if◌then◌else◌,
}

pub record DepthUpdate : Type 0 where
  pub first_update_id : ℕ
  pub last_update_id : ℕ
  pub prev_update_id : Option ℕ

pub data ApplyOutcome : Type 0 where
  applied skipped resync : ApplyOutcome

unfoldable pub check_first : DepthUpdate → ℕ → Bool
check_first u snapshot_last_id =
    leb u.first_update_id (snapshot_last_id + 1) && leb (snapshot_last_id + 1) u.last_update_id

abbrev follows : Option ℕ → ℕ → ℕ → Bool
follows (some pu) first prev = nat_beq pu prev
follows none first prev = nat_beq first (prev + 1)

unfoldable pub check_next : DepthUpdate → ℕ → Bool
check_next u prev_last_id = follows u.prev_update_id u.first_update_id prev_last_id

pub record LocalOrderBook : Type 0 where
  pub last_update_id : ℕ
  pub synced : Bool

unfoldable pub new : LocalOrderBook
new = record { last_update_id = 0; synced = false }

unfoldable pub install_snapshot : ℕ → LocalOrderBook → LocalOrderBook
install_snapshot id b = record { last_update_id = id; synced = false }

unfoldable pub apply_diff : DepthUpdate → LocalOrderBook → LocalOrderBook × ApplyOutcome
unfolding check_first check_next
apply_diff u b =
    if b.synced
    then (if leb u.last_update_id b.last_update_id
        then (b, skipped)
        else if check_next u b.last_update_id
        then (record b { last_update_id = u.last_update_id }, applied)
        else (record b { synced = false }, resync))
    else (if leb u.last_update_id b.last_update_id
        then (b, skipped)
        else if check_first u b.last_update_id
        then (record { last_update_id = u.last_update_id; synced = true }, applied)
        else (b, resync))
