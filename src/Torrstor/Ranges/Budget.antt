-- ===== src/Torrstor/Ranges/Budget.antt =====
-- ranges.go: `pieceBudgetCount` and `perReaderReadahead`. The arguments are non-negative: the guards
-- send a negative value where they send zero. `capacity * 40` wraps as an int64 does.
use native.Mathlib.Nat.{div-mul-le_self}
use tiramisu.Base.{
  ℕ, ◌*◌, ◌/◌, ◌%◌, ◌^◌, ◌≤◌, ◌<◌, ◌≡◌, ◌||◌, ◌⊎◌, ltb, leb, ◌==◌, if◌then◌else◌, arith,
}

abbrev pub prefetch_budget_pct : ℕ
prefetch_budget_pct = 40

abbrev pub min_per_reader_readahead : ℕ
min_per_reader_readahead = 8388608

-- `capacity * prefetchBudgetPct / 100 / pieceLength` in int64. A product that wraps to a negative
-- number gives a quotient below one, as zero does.
unfoldable pub budget_pieces : ℕ → ℕ → ℕ
budget_pieces capacity piece_length =
    let p = capacity * prefetch_budget_pct % 2 ^ 64 in
    if ltb p (2 ^ 63) then p / 100 / piece_length else 0

unfoldable pub piece_budget_count : ℕ → ℕ → ℕ → ℕ
piece_budget_count count capacity piece_length =
    if leb count 1 || capacity == 0 || piece_length == 0
    then count
    else (let max = budget_pieces capacity piece_length in
        let max' = if ltb max 1 then 1 else max in if ltb max' count then max' else count)

unfoldable pub per_reader_readahead : ℕ → ℕ → ℕ
per_reader_readahead total readers =
    let readers' = if ltb readers 1 then 1 else readers in
    let ra = total / readers' in
    let ra' = if ltb ra min_per_reader_readahead then min_per_reader_readahead else ra in
    if ltb total ra' then total else ra'

budget_pieces-le :
    (capacity piece_length : ℕ)
    → capacity < 2 ^ 57
    → budget_pieces capacity piece_length * piece_length * 100 ≤ capacity * 40
unfolding budget_pieces
budget_pieces-le capacity piece_length h =
    let p = capacity * 40 % 2 ^ 64 in ground (arith, div-mul-le_self (p / 100) piece_length)

scale_le : (r m p c : ℕ) → r ≤ m → m * p * 100 ≤ c → r * p * 100 ≤ c
scale_le r m p c h k = grind arith

-- The budget never raises the count and never takes the last piece away, and a count above one
-- that it returns pins at most forty percent of the cache, if the capacity is below 2 ^ 57.
pub piece_budget_count_bounds :
    (count capacity piece_length : ℕ)
    → 0 < capacity
    → 0 < piece_length
    → capacity < 2 ^ 57
    → (piece_budget_count count capacity piece_length ≤ count)
      × (1 ≤ count → 1 ≤ piece_budget_count count capacity piece_length)
      × (1 < piece_budget_count count capacity piece_length
          → piece_budget_count count capacity piece_length * piece_length * 100 ≤ capacity * 40)
unfolding piece_budget_count
piece_budget_count_bounds count capacity piece_length hc hp small = (
  ground arith,
  ground arith,
  λ many.
      scale_le _ (budget_pieces capacity piece_length) piece_length _ (ground arith)
        (budget_pieces-le capacity piece_length small),
)

-- A reader's share is at most the whole, is the whole or at least 8 MiB, and the shares of all
-- readers together are at most the whole where each share is above that floor.
pub per_reader_readahead_bounds :
    (total readers : ℕ)
    → (per_reader_readahead total readers ≤ total)
      × ((per_reader_readahead total readers ≡ total)
          ⊎ (min_per_reader_readahead ≤ per_reader_readahead total readers))
      × (min_per_reader_readahead < per_reader_readahead total readers
          → readers * per_reader_readahead total readers ≤ total)
unfolding per_reader_readahead
per_reader_readahead_bounds total readers = (
  ground arith,
  ground arith,
  ground (arith, div-mul-le_self total readers, div-mul-le_self total 1),
)
