-- ===== src/Tests/Torrstor.antt =====
-- torrstor: windows, eviction and shield at concrete inputs.
use tiramisu.Base.{
  ℕ, ◌+◌, ◌-◌, ◌*◌, ◌/◌, ◌≤◌, ◌<◌, ◌≡◌, refl, ◌⊎◌, Bool, true, false, Option, none, some, List, [],
  ◌∷◌, length, get_or, arith,
}
use tiramisu.Base.Eq.{nat_eq}
use tiramisu.Base.GoMap.{lookup, Unique}
use tiramisu.Base.Int.{pos, negsuc}
use tiramisu.Torrstor.Ranges.{
  Range, in_ranges, merge_range, covered, sort_search, sort_ranges, merge_from, range_less,
}
use tiramisu.Torrstor.Ranges.Query.{in_ranges-merge_range}
use tiramisu.Torrstor.Ranges.Mark.{
  fill_piece_in_range, fill_piece_in_range-covered, piece_evictable,
}
use tiramisu.Torrstor.Ranges.Budget.{
  piece_budget_count, per_reader_readahead, min_per_reader_readahead, piece_budget_count_bounds,
  per_reader_readahead_bounds,
}
use tiramisu.Torrstor.PieceCache.{FileSpan, Piece, Cache, is_id_in_file_be}
use tiramisu.Torrstor.Priority.{Position, Limits}
use tiramisu.Torrstor.Priority.Total.{HoldsAll}
use tiramisu.Torrstor.Evict.{evict, scan, removable}
use tiramisu.Torrstor.Evict.Protects.{IsProtected, evict-protects}
use tiramisu.Torrstor.Evict.Frees.{evict_frees, total, candidate}
use tiramisu.Torrstor.Shield.{
  Settings, Shield, mark_not_complete, is_responsive, watchdog_round, lift_shield, end_watchdog,
  second,
}
use tiramisu.Torrstor.Shield.Steps.{
  Reach, here, next, marked, fresh, IsWatched, Reach-IsWatched, shield_lifts, lifting_race,
}

abbrev film : FileSpan
film = record { offset = 0; size = 400000000 }

abbrev windows : List (Range FileSpan)
windows =
    record { start = pos 9; end = pos 12; file = film }
    ∷ record { start = negsuc 0; end = pos 3; file = film }
    ∷ record { start = pos 2; end = pos 5; file = film }
    ∷ []

merged :
    merge_range windows
    ≡ record { start = negsuc 0; end = pos 5; file = film }
      ∷ record { start = pos 9; end = pos 12; file = film }
      ∷ []
unfolding merge_range
merged = refl

in_ranges-merge_range_example : in_ranges (merge_range windows) (pos 4) ≡ covered windows (pos 4)
in_ranges-merge_range_example = in_ranges-merge_range windows (pos 4) (omega arith)

abbrev bitmap : List Bool
bitmap = true ∷ false ∷ false ∷ true ∷ false ∷ false ∷ []

fill_piece_in_range-covered_example :
    (d : List Bool) × (fill_piece_in_range bitmap windows 6 ≡ some d)
    × (length d ≡ 6)
    × ((k : ℕ) → k < 6 → get_or d k false ≡ covered windows (pos k))
fill_piece_in_range-covered_example = fill_piece_in_range-covered bitmap windows 6 refl

budget_twelve : piece_budget_count 20 134217728 4194304 ≡ 12
unfolding piece_budget_count tiramisu.Torrstor.Ranges.Budget.budget_pieces
budget_twelve = refl

abbrev piece : ℕ → Bool → ℕ → Piece
piece size complete accessed = record { size = size; complete = complete; accessed = accessed }

-- Ten pieces of 16 MiB; pieces 3, 6 and 7 are held.
abbrev mib16 : ℕ
mib16 = 16777216

abbrev empty : Piece
empty = piece 0 false 0

abbrev full : Cache
full = record {
  capacity = 50000000;
  filled = 0;
  piece_length = mib16;
  piece_count = 10;
  pieces =
      (3, piece mib16 true 5)
      ∷ (6, piece mib16 true 9)
      ∷ (7, piece mib16 true 4)
      ∷ (8, piece 100 false 1)
      ∷ (0, empty)
      ∷ (1, empty)
      ∷ (2, empty)
      ∷ (4, empty)
      ∷ (5, empty)
      ∷ (9, empty)
      ∷ [];
  piece_in_range = tiramisu.Base.replicate 10 false;
  local_priority = [];
  torrent = true;
  is_remove = false;
  is_closed = false;
  last_clean_ns = 0;
}

full-Unique : Unique full.pieces
unfolding lookup
full-Unique = (refl, (refl, (refl, (refl, (refl, (refl, (refl, (refl, (refl, (refl, tt))))))))))

full-HoldsAll : HoldsAll 10 full.pieces
unfolding lookup
full-HoldsAll i h gone = ground (arith, h, gone)

-- A reader in the fourth piece, that wants up to the twelfth.
abbrev positions : List Position
positions = record { piece = 4; rah_piece = 6; end = pos 12 } ∷ []

abbrev limits : Limits
limits = record {
  connections = 25;
  master = 0;
  aggressive = true;
  eighty = λ n. n * 4 / 5;
  readers = 1;
}

evict-protects_example :
    (c' : Cache) × (evict windows positions limits full ≡ some c')
    × ((id : ℕ) (p : Piece)
        → lookup id full.pieces ≡ some p
        → IsProtected windows full id p
        → lookup id c'.pieces ≡ some p)
evict-protects_example =
    evict-protects windows positions limits full full-Unique full-HoldsAll (omega arith) refl

abbrev marks : List Bool
marks = true ∷ true ∷ true ∷ true ∷ true ∷ true ∷ false ∷ false ∷ false ∷ true ∷ []

abbrev tight : Cache
tight = record full { capacity = 30000000 }

tight_full :
    (id : ℕ) (p : Piece)
    → lookup id tight.pieces ≡ some p
    → candidate windows tight marks id p ≡ true
    → p.size ≡ tight.piece_length
unfolding lookup removable piece_evictable
tight_full id p h k = ground arith

evict_frees_example :
    (c' : Cache) × (evict windows positions limits tight ≡ some c')
    × (total c'.pieces ≤ tight.capacity)
unfolding lookup fill_piece_in_range merge_range total scan removable piece_evictable
    is_id_in_file_be
evict_frees_example =
    evict_frees windows positions limits tight marks refl refl full-Unique full-HoldsAll
      (omega arith) tight_full (omega arith)

abbrev both_on : Settings
both_on = record { adaptive_shield = true; responsive_mode = true }

-- Two corrupted pieces in the seconds ten and eleven.
abbrev raised : Shield
raised = record {
  last_corruption = 11;
  active = true;
  watchdog_running = true;
  corruption_count = 2;
  cycle_count = 1;
  watchdogs = 1;
}

abbrev pending : Shield
pending = record raised {
  last_corruption = 10;
  active = false;
  corruption_count = 1;
  cycle_count = 0;
}

Reach-raised : Reach both_on fresh raised
unfolding mark_not_complete
Reach-raised =
    next {t = pending} (next {t = fresh} here (marked fresh true (10 * second)))
      (marked pending true (11 * second))

Reach-IsWatched_example : IsWatched raised
Reach-IsWatched_example = Reach-IsWatched Reach-raised

shield_lifts_example :
    (0 < raised.watchdogs)
    × ((watchdog_round (2000 * second) raised).corruption_count ≡ 0)
    × ((watchdog_round (2000 * second) raised).cycle_count ≡ 0)
    × (is_responsive both_on (watchdog_round (2000 * second) raised) ≡ true)
shield_lifts_example = shield_lifts (2000 * second) Reach-raised refl (omega arith)

lifting_race_example :
    let t = end_watchdog (mark_not_complete both_on true (20 * second) (lift_shield raised)) in
    (t.active ≡ true)
    × (t.watchdog_running ≡ false)
    × (t.corruption_count ≡ 0)
    × (t.watchdogs ≡ raised.watchdogs - 1)
lifting_race_example = lifting_race both_on (20 * second) raised refl refl refl (omega arith)
