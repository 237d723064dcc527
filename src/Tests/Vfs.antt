-- ===== src/Tests/Vfs.antt =====
-- dircache.go: the cache of listings at concrete inputs.
use tiramisu.Base.{ℕ, ◌<◌, ◌≡◌, refl, true, false, List, [], ◌∷◌, take, drop, arith}
use tiramisu.Base.Eq.{codes, string_eq, str_eq}
use tiramisu.Base.GoMap.{lookup, insert, delete}
use tiramisu.Base.Int.{ℤ, pos, negsuc}
use tiramisu.Vfs.Segment.{segment_read, segment_inode_hash, digits}
use tiramisu.Vfs.Segment.Reads.{served, track_bytes, segment_read-slice}
use tiramisu.Vfs.DirCache.{
  DirCache, generation, invalidate, put_listing, put_if_generation, get_listing,
}
use tiramisu.Vfs.DirCache.Generations.{
  Call, deleted, stored, read, call, run, bump, bumps, put_if_generation-fresh,
}

abbrev tv : DirCache ℕ
tv = record { cache = []; generations = []; ttl = 30 }

-- While the directory is read, another path is stored and this one deleted.
abbrev others : List (Call ℕ)
others = stored (codes "movies") 4 10 ∷ deleted (codes "tv") ∷ read (codes "movies") 90 ∷ []

bumps-others : bumps (codes "tv") others tv ≡ 1
unfolding bumps bump call put_listing invalidate get_listing lookup insert delete str_eq
bumps-others = refl

put_if_generation-fresh_example :
    (bumps (codes "tv") others tv ≡ 0
      → put_if_generation (codes "tv") 7 (generation (codes "tv") tv) 20 (run others tv)
        ≡ (put_listing (codes "tv") 7 20 (run others tv), true))
    × (0 < bumps (codes "tv") others tv
        → put_if_generation (codes "tv") 7 (generation (codes "tv") tv) 20 (run others tv)
          ≡ (run others tv, false))
unfolding generation lookup
put_if_generation-fresh_example =
    put_if_generation-fresh (codes "tv") 7 20 others tv (omega arith) (omega (arith, bumps-others))

-- Two bytes of header before two bytes from the third of an image of six.
segment_read-slice_example :
    ((off n : ℕ)
      → served {A = ℕ}
          (1 ∷ 2 ∷ [])
          (10 ∷ 11 ∷ 12 ∷ 13 ∷ 14 ∷ 15 ∷ [])
          (segment_read 2 2 2 (pos off) (pos n))
        ≡ take n
            (drop off (track_bytes {A = ℕ} (1 ∷ 2 ∷ []) (10 ∷ 11 ∷ 12 ∷ 13 ∷ 14 ∷ 15 ∷ []) 2 2)))
    × ((k : ℕ) (z : ℤ)
        → (served {A = ℕ}
              (1 ∷ 2 ∷ [])
              (10 ∷ 11 ∷ 12 ∷ 13 ∷ 14 ∷ 15 ∷ [])
              (segment_read 2 2 2 (negsuc k) z)
            ≡ [])
          × (served {A = ℕ}
                (1 ∷ 2 ∷ [])
                (10 ∷ 11 ∷ 12 ∷ 13 ∷ 14 ∷ 15 ∷ [])
                (segment_read 2 2 2 z (negsuc k))
              ≡ []))
segment_read-slice_example =
    segment_read-slice {A = ℕ} (1 ∷ 2 ∷ []) (10 ∷ 11 ∷ 12 ∷ 13 ∷ 14 ∷ 15 ∷ []) 2 2

spanning :
    served {A = ℕ}
      (1 ∷ 2 ∷ [])
      (10 ∷ 11 ∷ 12 ∷ 13 ∷ 14 ∷ 15 ∷ [])
      (segment_read 2 2 2 (pos 1) (pos 9))
    ≡ 2 ∷ 12 ∷ 13 ∷ []
unfolding segment_read tiramisu.Vfs.Segment.segment_parts
spanning = refl

hash_of_track : segment_inode_hash (codes "ab") (pos 12) ≡ codes "ab#c12"
unfolding segment_inode_hash digits
hash_of_track = refl
