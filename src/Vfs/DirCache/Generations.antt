-- ===== src/Vfs/DirCache/Generations.antt =====
-- dircache.go: the race between a walk of a directory and its invalidation.
use tiramisu.Base.{
  ℕ, ◌+◌, ◌%◌, ◌^◌, ◌≤◌, ◌<◌, ◌≡◌, ◌≢◌, ◌∙◌, true, false, none, some, List, [], ◌∷◌, ltb,
  if◌then◌else◌, arith,
}
use tiramisu.Base.Eq.{GoString, string_eq, ◌=?◌, =?_iff}
use tiramisu.Base.GoMap.{lookup, lookup-insert, lookup-delete}
use tiramisu.Vfs.DirCache.{
  DirCacheEntry, DirCache, generation, invalidate, put_listing, put_if_generation, get_listing,
  cleanup_listings,
}

-- The calls that other goroutines make while a directory is read.
pub data Call (E : Type 0) : Type 0 where
  deleted : GoString → Call E
  stored : GoString → E → ℕ → Call E
  tried : GoString → E → ℕ → ℕ → Call E
  read : GoString → ℕ → Call E
  cleaned : ℕ → Call E

module _ {E : Type 0} where
  unfoldable pub call : Call E → DirCache E → DirCache E
  unfolding invalidate put_listing put_if_generation get_listing cleanup_listings
  call (deleted path) dc = invalidate path dc
  call (stored path entries now) dc = put_listing path entries now dc
  call (tried path entries g now) dc = (put_if_generation path entries g now dc).0
  call (read path now) dc = (get_listing path now dc).0
  call (cleaned now) dc = cleanup_listings now dc

  unfoldable pub run : List (Call E) → DirCache E → DirCache E
  run [] dc = dc
  run (c ∷ calls) dc = run calls (call c dc)

  -- Whether a call invalidates the path: a `Delete` of it, or a `Get` that finds it expired.
  unfoldable pub bump : GoString → Call E → DirCache E → ℕ
  bump path (deleted p) dc = if p =? path then 1 else 0
  bump path (read p now) dc = elim (lookup p dc.cache) [
    | none ↦ 0
    | some entry ↦ if ltb entry.expires_at now then (if p =? path then 1 else 0) else 0
  ]
  bump path _ dc = 0

  unfoldable pub bumps : GoString → List (Call E) → DirCache E → ℕ
  bumps path [] dc = 0
  bumps path (c ∷ calls) dc = bump path c dc + bumps path calls (call c dc)

  generation-invalidate :
      (p path : GoString) (dc : DirCache E)
      → generation path (invalidate p dc)
        ≡ (if p =? path then (generation path dc + 1) % 2 ^ 64 else generation path dc)
  unfolding generation invalidate
  generation-invalidate p path dc =
      ground
        (arith, =?_iff p path, lookup-insert p path ((generation p dc + 1) % 2 ^ 64) dc.generations)

  generation-call :
      (path : GoString) (c : Call E) (dc : DirCache E)
      → generation path dc < 2 ^ 64
      → generation path (call c dc) ≡ (generation path dc + bump path c dc) % 2 ^ 64
  unfolding call bump put_listing put_if_generation get_listing cleanup_listings generation
  generation-call path (deleted p) dc h = ground (arith, generation-invalidate p path dc)
  generation-call path (stored p entries now) dc h = ground arith
  generation-call path (tried p entries g now) dc h = ground arith
  generation-call path (read p now) dc h = ground (arith, generation-invalidate p path dc)
  generation-call path (cleaned now) dc h = ground arith

  generation-run :
      (path : GoString) (calls : List (Call E)) (dc : DirCache E)
      → generation path dc < 2 ^ 64
      → generation path (run calls dc) ≡ (generation path dc + bumps path calls dc) % 2 ^ 64
  unfolding run bumps
  generation-run path [] dc h = omega arith
  generation-run path (c ∷ calls) dc h =
      let step = generation-call path c dc h in
      generation-run path calls (call c dc) (omega (arith, step)) ∙ omega (arith, step)

  -- A listing that was read while other calls ran is stored exactly if none of them invalidated the path,
  -- be it by a `Delete` or by a `Get` that found the entry expired; for fewer than 2 ^ 64
  -- invalidations. A listing that is refused changes nothing.
  pub put_if_generation-fresh :
      (path : GoString) (entries : E) (now : ℕ) (calls : List (Call E)) (dc : DirCache E)
      → generation path dc < 2 ^ 64
      → bumps path calls dc < 2 ^ 64
      → (bumps path calls dc ≡ 0
          → put_if_generation path entries (generation path dc) now (run calls dc)
            ≡ (put_listing path entries now (run calls dc), true))
        × (0 < bumps path calls dc
            → put_if_generation path entries (generation path dc) now (run calls dc)
              ≡ (run calls dc, false))
  unfolding put_if_generation
  put_if_generation-fresh path entries now calls dc g b = (
    λ none_. ground (arith, generation-run path calls dc),
    λ some_. ground (arith, generation-run path calls dc),
  )

  -- A stored listing is what `Get` answers until the time to live is over, and nothing once the path is
  -- invalidated; other paths keep their listing through both.
  pub get_listing-put :
      (path other : GoString) (entries : E) (now later : ℕ) (dc : DirCache E)
      → later ≤ now + dc.ttl
      → ((get_listing path later (put_listing path entries now dc)).1 ≡ some entries)
        × ((get_listing path later (invalidate path dc)).1 ≡ none)
        × (path ≢ other
            → ((get_listing other later (put_listing path entries now dc)).1
                ≡ (get_listing other later dc).1)
              × ((get_listing other later (invalidate path dc)).1 ≡ (get_listing other later dc).1))
  unfolding get_listing put_listing invalidate
  get_listing-put path other entries now later dc fresh =
      let e : DirCacheEntry E = record { entries = entries; expires_at = now + dc.ttl } in
      (
        ground (arith, lookup-insert path path e dc.cache, =?_iff path path),
        ground (arith, lookup-delete path path dc.cache, =?_iff path path),
        λ differ. (
          ground (arith, lookup-insert path other e dc.cache, =?_iff path other),
          ground (arith, lookup-delete path other dc.cache, =?_iff path other),
        ),
      )
