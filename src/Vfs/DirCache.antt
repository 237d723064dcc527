-- ===== src/Vfs/DirCache.antt =====
-- internal/vfs/dircache.go: the cache of directory listings. Paths are strings, times nanoseconds,
-- a generation is a 64-bit counter, and a listing is an opaque value.
pub mod Generations
use tiramisu.Base.{
  ℕ, ◌+◌, ◌%◌, ◌^◌, Bool, true, false, Option, none, some, [], ◌∷◌, ltb, ◌==◌, if◌then◌else◌,
}
use tiramisu.Base.Eq.{GoString, string_eq}
use tiramisu.Base.GoMap.{Map, lookup, insert, delete}

pub record DirCacheEntry (E : Type 0) : Type 0 where
  pub entries : E
  pub expires_at : ℕ

pub record DirCache (E : Type 0) : Type 0 where
  pub cache : Map GoString (DirCacheEntry E)
  pub generations : Map GoString ℕ
  pub ttl : ℕ

module _ {E : Type 0} where
  unfoldable pub new_dir_cache : ℕ → DirCache E
  new_dir_cache ttl = record { cache = []; generations = []; ttl = ttl }

  -- `Generation`; a path that was never invalidated reads as zero.
  unfoldable pub generation : GoString → DirCache E → ℕ
  generation path dc = elim (lookup path dc.generations) [ none ↦ 0 | some g ↦ g ]

  -- `Delete`
  unfoldable pub invalidate : GoString → DirCache E → DirCache E
  unfolding generation
  invalidate path dc = record dc {
    cache = delete path dc.cache;
    generations = insert path ((generation path dc + 1) % 2 ^ 64) dc.generations;
  }

  -- `putLocked`
  unfoldable pub put_listing : GoString → E → ℕ → DirCache E → DirCache E
  put_listing path entries now dc = record dc {
    cache = insert path (record { entries = entries; expires_at = now + dc.ttl }) dc.cache;
  }

  unfoldable pub put_if_generation : GoString → E → ℕ → ℕ → DirCache E → DirCache E × Bool
  put_if_generation path entries g now dc =
      if generation path dc == g then (put_listing path entries now dc, true) else (dc, false)

  -- `Get`; an expired entry is invalidated on the way.
  unfoldable pub get_listing : GoString → ℕ → DirCache E → DirCache E × Option E
  get_listing path now dc = elim (lookup path dc.cache) [
    | none ↦ (dc, none)
    | some entry ↦
        if ltb entry.expires_at now then (invalidate path dc, none) else (dc, some entry.entries)
  ]

  unfoldable pub without_expired :
      ℕ → Map GoString (DirCacheEntry E) → Map GoString (DirCacheEntry E)
  without_expired now [] = []
  without_expired now ((path, entry) ∷ m) =
      if ltb entry.expires_at now
      then without_expired now m
      else (path, entry) ∷ without_expired now m

  -- `CleanupExpired`
  unfoldable pub cleanup_listings : ℕ → DirCache E → DirCache E
  unfolding without_expired
  cleanup_listings now dc = record dc { cache = without_expired now dc.cache }
