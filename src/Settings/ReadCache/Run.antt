-- ===== src/Settings/ReadCache/Run.antt =====
-- dbreadcache.go: a run of calls, one after the other.
use tiramisu.Base.{◌≡◌, ap, ◌∙◌, Bool, Option, none, List, [], ◌∷◌}
use tiramisu.Settings.ReadCache.{GoStormDb, ReadCache}
use tiramisu.Settings.ReadCache.Agrees.{Memo, Refines}
use tiramisu.Settings.ReadCache.Refines.{Call, Answer, call, Told}

-- A database of which nothing was told yet.
abbrev pub untold : {D : Type 0} → D → Memo D
untold d = record { database = d; told = []; listed = [] }

module _ {D : Type 0} (db : GoStormDb D) (read_only : Bool) where
  unfoldable pub run : List Call → ReadCache D → ReadCache D × List Answer
  run [] c = (c, [])
  run (op ∷ ops) c =
      let step = call db read_only op c in let rest = run ops step.0 in (rest.0, step.1 ∷ rest.1)

  -- The answers of a run of calls, each of which may be given after the ones before it.
  abbrev pub ToldAll : List Call → Option (Memo D) → List Answer → Option (Memo D) → Type 0
  ToldAll [] o [] o' = o ≡ o'
  ToldAll [] o (a ∷ rest) o' = ⊥
  ToldAll (op ∷ ops) o [] o' = ⊥
  ToldAll (op ∷ ops) o (a ∷ rest) o' =
      (between : Option (Memo D)) × Told db read_only op o a between × ToldAll ops between rest o'
