-- ===== src/Vfs/Inodes/Answers.antt =====
-- inodemap.go: what the lookups answer after any calls.
use tiramisu.Base.{
  ℕ, ◌+◌, ◌%◌, ◌≤◌, ◌<◌, ◌≡◌, refl, ◌∙◌, ◌⊎◌, inl, inr, ◌||◌, some, List, [], arith, Bool-cases,
  Option-cases,
}
use tiramisu.Base.Eq.{GoString, codes, str_eq, string_eq}
use tiramisu.Base.GoMap.{lookup}
use tiramisu.Vfs.Inodes.{
  InodeMap, new_inode_map, masked, generate_dir_inode, add_dir, get_file_inode, get_dir_inode,
}
use tiramisu.Vfs.Inodes.Valid.{InodeCall, perform_all, IsStable, perform_all-IsStable, new-IsStable}

module _ (sum_64 : GoString → ℕ) (lower base : GoString → GoString) where
  -- What the two lookups answer.
  abbrev pub FileAnswer : GoString → InodeMap → Type 0
  FileAnswer path im =
      let answer = (get_file_inode sum_64 lower base path im).1 in
      (answer ≡ 0)
      ⊎ ((key : GoString) × (lookup path im.name_map ≡ some key)
          × (answer ≡ masked sum_64 lower base key)
          × (answer < 9223372036854775808))

  abbrev pub DirAnswer : GoString → InodeMap → Type 0
  DirAnswer path im =
      let answer = (get_dir_inode sum_64 lower base path im).1 in
      (answer ≡ generate_dir_inode sum_64 lower base path)
      × ((answer ≡ 1) ⊎ (9223372036854775808 ≤ answer))

  file_answer :
      (path : GoString) (im : InodeMap) → IsStable sum_64 lower base im → FileAnswer path im
  unfolding get_file_inode masked
  file_answer path im s = elim (Option-cases (lookup path im.name_map)) [
    | inl e ↦ inl (ground (arith, e))
    | inr (key, e) ↦ elim (Option-cases (lookup key im.file_map)) [
      | inl n ↦ inl (ground (arith, e, n))
      | inr (v, n) ↦
          let value = s.files key v n in
          inr (key, e, ground (arith, e, n, value), ground (arith, e, n, value))
    ]
  ]

  dir_answer : (path : GoString) (im : InodeMap) → IsStable sum_64 lower base im → DirAnswer path im
  unfolding get_dir_inode add_dir generate_dir_inode
  dir_answer path im s = elim (Bool-cases (str_eq path (codes "/") || str_eq path [])) [
    | inl e ↦ rw e (refl, inl refl)
    | inr e ↦ elim (Option-cases (lookup path im.dir_map)) [
      | inl n ↦
          let value : (get_dir_inode sum_64 lower base path im).1
              ≡ sum_64 path % 9223372036854775808 + 9223372036854775808 =
            ground (arith, e, n) in
          (value ∙ ground (arith, e), inr (omega (arith, value)))
      | inr (v, n) ↦
          let value : v ≡ sum_64 path % 9223372036854775808 + 9223372036854775808 =
            s.dirs path v n ∙ ground (arith, e) in
          rw (e, n) (value, inr (omega (arith, value)))
    ]
  ]

  -- After any calls on a new map, a path of a file answers with nought or with the inode that its key
  -- alone determines, below 2 ^ 63; a path of a directory answers with the inode that the path alone
  -- determines, the root's or one from 2 ^ 63 on. Only the inode 1 can stand for both kinds.
  pub perform_all-answers :
      (calls : List InodeCall) (path : GoString)
      → FileAnswer path (perform_all sum_64 lower base calls new_inode_map)
        × DirAnswer path (perform_all sum_64 lower base calls new_inode_map)
  perform_all-answers calls path =
      let s =
        perform_all-IsStable sum_64 lower base calls new_inode_map
          (new-IsStable sum_64 lower base) in
      (
        file_answer path (perform_all sum_64 lower base calls new_inode_map) s,
        dir_answer path (perform_all sum_64 lower base calls new_inode_map) s,
      )
