-- ===== src/Tests/Inodes.antt =====
-- inodemap.go: a hash, a base name and a form of the numbers that can be run, and two paths of one file.
use tiramisu.Base.{
  ℕ, ◌+◌, ◌*◌, ◌%◌, ◌≡◌, ◌≢◌, refl, Bool, ltb, ◌&&◌, true, false, Option, none, some, List, [], ◌∷◌,
  arith,
}
use tiramisu.Base.Eq.{GoString, codes, str_eq, str_eq_iff, string_eq}
use tiramisu.Base.GoMap.{lookup, insert}
use tiramisu.Base.Int.{pos}
use tiramisu.Vfs.Segment.{digits}
use tiramisu.Vfs.Inodes.{
  InodeMap, new_inode_map, file_key, masked, generate_file_inode, store_file, add_file,
  get_file_inode, remove_file, prune_missing, missing, remove_files,
}
use tiramisu.Vfs.Inodes.Valid.{InodeCall, adds_file, adds_dir, asks_dir, perform_all}
use tiramisu.Vfs.Inodes.Answers.{FileAnswer, DirAnswer, perform_all-answers}
use tiramisu.Vfs.Inodes.Shared.{remove_file-shared}
use tiramisu.Vfs.Inodes.Restart.{file_inode, dir_inode, load_from_json-save}
use tiramisu.Vfs.Inodes.Saved.{InodeMapData, saved_data, printed, save_to_json, load_from_json}

abbrev sum : GoString → ℕ
sum [] = 5381
sum (c ∷ s) = (sum s * 33 + c) % 18446744073709551616

abbrev same : GoString → GoString
same s = s

abbrev format : ℕ → GoString
format n = n ∷ []

abbrev parse : GoString → Option ℕ
parse [] = none
parse (n ∷ s) = some n

abbrev calls : List InodeCall
calls =
    adds_file (codes "/m/a") (codes "ab") (pos 1)
    ∷ adds_file (codes "/m/b") (codes "ab") (pos 1)
    ∷ adds_dir (codes "m")
    ∷ asks_dir (codes "/")
    ∷ []

abbrev filled : InodeMap
filled = perform_all sum same same calls new_inode_map

perform_all-answers_example :
    FileAnswer sum same same (codes "/m/b") (perform_all sum same same calls new_inode_map)
    × DirAnswer sum same same (codes "/m/b") (perform_all sum same same calls new_inode_map)
perform_all-answers_example = perform_all-answers sum same same calls (codes "/m/b")

apart : (a b : GoString) → str_eq a b ≡ false → a ≢ b
apart a b h e = absurd (cc (h, (str_eq_iff a b).1 e))

remove_file-shared_example :
    ((get_file_inode sum same same
        (codes "/m/b")
        (remove_file sum same same (codes "/m/a") filled)).1
      ≡ 0)
    × (add_file sum same same
          (codes "/m/b")
          (codes "ab")
          (pos 1)
          (remove_file sum same same (codes "/m/a") filled)
        ≡ (
          remove_file sum same same (codes "/m/a") filled,
          generate_file_inode sum same same (codes "ab") (pos 1),
        ))
unfolding add_file file_key store_file generate_file_inode masked new_inode_map lookup insert str_eq
    digits tiramisu.Vfs.Inodes.add_dir tiramisu.Vfs.Inodes.get_dir_inode
    tiramisu.Vfs.Inodes.generate_dir_inode
remove_file-shared_example =
    remove_file-shared sum same same (codes "/m/a") (codes "/m/b") (codes "ab") (pos 1) filled
      (apart (codes "ab") [] refl) (apart (codes "/m/a") (codes "/m/b") refl) refl refl

-- A file that holds the data itself.
abbrev plain_file : InodeMapData → Option InodeMapData
plain_file d = some d

abbrev is_ascii : GoString → Bool
is_ascii [] = true
is_ascii (c ∷ s) = ltb c 128 && is_ascii s

abbrev small : InodeMap
small = record new_inode_map {
  name_map = (codes "/m/a", codes "ab:1") ∷ (codes "/m/b", codes "ab:1") ∷ [];
  file_map = (codes "ab:1", 77) ∷ [];
}

load_from_json-save_example :
    (file : InodeMapData) × (im' : InodeMap) × ((save_to_json format parse same plain_file small).1
      ≡ some file)
    × (load_from_json format parse same plain_file (λ f. none) file new_inode_map ≡ some im')
    × ((path : GoString)
        → (file_inode sum same same path im' ≡ file_inode sum same same path small)
          × (dir_inode sum same same path im' ≡ dir_inode sum same same path small))
unfolding saved_data printed new_inode_map lookup str_eq
load_from_json-save_example =
    load_from_json-save sum same same format parse (λ v b. refl) plain_file plain_file (λ f. none)
      is_ascii
      (λ d u t. (
        d,
        d,
        refl,
        refl,
        record {
          version = refl;
          files = (u.0, λ k. refl);
          dirs = (u.1, λ k. refl);
          names = (u.2, λ k. refl);
        },
      ))
      small ((refl, tt), (refl, tt), (refl, (refl, tt)))
      ((refl, refl, tt), (refl, refl, tt), (refl, refl, (refl, refl, tt))) (omega arith, tt)
      (omega arith, tt)

pruned : (prune_missing sum same same ((codes "/m/a", true) ∷ []) filled).1 ≡ 1
unfolding prune_missing missing remove_files add_file file_key store_file generate_file_inode masked
    new_inode_map lookup insert str_eq digits tiramisu.Vfs.Inodes.add_dir
    tiramisu.Vfs.Inodes.get_dir_inode tiramisu.Vfs.Inodes.generate_dir_inode
pruned = refl
