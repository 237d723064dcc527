-- ===== src/Vfs/Inodes.antt =====
-- internal/vfs/inodemap.go: the inodes of files and directories. A key always falls into the same shard, so the
-- shards together are one map of each kind. The hash, the lower case and the base name of a path are
-- arguments, and a call is one step.
pub mod Valid
pub mod Answers
pub mod Shared
pub mod Saved
pub mod Restart
use tiramisu.Base.{
  ℕ, zero, suc, ◌+◌, ◌%◌, Bool, true, false, not, ◌&&◌, ◌||◌, Option, none, some, List, [], ◌∷◌,
  ◌++◌, length, ◌==◌, if◌then◌else◌,
}
use tiramisu.Base.Eq.{GoString, codes, str_eq, string_eq}
use tiramisu.Base.GoMap.{Map, lookup, insert, delete}
use tiramisu.Base.Int.{ℤ, pos, negsuc}
use tiramisu.Vfs.Segment.{digits}

pub record InodeMap : Type 0 where
  pub name_map : Map GoString GoString
  pub file_map : Map GoString ℕ
  pub fast_file_map : Map GoString ℕ
  pub dir_map : Map GoString ℕ
  pub dirty : Bool
  pub hits : ℕ
  pub misses : ℕ

abbrev pub inode_root : ℕ
inode_root = 1

-- The root's directory stands in the map from the start.
unfoldable pub new_inode_map : InodeMap
new_inode_map = record {
  name_map = [];
  file_map = [];
  fast_file_map = [];
  dir_map = (codes "/", inode_root) ∷ [];
  dirty = false;
  hits = 0;
  misses = 0;
}

-- `%d`
abbrev pub decimal : ℤ → GoString
decimal (pos n) = digits (suc n) n
decimal (negsuc n) = codes "-" ++ digits (suc (suc n)) (suc n)

abbrev pub or_zero : Option ℕ → ℕ
or_zero none = 0
or_zero (some n) = n

module _ (sum_64 : GoString → ℕ) (lower base : GoString → GoString) where
  unfoldable pub file_key : GoString → ℤ → GoString
  file_key infohash index = lower infohash ++ (codes ":" ++ decimal index)

  -- `& InodeFileMask`
  unfoldable pub masked : GoString → ℕ
  masked key = sum_64 key % 9223372036854775808

  unfoldable pub generate_file_inode : GoString → ℤ → ℕ
  unfolding file_key masked
  generate_file_inode infohash index = masked (file_key infohash index)

  -- `| InodeDirMask`
  unfoldable pub generate_dir_inode : GoString → ℕ
  generate_dir_inode path =
      if str_eq path (codes "/") || str_eq path []
      then inode_root
      else sum_64 path % 9223372036854775808 + 9223372036854775808

  unfoldable pub store_file : (path key : GoString) → ℕ → InodeMap → InodeMap
  store_file path key inode im = record im {
    name_map = insert path key im.name_map;
    file_map = insert key inode im.file_map;
    fast_file_map = insert (base path) inode im.fast_file_map;
    dirty = true;
  }

  unfoldable pub add_file : GoString → GoString → ℤ → InodeMap → InodeMap × ℕ
  unfolding file_key generate_file_inode store_file
  add_file path infohash index im =
      if str_eq infohash []
      then (im, 0)
      else (let key = file_key infohash index in
          let inode = generate_file_inode infohash index in
          elim (lookup path im.name_map) [
            | some existing ↦
                if str_eq existing key then (im, inode) else (store_file path key inode im, inode)
            | none ↦ (store_file path key inode im, inode)
          ])

  unfoldable pub add_dir : GoString → InodeMap → InodeMap × ℕ
  unfolding generate_dir_inode
  add_dir path im =
      let inode = generate_dir_inode path in
      elim (lookup path im.dir_map) [
        | some _ ↦ (im, inode)
        | none ↦ (record im { dir_map = insert path inode im.dir_map; dirty = true }, inode)
      ]

  unfoldable pub get_file_inode : GoString → InodeMap → InodeMap × ℕ
  get_file_inode path im =
      let found : Option ℕ = elim (lookup path im.name_map) [
        | none ↦ none
        | some key ↦ lookup key im.file_map
      ] in
      elim found [
        | some inode ↦ (record im { hits = im.hits + 1 }, inode)
        | none ↦ (record im { misses = im.misses + 1 }, 0)
      ]

  unfoldable pub get_file_inode_by_name : GoString → InodeMap → InodeMap × ℕ
  get_file_inode_by_name name im = elim (lookup name im.fast_file_map) [
    | some inode ↦ (record im { hits = im.hits + 1 }, inode)
    | none ↦ (record im { misses = im.misses + 1 }, 0)
  ]

  unfoldable pub get_dir_inode : GoString → InodeMap → InodeMap × ℕ
  unfolding add_dir
  get_dir_inode path im =
      if str_eq path (codes "/") || str_eq path []
      then (im, inode_root)
      else (elim (lookup path im.dir_map) [ some inode ↦ (im, inode) | none ↦ add_dir path im ])

  -- The base name is dropped if it still leads to the removed inode; a missing key reads as nought.
  unfoldable pub remove_file : GoString → InodeMap → InodeMap
  remove_file path im = elim (lookup path im.name_map) [
    | none ↦ im
    | some key ↦
        let target = or_zero (lookup key im.file_map) in
        let fast : Map GoString ℕ = elim (lookup (base path) im.fast_file_map) [
          | some inode ↦
              if inode == target then delete (base path) im.fast_file_map else im.fast_file_map
          | none ↦ im.fast_file_map
        ] in
        record im {
          name_map = delete path im.name_map;
          file_map = delete key im.file_map;
          fast_file_map = fast;
          dirty = true;
        }
  ]

  -- `PruneMissing`: the paths that were not found, and their removal from memory.
  unfoldable pub missing : Map GoString Bool → Map GoString GoString → List GoString
  missing found [] = []
  missing found ((path, key) ∷ m) = elim (lookup path found) [
    | some true ↦ missing found m
    | _ ↦ path ∷ missing found m
  ]

  unfoldable pub remove_files : List GoString → InodeMap → InodeMap
  unfolding remove_file
  remove_files [] im = im
  remove_files (path ∷ paths) im = remove_files paths (remove_file path im)

  unfoldable pub prune_missing : Map GoString Bool → InodeMap → InodeMap × ℕ
  unfolding missing remove_files
  prune_missing found im =
      let gone = missing found im.name_map in
      let im' = remove_files gone im in
      ((if length gone == 0 then im' else record im' { dirty = true }), length gone)
