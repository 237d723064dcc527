-- ===== src/Vfs/Inodes/Shared.antt =====
-- inodemap.go: two paths with one content.
use tiramisu.Base.{ℕ, ◌≡◌, ◌≢◌, refl, ap, ◌∙◌, false, none, some, [], arith}
use tiramisu.Base.Eq.{GoString, str_eq, str_eq_iff, string_eq, =?_iff}
use tiramisu.Base.GoMap.{lookup, delete, lookup-delete}
use tiramisu.Base.Int.{ℤ}
use tiramisu.Vfs.Inodes.{
  InodeMap, file_key, generate_file_inode, add_file, get_file_inode, remove_file,
}

module _ (sum_64 : GoString → ℕ) (lower base : GoString → GoString) where
  get_file_inode_lost :
      (path key : GoString) (im : InodeMap)
      → lookup path im.name_map ≡ some key
      → lookup key im.file_map ≡ none
      → (get_file_inode sum_64 lower base path im).1 ≡ 0
  unfolding get_file_inode
  get_file_inode_lost path key im named lost = ground (arith, named, lost)

  add_file_again :
      (path infohash : GoString) (index : ℤ) (im : InodeMap)
      → infohash ≢ []
      → lookup path im.name_map ≡ some (file_key sum_64 lower base infohash index)
      → add_file sum_64 lower base path infohash index im
        ≡ (im, generate_file_inode sum_64 lower base infohash index)
  unfolding add_file
  add_file_again path infohash index im some_hash named =
      let key = file_key sum_64 lower base infohash index in
      let there : str_eq infohash [] ≡ false = ground (arith, some_hash, str_eq_iff infohash []) in
      rw (there, named, add_file, (str_eq_iff key key).1 refl) refl

  removed_maps :
      (path key : GoString) (im : InodeMap)
      → lookup path im.name_map ≡ some key
      → ((remove_file sum_64 lower base path im).name_map ≡ delete path im.name_map)
        × ((remove_file sum_64 lower base path im).file_map ≡ delete key im.file_map)
  unfolding remove_file
  removed_maps path key im named = rw (named, remove_file) (refl, refl)

  -- Of two paths with the content of one key, the removal of one takes the inode of the content away from
  -- the other: its path still leads to the key, its inode is not found any more, and adding it again,
  -- though it answers with the inode, changes nothing.
  pub remove_file-shared :
      (path other infohash : GoString) (index : ℤ) (im : InodeMap)
      → infohash ≢ []
      → path ≢ other
      → lookup path im.name_map ≡ some (file_key sum_64 lower base infohash index)
      → lookup other im.name_map ≡ some (file_key sum_64 lower base infohash index)
      → let after = remove_file sum_64 lower base path im in
        ((get_file_inode sum_64 lower base other after).1 ≡ 0)
        × (add_file sum_64 lower base other infohash index after
            ≡ (after, generate_file_inode sum_64 lower base infohash index))
  remove_file-shared path other infohash index im named apart at_path at_other =
      let key = file_key sum_64 lower base infohash index in
      let kept : lookup other (delete path im.name_map) ≡ some key =
        lookup-delete path other im.name_map ∙ ground (arith, at_other, apart, =?_iff path other) in
      let lost : lookup key (delete key im.file_map) ≡ none =
        lookup-delete key key im.file_map ∙ ground (arith, =?_iff key key) in
      let after = remove_file sum_64 lower base path im in
      let maps = removed_maps path key im at_path in
      let name : lookup other after.name_map ≡ some key = ap (λ m. lookup other m) maps.0 ∙ kept in
      (
        get_file_inode_lost other key after name (ap (λ m. lookup key m) maps.1 ∙ lost),
        add_file_again other infohash index after named name,
      )
