-- ===== src/Vfs/Inodes/Restart.antt =====
-- inodemap.go: a map that is saved and loaded again.
use tiramisu.Base.{
  ℕ, ◌<◌, ◌≡◌, refl, sym, ap, ◌∙◌, inl, inr, Bool, true, [], ◌∷◌, Option, none, some, arith,
  Bool-cases, Option-cases,
}
use tiramisu.Base.Eq.{GoString, codes, str_eq, str_eq_iff, string_eq}
use tiramisu.Base.GoMap.{Map, lookup, Unique}
use tiramisu.Vfs.Inodes.{
  InodeMap, inode_root, new_inode_map, get_file_inode, get_dir_inode, add_dir,
}
use tiramisu.Vfs.Inodes.Saved.{
  InodeMapData, InodeMapDataV1, Small, saved_data, save_to_json, temp_files, load_files, load_data,
  load_from_json, temp_files-printed, load_files-none, load_files-lost, load_files-some,
  load_dirs-printed, load_dirs-files, load_files-dirs,
}

-- Each key stands once in the maps of the data.
abbrev pub IsMap : InodeMapData → Type 0
IsMap d = Unique d.files × Unique d.dirs × Unique d.filename_index

abbrev AllText : (GoString → Bool) → Map GoString GoString → Type 0
AllText is_utf8 [] = Unit
AllText is_utf8 ((k, v) ∷ m) = (is_utf8 k ≡ true) × (is_utf8 v ≡ true) × AllText is_utf8 m

-- All strings of the data are valid UTF-8.
abbrev pub IsText : (GoString → Bool) → InodeMapData → Type 0
IsText is_utf8 d =
    AllText is_utf8 d.files × AllText is_utf8 d.dirs × AllText is_utf8 d.filename_index

abbrev SameMap : Map GoString GoString → Map GoString GoString → Type 0
SameMap m m' = Unique m' × ((k : GoString) → lookup k m' ≡ lookup k m)

-- The same version and the same entries, in whatever order.
pub record SameData (d d' : InodeMapData) : Type 0 where
  pub version : d.version ≡ d'.version
  pub files : SameMap d.files d'.files
  pub dirs : SameMap d.dirs d'.dirs
  pub names : SameMap d.filename_index d'.filename_index

-- What encoding/json says of maps of valid UTF-8 strings: they are encoded, and the bytes are decoded to the
-- same entries.
abbrev pub ReadsBack :
    {Bytes : Type 0}
    → (InodeMapData → Option Bytes)
    → (Bytes → Option InodeMapData)
    → (GoString → Bool)
    → Type 0
ReadsBack {Bytes} marshal unmarshal is_utf8 =
    (d : InodeMapData)
    → IsMap d
    → IsText is_utf8 d
    → (file : Bytes) × (d' : InodeMapData) × (marshal d ≡ some file)
      × (unmarshal file ≡ some d')
      × SameData d d'

module _ (sum_64 : GoString → ℕ) (lower base : GoString → GoString) where
  abbrev pub file_inode : GoString → InodeMap → ℕ
  file_inode path im = (get_file_inode sum_64 lower base path im).1

  abbrev pub dir_inode : GoString → InodeMap → ℕ
  dir_inode path im = (get_dir_inode sum_64 lower base path im).1

  file_inode-none :
      (path : GoString) (im : InodeMap) → lookup path im.name_map ≡ none → file_inode path im ≡ 0
  unfolding get_file_inode
  file_inode-none path im e = ground (arith, e)

  file_inode-lost :
      (path key : GoString) (im : InodeMap)
      → lookup path im.name_map ≡ some key
      → lookup key im.file_map ≡ none
      → file_inode path im ≡ 0
  unfolding get_file_inode
  file_inode-lost path key im e n = ground (arith, e, n)

  file_inode-some :
      (path key : GoString) (v : ℕ) (im : InodeMap)
      → lookup path im.name_map ≡ some key
      → lookup key im.file_map ≡ some v
      → file_inode path im ≡ v
  unfolding get_file_inode
  file_inode-some path key v im e n = ground (arith, e, n)

  -- The answer for a directory depends only on what the map holds of its path.
  dir_inode_cong :
      (path : GoString) (im im' : InodeMap)
      → lookup path im.dir_map ≡ lookup path im'.dir_map
      → dir_inode path im ≡ dir_inode path im'
  unfolding get_dir_inode add_dir
  dir_inode_cong path im im' h = elim (Option-cases (lookup path im'.dir_map)) [
    | inl e ↦ ground (arith, h, e)
    | inr (v, e) ↦ ground (arith, h, e)
  ]

  dir_inode_root :
      (path : GoString) (im : InodeMap)
      → str_eq path (codes "/") ≡ true
      → dir_inode path im ≡ inode_root
  unfolding get_dir_inode
  dir_inode_root path im h = ground (arith, h)

  module _ (format : ℕ → GoString) (parse : GoString → Option ℕ)
      (reads : (v : ℕ) → v < 18446744073709551616 → parse (format v) ≡ some v) where
    -- What the loading makes of data.
    abbrev loaded : InodeMapData → InodeMap
    loaded d = load_data format parse base d new_inode_map

    -- The inodes that the loading reads.
    abbrev temp : InodeMapData → Map GoString ℕ
    temp d = temp_files format parse base d.files

    loaded_files :
        (im : InodeMap) (d : InodeMapData)
        → SameData (saved_data format parse base im) d
        → Small im.dir_map
        → let files = load_files format parse base (temp d) d.filename_index new_inode_map in
          ((loaded d).name_map ≡ files.name_map)
          × ((loaded d).file_map ≡ files.file_map)
          × ((path : GoString)
              → lookup path (loaded d).dir_map ≡ (elim (lookup path im.dir_map) [
                | none ↦ lookup path new_inode_map.dir_map
                | some v ↦ some v
              ]))
    unfolding load_data saved_data
    loaded_files im d s small =
        let files = load_files format parse base (temp d) d.filename_index new_inode_map in
        let same = load_dirs-files format parse base reads d.dirs files in
        (
          same.0,
          same.1,
          λ path.
              load_dirs-printed format parse base reads d.dirs im.dir_map files path s.dirs small
              ∙ ap
                  (λ m. elim (lookup path im.dir_map) as (λ _. Option ℕ) [
                    | none ↦ lookup path m
                    | some v ↦ some v
                  ])
                  (load_files-dirs format parse base reads (temp d) d.filename_index new_inode_map),
        )

    restarted_file :
        (im : InodeMap) (d : InodeMapData)
        → SameData (saved_data format parse base im) d
        → Small im.file_map
        → Small im.dir_map
        → (path : GoString) → file_inode path (loaded d) ≡ file_inode path im
    unfolding new_inode_map lookup saved_data
    restarted_file im d s b e_ path =
        let maps = loaded_files im d s e_ in
        let nowhere : lookup path new_inode_map.name_map ≡ none = refl in
        let at_path = ap (λ m. lookup path m) maps.0 in
        elim (Option-cases (lookup path im.name_map)) [
          | inl e ↦
              file_inode-none path (loaded d) (
                at_path
                ∙ load_files-none format parse base reads (temp d) d.filename_index new_inode_map
                    path (s.names.1 path ∙ e)
                ∙ nowhere)
              ∙ sym (file_inode-none path im e)
          | inr (key, e) ↦
              let read =
                temp_files-printed format parse base reads d.files im.file_map key s.files b in
              elim (Option-cases (lookup key im.file_map)) [
                | inl n ↦
                    file_inode-none path (loaded d) (
                      at_path
                      ∙ load_files-lost format parse base reads (temp d) d.filename_index
                          new_inode_map path key s.names.0 (s.names.1 path ∙ e) (read ∙ n)
                      ∙ nowhere)
                    ∙ sym (file_inode-lost path key im e n)
                | inr (v, n) ↦
                    let found =
                      load_files-some format parse base reads (temp d) d.filename_index
                        new_inode_map path key v (s.names.1 path ∙ e) (read ∙ n) in
                    file_inode-some path key v (loaded d) (at_path ∙ found.0)
                      (ap (λ m. lookup key m) maps.1 ∙ found.1)
                    ∙ sym (file_inode-some path key v im e n)
              ]
        ]

    restarted_dir :
        (im : InodeMap) (d : InodeMapData)
        → SameData (saved_data format parse base im) d
        → Small im.dir_map
        → (path : GoString) → dir_inode path (loaded d) ≡ dir_inode path im
    unfolding new_inode_map lookup
    restarted_dir im d s b path = elim (Bool-cases (str_eq path (codes "/"))) [
      | inl e ↦ dir_inode_root path (loaded d) e ∙ sym (dir_inode_root path im e)
      | inr e ↦
          let new_dir : lookup path new_inode_map.dir_map ≡ none =
            ground (arith, e, str_eq_iff path (codes "/"), str_eq_iff (codes "/") path) in
          dir_inode_cong path (loaded d) im (
            (loaded_files im d s b).2 path ∙ elim (Option-cases (lookup path im.dir_map)) [
              | inl n ↦ ground (arith, n, new_dir)
              | inr (v, n) ↦ ground (arith, n)
            ])
    ]

    -- If the numbers of 64 bits are read as they were printed, and the JSON form of maps of valid UTF-8 strings is
    -- read back as it was written, then a map whose inodes are such numbers and whose paths and keys are
    -- valid UTF-8 is encoded, and a new map that loads the bytes answers for each path of a file, and for
    -- each path of a directory, as the saved map does.
    pub load_from_json-save :
        {Bytes : Type 0} (marshal : InodeMapData → Option Bytes)
        (unmarshal : Bytes → Option InodeMapData) (unmarshal_v1 : Bytes → Option InodeMapDataV1)
        (is_utf8 : GoString → Bool)
        → ReadsBack marshal unmarshal is_utf8
        → (im : InodeMap) → IsMap (saved_data format parse base im)
        → IsText is_utf8 (saved_data format parse base im)
        → Small im.file_map
        → Small im.dir_map
        → (file : Bytes) × (im' : InodeMap) × ((save_to_json format parse base marshal im).1
            ≡ some file)
          × (load_from_json format parse base unmarshal unmarshal_v1 file new_inode_map ≡ some im')
          × ((path : GoString)
              → (file_inode path im' ≡ file_inode path im)
                × (dir_inode path im' ≡ dir_inode path im))
    unfolding save_to_json load_from_json
    load_from_json-save marshal unmarshal unmarshal_v1 is_utf8 law im u text b c =
        let (file, d, written, decoded, same) = law (saved_data format parse base im) u text in
        let version : d.version ≡ 2 = sym same.version in
        (
          file,
          loaded d,
          ground (arith, written),
          ground (arith, decoded, version),
          λ path. (restarted_file im d same b c path, restarted_dir im d same c path),
        )
