-- ===== src/Vfs/Inodes/Valid.antt =====
-- inodemap.go: an inode depends on what it names, and on nothing else.
use tiramisu.Base.{
  ℕ, ◌≡◌, refl, sym, ap, ◌∙◌, inl, inr, Bool, true, ◌||◌, some, List, [], ◌∷◌, ◌==◌, arith,
  Bool-cases, Option-cases, length,
}
use tiramisu.Base.Eq.{GoString, codes, str_eq, str_eq_iff, string_eq, ◌=?◌, =?_iff}
use tiramisu.Base.GoMap.{Map, lookup, lookup-insert, lookup-delete}
use tiramisu.Base.Int.{ℤ}
use tiramisu.Vfs.Inodes.{
  InodeMap, new_inode_map, file_key, masked, generate_file_inode, generate_dir_inode, store_file,
  add_file, add_dir, get_file_inode, get_file_inode_by_name, get_dir_inode, remove_file, missing,
  remove_files, prune_missing,
}

pub data InodeCall : Type 0 where
  adds_file : GoString → GoString → ℤ → InodeCall
  adds_dir asks_file asks_name asks_dir removes_file : GoString → InodeCall
  prunes : Map GoString Bool → InodeCall

module _ (sum_64 : GoString → ℕ) (lower base : GoString → GoString) where
  abbrev pub perform : InodeCall → InodeMap → InodeMap
  perform (adds_file path infohash index) im = (add_file sum_64 lower base path infohash index im).0
  perform (adds_dir path) im = (add_dir sum_64 lower base path im).0
  perform (asks_file path) im = (get_file_inode sum_64 lower base path im).0
  perform (asks_name name) im = (get_file_inode_by_name sum_64 lower base name im).0
  perform (asks_dir path) im = (get_dir_inode sum_64 lower base path im).0
  perform (removes_file path) im = remove_file sum_64 lower base path im
  perform (prunes found) im = (prune_missing sum_64 lower base found im).0

  abbrev pub perform_all : List InodeCall → InodeMap → InodeMap
  perform_all [] im = im
  perform_all (c ∷ cs) im = perform_all cs (perform c im)

  -- Each stored inode is the one that is computed from its key or its path.
  pub record IsStable (im : InodeMap) : Type 0 where
    pub files :
        (key : GoString) (v : ℕ)
        → lookup key im.file_map ≡ some v
        → v ≡ masked sum_64 lower base key
    pub dirs :
        (path : GoString) (v : ℕ)
        → lookup path im.dir_map ≡ some v
        → v ≡ generate_dir_inode sum_64 lower base path

  store_file-IsStable :
      (path key : GoString) (im : InodeMap)
      → IsStable im
      → IsStable (store_file sum_64 lower base path key (masked sum_64 lower base key) im)
  unfolding store_file
  store_file-IsStable path key im s = record {
    files = λ k v h. elim (Bool-cases (key =? k)) [
      | inl e ↦
          let same : key ≡ k = (=?_iff key k).0 e in
          let value : masked sum_64 lower base key ≡ v =
            ground (arith, h, e, lookup-insert key k (masked sum_64 lower base key) im.file_map) in
          sym value ∙ ap (masked sum_64 lower base) same
      | inr e ↦
          s.files k v
            (ground (arith, h, e, lookup-insert key k (masked sum_64 lower base key) im.file_map))
    ];
    dirs = s.dirs;
  }

  add_file-IsStable :
      (path infohash : GoString) (index : ℤ) (im : InodeMap)
      → IsStable im
      → IsStable (add_file sum_64 lower base path infohash index im).0
  unfolding add_file generate_file_inode
  add_file-IsStable path infohash index im s =
      let key = file_key sum_64 lower base infohash index in
      elim (Bool-cases (str_eq infohash [])) [
        | inl e ↦ rw (e, add_file) s
        | inr e ↦ elim (Option-cases (lookup path im.name_map)) [
          | inl n ↦ rw (e, add_file, n) (store_file-IsStable path key im s)
          | inr (old, n) ↦ elim (Bool-cases (str_eq old key)) [
            | inl q ↦ rw (e, add_file, n, q) s
            | inr q ↦ rw (e, add_file, n, q) (store_file-IsStable path key im s)
          ]
        ]
      ]

  add_dir-IsStable :
      (path : GoString) (im : InodeMap)
      → IsStable im
      → IsStable (add_dir sum_64 lower base path im).0
  unfolding add_dir
  add_dir-IsStable path im s = elim (Option-cases (lookup path im.dir_map)) [
    | inr (v, e) ↦ rw (e, add_dir) s
    | inl e ↦
        rw (e, add_dir)
          (record {
            files = s.files;
            dirs = λ k v h. elim (Bool-cases (path =? k)) [
              | inl q ↦
                  let same : path ≡ k = (=?_iff path k).0 q in
                  let value : generate_dir_inode sum_64 lower base path ≡ v = ground (
                    arith,
                    h,
                    q,
                    lookup-insert path k (generate_dir_inode sum_64 lower base path) im.dir_map,
                  ) in
                  sym value ∙ ap (generate_dir_inode sum_64 lower base) same
              | inr q ↦ s.dirs k v (
                  ground (
                    arith,
                    h,
                    q,
                    lookup-insert path k (generate_dir_inode sum_64 lower base path) im.dir_map,
                  ))
            ];
          })
  ]

  remove_file-IsStable :
      (path : GoString) (im : InodeMap)
      → IsStable im
      → IsStable (remove_file sum_64 lower base path im)
  unfolding remove_file
  remove_file-IsStable path im s = elim (Option-cases (lookup path im.name_map)) [
    | inl e ↦ rw (e, remove_file) s
    | inr (key, e) ↦
        rw (e, remove_file)
          (record {
            files = λ k v h. s.files k v (ground (arith, h, lookup-delete key k im.file_map));
            dirs = s.dirs;
          })
  ]

  remove_files-IsStable :
      (paths : List GoString) (im : InodeMap)
      → IsStable im
      → IsStable (remove_files sum_64 lower base paths im)
  unfolding remove_files
  remove_files-IsStable [] im s = s
  remove_files-IsStable (p ∷ ps) im s =
      remove_files-IsStable ps (remove_file sum_64 lower base p im) (remove_file-IsStable p im s)

  -- The counters and the flag do not matter.
  same_maps :
      (im im' : InodeMap)
      → im'.file_map ≡ im.file_map
      → im'.dir_map ≡ im.dir_map
      → IsStable im
      → IsStable im'
  same_maps im im' f d s = record {
    files = λ k v h. s.files k v (sym (ap (λ m. lookup k m) f) ∙ h);
    dirs = λ p v h. s.dirs p v (sym (ap (λ m. lookup p m) d) ∙ h);
  }

  get_dir_inode-IsStable :
      (path : GoString) (im : InodeMap)
      → IsStable im
      → IsStable (get_dir_inode sum_64 lower base path im).0
  unfolding get_dir_inode
  get_dir_inode-IsStable path im s = elim (Bool-cases (str_eq path (codes "/") || str_eq path [])) [
    | inl e ↦ rw (e, get_dir_inode) s
    | inr e ↦ elim (Option-cases (lookup path im.dir_map)) [
      | inl n ↦ rw (e, get_dir_inode, n) (add_dir-IsStable path im s)
      | inr (v, n) ↦ rw (e, get_dir_inode, n) s
    ]
  ]

  perform-IsStable : (c : InodeCall) (im : InodeMap) → IsStable im → IsStable (perform c im)
  unfolding get_file_inode get_file_inode_by_name prune_missing
  perform-IsStable (adds_file path infohash index) im s = add_file-IsStable path infohash index im s
  perform-IsStable (adds_dir path) im s = add_dir-IsStable path im s
  perform-IsStable (removes_file path) im s = remove_file-IsStable path im s
  perform-IsStable (asks_file path) im s =
      same_maps im (get_file_inode sum_64 lower base path im).0 (ground arith) (ground arith) s
  perform-IsStable (asks_name name) im s =
      same_maps im (get_file_inode_by_name sum_64 lower base name im).0 (ground arith)
        (ground arith) s
  perform-IsStable (asks_dir path) im s = get_dir_inode-IsStable path im s
  perform-IsStable (prunes found) im s =
      let gone = missing sum_64 lower base found im.name_map in
      let left = remove_files-IsStable gone im s in
      elim (Bool-cases (length gone == 0)) [
        | inl e ↦ rw e left
        | inr e ↦ rw e (
            same_maps (remove_files sum_64 lower base gone im)
              (record (remove_files sum_64 lower base gone im) { dirty = true }) refl refl left)
      ]

  pub perform_all-IsStable :
      (calls : List InodeCall) (im : InodeMap) → IsStable im → IsStable (perform_all calls im)
  perform_all-IsStable [] im s = s
  perform_all-IsStable (c ∷ cs) im s =
      perform_all-IsStable cs (perform c im) (perform-IsStable c im s)

  pub new-IsStable : IsStable new_inode_map
  unfolding new_inode_map lookup generate_dir_inode
  new-IsStable = record {
    files = λ k v h. absurd (cc h);
    dirs = λ p v h. elim (Bool-cases (str_eq (codes "/") p)) [
      | inl e ↦
          let same : codes "/" ≡ p = (str_eq_iff (codes "/") p).0 e in
          ground (arith, h, e, (str_eq_iff p (codes "/")).1 (sym same))
      | inr e ↦ absurd (ground (arith, h, e))
    ];
  }
