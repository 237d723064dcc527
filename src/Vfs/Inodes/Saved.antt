-- ===== src/Vfs/Inodes/Saved.antt =====
-- inodemap.go: the JSON form of the map, without its time stamp. The printing and the reading of a number
-- are arguments, and so are `json.MarshalIndent` and `json.Unmarshal`; a file is its bytes. A loop over a map takes its entries from the last to
-- the first.
use tiramisu.Base.{
  ℕ, ◌<◌, ◌≡◌, refl, sym, ap, ◌∙◌, inl, inr, true, false, Option, none, some, [], ◌∷◌, ◌==◌,
  if◌then◌else◌, arith, Bool-cases, Option-cases,
}
use tiramisu.Base.Eq.{GoString, str_eq, str_eq_iff, string_eq, =?_iff}
use tiramisu.Base.GoMap.{Map, lookup, insert, lookup-insert, Unique}
use tiramisu.Vfs.Inodes.{InodeMap}

pub record InodeMapData : Type 0 where
  pub version : ℕ
  pub files : Map GoString GoString
  pub dirs : Map GoString GoString
  pub filename_index : Map GoString GoString

-- The form of the first version, with the inodes as numbers.
pub record InodeMapDataV1 : Type 0 where
  pub version : ℕ
  pub files : Map GoString ℕ
  pub dirs : Map GoString ℕ
  pub filename_index : Map GoString GoString

-- The inodes are numbers of 64 bits.
abbrev pub Small : Map GoString ℕ → Type 0
Small [] = Unit
Small ((k, v) ∷ m) = (v < 18446744073709551616) × Small m

module _ (format : ℕ → GoString) (parse : GoString → Option ℕ) (base : GoString → GoString) where
  unfoldable pub printed : Map GoString ℕ → Map GoString GoString
  printed [] = []
  printed ((k, v) ∷ m) = (k, format v) ∷ printed m

  unfoldable pub saved_data : InodeMap → InodeMapData
  unfolding printed
  saved_data im = record {
    version = 2;
    files = printed im.file_map;
    dirs = printed im.dir_map;
    filename_index = im.name_map;
  }

  -- `saveToJSON` with `json.MarshalIndent`, where the file can be written; none is an error of the encoder.
  unfoldable pub save_to_json :
      {Bytes : Type 0} → (InodeMapData → Option Bytes) → InodeMap → InodeMap × Option Bytes
  unfolding saved_data
  save_to_json marshal im = elim (marshal (saved_data im)) [
    | none ↦ (im, none)
    | some file ↦ (record im { dirty = false }, some file)
  ]

  -- `tempFileMap`
  unfoldable pub temp_files : Map GoString GoString → Map GoString ℕ
  temp_files [] = []
  temp_files ((k, v) ∷ m) = elim (parse v) [
    | none ↦ temp_files m
    | some inode ↦ insert k inode (temp_files m)
  ]

  unfoldable pub add_loaded_file : (path key : GoString) → ℕ → InodeMap → InodeMap
  add_loaded_file path key inode im = record im {
    name_map = insert path key im.name_map;
    file_map = insert key inode im.file_map;
    fast_file_map = insert (base path) inode im.fast_file_map;
  }

  unfoldable pub load_files : Map GoString ℕ → Map GoString GoString → InodeMap → InodeMap
  unfolding add_loaded_file
  load_files temp [] im = im
  load_files temp ((path, key) ∷ m) im = elim (lookup key temp) [
    | none ↦ load_files temp m im
    | some inode ↦ add_loaded_file path key inode (load_files temp m im)
  ]

  unfoldable pub load_dirs : Map GoString GoString → InodeMap → InodeMap
  load_dirs [] im = im
  load_dirs ((path, v) ∷ m) im = elim (parse v) [
    | none ↦ load_dirs m im
    | some inode ↦
        let rest = load_dirs m im in record rest { dir_map = insert path inode rest.dir_map }
  ]

  -- The second version.
  unfoldable pub load_data : InodeMapData → InodeMap → InodeMap
  unfolding temp_files load_files load_dirs
  load_data data_ im =
      load_dirs data_.dirs (load_files (temp_files data_.files) data_.filename_index im)

  unfoldable pub load_dirs_v1 : Map GoString ℕ → InodeMap → InodeMap
  load_dirs_v1 [] im = im
  load_dirs_v1 ((path, inode) ∷ m) im =
      let rest = load_dirs_v1 m im in record rest { dir_map = insert path inode rest.dir_map }

  unfoldable pub load_data_v1 : InodeMapDataV1 → InodeMap → InodeMap
  unfolding load_files load_dirs_v1
  load_data_v1 data_ im =
      if data_.version == 1
      then record (load_dirs_v1 data_.dirs (load_files data_.files data_.filename_index im)) {
        dirty = true;
      }
      else im

  -- `loadFromJSON` of the bytes of a file, with `json.Unmarshal` into the two forms; none is its error.
  unfoldable pub load_from_json :
      {Bytes : Type 0}
      → (Bytes → Option InodeMapData)
      → (Bytes → Option InodeMapDataV1)
      → Bytes
      → InodeMap
      → Option InodeMap
  unfolding load_data load_data_v1
  load_from_json unmarshal unmarshal_v1 file im =
      let first : Option InodeMap = elim (unmarshal_v1 file) [
        | none ↦ none
        | some data_ ↦ some (load_data_v1 data_ im)
      ] in
      elim (unmarshal file) [
        | none ↦ first
        | some data_ ↦ if data_.version == 2 then some (load_data data_ im) else first
      ]

  module _ (reads : (v : ℕ) → v < 18446744073709551616 → parse (format v) ≡ some v) where
    Small-lookup :
        (m : Map GoString ℕ) (k : GoString) (v : ℕ)
        → Small m
        → lookup k m ≡ some v
        → v < 18446744073709551616
    unfolding lookup
    Small-lookup [] k v b h = absurd (cc h)
    Small-lookup ((j, w) ∷ m) k v b h = ground (arith, b.0, Small-lookup m k v b.1)

    -- A map that was printed, in another order, is read back.
    abbrev pub Copies : Map GoString GoString → Map GoString ℕ → Type 0
    Copies f m = Unique f × ((k : GoString) → lookup k f ≡ lookup k (printed m))

    lookup-printed :
        (m : Map GoString ℕ) (k : GoString)
        → lookup k (printed m) ≡ (elim (lookup k m) [ none ↦ none | some v ↦ some (format v) ])
    unfolding printed lookup
    lookup-printed [] k = refl
    lookup-printed ((j, v) ∷ m) k = ground (arith, lookup-printed m k)

    temp_files-lookup :
        (f : Map GoString GoString) (k : GoString)
        → Unique f
        → lookup k (temp_files f) ≡ (elim (lookup k f) [ none ↦ none | some v ↦ parse v ])
    unfolding temp_files lookup
    temp_files-lookup [] k u = refl
    temp_files-lookup ((j, v) ∷ f) k u =
        let rest = temp_files-lookup f k u.1 in
        elim (Option-cases (parse v)) [
          | inl e ↦ rw (e, temp_files) (ground (arith, e, rest, u.0, =?_iff j k))
          | inr (n, e) ↦
              rw (e, temp_files)
                (lookup-insert j k n (temp_files f) ∙ ground (arith, e, rest, =?_iff j k))
        ]

    pub temp_files-printed :
        (f : Map GoString GoString) (m : Map GoString ℕ) (k : GoString)
        → Copies f m
        → Small m
        → lookup k (temp_files f) ≡ lookup k m
    temp_files-printed f m k c b =
        let found = c.1 k ∙ lookup-printed m k in
        elim (Option-cases (lookup k m)) [
          | inl e ↦ ground (arith, temp_files-lookup f k c.0, found, e)
          | inr (v, e) ↦
              ground (arith, temp_files-lookup f k c.0, found, e, reads v (Small-lookup m k v b e))
        ]

    -- One more entry.
    load_files-cons :
        (temp : Map GoString ℕ) (p k path : GoString) (m : Map GoString GoString) (im : InodeMap)
        → lookup path (load_files temp ((p, k) ∷ m) im).name_map ≡ (elim (lookup k temp) [
          | none ↦ lookup path (load_files temp m im).name_map
          | some inode ↦
              if str_eq p path then some k else lookup path (load_files temp m im).name_map
        ])
    unfolding load_files add_loaded_file
    load_files-cons temp p k path m im = elim (Option-cases (lookup k temp)) [
      | inl e ↦ rw (e, load_files) refl
      | inr (v, e) ↦ rw (e, load_files) (lookup-insert p path k (load_files temp m im).name_map)
    ]

    pub load_files-none :
        (temp : Map GoString ℕ) (m : Map GoString GoString) (im : InodeMap) (path : GoString)
        → lookup path m ≡ none
        → lookup path (load_files temp m im).name_map ≡ lookup path im.name_map
    unfolding load_files lookup
    load_files-none temp [] im path h = refl
    load_files-none temp ((p, k) ∷ m) im path h =
        load_files-cons temp p k path m im ∙ ground (arith, h, load_files-none temp m im path)

    -- A path whose key has no inode is not loaded.
    pub load_files-lost :
        (temp : Map GoString ℕ) (m : Map GoString GoString) (im : InodeMap) (path key : GoString)
        → Unique m
        → lookup path m ≡ some key
        → lookup key temp ≡ none
        → lookup path (load_files temp m im).name_map ≡ lookup path im.name_map
    unfolding lookup
    load_files-lost temp [] im path key u h n = absurd (cc h)
    load_files-lost temp ((p, k) ∷ m) im path key u h n =
        load_files-cons temp p k path m im
        ∙ ground (
          arith,
          h,
          n,
          u.0,
          str_eq_iff p path,
          load_files-none temp m im path,
          load_files-lost temp m im path key u.1,
        )

    pub load_files-some :
        (temp : Map GoString ℕ) (m : Map GoString GoString) (im : InodeMap) (path key : GoString)
        (v : ℕ)
        → lookup path m ≡ some key
        → lookup key temp ≡ some v
        → (lookup path (load_files temp m im).name_map ≡ some key)
          × (lookup key (load_files temp m im).file_map ≡ some v)
    unfolding load_files add_loaded_file lookup
    load_files-some temp [] im path key v h n = absurd (cc h)
    load_files-some temp ((p, k) ∷ m) im path key v h n = elim (Bool-cases (str_eq p path)) [
      | inl e ↦
          let same : k ≡ key = ground (arith, h, e) in
          let there : lookup k temp ≡ some v = ap (λ x. lookup x temp) same ∙ n in
          (
            load_files-cons temp p k path m im ∙ ground (arith, there, e, same),
            rw (there, load_files)
                (lookup-insert k key v (load_files temp m im).file_map
                  ∙ ground (arith, (=?_iff k key).1 same)),
          )
      | inr e ↦
          let rest = load_files-some temp m im path key v (ground (arith, h, e)) n in
          (
            load_files-cons temp p k path m im ∙ ground (arith, e, rest.0),
            elim (Option-cases (lookup k temp)) [
              | inl l ↦ rw (l, load_files) (rest.1)
              | inr (w, l) ↦
                  rw (l, load_files)
                    (lookup-insert k key w (load_files temp m im).file_map ∙ later k w l rest.1)
            ],
          )
    ]
      where
        later :
            (k : GoString) (w : ℕ)
            → lookup k temp ≡ some w
            → lookup key (load_files temp m im).file_map ≡ some v
            → (if str_eq k key then some w else lookup key (load_files temp m im).file_map) ≡ some v
        later k w l r = elim (Bool-cases (str_eq k key)) [
          | inl e ↦
              let same : k ≡ key = (str_eq_iff k key).0 e in
              rw e (sym l ∙ ap (λ x. lookup x temp) same ∙ n)
          | inr e ↦ rw e r
        ]

    load_dirs-lookup :
        (f : Map GoString GoString) (im : InodeMap) (path : GoString)
        → Unique f
        → lookup path (load_dirs f im).dir_map
          ≡ (elim (elim (lookup path f) as (λ _. Option ℕ) [ none ↦ none | some v ↦ parse v ]) [
            | none ↦ lookup path im.dir_map
            | some n ↦ some n
          ])
    unfolding load_dirs lookup
    load_dirs-lookup [] im path u = refl
    load_dirs-lookup ((p, v) ∷ f) im path u =
        let rest = load_dirs-lookup f im path u.1 in
        elim (Option-cases (parse v)) [
          | inl e ↦ rw (e, load_dirs) (ground (arith, e, rest, u.0, =?_iff p path))
          | inr (n, e) ↦
              rw (e, load_dirs)
                (lookup-insert p path n (load_dirs f im).dir_map
                  ∙ ground (arith, e, rest, =?_iff p path))
        ]

    pub load_dirs-printed :
        (f : Map GoString GoString) (m : Map GoString ℕ) (im : InodeMap) (path : GoString)
        → Copies f m
        → Small m
        → lookup path (load_dirs f im).dir_map
          ≡ (elim (lookup path m) [ none ↦ lookup path im.dir_map | some v ↦ some v ])
    load_dirs-printed f m im path c b =
        let found = c.1 path ∙ lookup-printed m path in
        let all = load_dirs-lookup f im path c.0 in
        elim (Option-cases (lookup path m)) [
          | inl e ↦ ground (arith, all, found, e)
          | inr (v, e) ↦ ground (arith, all, found, e, reads v (Small-lookup m path v b e))
        ]

    pub load_dirs-files :
        (m : Map GoString GoString) (im : InodeMap)
        → ((load_dirs m im).name_map ≡ im.name_map) × ((load_dirs m im).file_map ≡ im.file_map)
    unfolding load_dirs
    load_dirs-files [] im = (refl, refl)
    load_dirs-files ((p, v) ∷ m) im = elim (Option-cases (parse v)) [
      | inl e ↦ rw (e, load_dirs) (load_dirs-files m im)
      | inr (n, e) ↦ rw (e, load_dirs) (load_dirs-files m im)
    ]

    pub load_files-dirs :
        (temp : Map GoString ℕ) (m : Map GoString GoString) (im : InodeMap)
        → (load_files temp m im).dir_map ≡ im.dir_map
    unfolding load_files add_loaded_file
    load_files-dirs temp [] im = refl
    load_files-dirs temp ((p, k) ∷ m) im = elim (Option-cases (lookup k temp)) [
      | inl e ↦ rw (e, load_files) (load_files-dirs temp m im)
      | inr (n, e) ↦ rw (e, load_files) (load_files-dirs temp m im)
    ]
