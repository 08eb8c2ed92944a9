-- ===== src/Manifest.antt =====
-- data_stores/manifest.rs: the list of the live files, its form on disk, and its optimistic update.
mod Tests
pub mod RoundTrip
pub mod Update
pub mod Commits
use easy_lsm.Base.{
  ℕ, zero, suc, ◌+◌, ◌%◌, ◌^◌, ◌<◌, List, [], ◌∷◌, ◌++◌, length, Bool, true, false, ltb, ◌==◌, not,
  if◌then◌else◌, Option, none, some, ◌≡◌, All,
}
use easy_lsm.Error.{
  Result, DbError, ok, err, io, IoError, not_found, other, manifest_corrupted, manifest_read_error,
}
use easy_lsm.Codec.{Bytes, Reader, pure, fail, ◌>>=◌, ◌>>◌, read_exact, Loggable, u32, vec}
use easy_lsm.Key
use easy_lsm.Key.{Key}
use easy_lsm.Wal
use easy_lsm.Directory
use easy_lsm.Directory.{Directory, mf, mf_tmp, wal, sst}

abbrev pub manifest_magic : ℕ
manifest_magic = 0x4d53_4c45

abbrev pub manifest_format_version : ℕ
manifest_format_version = 0

pub record FileMetadata : Type 0 where
  pub file_id : ℕ
  pub file_size : ℕ
  pub min_key : Key
  pub max_key : Key

pub record Level : Type 0 where
  pub files : List FileMetadata

pub record Manifest : Type 0 where
  pub wals : List ℕ
  pub levels : List Level
  pub next_wal_id : ℕ
  pub next_sstable_id : ℕ
  pub version : ℕ

encode_file : FileMetadata → Bytes
encode_file f =
    u32.encode f.file_id
    ++ (u32.encode f.file_size ++ (Key.loggable.encode f.min_key ++ Key.loggable.encode f.max_key))

decode_file : Reader FileMetadata
decode_file = do
  file_id ← u32.decode
  file_size ← u32.decode
  min_key ← Key.loggable.decode
  max_key ← Key.loggable.decode
  pure (record { file_id = file_id; file_size = file_size; min_key = min_key; max_key = max_key })

unfoldable pub file_loggable : Loggable FileMetadata
unfolding encode_file decode_file
file_loggable = record { encode = encode_file; decode = decode_file }

encode_level : Level → Bytes
encode_level l = (vec file_loggable).encode l.files

decode_level : Reader Level
decode_level = do files ← (vec file_loggable).decode; pure (record { files = files })

unfoldable pub level_loggable : Loggable Level
unfolding encode_level decode_level
level_loggable = record { encode = encode_level; decode = decode_level }

-- `Manifest::new`
unfoldable pub new : ℕ → Manifest
new initial_wal_id = record {
  wals = initial_wal_id ∷ [];
  levels = [];
  next_wal_id = initial_wal_id + 1;
  next_sstable_id = 0;
  version = 0;
}

-- The body that the checksum covers.
unfoldable pub encode_body : Manifest → Bytes
encode_body m = (vec u32).encode m.wals ++ (vec level_loggable).encode m.levels

decode_body : Reader Manifest
decode_body = do
  wals ← (vec u32).decode
  levels ← (vec level_loggable).decode
  pure (record { wals = wals; levels = levels; next_wal_id = 0; next_sstable_id = 0; version = 0 })

-- The body is read from its own buffer, and what it leaves there is dropped.
of_buffer : Bytes → Result Manifest
unfolding decode_body
of_buffer body_buf = elim (decode_body body_buf) [ ok (m, rest) ↦ ok m | err e ↦ err e ]

require : Bool → Reader (Unit {0})
require test = fail (if test then ok tt else err manifest_corrupted)

-- `iter().max().unwrap_or(0)`
unfoldable pub max_of : List ℕ → ℕ
max_of [] = 0
max_of (x ∷ xs) = let m = max_of xs in if ltb m x then x else m

unfoldable pub ids : List FileMetadata → List ℕ
ids [] = []
ids (f ∷ fs) = f.file_id ∷ ids fs

unfoldable pub file_ids : List Level → List ℕ
unfolding ids
file_ids [] = []
file_ids (l ∷ ls) = ids l.files ++ file_ids ls

-- What other threads do to the shared manifest, and to the files, between the writing of a manifest
-- and its commit, in the attempt before the last `k` of an update. They use the same directory: an
-- update that starts from the same version writes the same temporary file.
pub record Meanwhile : Type 0 where
  pub manifest : ℕ → Manifest → Manifest
  pub files : ℕ → Directory → Directory

-- Other threads leave the tables alone.
abbrev pub KeepTables : Meanwhile → Type 0
KeepTables others =
    (k id : ℕ) (d : Directory)
    → Directory.read (sst id) (others.files k d) ≡ Directory.read (sst id) d

-- Other threads do not write the temporary files of manifests, unless they commit a version before
-- the attempt is over.
abbrev pub KeepStaged : Meanwhile → Type 0
KeepStaged others =
    (k v : ℕ) (m : Manifest) (d : Directory)
    → (others.manifest k m).version ≡ m.version
    → Directory.read (mf_tmp v) (others.files k d) ≡ Directory.read (mf_tmp v) d

-- The highest version among the manifest files.
unfoldable pub latest : Directory → Option ℕ
latest [] = none
latest ((mf v, file) ∷ d) = elim (latest d) [
  | none ↦ some v
  | some u ↦ some (if ltb u v then v else u)
]
latest ((n, file) ∷ d) = latest d

module _ (crc32 : Bytes → ℕ) where
  encode_manifest : Manifest → Bytes
  encode_manifest m =
      let body_buf = encode_body m in
      u32.encode manifest_magic
      ++ (u32.encode (crc32 body_buf)
          ++ (u32.encode (length body_buf % 2 ^ 32)
              ++ (u32.encode manifest_format_version
                  ++ (u32.encode (length m.wals % 2 ^ 32)
                      ++ (u32.encode (length m.levels % 2 ^ 32) ++ body_buf)))))

  -- The stages of `Manifest::decode`: the body, the two counts, the format version, the sizes.
  read_body : ℕ → ℕ → Reader Manifest
  unfolding require of_buffer
  read_body checksum size = do
    body_buf ← read_exact size
    require (crc32 body_buf == checksum)
    fail (of_buffer body_buf)

  read_counts : ℕ → ℕ → Reader Manifest
  unfolding read_body
  read_counts checksum size = do
    num_wals ← u32.decode
    num_levels ← u32.decode
    read_body checksum size

  read_version : ℕ → ℕ → Reader Manifest
  unfolding read_counts require
  read_version checksum size = do
    format_version ← u32.decode
    require (format_version == manifest_format_version)
    read_counts checksum size

  read_sizes : Reader Manifest
  unfolding read_version
  read_sizes = do checksum ← u32.decode; size ← u32.decode; read_version checksum size

  decode_manifest : Reader Manifest
  unfolding read_sizes require
  decode_manifest = do magic ← u32.decode; require (magic == manifest_magic); read_sizes

  unfoldable pub loggable : Loggable Manifest
  unfolding encode_manifest decode_manifest
  loggable = record { encode = encode_manifest; decode = decode_manifest }

  -- `try_open` of the file `{version}.mf`.
  unfoldable pub try_open : ℕ → Directory → Result Manifest
  unfolding max_of file_ids
  try_open version d = elim (Directory.read (mf version) d) [
    | none ↦ err (io not_found)
    | some file ↦ elim (loggable.decode file) [
      | err e ↦ err e
      | ok (m, rest) ↦ ok (record m {
        version = version;
        next_wal_id = max_of m.wals + 1;
        next_sstable_id = max_of (file_ids m.levels) + 1;
      })
    ]
  ]

  -- `write_to_disk`, without the failures of the file system.
  unfoldable pub write_to_disk : Manifest → ℕ → Directory → Directory
  write_to_disk m version d = Directory.put (mf version) (loggable.encode m) d

  -- `Wal::open` for writing, in the directory.
  unfoldable pub open_wal : ℕ → Directory → Result Directory
  open_wal id d = elim (Directory.read (wal id) d) [
    | none ↦ ok (Directory.put (wal id) (u32.encode Wal.wal_magic) d)
    | some file ↦ elim (Wal.open_writable file) [
      | ok file' ↦ ok (Directory.put (wal id) file' d)
      | err e ↦ err e
    ]
  ]

  unfoldable pub prepare_pristine_start : Directory → Result (Manifest × Directory)
  unfolding open_wal write_to_disk
  prepare_pristine_start d = elim (open_wal 0 d) [
    | ok d' ↦ ok (new 0, write_to_disk (new 0) 0 d')
    | err e ↦ err e
  ]

  unfoldable pub recover_or_init : Directory → Result (Manifest × Directory)
  unfolding latest try_open prepare_pristine_start
  recover_or_init d = elim (latest d) [
    | none ↦ prepare_pristine_start d
    | some version ↦ elim (try_open version d) [
      | ok m ↦ ok (m, d)
      | err e ↦ err (manifest_read_error "Failed to open manifest")
    ]
  ]

  unfoldable pub commit_new_wal : ℕ → Manifest × Directory → Manifest × Directory
  unfolding write_to_disk
  commit_new_wal wal_id (m, d) =
      let pushed = record m { wals = m.wals ++ (wal_id ∷ []) } in
      (record pushed { version = m.version + 1 }, write_to_disk pushed (m.version + 1) d)

  -- `apply_atomic_update`, where `rename` fails on a file that is not there.
  unfoldable pub attempts :
      ℕ
      → (Manifest → Directory → Result (Manifest × Directory))
      → Meanwhile
      → Manifest
      → Directory
      → Result Manifest × Manifest × Directory
  attempts zero mutator others shared d =
      (err (io (other "Manifest commit loop exceeded retry limit")), shared, d)
  attempts (suc k) mutator others shared d = elim (mutator shared d) [
    | err e ↦ (err e, shared, d)
    | ok (mutated, d1) ↦
        let candidate = record mutated { version = mutated.version + 1 } in
        let file = loggable.encode candidate in
        let d2 = Directory.put (mf_tmp candidate.version) file d1 in
        let shared' = others.manifest k shared in
        let d3 = others.files k d2 in
        let d4 = Directory.remove (mf_tmp candidate.version) d3 in
        let retry = attempts k mutator others shared' d4 in
        if shared'.version == shared.version
        then elim (Directory.read (mf_tmp candidate.version) d3) [
          | none ↦ (err (io not_found), shared', d4)
          | some staged ↦ (ok candidate, candidate, Directory.put (mf candidate.version) staged d4)
        ]
        else retry
  ]

  unfoldable pub apply_atomic_update :
      (Manifest → Directory → Result (Manifest × Directory))
      → Meanwhile
      → Manifest
      → Directory
      → Result Manifest × Manifest × Directory
  unfolding attempts
  apply_atomic_update mutator others shared d = attempts 3 mutator others shared d

abbrev pub FileFits : FileMetadata → Type 0
FileFits f = (f.file_id < 2 ^ 32) × (f.file_size < 2 ^ 32) × Key.Fits f.min_key × Key.Fits f.max_key

abbrev pub LevelFits : Level → Type 0
LevelFits l = (length l.files < 2 ^ 32) × All FileFits l.files

-- Each list and number fits the 32 bits that are written of it.
pub record Fits (m : Manifest) : Type 0 where
  pub wal_ids : All (λ (id : ℕ). id < 2 ^ 32) m.wals
  pub wal_count : length m.wals < 2 ^ 32
  pub level_count : length m.levels < 2 ^ 32
  pub level_sizes : All LevelFits m.levels
  pub body_size : length (encode_body m) < 2 ^ 32
