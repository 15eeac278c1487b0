-- ===== src/Collector/Archive.antt =====
-- The extraction of an archive from a pod and the decompression of the files in it:
-- `extractTarFile`, `ensureWithinDir`, `tarHeaderFileMode`, `DecompressGzInDir` and
-- `decompressGzFile`.
pub mod Within
pub mod Bounded
pub mod Unpacked
use tvk_plugins.Base.{
  ℕ, zero, suc, String, Bool, true, false, Option, none, some, List, [], ◌∷◌, if◌then◌else◌, ltb,
  ◌<>◌, ◌==◌, ◌||◌, ◌+◌, ◌*◌, ◌-◌, ◌^◌, starts_with, length,
}
use tvk_plugins.Action.{
  Error, Result, ok, err, Action, failure, message, pure, raise, lift, attempt, ◌>>=◌, ◌>>◌,
}
use tvk_plugins.Text.{ends_with, trim_suffix}
use tvk_plugins.Paths.{clean, join_path, dir, rel}
use tvk_plugins.Paths.Relative.{leaves}
use tvk_plugins.Collector.Host.{
  ℤ, pos, negsuc, Bytes, Objects, Host, Header, Typeflag, TarStream, end_of_archive, broken_archive,
  entry, type_dir, type_reg, type_other, GzipStream, Visit, visit_dir, visit_file, visit_error,
  Session, Change, directory, file, bytes, removal, ask, change,
}

abbrev pub max_tar_file_bytes : ℕ
max_tar_file_bytes = 100 * 1024 * 1024

abbrev pub max_gzip_file_bytes : ℕ
max_gzip_file_bytes = 50 * 1024 * 1024

-- What `ensureWithinDir` says of the relative path.
abbrev pub accept : String → Result String → Result String
accept target (err e) = err (failure ("failed to compute relative path: " <> message e))
accept target (ok r) =
    if leaves r
    then err (failure ("illegal file path outside destination: " <> target))
    else ok target

unfoldable pub ensure_within_dir : String → String → Result String
ensure_within_dir base target = accept (clean target) (rel (clean base) (clean target))

unfoldable pub tar_header_file_mode : ℤ → Result ℕ
tar_header_file_mode (negsuc n) = err (failure "invalid tar file mode")
tar_header_file_mode (pos n) =
    if ltb (2 ^ 32 - 1) n then err (failure "invalid tar file mode") else ok n

-- The tests on `hdr.Size`: how many bytes are copied.
unfoldable pub checked_size : String → ℤ → Result ℕ
checked_size name (negsuc n) = err (failure ("invalid negative file size for " <> name))
checked_size name (pos n) =
    if ltb max_tar_file_bytes n
    then err (failure ("tar file " <> name <> " exceeds allowed size"))
    else ok n

abbrev pub take : ℕ → Bytes → Bytes
take zero bs = []
take (suc n) [] = []
take (suc n) (b ∷ bs) = b ∷ take n bs

-- Go's error of a copy: what the reader reports, if it stops before the wanted bytes are there.
abbrev pub stopped_early : Option Error → Result (Unit {0})
stopped_early none = err (failure "EOF")
stopped_early (some e) = err e

abbrev pub copy_error : ℕ → Bytes → Option Error → Result (Unit {0})
copy_error n body stopped = if ltb (length body) n then stopped_early stopped else ok tt

abbrev pub stream_error : Option Error → Result (Unit {0})
stream_error none = ok tt
stream_error (some e) = err e

abbrev renamed : String → Result ℕ → Result ℕ
renamed name (ok n) = ok n
renamed name (err e) = err (failure (name <> ": " <> message e))

module _ {O : Objects} (H : Host O) where
  abbrev mkdir : String → ℕ → Action (Session H) (Unit {0})
  mkdir path mode = change H (directory path mode) (H.mkdir_all path mode)

  -- The case `tar.TypeReg`.
  unfoldable pub extract_regular : Header → String → ℕ → Action (Session H) (Unit {0})
  unfolding checked_size
  extract_regular h target mode = do
    n ← lift (checked_size h.name h.size)
    mkdir (dir target) 0o755
    change H (file target) (H.open_file target mode)
    change H (bytes target (take n h.body)) (H.write target (take n h.body))
    lift (copy_error n h.body h.body_error)

  -- The switch on `hdr.Typeflag`.
  unfoldable pub extract_as : Typeflag → Header → String → ℕ → Action (Session H) (Unit {0})
  unfolding extract_regular
  extract_as type_dir h target mode = mkdir target mode
  extract_as type_reg h target mode = extract_regular h target mode
  extract_as type_other h target mode = pure tt

  -- One round of the loop.
  unfoldable pub extract_entry : String → Header → Action (Session H) (Unit {0})
  unfolding ensure_within_dir tar_header_file_mode extract_as
  extract_entry dest h = do
    target ← lift (ensure_within_dir dest (join_path (dest ∷ clean h.name ∷ [])))
    mode ← lift (renamed h.name (tar_header_file_mode h.mode))
    extract_as h.typeflag h target mode

  unfoldable pub extract_entries : String → TarStream → Action (Session H) (Unit {0})
  unfolding extract_entry
  extract_entries dest end_of_archive = pure tt
  extract_entries dest (broken_archive e) = raise e
  extract_entries dest (entry h rest) = do extract_entry dest h; extract_entries dest rest

  unfoldable pub extract_tar_file : String → String → Action (Session H) (Unit {0})
  unfolding extract_entries
  extract_tar_file tar_path dest = do
    ask H (H.open_read tar_path)
    stream ← ask H (λ s. let (t, s') = H.read_tar tar_path s in (ok t, s'))
    extract_entries dest stream

  -- A removal whose answer is not looked at.
  unfoldable pub remove_quietly : String → Action (Session H) (Unit {0})
  remove_quietly path = do r ← attempt (change H (removal path) (H.remove path)); pure tt

  -- `io.Copy` from the limited reader: one byte more than the cap at most. An error of the stream is
  -- seen only if the stream stops before that.
  unfoldable pub copy_capped : String → GzipStream → Action (Session H) ℕ
  copy_capped out g = do
    let written = take (max_gzip_file_bytes + 1) g.content
    change H (bytes out written) (H.write out written)
    lift (if ltb max_gzip_file_bytes (length g.content) then ok tt else stream_error g.broken)
    pure (length written)

  -- The output and, as the deferred call does in all cases, the source are removed.
  unfoldable pub give_up : String → String → Error → Action (Session H) (Unit {0})
  unfolding remove_quietly
  give_up path out e = do remove_quietly out; remove_quietly path; raise e

  -- What follows the copy.
  unfoldable pub settle : String → String → Result ℕ → Action (Session H) (Unit {0})
  unfolding give_up
  settle path out (err e) = give_up path out e
  settle path out (ok written) =
      if ltb max_gzip_file_bytes written
      then give_up path out (failure ("decompressed output exceeds limit: " <> out))
      else remove_quietly path

  unfoldable pub unpack : String → GzipStream → Action (Session H) (Unit {0})
  unfolding copy_capped settle
  unpack path g = do
    let out = trim_suffix path ".gz"
    change H (file out) (H.create out)
    r ← attempt (copy_capped out g)
    settle path out r

  -- What is no gzip file is left alone.
  abbrev pub unpack_valid : String → Result GzipStream → Action (Session H) (Unit {0})
  unpack_valid path (err e) = pure tt
  unpack_valid path (ok g) = unpack path g

  unfoldable pub decompress_gz_file : String → Action (Session H) (Unit {0})
  unfolding unpack
  decompress_gz_file path = do
    ask H (H.open_read path)
    g ← attempt (ask H (H.read_gzip path))
    unpack_valid path g

  unfoldable pub visit_all : List Visit → Action (Session H) (Unit {0})
  unfolding decompress_gz_file
  visit_all [] = pure tt
  visit_all (visit_error e ∷ vs) = raise e
  visit_all (visit_dir p ∷ vs) = visit_all vs
  visit_all (visit_file p ∷ vs) = do
    if ends_with p ".gz" then decompress_gz_file p else pure tt
    visit_all vs

  unfoldable pub decompress_gz_in_dir : String → Action (Session H) (Unit {0})
  unfolding visit_all
  decompress_gz_in_dir root = do
    visits ← ask H (λ s. let (v, s') = H.walk root s in (ok v, s'))
    visit_all visits
