-- ===== src/Dump/Compression.antt =====
-- src/dump.rs: `Compression` and `detect`.
use rust_streamer_pgdb.Prelude.{◌&&◌, ◌==◌, false, true, [], Bool, ◌∷◌, if◌then◌else◌, Bytes, codes}

pub data Compression : Type 0 where
  uncompressed gzip zstd : Compression

-- `Compression::name`
unfoldable pub name : Compression → Bytes
name uncompressed = codes "none"
name gzip = codes "gzip"
name zstd = codes "zstd"

-- `slice.starts_with(prefix)`
unfoldable pub starts_with : Bytes → Bytes → Bool
starts_with s [] = true
starts_with [] (p ∷ ps) = false
starts_with (c ∷ s) (p ∷ ps) = c == p && starts_with s ps

abbrev pub gzip_magic : Bytes
gzip_magic = 0x1f ∷ 0x8b ∷ []

abbrev pub zstd_magic : Bytes
zstd_magic = 0x28 ∷ 0xb5 ∷ 0x2f ∷ 0xfd ∷ []

unfoldable pub detect : Bytes → Compression
unfolding starts_with
detect head =
    if starts_with head gzip_magic
    then gzip
    else if starts_with head zstd_magic
    then zstd
    else uncompressed
