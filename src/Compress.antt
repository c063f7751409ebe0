-- ===== src/Compress.antt =====
-- pkg/prepare/compress/compress.go: the names of the compression types.
use aeroflare.Base.{
  ◌≡◌, refl, ◌||◌, Option, none, some, if◌then◌else◌, ◌==◌, text_beq, Text, codes, text_eq,
}

-- `Type`, of which only the constants are made.
pub data CompressionType : Type 0 where
  no_compression xz gzip zstd : CompressionType

-- The text of a `Type`.
unfoldable pub type_name : CompressionType → Text
type_name no_compression = codes "none"
type_name xz = codes "xz"
type_name gzip = codes "gzip"
type_name zstd = codes "zstd"

-- `Extension`.
unfoldable pub extension : CompressionType → Text
extension no_compression = codes "nar"
extension xz = codes "nar.xz"
extension gzip = codes "nar.gz"
extension zstd = codes "nar.zst"

-- `ParseType`.
unfoldable pub parse_type : Text → Option CompressionType
parse_type s =
    if s == codes "none"
    then some no_compression
    else if s == codes "xz"
    then some xz
    else if s == codes "gzip" || s == codes "gz"
    then some gzip
    else if s == codes "zstd" || s == codes "zst"
    then some zstd
    else none

-- The text of a type is read back.
parse_type-type_name : (t : CompressionType) → parse_type (type_name t) ≡ some t
unfolding parse_type type_name text_beq
parse_type-type_name no_compression = refl
parse_type-type_name xz = refl
parse_type-type_name gzip = refl
parse_type-type_name zstd = refl
