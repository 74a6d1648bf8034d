-- ===== src/Storage/Version.antt =====
-- ferrite-storage/src/version.rs: the versions of a row, and their on-disk chain.
pub mod RoundTrip
mod Examples
use ferrite.Prelude.{ℕ, ◌%◌, ◌^◌, ◌<◌, List, [], ◌∷◌, length, if◌then◌else◌}
use ferrite.Common.Error.{Message, FerriteError, storage, Result, ok, err}
use ferrite.Storage.Codec.Reader.{Bytes, Reader, pure, ◌>>=◌, is_empty, take, u16, u32, u64, repeat}
use ferrite.Storage.Codec.Writer
use ferrite.Storage.Codec.Writer.{Writer}

abbrev pub no_txn : ℕ
no_txn = 0

pub record Version : Type 0 where
  pub xmin : ℕ
  pub xmax : ℕ
  pub bytes : Bytes

abbrev pub live : ℕ → Bytes → Version
live xmin bytes = record { xmin = xmin; xmax = no_txn; bytes = bytes }

encode_version : Writer → Version → Writer
encode_version w v = Writer.len_prefixed (Writer.u64 (Writer.u64 w v.xmin) v.xmax) v.bytes

encode_versions : Writer → List Version → Writer
encode_versions w [] = w
encode_versions w (v ∷ vs) = encode_versions (encode_version w v) vs

-- `versions.len() as u16` wraps.
pub encode_chain : List Version → Bytes
unfolding encode_versions encode_version
encode_chain versions = encode_versions (Writer.u16 [] (length versions % 2 ^ 16)) versions

abbrev pub trailing_bytes : FerriteError
trailing_bytes = storage (Message.text "corrupt version chain: trailing bytes")

read_version : Reader Version
read_version = do
  xmin ← u64
  xmax ← u64
  len ← u32
  bytes ← take len
  pure (record { xmin = xmin; xmax = xmax; bytes = bytes })

read_versions : Reader (List Version)
read_versions = do count ← u16; repeat count read_version

-- The test of `is_empty` behind the versions.
finish_chain : Result (List Version × Bytes) → Result (List Version)
finish_chain (ok (versions, rest)) = if is_empty rest then ok versions else err trailing_bytes
finish_chain (err e) = err e

pub decode_chain : Bytes → Result (List Version)
unfolding finish_chain read_versions read_version
decode_chain bytes = finish_chain (read_versions bytes)

-- Ids are u64, and a payload is below 4 GiB.
pub record IsVersion (v : Version) : Type 0 where
  pub xmin_u64 : v.xmin < 2 ^ 64
  pub xmax_u64 : v.xmax < 2 ^ 64
  pub len_u32 : length v.bytes < 2 ^ 32
