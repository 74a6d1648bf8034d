-- ===== src/Storage/Version/RoundTrip.antt =====
-- Decoding a chain that `encode_chain` of ferrite-storage/src/version.rs wrote.
use native.Mathlib.Nat.{mod-eq_of_lt}
use ferrite.Prelude.{
  ◌%◌, ◌^◌, ◌<◌, ◌≡◌, refl, ◌∙◌, List, [], ◌∷◌, ◌++◌, arith, append_assoc, append-nil, length, All,
  ltb, if◌then◌else◌,
}
use ferrite.Common.Error.{ok, err}
use ferrite.Storage.Codec.Reader.{Bytes}
use ferrite.Storage.Codec.Reader.Parses.{
  Parses, Parses-map, Parses-bind, Parses-take, Parses-u32, Parses-u64, concat,
}
use ferrite.Storage.Codec.Reader.Counted.{counted, is_empty-unread, take-announced}
use ferrite.Storage.Codec.Writer
use ferrite.Storage.Codec.Writer.{to_le}
use ferrite.Storage.Version.{
  Version, IsVersion, encode_version, encode_versions, encode_chain, read_version, decode_chain,
  trailing_bytes,
}

-- What one version adds to the buffer.
abbrev version_bytes : Version → Bytes
version_bytes v =
    to_le 8 v.xmin ++ (to_le 8 v.xmax ++ (to_le 4 (length v.bytes % 2 ^ 32) ++ v.bytes))

encode_version-append : (w : Bytes) (v : Version) → encode_version w v ≡ w ++ version_bytes v
unfolding encode_version Writer.u64 Writer.u32 Writer.len_prefixed Writer.bytes
encode_version-append w v = simp append_assoc

encode_versions-append :
    (w : Bytes) (vs : List Version) → encode_versions w vs ≡ w ++ concat version_bytes vs
unfolding encode_versions
encode_versions-append w [] = simp append-nil
encode_versions-append w (v ∷ vs) =
    encode_versions-append (encode_version w v) vs
    ∙ rw (encode_version-append w v) (append_assoc w (version_bytes v) (concat version_bytes vs))

encode_chain-bytes :
    (vs : List Version) → encode_chain vs ≡ to_le 2 (length vs % 2 ^ 16) ++ concat version_bytes vs
unfolding encode_chain Writer.u16
encode_chain-bytes vs = encode_versions-append _ vs

Parses-version : (v : Version) → IsVersion v → Parses read_version (version_bytes v) v
unfolding read_version
Parses-version v h = Parses-bind _ (Parses-u64 v.xmin h.xmin_u64) (
    Parses-bind _ (Parses-u64 v.xmax h.xmax_u64) (
      rw (mod-eq_of_lt h.len_u32) (
        Parses-bind _ (Parses-u32 (length v.bytes) h.len_u32)
          (Parses-map _ (Parses-take (length v.bytes) v.bytes refl)))))

version_bytes-pos : (v : Version) → IsVersion v → 0 < length (version_bytes v)
unfolding to_le
version_bytes-pos v h = omega arith

-- For a list of valid versions, decode_chain on the encoded chain gives the list, unless its count
-- of versions wrapped at 65,536: then it is refused for trailing bytes.
pub decode_chain-encode_chain :
    (vs : List Version)
    → All IsVersion vs
    → decode_chain (encode_chain vs)
      ≡ (if ltb (length vs) (2 ^ 16) then ok vs else err trailing_bytes)
unfolding decode_chain
decode_chain-encode_chain vs h =
    rw
      (
        encode_chain-bytes vs,
        counted read_version version_bytes IsVersion Parses-version vs h,
        is_empty-unread read_version version_bytes IsVersion version_bytes-pos vs h,
      )
      (ground (arith, take-announced vs))
