-- ===== src/Storage/Version/Examples.antt =====
-- A chain of two versions, there and back.
use ferrite.Prelude.{◌≡◌, List, [], ◌∷◌, arith}
use ferrite.Common.Error.{ok}
use ferrite.Storage.Version.{Version, encode_chain, decode_chain}
use ferrite.Storage.Version.RoundTrip.{decode_chain-encode_chain}

abbrev two_versions : List Version
two_versions =
    record { xmin = 9; xmax = 0; bytes = 1 ∷ 2 ∷ 3 ∷ [] }
    ∷ record { xmin = 4; xmax = 9; bytes = [] }
    ∷ []

decode_chain-encode_chain_example : decode_chain (encode_chain two_versions) ≡ ok two_versions
decode_chain-encode_chain_example = decode_chain-encode_chain two_versions (omega arith)
