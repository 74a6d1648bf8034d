-- ===== src/Storage/Unique/Enforce/Examples.antt =====
-- The unique check on a table with one row.
use ferrite.Prelude.{ℕ, ◌≡◌, refl, true, none, List, [], ◌∷◌, arith, length}
use ferrite.Common.Error.{ok}
use ferrite.Common.Value.{Value, boolean, Row, same_value, same_values}
use ferrite.Common.Storage.{UniqueKey, extract_from}
use ferrite.Storage.Codec.Reader.{Bytes}
use ferrite.Storage.Version.{Version, live, encode_chain, decode_chain}
use ferrite.Storage.Version.RoundTrip.{decode_chain-encode_chain}
use ferrite.Storage.Codec.Rows.Examples.{decode_row_runs}
use ferrite.Storage.Transactions.Examples.{two_open}
use ferrite.Storage.Mvcc.Examples.{inserted_stands, two_open-IsSound, abort_runs, created_stands}
use ferrite.Storage.Transactions.Invariant.{close}
use ferrite.Storage.Unique.Enforce.Aborted.{find_clash-abort}
use ferrite.Storage.Unique.KeyFilters.{new, may_contain, or_may_contain, get}
use ferrite.Storage.Unique.Enforce.{
  Table, is_excluded, matches, ensure_built, find_clash, enforce_unique,
}
use ferrite.Storage.Unique.Enforce.Standing.{end, stands}
use ferrite.Storage.Unique.Enforce.Agreement.{CoversRows, check_unique, enforce_unique-check_unique}

abbrev row_bytes : Bytes
row_bytes = 1 ∷ 0 ∷ 1 ∷ 7 ∷ []

abbrev key_row : Row
key_row = record { values = boolean true ∷ [] }

abbrev one_version : List Version
one_version = live 1 row_bytes ∷ []

abbrev one_row : Table
one_row = (5, encode_chain one_version) ∷ []

-- A hasher that looks at the length only.
abbrev by_length : List Value → ℕ
by_length key = length key

length-same_values : (vs ws : List Value) → same_values vs ws ≡ true → length vs ≡ length ws
unfolding same_values
length-same_values [] [] h = refl
length-same_values [] (w ∷ ws) h = cc
length-same_values (v ∷ vs) [] h = cc
length-same_values (v ∷ vs) (w ∷ ws) h = ground (arith, length-same_values vs ws)

chain_decodes : decode_chain (encode_chain one_version) ≡ ok one_version
chain_decodes = decode_chain-encode_chain one_version (omega arith)

-- Filters that are not built cover all rows.
unbuilt : CoversRows by_length 1 (new 16) ((5, key_row) ∷ [])
unfolding may_contain or_may_contain get
unbuilt columns x there = refl

abbrev first_column : UniqueKey
first_column = record { name = "key"; columns = 0 ∷ [] }

enforce_unique-check_unique_example :
    (enforce_unique by_length two_open 2 1 one_row (new 16) (first_column ∷ []) key_row none).1
    ≡ check_unique (first_column ∷ []) key_row none ((5, key_row) ∷ [])
enforce_unique-check_unique_example =
    enforce_unique-check_unique by_length two_open 2 1 one_row ((5, key_row) ∷ [])
      (stands one_version row_bytes key_row chain_decodes (inserted_stands row_bytes)
        decode_row_runs end)
      (new 16) (first_column ∷ []) key_row none unbuilt
      (λ constraint wanted other e. length-same_values other wanted)

-- The version that holds the row, which the open transaction 1 has deleted.
abbrev deleted_by_first : Version
deleted_by_first = record { xmin = 2; xmax = 1; bytes = row_bytes }

deleted_decodes : decode_chain (encode_chain (deleted_by_first ∷ [])) ≡ ok (deleted_by_first ∷ [])
deleted_decodes = decode_chain-encode_chain (deleted_by_first ∷ []) (omega arith)

find_clash-abort_example :
    (ensure_built by_length two_open 1 1
        ((5, encode_chain (deleted_by_first ∷ [])) ∷ [])
        (new 16)
        first_column
      ≡ ensure_built by_length two_open 1 1 [] (new 16) first_column)
    × (find_clash by_length
          (close two_open 1)
          2
          1
          ((5, encode_chain (deleted_by_first ∷ [])) ∷ [])
          (new 16)
          first_column
          (boolean true ∷ [])
          none
        ≡ ok (may_contain (new 16) 1 (0 ∷ []) 1))
unfolding is_excluded matches same_values same_value extract_from
find_clash-abort_example =
    find_clash-abort by_length two_open (close two_open 1) 1 2 1 5 deleted_by_first []
      (encode_chain (deleted_by_first ∷ [])) key_row [] [] [] (new 16) first_column
      (boolean true ∷ []) none two_open-IsSound abort_runs refl refl created_stands deleted_decodes
      decode_row_runs end refl refl
