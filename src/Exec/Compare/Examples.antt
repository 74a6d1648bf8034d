-- ===== src/Exec/Compare/Examples.antt =====
-- The theorem on `compare` at two values.
use ferrite.Prelude.{◌≡◌}
use ferrite.Prelude.Int.{pos, negsuc}
use ferrite.Common.Value.{int4, int8}
use ferrite.Exec.Compare.{Machine, compare}
use ferrite.Exec.Compare.Mirror.{mirror, compare-mirror}

abbrev machine : Machine
machine = record {
  from_int = λ v. 0;
  add = λ a b. a;
  sub = λ a b. a;
  mul = λ a b. a;
  div = λ a b. a;
  rem = λ a b. a;
}

compare-mirror_example :
    compare machine (int8 (negsuc 4)) (int4 (pos 7))
    ≡ mirror (compare machine (int4 (pos 7)) (int8 (negsuc 4)))
compare-mirror_example = compare-mirror machine (int4 (pos 7)) (int8 (negsuc 4))
