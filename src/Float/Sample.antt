-- ===== src/Float/Sample.antt =====
-- Numbers to run the program's float64 code on: thousandths, rounded down, nothing
-- below zero, and a conversion that is capped.
use bloom_filter_jyy_0098_go.Base.{min, ℕ, ◌+◌, ◌-◌, ◌*◌, ◌/◌, ◌^◌, ltb, leb}
use bloom_filter_jyy_0098_go.Float.{Floats}

abbrev pub thousandths : Floats
thousandths = record {
  F = ℕ;
  decimal = λ a b. a * 1000 / 10 ^ b;
  ln2 = 693;
  of_uint = λ n. n * 1000;
  of_int = λ n. n * 1000;
  to_uint = λ x. min (x / 1000) (2 ^ 62);
  to_int = λ x. x / 1000;
  add = λ x y. x + y;
  sub = λ x y. x - y;
  mul = λ x y. x * y / 1000;
  div = λ x y. x * 1000 / y;
  neg = λ x. 0;
  lt = ltb;
  le = leb;
  log = λ x. x - 1000;
  exp = λ x. x + 1000;
  pow = λ x y. x;
  round = λ x. (x + 500) / 1000 * 1000;
  ceil = λ x. (x + 999) / 1000 * 1000;
}
