-- ===== src/Floats/Fixed.antt =====
-- Natural numbers of ten-thousandths as a stand-in for float64, on which runs of the code compute.
use infermesh.Prelude.{ℕ, ◌+◌, ◌-◌, ◌*◌, ◌/◌, ◌^◌, ltb, leb, ◌==◌, if◌then◌else◌, pos_part}
use infermesh.Floats.{Float64}

abbrev pub fixed : Float64
fixed = record {
  Val = ℕ;
  dec = λ n k. n * 10 ^ (4 - k);
  of_int = λ n. pos_part n * 10000;
  add = λ a b. a + b;
  sub = λ a b. a - b;
  mul = λ a b. a * b / 10000;
  div = λ a b. a * 10000 / b;
  min = λ a b. if ltb a b then a else b;
  ltb = ltb;
  leb = leb;
  eqb = ◌==◌;
}
