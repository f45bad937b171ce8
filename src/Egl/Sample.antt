-- ===== src/Egl/Sample.antt =====
-- Numbers with which the tests of the two GPU clients compute.
use webos_wayland.Base.{ℕ, ◌+◌, ◌-◌, ◌*◌, ◌/◌, ◌^◌, pos, negsuc, ltb}
use webos_wayland.Egl.{Floats}

-- Thousandths, in place of floating-point numbers.
abbrev pub thousandths : Floats
thousandths = record {
  F = ℕ;
  decimal = λ x k. elim x [ pos n ↦ n * 1000 / 10 ^ k | negsuc n ↦ 0 ];
  of_int = λ x. elim x [ pos n ↦ n * 1000 | negsuc n ↦ 0 ];
  add = λ x y. x + y;
  sub = λ x y. x - y;
  mul = λ x y. x * y / 1000;
  div = λ x y. x * 1000 / y;
  lt = ltb;
  to_size = λ x. x / 1000;
}
