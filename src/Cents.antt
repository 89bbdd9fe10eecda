-- ===== src/Cents.antt =====
-- A price instance for tests: whole cents in place of doubles.
use Prim.Native.Nat.{◌*◌, ◌/◌}
use go_moda_mayor.Prelude.{ℕ, ◌+◌, ◌-◌, not, ltb, ◌==◌}
use go_moda_mayor.Prelude.Int.{pos_part}
use go_moda_mayor.CartModal.{Money}
use go_moda_mayor.Pricing.{Number}

instance abbrev pub cents : Number ℕ
cents = record {
  add = ◌+◌;
  sub = ◌-◌;
  mul = ◌*◌;
  div = ◌/◌;
  hundred = 100;
  is_positive = λ a. ltb 0 a;
  is_truthy = λ a. not (a == 0);
  show_number = λ a. "n";
}

instance abbrev pub cent_amounts : Money ℕ
cent_amounts = record { of_ℕ = λ n. n; of_ℤ = pos_part; less = ltb; abs = λ a. a; cent = 1 }
