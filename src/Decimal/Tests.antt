-- ===== src/Decimal/Tests.antt =====
-- Decimal text of small numbers.
use ramryder.Prelude.{◌≡◌, refl, negsuc}
use ramryder.Scan.{codes}
use ramryder.Decimal.{show_int}

show_int_negative : show_int (negsuc 1040) ≡ codes "-1041"
unfolding show_int
show_int_negative = refl
