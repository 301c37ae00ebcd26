-- ===== src/Utils/Order.antt =====
-- `timespec_cmp` of src/utils.c and the order of the nanoseconds.
use libposix.Prelude.{◌≡◌, ◌↔◌, some, arith}
use libposix.Prelude.Int.{pos, negsuc, ◌<ℤ◌, eq_of_parts}
use libposix.Time.{Timespec, IsValid, nanos, nanos_parts}
use libposix.Utils.{compare_fields, timespec_cmp}

module _ (x y : Timespec) (vx : IsValid x) (vy : IsValid y) where
  greater : (compare_fields x y ≡ pos 1) ↔ (nanos y <ℤ nanos x)
  unfolding compare_fields
  greater = (
    λ e. ground (arith, nanos_parts x, nanos_parts y),
    λ h. ground (arith, nanos_parts x, nanos_parts y),
  )

  less : (compare_fields x y ≡ negsuc 0) ↔ (nanos x <ℤ nanos y)
  unfolding compare_fields
  less = (
    λ e. ground (arith, nanos_parts x, nanos_parts y),
    λ h. ground (arith, nanos_parts x, nanos_parts y),
  )

  equal : (compare_fields x y ≡ pos 0) ↔ (nanos x ≡ nanos y)
  unfolding compare_fields
  equal = (
    λ e. ground (arith, nanos_parts x, nanos_parts y, eq_of_parts (nanos x) (nanos y)),
    λ h. ground (arith, nanos_parts x, nanos_parts y),
  )

  -- For two valid timespecs `timespec_cmp` returns 1, -1 or 0 exactly when the first is later in
  -- nanoseconds than the second, earlier, or the same time.
  pub timespec_cmp-nanos :
      ((timespec_cmp (some x) (some y) ≡ pos 1) ↔ (nanos y <ℤ nanos x))
      × ((timespec_cmp (some x) (some y) ≡ negsuc 0) ↔ (nanos x <ℤ nanos y))
      × ((timespec_cmp (some x) (some y) ≡ pos 0) ↔ (nanos x ≡ nanos y))
  unfolding timespec_cmp
  timespec_cmp-nanos = (greater, less, equal)
