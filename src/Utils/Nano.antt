-- ===== src/Utils/Nano.antt =====
-- `nano2timespec` of src/utils.c, for positive and negative numbers of nanoseconds.
use libposix.Prelude.{
  ◌%◌, ◌∙◌, ℕ, ◌+◌, ◌*◌, ◌/◌, ◌≤◌, ◌<◌, ◌≡◌, ◌⊎◌, inl, inr, arith, Bool-cases, ltb→lt, true,
}
use libposix.Prelude.Int.{
  +ℤ_parts, -ℤ_parts, one_part, eq_of_parts, ltb_ℤ, ℤ, pos, negsuc, pos_part, neg_part, ◌+ℤ◌, ◌-ℤ◌,
  quot, rem, int32, int32_fits, *ℤ_pos,
}
use libposix.Time.{Timespec, Platform, IsValid, nanos, nanos_parts}
use libposix.Utils.{nano2timespec, carry_seconds}

-- Division by a billion, truncated towards 0: the remainder has the sign of the dividend.
record Divided (z q r : ℤ) : Type 0 where
  whole :
      pos_part z + 1000000000 * neg_part q + neg_part r
      ≡ neg_part z + 1000000000 * pos_part q + pos_part r
  pos_rem : pos_part r < 1000000000
  neg_rem : neg_part r < 1000000000
  pos_quot : pos_part q ≡ pos_part z / 1000000000
  neg_quot : neg_part q ≡ neg_part z / 1000000000

divided : (z : ℤ) → Divided z (quot z 1000000000) (rem z 1000000000)
unfolding quot rem
divided (pos n) = ground arith
divided (negsuc n) = ground arith

quot_small : (r : ℤ) → neg_part r < 1000000000 → ltb_ℤ r (pos 0) ≡ true → quot r 1000000000 ≡ pos 0
unfolding quot
quot_small (pos n) h neg = ground arith
quot_small (negsuc n) h neg = ground arith

module _ (p : Platform) (z : ℤ) (pos_fit : pos_part z / 1000000000 ≤ p.time_max)
    (neg_fit : neg_part z / 1000000000 < p.time_max) where
  abbrev rough : Timespec
  rough = record { tv_sec = quot z 1000000000; tv_nsec = rem z 1000000000 }

  abbrev carried : Timespec
  carried = record { tv_sec = rough.tv_sec -ℤ pos 1; tv_nsec = rough.tv_nsec +ℤ pos 1000000000 }

  facts : Divided z rough.tv_sec rough.tv_nsec
  facts = divided z

  rough_lem : nano2timespec p z ≡ carry_seconds p rough
  unfolding nano2timespec
  rough_lem = rw (
    p.to_time-fits rough.tv_sec (omega (arith, facts)) (omega (arith, facts)),
    int32_fits rough.tv_nsec (omega (arith, facts)) (omega (arith, facts)),
  )

  carry_one :
      ltb_ℤ rough.tv_nsec (pos 0) ≡ true → int32 (quot rough.tv_nsec 1000000000 +ℤ pos 1) ≡ pos 1
  unfolding int32 ◌+ℤ◌
  carry_one neg = rw (quot_small rough.tv_nsec facts.neg_rem neg)

  record CarriedParts : Type 0 where
    sec :
        pos_part carried.tv_sec + neg_part rough.tv_sec + 1
        ≡ neg_part carried.tv_sec + pos_part rough.tv_sec
    nsec :
        pos_part carried.tv_nsec + neg_part rough.tv_nsec
        ≡ neg_part carried.tv_nsec + pos_part rough.tv_nsec + 1000000000
    sec_one : (pos_part carried.tv_sec ≡ 0) ⊎ (neg_part carried.tv_sec ≡ 0)
    nsec_one : (pos_part carried.tv_nsec ≡ 0) ⊎ (neg_part carried.tv_nsec ≡ 0)

  carried_parts : CarriedParts
  carried_parts = record {
    sec = omega (arith, -ℤ_parts rough.tv_sec (pos 1));
    nsec = omega (arith, +ℤ_parts rough.tv_nsec (pos 1000000000));
    sec_one = one_part carried.tv_sec;
    nsec_one = one_part carried.tv_nsec;
  }

  carried_lem : ltb_ℤ rough.tv_nsec (pos 0) ≡ true → carry_seconds p rough ≡ carried
  unfolding carry_seconds
  carried_lem neg = rw neg (
      rw (carry_one neg) (
        rw (
          p.to_time-fits (pos 1) (omega (arith, p.time_wide)) (omega (arith, p.time_wide)),
          *ℤ_pos 1000000000 1,
          int32_fits (pos 1000000000) (omega arith) (omega arith),
          p.to_time-fits carried.tv_sec (omega (arith, facts, carried_parts))
              (omega (arith, facts, carried_parts)),
          int32_fits carried.tv_nsec (omega (arith, facts, carried_parts))
              (omega (arith, facts, carried_parts, ltb→lt _ _ neg)),
        )))

  -- `nano2timespec` turns any number of nanoseconds, negative or not, whose seconds fit time_t into
  -- a valid timespec of exactly that many nanoseconds.
  pub nano2timespec-exact : IsValid (nano2timespec p z) × (nanos (nano2timespec p z) ≡ z)
  unfolding carry_seconds
  nano2timespec-exact = elim (Bool-cases (ltb_ℤ rough.tv_nsec (pos 0))) [
    | inl neg ↦
        rw (rough_lem, carried_lem neg)
          (
            omega (arith, facts, carried_parts, ltb→lt _ _ neg),
            omega (arith, facts, carried_parts, nanos_parts carried, eq_of_parts),
          )
    | inr no_neg ↦
        rw (rough_lem, no_neg)
          (ground (arith, facts), omega (arith, facts, nanos_parts rough, eq_of_parts))
  ]

-- Of a number that is not negative, the two fields are quotient and remainder.
pub nano2timespec-pos :
    (p : Platform) (n : ℕ)
    → n / 1000000000 ≤ p.time_max
    → nano2timespec p (pos n)
      ≡ record { tv_sec = pos (n / 1000000000); tv_nsec = pos (n % 1000000000) }
unfolding carry_seconds quot rem
nano2timespec-pos p n fit = rough_lem p (pos n) fit (omega (arith, p.time_wide)) ∙ ground arith
