-- ===== src/Utils/Sub.antt =====
-- `timespec_sub` of src/utils.c and the difference of the nanoseconds.
use libposix.Prelude.{◌+◌, ◌≤◌, ◌<◌, ◌≡◌, ◌⊎◌, inl, inr, some, arith, Bool-cases, true, ltb→lt}
use libposix.Prelude.Int.{
  pos, pos_part, neg_part, ◌-ℤ◌, ◌+ℤ◌, ◌≤ℤ◌, ◌<ℤ◌, ltb_ℤ, one_part, -ℤ_parts, +ℤ_parts, eq_of_parts,
  int32_fits,
}
use libposix.Time.{Timespec, Platform, IsValid, nanos, nanos_parts}
use libposix.Utils.Order.{timespec_cmp-nanos}
use libposix.Utils.{timespec_sub, subtract_fields, borrow}

-- The seconds between two times fit the platform's time_t.
abbrev pub SecondsFit : Platform → Timespec → Timespec → Type 0
SecondsFit p x y = pos_part (x.tv_sec -ℤ y.tv_sec) ≤ p.time_max

module _ (p : Platform) (x y : Timespec) (vx : IsValid x) (vy : IsValid y) where
  record IsDifference (d : Timespec) : Type 0 where
    valid : IsValid d
    exact : nanos d ≡ nanos x -ℤ nanos y

  -- Before the borrow.
  abbrev raw : Timespec
  raw = record { tv_sec = x.tv_sec -ℤ y.tv_sec; tv_nsec = x.tv_nsec -ℤ y.tv_nsec }

  raw_parts : record {
    sec :
        pos_part raw.tv_sec + neg_part x.tv_sec + pos_part y.tv_sec
        ≡ neg_part raw.tv_sec + pos_part x.tv_sec + neg_part y.tv_sec;
    nsec :
        pos_part raw.tv_nsec + neg_part x.tv_nsec + pos_part y.tv_nsec
        ≡ neg_part raw.tv_nsec + pos_part x.tv_nsec + neg_part y.tv_nsec;
    nsec_pos : pos_part raw.tv_nsec < 1000000000;
    nsec_neg : neg_part raw.tv_nsec < 1000000000;
  }
  raw_parts = omega (
    arith,
    -ℤ_parts x.tv_sec y.tv_sec,
    -ℤ_parts x.tv_nsec y.tv_nsec,
    one_part (x.tv_nsec -ℤ y.tv_nsec),
  )

  raw_lem : nanos y <ℤ nanos x → SecondsFit p x y → subtract_fields p x y ≡ borrow p raw
  unfolding subtract_fields
  raw_lem lt fit = rw (
    p.to_time-fits raw.tv_sec fit
        (omega (arith, raw_parts, nanos_parts x, nanos_parts y, p.time_wide)),
    int32_fits raw.tv_nsec (omega (arith, raw_parts)) (omega (arith, raw_parts)),
  )

  -- After the borrow.
  abbrev borrowed : Timespec
  borrowed = record { tv_sec = raw.tv_sec -ℤ pos 1; tv_nsec = raw.tv_nsec +ℤ pos 1000000000 }

  borrowed_parts : record {
    sec :
        pos_part borrowed.tv_sec + neg_part raw.tv_sec + 1
        ≡ neg_part borrowed.tv_sec + pos_part raw.tv_sec;
    nsec :
        pos_part borrowed.tv_nsec + neg_part raw.tv_nsec
        ≡ neg_part borrowed.tv_nsec + pos_part raw.tv_nsec + 1000000000;
    sec_one : (pos_part borrowed.tv_sec ≡ 0) ⊎ (neg_part borrowed.tv_sec ≡ 0);
    nsec_one : (pos_part borrowed.tv_nsec ≡ 0) ⊎ (neg_part borrowed.tv_nsec ≡ 0);
  }
  borrowed_parts = record {
    sec = omega (arith, -ℤ_parts raw.tv_sec (pos 1));
    nsec = omega (arith, +ℤ_parts raw.tv_nsec (pos 1000000000));
    sec_one = one_part borrowed.tv_sec;
    nsec_one = one_part borrowed.tv_nsec;
  }

  ruleset facts = (arith, raw_parts, borrowed_parts, nanos_parts, -ℤ_parts, eq_of_parts)

  borrow_negative :
      nanos y <ℤ nanos x
      → SecondsFit p x y
      → ltb_ℤ raw.tv_nsec (pos 0) ≡ true
      → borrow p raw ≡ borrowed
  unfolding borrow
  borrow_negative lt fit neg = rw neg (
      rw (
        p.to_time-fits borrowed.tv_sec
            (omega (arith, raw_parts, borrowed_parts, nanos_parts x, nanos_parts y))
            (omega (
              arith,
              raw_parts,
              borrowed_parts,
              nanos_parts x,
              nanos_parts y,
              p.time_wide,
              ltb→lt _ _ neg,
            )),
        int32_fits borrowed.tv_nsec (omega (arith, raw_parts, borrowed_parts, ltb→lt _ _ neg))
            (omega (arith, raw_parts, borrowed_parts, ltb→lt _ _ neg)),
      ))

  borrow_lem : nanos y <ℤ nanos x → SecondsFit p x y → IsDifference (borrow p raw)
  unfolding borrow
  borrow_lem lt fit = elim (Bool-cases (ltb_ℤ raw.tv_nsec (pos 0))) [
    | inl neg ↦ rw (borrow_negative lt fit neg) (record {
      valid = omega (arith, raw_parts, borrowed_parts, ltb→lt _ _ neg);
      exact = omega (
        arith,
        raw_parts,
        borrowed_parts,
        ltb→lt _ _ neg,
        nanos_parts x,
        nanos_parts y,
        nanos_parts borrowed,
        -ℤ_parts (nanos x) (nanos y),
        eq_of_parts,
      );
    })
    | inr no_neg ↦ rw no_neg (record {
      valid = ground (arith, raw_parts);
      exact = omega (
        arith,
        raw_parts,
        nanos_parts x,
        nanos_parts y,
        nanos_parts raw,
        -ℤ_parts (nanos x) (nanos y),
        eq_of_parts,
      );
    })
  ]

  subtract_fields_lem : nanos y <ℤ nanos x → SecondsFit p x y → IsDifference (subtract_fields p x y)
  subtract_fields_lem lt fit = rw (raw_lem lt fit) (borrow_lem lt fit)

  zero_lem :
      nanos x ≡ nanos y → nanos (record { tv_sec = pos 0; tv_nsec = pos 0 }) ≡ nanos x -ℤ nanos y
  zero_lem e = rw e (
      omega (
        arith,
        nanos_parts (record { tv_sec = pos 0; tv_nsec = pos 0 }),
        -ℤ_parts (nanos y) (nanos y),
        eq_of_parts,
      ))

  -- The three outcomes of the comparison, with what `timespec_sub` then does.
  pub sub_less :
      nanos x <ℤ nanos y
      → (r : Timespec) → timespec_sub p (some x) (some y) (some r) ≡ (pos 1, some r)
  unfolding timespec_sub
  sub_less lt r = rw ((timespec_cmp-nanos x y vx vy).1.1 lt)

  pub sub_equal :
      nanos x ≡ nanos y
      → (r : Timespec)
      → timespec_sub p (some x) (some y) (some r)
        ≡ (pos 0, some (record { tv_sec = pos 0; tv_nsec = pos 0 }))
  unfolding timespec_sub
  sub_equal e r = rw ((timespec_cmp-nanos x y vx vy).2.1 e)

  sub_greater :
      nanos y <ℤ nanos x
      → IsValid (subtract_fields p x y)
      → (r : Timespec)
      → timespec_sub p (some x) (some y) (some r) ≡ (pos 0, some (subtract_fields p x y))
  unfolding timespec_sub
  sub_greater lt valid r = rw ((timespec_cmp-nanos x y vx vy).0.1 lt) (ground arith)

  -- For two valid timespecs, whose seconds apart fit time_t, `timespec_sub` returns 1 and leaves the
  -- result alone if the first is earlier; otherwise it returns 0, and the result is valid and is
  -- the exact difference in nanoseconds.
  pub timespec_sub-exact :
      SecondsFit p x y
      → (r : Timespec)
      → ((nanos x <ℤ nanos y) × (timespec_sub p (some x) (some y) (some r) ≡ (pos 1, some r)))
        ⊎ ((nanos y ≤ℤ nanos x)
            × (d : Timespec) × (timespec_sub p (some x) (some y) (some r) ≡ (pos 0, some d))
            × IsValid d
            × (nanos d ≡ nanos x -ℤ nanos y))
  timespec_sub-exact fit r = elim (Bool-cases (ltb_ℤ (nanos x) (nanos y))) [
    | inl lt ↦ inl (ltb→lt _ _ lt, sub_less (ltb→lt _ _ lt) r)
    | inr ge ↦ elim (Bool-cases (ltb_ℤ (nanos y) (nanos x))) [
      | inl gt ↦
          let later : nanos y <ℤ nanos x = ltb→lt _ _ gt in
          let diff : IsDifference (subtract_fields p x y) = subtract_fields_lem later fit in
          inr (omega arith, _, sub_greater later diff.valid r, diff.valid, diff.exact)
      | inr le ↦
          let same : nanos x ≡ nanos y = ground (arith, eq_of_parts (nanos x) (nanos y)) in
          inr (ground arith, _, sub_equal same r, omega arith, zero_lem same)
    ]
  ]
