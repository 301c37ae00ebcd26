-- ===== src/Hooks/TimerMemory.antt =====
-- src/posix_timer.c with the memory of the application: a timer is created and deleted.
use libposix.Prelude.{
  ℕ, ◌≡◌, refl, sym, ap, ◌∙◌, ◌⊎◌, inl, inr, Option, none, some, Bool, true, false, arith,
  Bool-cases,
}
use libposix.Prelude.Status.{Ret, ok, fail}
use libposix.Kernel.{Timers}
use libposix.Clock.{Thread}
use libposix.Timer.{Sigevent, TimerInternal, unsupported, timer_create, timer_delete}
use libposix.Hooks.{posix_timer, hcos_posix_init, create_timer, delete_timer}
use libposix.Hooks.Memory.{Allocator, hooks, SameMemory, none_got, one_back}

module _ (A : Allocator) (T : Timers) where
  open A use {W, alloc, holds}

  -- What a call of `timer_create` makes of the memory `w`.
  abbrev pub MakesTimer : W → (Ret × Thread × Option (ℕ × TimerInternal T) × Bool) × W → Type 0
  MakesTimer w c =
      ((c.0.0 ≡ fail) × (c.0.2 ≡ none) × SameMemory A c.1 w)
      ⊎ ((a : ℕ) × (t : TimerInternal T) × (c.0.0 ≡ ok)
          × (c.0.2 ≡ some (a, t))
          × (holds w a ≡ none)
          × (holds c.1 a ≡ some posix_timer)
          × ((later : TimerInternal T) → SameMemory A (delete_timer (hooks A) T a later c.1) w))

  -- For an event that is supported, by the result of the allocator.
  got-MakesTimer :
      (size : ℕ) (event : Sigevent) (th : Thread) (w : W) (got : Option ℕ × W)
      → unsupported (some event) ≡ false
      → alloc posix_timer size w ≡ got
      → MakesTimer w (timer_create T true got.0 (some event) th, got.1)
  unfolding timer_create timer_delete delete_timer hcos_posix_init
  got-MakesTimer size event th w (none, w1) e e' =
      rw e (inl (refl, refl, none_got A posix_timer size w w1 e'))
  got-MakesTimer size event th w (some a, w1) e e' =
      let there = ap (λ r. r.0) e' in
      let last : w1 ≡ (alloc posix_timer size w).1 = sym (ap (λ r. r.1) e') in
      let (fresh, got) = A.alloc-some posix_timer size a w there in
      rw e (
        inr (
          a,
          _,
          refl,
          refl,
          fresh,
          ap (λ v. holds v a) last ∙ ground (arith, got a),
          λ later. one_back A posix_timer size a w w1 there (λ q. ap (λ v. holds v q) last),
        ))

  supported_lem :
      (size : ℕ) (event : Sigevent) (th : Thread) (w : W)
      → unsupported (some event) ≡ false
      → let got = alloc posix_timer size w in
        create_timer (hooks A) T size (some event) th w
        ≡ (timer_create T true got.0 (some event) th, got.1)
  unfolding create_timer hcos_posix_init
  supported_lem size event th w good = rw good refl

  refused-MakesTimer :
      (size : ℕ) (event : Option Sigevent) (th : Thread) (w : W)
      → unsupported event ≡ true
      → MakesTimer w (create_timer (hooks A) T size event th w)
  unfolding create_timer timer_create hcos_posix_init
  refused-MakesTimer size none th w bad = inl (refl, refl, λ q. refl)
  refused-MakesTimer size (some event) th w bad = rw bad (inl (refl, refl, λ q. refl))

  -- The application's functions are set by `hcos_posix_init`. Either `timer_create` returns -1 and
  -- makes no timer, and the same stands at each address as before; or it returns 0 with a timer in
  -- memory that was free, and once `timer_delete` is called, whatever happened to the timer since,
  -- the same stands at each address as before.
  pub create_timer-delete_timer :
      (size : ℕ) (event : Option Sigevent) (th : Thread) (w : W)
      → MakesTimer w (create_timer (hooks A) T size event th w)
  create_timer-delete_timer size none th w = refused-MakesTimer size none th w refl
  create_timer-delete_timer size (some event) th w = elim (Bool-cases (unsupported (some event))) [
    | inl bad ↦ refused-MakesTimer size (some event) th w bad
    | inr good ↦
        rw (supported_lem size event th w good)
          (got-MakesTimer size event th w (alloc posix_timer size w) good refl)
  ]
