-- ===== src/Pthread/Priorities.antt =====
-- The priority of a thread of src/posix_pthread.c: in its attributes, and as its task has it.
use libposix.Prelude.{
  ℕ, ◌^◌, ◌≤◌, ◌<◌, ◌≡◌, ◌≢◌, refl, ◌⊎◌, inl, inr, Option, none, some, true, false, List, ltb, ◌||◌,
  arith, Bool-cases, ltb→lt, not, ◌%◌,
}
use mathlib.Core.Path.{subst}
use libposix.Prelude.Int.{ℤ, pos, negsuc, ltb_ℤ, uint16, ◌-ℤ◌}
use libposix.Prelude.Replay.{replay}
use libposix.Prelude.Status.{Ret, ok, errnum, enotsup, einval}
use libposix.Kernel.{Semaphores, Mutexes}
use libposix.Attributes.{
  PthreadAttr, default_attr, status_priority, or_priority, clear_priority,
  pthread_attr_setschedparam, sched_get_priority_max,
}
use libposix.Attributes.Record.{Call, call}
use libposix.Attributes.Ranges.{IsInRange, default_attr-IsInRange, replay-IsInRange}
use libposix.Pthread.{
  PthreadInternal, new_thread, pthread_create, pthread_getschedparam, pthread_setschedparam,
}

-- A priority that the kernel has is stored, and any other is refused.
setschedparam_fits :
    (tpri_num q : ℕ) (attr : PthreadAttr)
    → tpri_num ≤ 2 ^ 15
    → q < tpri_num
    → (status : ℕ) × (status_priority status ≡ q)
      × (pthread_attr_setschedparam tpri_num attr (some (pos q))
          ≡ (ok, record attr { status = status }))
unfolding pthread_attr_setschedparam sched_get_priority_max uint16 ◌-ℤ◌
setschedparam_fits tpri_num q attr few h = (
  or_priority (clear_priority attr.status) (q % 2 ^ 16),
  ground (arith, few, h),
  ground (arith, few, h),
)

setschedparam_none :
    (tpri_num : ℕ) (attr : PthreadAttr)
    → pthread_attr_setschedparam tpri_num attr none ≡ (errnum einval, attr)
unfolding pthread_attr_setschedparam
setschedparam_none tpri_num attr = refl

setschedparam_refused :
    (tpri_num : ℕ) (n : ℤ) (attr : PthreadAttr)
    → ltb_ℤ n (pos 0) || not (ltb_ℤ n (pos tpri_num)) ≡ true
    → pthread_attr_setschedparam tpri_num attr (some n) ≡ (errnum enotsup, attr)
unfolding pthread_attr_setschedparam sched_get_priority_max ◌-ℤ◌
setschedparam_refused tpri_num n attr h = ground (arith, h)

module _ (K : Semaphores) (M : Mutexes) where
  new_thread-attr :
      (zero : PthreadInternal K M) (attr : PthreadAttr) (stack : ℕ)
      → (new_thread K M zero attr stack).attr ≡ attr
  unfolding new_thread
  new_thread-attr zero attr stack = ground arith

  -- What `pthread_setschedparam` leaves: it fails, makes no call of the kernel and keeps the attributes; or
  -- it hands a priority to the kernel, which it has and which is read back.
  abbrev SetsPriority : ℕ → PthreadAttr → Ret × Option ℤ × PthreadInternal K M → Type 0
  SetsPriority tpri_num attr s =
      ((s.0 ≢ ok) × (s.1 ≡ none) × (s.2.attr ≡ attr))
      ⊎ ((q : ℕ) × (s.0 ≡ ok)
          × (s.1 ≡ some (pos q))
          × (q < tpri_num)
          × (pthread_getschedparam K M s.2 ≡ (ok, pos q)))

  setschedparam_lem :
      (tpri_num : ℕ) (t : PthreadInternal K M) (param : Option ℤ)
      → tpri_num ≤ 2 ^ 15
      → SetsPriority tpri_num t.attr (pthread_setschedparam K M tpri_num t param)
  unfolding pthread_setschedparam pthread_getschedparam
  setschedparam_lem tpri_num t none few =
      rw (setschedparam_none tpri_num t.attr) (inl (λ e. cc, refl, refl))
  setschedparam_lem tpri_num t (some (negsuc n)) few =
      rw (setschedparam_refused tpri_num (negsuc n) t.attr (ground arith))
        (inl (λ e. cc, refl, refl))
  setschedparam_lem tpri_num t (some (pos q)) few = elim (Bool-cases (ltb q tpri_num)) [
    | inl fits ↦
        let h : q < tpri_num = ltb→lt q tpri_num fits in
        let (status, read, e) = setschedparam_fits tpri_num q t.attr few h in
        rw e (inr (q, refl, refl, h, rw read refl))
    | inr large ↦
        rw (setschedparam_refused tpri_num (pos q) t.attr (ground (arith, large)))
          (inl (λ e. cc, refl, refl))
  ]

  -- There are between 2 and 2 ^ 15 priorities. A thread is created with attributes that any sequence
  -- of settings has made from the default ones: its task gets a priority that the kernel has and
  -- that `pthread_getschedparam` reads. `pthread_setschedparam` then either fails, makes no call of
  -- the kernel and keeps the attributes, or returns 0 and hands a priority to the kernel, which it
  -- has and which `pthread_getschedparam` reads afterwards.
  pub replay-pthread_create :
      (tpri_num : ℕ)
      → 2 ≤ tpri_num
      → tpri_num ≤ 2 ^ 15
      → (cs : List Call) (a stack : ℕ) (zero : PthreadInternal K M) (param : Option ℤ)
      → let attr = (replay (call tpri_num) cs (default_attr tpri_num)).1 in
        let t = new_thread K M zero attr stack in
        ((p : ℕ) × ((pthread_create K M tpri_num true
              (some a)
              (some stack)
              false
              zero
              (some attr)).thread
            ≡ some (a, pos p, t))
          × (p < tpri_num)
          × (pthread_getschedparam K M t ≡ (ok, pos p)))
        × SetsPriority tpri_num attr (pthread_setschedparam K M tpri_num t param)
  unfolding pthread_create pthread_getschedparam
  replay-pthread_create tpri_num two few cs a stack zero param =
      let attr = (replay (call tpri_num) cs (default_attr tpri_num)).1 in
      let t = new_thread K M zero attr stack in
      let same : t.attr ≡ attr = new_thread-attr zero attr stack in
      let start = default_attr-IsInRange tpri_num few two in
      let g : IsInRange tpri_num attr =
        replay-IsInRange tpri_num few cs (default_attr tpri_num) start in
      (
        (status_priority attr.status, refl, g.priority, rw same refl),
        subst (λ b. SetsPriority tpri_num b (pthread_setschedparam K M tpri_num t param)) same
            (setschedparam_lem tpri_num t param few),
      )
