-- ===== src/Mutex/Locking.antt =====
-- What the locking functions of src/posix_pthread_mutex.c report, and what they do to the mutex.
use libposix.Prelude.{
  ℕ, ◌*◌, ◌/◌, ◌^◌, ◌≤◌, ◌<◌, ◌≡◌, ◌≢◌, inl, inr, Option, some, none, arith, ◌==◌, Bool-cases,
}
use libposix.Prelude.Status.{Ret, ok, errnum, edeadlk, eperm, etimedout}
use libposix.Kernel.{Mutexes}
use libposix.Time.{Timespec, Platform, nanoseconds_per_tick}
use libposix.Clock.{zero_time}
use libposix.Clock.Due.{zero_is_due, past, at_once}
use libposix.Mutex.{
  PthreadMutex, lock_ticks, finish_lock, mutex_errorcheck, pthread_mutex_lock,
  pthread_mutex_trylock, pthread_mutex_timedlock, pthread_mutex_unlock,
}

-- `pthread_mutex_trylock` always asks for the kernel's mutex with a timeout of 0.
pub lock_ticks-zero :
    (p : Platform) (now unset : ℕ)
    → now < 2 ^ 32
    → now * nanoseconds_per_tick p / 1000000000 ≤ p.time_max
    → lock_ticks p now unset (some zero_time) ≡ (ok, 0)
unfolding lock_ticks
lock_ticks-zero p now unset range fit = elim (zero_is_due p now) [
  | inl lt ↦ let c = past p now range fit zero_time (omega arith) unset lt in rw (c.read, c.ticks)
  | inr same ↦
      let c = at_once p now range fit zero_time (omega arith) unset same in rw (c.read, c.ticks)
]

module _ (K : Mutexes) where
  open K use {Mut, own, mut_lock}

  -- On a mutex that another task holds, `pthread_mutex_trylock` returns 0 and leaves the mutex as it
  -- was, with the other task for its owner.
  pub pthread_mutex_trylock-held :
      (p : Platform) (now unset cur owner : ℕ) (m : PthreadMutex K)
      → now < 2 ^ 32
      → now * nanoseconds_per_tick p / 1000000000 ≤ p.time_max
      → 0 < m.inited
      → own m.mux ≡ some owner
      → owner ≢ cur
      → pthread_mutex_trylock K p now unset cur m ≡ (ok, m)
  unfolding pthread_mutex_trylock
  pthread_mutex_trylock-held p now unset cur owner m range fit init held other =
      rw (lock_ticks-zero p now unset range fit)
        (rw (K.lock-no_wait cur owner m.mux held other) (rw held (ground arith)))

  -- On a free mutex, `pthread_mutex_trylock` returns 0 and the calling task becomes the owner;
  -- type and initialisation stay.
  pthread_mutex_trylock-free :
      (p : Platform) (now unset cur : ℕ) (m : PthreadMutex K)
      → now < 2 ^ 32
      → now * nanoseconds_per_tick p / 1000000000 ≤ p.time_max
      → 0 < m.inited
      → own m.mux ≡ none
      → (mux' : Mut) × (pthread_mutex_trylock K p now unset cur m ≡ (ok, record m { mux = mux' }))
        × (own mux' ≡ some cur)
  unfolding pthread_mutex_trylock
  pthread_mutex_trylock-free p now unset cur m range fit init free = (
    _,
    rw (lock_ticks-zero p now unset range fit) (rw free (ground arith)),
    K.lock-own cur m.mux 0 free,
  )

  never_timed_out :
      (p : Platform) (now unset : ℕ) (abstime : Option Timespec)
      → (lock_ticks p now unset abstime).0 ≢ errnum etimedout
  unfolding lock_ticks
  never_timed_out p now unset none e = cc
  never_timed_out p now unset (some t) e = ground arith

  finish_lock-ret :
      (cur : ℕ) (m : PthreadMutex K) (t : Ret × ℕ)
      → t.0 ≢ errnum etimedout
      → (finish_lock K cur m t).0 ≢ errnum etimedout
  unfolding finish_lock
  finish_lock-ret cur m t h e = ground arith

  -- `pthread_mutex_timedlock` returns ETIMEDOUT for no mutex, task, deadline or time, whether the
  -- kernel's mutex was obtained or not.
  pthread_mutex_timedlock-ne-etimedout :
      (p : Platform) (now unset cur : ℕ) (m : PthreadMutex K) (abstime : Option Timespec)
      → (pthread_mutex_timedlock K p now unset cur m abstime).0 ≢ errnum etimedout
  unfolding pthread_mutex_timedlock
  pthread_mutex_timedlock-ne-etimedout p now unset cur m abstime =
      elim (Bool-cases (m.inited == 0)) [
        | inl no_init ↦ rw no_init (λ e. cc)
        | inr init ↦ rw init (
            finish_lock-ret cur m (lock_ticks p now unset abstime)
              (never_timed_out p now unset abstime))
      ]

  -- A free error-checking mutex that `pthread_mutex_trylock` takes is owned: `pthread_mutex_lock` of
  -- the same task returns EDEADLK, `pthread_mutex_unlock` of another returns EPERM, both leaving
  -- the mutex alone, and `pthread_mutex_unlock` of the same task unlocks the kernel's mutex.
  pthread_mutex_trylock-errorcheck :
      (p : Platform) (now unset cur other : ℕ) (m : PthreadMutex K)
      → now < 2 ^ 32
      → now * nanoseconds_per_tick p / 1000000000 ≤ p.time_max
      → 0 < m.inited
      → m.type ≡ mutex_errorcheck
      → own m.mux ≡ none
      → other ≢ cur
      → (m' : PthreadMutex K) × (pthread_mutex_trylock K p now unset cur m ≡ (ok, m'))
        × (pthread_mutex_lock K p now unset cur m' ≡ (errnum edeadlk, m'))
        × (pthread_mutex_unlock K other m' ≡ (errnum eperm, m'))
        × (pthread_mutex_unlock K cur m' ≡ (ok, record m' { mux = K.mut_unlock m'.mux }))
  unfolding pthread_mutex_lock lock_ticks pthread_mutex_unlock finish_lock
  pthread_mutex_trylock-errorcheck p now unset cur other m range fit init check free ne =
      let (mux', taken, owned) = pthread_mutex_trylock-free p now unset cur m range fit init free in
      (
        record m { mux = mux' },
        taken,
        rw owned (ground arith),
        rw owned (ground arith),
        rw owned (ground arith),
      )
