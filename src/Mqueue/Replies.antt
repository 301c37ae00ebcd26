-- ===== src/Mqueue/Replies.antt =====
-- Any calls of src/posix_mqueue.c, compared with the directory.
use libposix.Prelude.{◌≡◌, refl, ap, ◌∙◌, true, false, List, arith}
use mathlib.Core.Path.{subst}
use libposix.Prelude.Replay.{replay, AllAlong, replay-refines_allowed, replay-finds}
use libposix.Kernel.{Queues}
use libposix.Mqueue.State.{State}
use libposix.Mqueue.Reach.{Call, opens, closes, getattrs, unlinks, receives, sends, step}
use libposix.Mqueue.Locks.{is_failed, step_locks}
use libposix.Mqueue.Names.{CallFits, step-overrun}
use libposix.Mqueue.Directory.{Directory, serve}
use libposix.Mqueue.Views.{directory}
use libposix.Mqueue.Refines.{Shows}
use libposix.Mqueue.Calls.{call, IsFresh, call-Shows}

module _ (K : Queues) where
  -- The memory that the call gets is fresh, the allocator has it, and the name of a queue that may be created fits its array.
  abbrev pub IsServed : Call K → Directory K → Type 0
  IsServed c d = IsFresh K c d × (is_failed K c ≡ 0) × CallFits K c

  call-step : (c : Call K) (s : State K) → (call K c s).1 ≡ step K s c
  unfolding call step
  call-step (opens name oflag attr am ab) s = refl
  call-step (closes mqd) s = refl
  call-step (getattrs mqd) s = refl
  call-step (unlinks name) s = refl
  call-step (receives p now mqd ptr len t) s = refl
  call-step (sends p now mqd ptr msg len t) s = refl

  -- A state that has been set up stands for this directory; its list is not locked, and nothing was
  -- written beyond an array.
  abbrev pub Stands : State K → Directory K → Type 0
  Stands s d = (directory K s ≡ d) × (s.inited ≡ true) × (s.locks ≡ 0) × (s.overrun ≡ false)

  call-Stands :
      (c : Call K) (s : State K) (d : Directory K)
      → Stands s d
      → IsServed c d
      → ((call K c s).0 ≡ (serve K c d).0) × Stands (call K c s).1 (serve K c d).1
  call-Stands c s d (same, init, unlocked, within) (fresh, got, fits) =
      let one : Shows K (call K c s) (serve K c d) =
        subst (λ e. IsFresh K c e → Shows K (call K c s) (serve K c e)) same (call-Shows K s init c)
          fresh in
      let next_ = call-step c s in
      (
        one.0,
        (
          one.1,
          one.2,
          ap (λ t. t.locks) next_ ∙ omega (arith, step_locks K s c, unlocked, got),
          ap (λ t. t.overrun) next_ ∙ step-overrun K s c fits ∙ within,
        ),
      )

  -- Once the list of queues has been set up, for any calls from a state in which the list is not locked
  -- and nothing was written beyond an array, where `mq_open` always gets memory, never that of a queue in the directory, and the name of a queue
  -- that it may create has fewer than 16 bytes: every call finds the list unlocked, so that none waits
  -- for it, the list is unlocked in the end, and nothing is written beyond an array; the replies are those of a directory of queues in
  -- which `mq_open` creates nothing, and the queues that are listed, errno and the memory that was
  -- given back are those of that directory in the end. The directory takes the timeout of a transfer
  -- from `get_tick_timeout` and compares names by `same_name`.
  pub replay-serve :
      (cs : List (Call K)) (s : State K)
      → s.inited ≡ true
      → s.locks ≡ 0
      → s.overrun ≡ false
      → AllAlong IsServed (serve K) cs (directory K s)
      → ((replay (call K) cs s).0 ≡ (replay (serve K) cs (directory K s)).0)
        × (directory K (replay (call K) cs s).1 ≡ (replay (serve K) cs (directory K s)).1)
        × AllAlong (λ c t. (t.locks ≡ 0) × (t.overrun ≡ false)) (call K) cs s
        × ((replay (call K) cs s).1.locks ≡ 0)
        × ((replay (call K) cs s).1.overrun ≡ false)
  replay-serve cs s init unlocked within served =
      let here : Stands s (directory K s) = (refl, init, unlocked, within) in
      let (replies, last) =
        replay-refines_allowed (call K) (serve K) Stands IsServed call-Stands cs s (directory K s)
          here served in
      (
        replies,
        last.0,
        replay-finds (call K) (serve K) Stands IsServed (λ t. (t.locks ≡ 0) × (t.overrun ≡ false))
            call-Stands (λ t d stands. (stands.2, stands.3)) cs s (directory K s) here served,
        last.2,
        last.3,
      )
