-- ===== src/Mqueue/Examples.antt =====
-- Tests of src/posix_mqueue.c, and its theorems at concrete states.
use libposix.Prelude.{ℕ, ◌≡◌, ◌≤◌, refl, none, some, true, false, List, [], ◌∷◌}
use libposix.Prelude.Int.{pos, int32}
use libposix.Prelude.Status.{ok, fail, ebadf, emsgsize}
use libposix.Board.{board, fifos}
use libposix.Mqueue.{Flags, same_name, get_tick_timeout}
use libposix.Mqueue.State.{State, Mqd, mq_extract_locked}
use libposix.Mqueue.Close.{mq_close, mq_getattr, mq_unlink}
use libposix.Mqueue.Open.{mq_open}
use libposix.Mqueue.Transfer.{mq_send, mq_receive, prepare, checks, finish_send, finish_receive}
use libposix.Mqueue.Reach.{Call, start, next, opens, closes, getattrs, unlinks, step}
use libposix.Prelude.Replay.{replay}
use libposix.Mqueue.Directory.{
  opened, returned, attributes, serve, look, named, alter, take_out, is_name,
}
use libposix.Mqueue.Calls.{call}
use libposix.Mqueue.Replies.{replay-serve}
use libposix.Mqueue.Locks.{Reach-locks}
use libposix.Mqueue.Leaks.{Reach-leaks}

abbrev plain : Flags
plain = record { creat = false; excl = false; nonblock = true }

abbrev creating : Flags
creating = record { creat = true; excl = false; nonblock = true }

-- "/a", and a name of 17 bytes.
abbrev short_name : List ℕ
short_name = b'/' ∷ b'a' ∷ []

abbrev long_name : List ℕ
long_name =
    b'/' ∷ b'q' ∷ b'u' ∷ b'e' ∷ b'u' ∷ b'e' ∷ b'_' ∷ b'o' ∷ b'f' ∷ b'_' ∷ b's' ∷ b'e' ∷ b'n' ∷ b's'
    ∷ b'o' ∷ b'r' ∷ b's' ∷ []

abbrev queue_a : ℕ → ℕ → Mqd fifos
queue_a count pending = record {
  q = record { words = 2; room = 8; messages = (1 ∷ 2 ∷ []) ∷ [] };
  buf = 80;
  name = short_name;
  flags = plain;
  open_count = count;
  pending_unlink = pending;
}

-- Nothing has been called.
abbrev boot : State fifos
boot = record {
  inited = false;
  allq = [];
  locks = 0;
  mem = λ a. queue_a 0 0;
  errno = none;
  freed = [];
  overrun = false;
}

-- The queue "/a" stands in the list at address 40, with a number of open descriptors.
abbrev listed : ℕ → State fifos
listed count = record boot { inited = true; allq = 40 ∷ []; mem = λ a. queue_a count 0 }

-- An allocation gives 40 and then 80.
abbrev first_open : Call fifos
first_open = opens short_name creating none (some 40) (some 80)

sends_message : (mq_send fifos board 0 40 16 (3 ∷ 4 ∷ []) 2 (listed 1)).0 ≡ ok
unfolding mq_send prepare checks finish_send mq_extract_locked get_tick_timeout
sends_message = refl

too_long : (mq_send fifos board 0 40 16 (3 ∷ 4 ∷ 5 ∷ []) 3 (listed 1)).1.errno ≡ some emsgsize
unfolding mq_send prepare checks finish_send mq_extract_locked get_tick_timeout
too_long = refl

receives_message : (mq_receive fifos board 0 40 16 2 (listed 1)).1 ≡ some (1 ∷ 2 ∷ [])
unfolding mq_receive prepare checks finish_receive mq_extract_locked get_tick_timeout
receives_message = refl

Reach-leaks_example :
    let opened_ = mq_open fifos short_name creating none (some 40) (some 80) boot in
    (opened_.1.freed ≡ [])
    × ((mq_close fifos 40 opened_.1).0 ≡ fail)
    × ((mq_close fifos 40 opened_.1).1.errno ≡ some ebadf)
    × ((mq_getattr fifos 40 opened_.1).0 ≡ fail)
    × ((mq_getattr fifos 40 opened_.1).2.errno ≡ some ebadf)
    × ((mq_unlink fifos short_name opened_.1).0 ≡ fail)
unfolding step
Reach-leaks_example = Reach-leaks fifos boot _ refl (next first_open start) 40 short_name

-- One call gets a structure but no buffer, and leaves the list locked.
Reach-locks_example : (mq_open fifos short_name creating none (some 40) none boot).1.locks ≤ 1
unfolding step
Reach-locks_example =
    Reach-locks fifos boot _ refl (next (opens short_name creating none (some 40) none) start)

-- The queue is opened by its name, and its attributes are read; it is unlinked while it is open, and
-- the second close frees it. A queue that is then created at 12 is not there to be closed.
abbrev calls : List (Call fifos)
calls =
    opens short_name plain none (some 12) (some 90)
    ∷ getattrs 40
    ∷ unlinks short_name
    ∷ closes 40
    ∷ closes 40
    ∷ opens short_name creating none (some 12) (some 13)
    ∷ closes 12
    ∷ []

replay-serve_example :
    (replay (call fifos) calls (listed 1)).0
    ≡ opened (some 40)
      ∷ attributes ok (some (plain, pos 8, pos 2, pos 1))
      ∷ returned ok
      ∷ returned ok
      ∷ returned ok
      ∷ opened (some 12)
      ∷ returned fail
      ∷ []
unfolding serve look named alter take_out is_name same_name int32
replay-serve_example =
    (replay-serve fifos calls (listed 1) refl refl refl (
      (refl, refl, refl),
      (
        (tt, refl, tt),
        (
          (tt, refl, tt),
          ((tt, refl, tt), ((tt, refl, tt), (((refl, refl, refl), ((tt, refl, tt), tt))))),
        ),
      ),
    )).0
