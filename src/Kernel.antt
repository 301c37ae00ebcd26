-- ===== src/Kernel.antt =====
-- The kernel objects of hcos that the library stands on, as interfaces: what the code calls, and
-- what it relies on. A call that may block is a function of the object and the timeout in ticks; its
-- result says whether the object was obtained.
use libposix.Prelude.{
  ℕ, suc, ◌+◌, ◌%◌, ◌^◌, ◌<◌, ◌≡◌, ◌≢◌, Option, none, some, Bool, true, false, List, [], ◌∷◌, ◌==◌,
  if◌then◌else◌,
}

-- hcos/sem.h
pub record Semaphores : Type 1 where
  pub Sem : Type 0
  pub sem_init : ℕ → Sem
  pub val : Sem → ℕ
  pub sem_get : Sem → ℕ → Bool × Sem
  pub sem_post : Sem → Sem
  pub sem_post_n : Sem → ℕ → Sem
  pub wait : ℕ
  pub val-sem_init : (n : ℕ) → val (sem_init n) ≡ n
  pub val-sem_post : (s : Sem) → val (sem_post s) ≡ suc (val s)
  pub val-sem_post_n : (s : Sem) (n : ℕ) → val (sem_post_n s n) ≡ val s + n
  -- A semaphore above 0 is taken at once.
  pub get-taken : (s : Sem) (t : ℕ) → 0 < val s → (sem_get s t).0 ≡ true
  pub get-val : (s : Sem) (t : ℕ) → 0 < val s → suc (val (sem_get s t).1) ≡ val s
  -- One at 0 is not taken by a call that does not wait, which leaves it alone.
  pub get-no_wait : (s : Sem) → val s ≡ 0 → sem_get s 0 ≡ (false, s)

-- hcos/mut.h. `own` is the owning task, if there is one; the first argument of `mut_lock` is the
-- calling task.
pub record Mutexes : Type 1 where
  pub Mut : Type 0
  pub mut_init : Mut
  pub own : Mut → Option ℕ
  pub mut_lock : ℕ → Mut → ℕ → Bool × Mut
  pub mut_unlock : Mut → Mut
  pub own-mut_init : own mut_init ≡ none
  -- A free mutex is taken at once.
  pub lock-taken : (task : ℕ) (m : Mut) (t : ℕ) → own m ≡ none → (mut_lock task m t).0 ≡ true
  pub lock-own : (task : ℕ) (m : Mut) (t : ℕ) → own m ≡ none → own (mut_lock task m t).1 ≡ some task
  -- Locked once and unlocked, it is free again.
  pub own-mut_unlock :
      (task : ℕ) (m : Mut) (t : ℕ) → own m ≡ none → own (mut_unlock (mut_lock task m t).1) ≡ none
  -- One of another task is not taken by a call that does not wait, which leaves it alone.
  pub lock-no_wait :
      (task owner : ℕ) (m : Mut)
      → own m ≡ some owner
      → owner ≢ task
      → mut_lock task m 0 ≡ (false, m)

-- hcos/tmr.h. `tmr_on` is called with the tick counter at the call.
pub record Timers : Type 1 where
  pub Tmr : Type 0
  pub tmr_init : Tmr
  pub tmr_on : ℕ → Tmr → ℕ → Tmr
  pub tmr_of : Tmr → Tmr
  pub tmr_active : Tmr → Bool
  pub expire : Tmr → ℕ
  pub active-tmr_on : (now : ℕ) (t : Tmr) (n : ℕ) → 0 < n → tmr_active (tmr_on now t n) ≡ true
  pub expire-tmr_on :
      (now : ℕ) (t : Tmr) (n : ℕ) → 0 < n → expire (tmr_on now t n) ≡ (now + n) % 2 ^ 32
  pub active-tmr_of : (t : Tmr) → tmr_active (tmr_of t) ≡ false

-- The first occurrence of `a` taken out.
abbrev pub remove : ℕ → List ℕ → List ℕ
remove a [] = []
remove a (x ∷ xs) = if x == a then xs else x ∷ remove a xs

-- hcos/mq.h, and the intrusive lists of the kernel. An element of a list is the address of the
-- structure that it stands in, and a message is its words.
pub record Queues : Type 1 where
  pub Q : Type 0
  -- A structure of zero bytes.
  pub q_zero : Q
  pub mq_init : ℕ → ℕ → ℕ → Q
  pub sz : Q → ℕ
  pub isz : Q → ℕ
  pub n : Q → ℕ
  pub mq_get : Q → ℕ → Option (List ℕ) × Q
  pub mq_put : Q → List ℕ → ℕ → Bool × Q
  pub wait : ℕ
  pub L : Type 0
  pub ll_init : L
  -- What `ll_for_each` goes through.
  pub elems : L → List ℕ
  pub lle_del : ℕ → L → L
  pub elems-ll_init : elems ll_init ≡ []
  pub elems-lle_del : (a : ℕ) (l : L) → elems (lle_del a l) ≡ remove a (elems l)
