-- ===== src/Kernel/Errno.antt =====
-- What `errno` holds after a sequence of the system calls of src/libnanvix/thread/{thread,signal,
-- shutdown}.c and src/libnanvix/dev/write.c.
use libnanvix.Shared.{
  List, [], ◌∷◌, ◌≡◌, refl, Option, none, some, ℤ, ℕ, Ret, ok, fail, Errno, ap, ◌∙◌, arith,
}
use mathlib.Core.List.{map}
use libnanvix.Kernel.{Kernel, Nr}
use libnanvix.Kernel.Calls.{
  Caller, kthread_create, kthread_exit, kthread_join, kthread_yield, ksleep, kwakeup, ksigctl,
  kalarm, ksigsend, ksigwait, ksigreturn, kshutdown, nanvix_write,
}

pub data Call : Type 0 where
  create : ℤ → ℤ → ℤ → Call
  exit : ℤ → Call
  join : ℤ → ℤ → Call
  yields : Call
  sleeps : Call
  wakes : ℤ → Call
  control : ℤ → ℤ → Call
  alarms : ℤ → Call
  sends : ℤ → ℤ → Call
  awaits : ℤ → Call
  returns : Call
  shuts_down : Call
  writes : ℤ → ℤ → ℤ → Call

abbrev pub value_of : Ret → Option ℕ
value_of (ok n) = some n
value_of (fail e) = none

abbrev error_of : Ret → Option Errno → Option Errno
error_of (ok n) before = before
error_of (fail e) before = some e

-- The error of the last of the answers that is one, and `before` if none is.
unfoldable pub last_error : List Ret → Option Errno → Option Errno
last_error [] before = before
last_error (ok n ∷ rets) before = last_error rets before
last_error (fail e ∷ rets) before = last_error rets (some e)

last_error_next :
    (ret : Ret) (rets : List Ret) (before : Option Errno)
    → last_error rets (error_of ret before) ≡ last_error (ret ∷ rets) before
unfolding last_error
last_error_next (ok n) rets before = refl
last_error_next (fail e) rets before = refl

module _ (k : Kernel) where
  open k use {State, kcall}

  pub perform : Call → Caller State → Option ℕ × Caller State
  perform (create tid start arg) c = kthread_create k tid start arg c
  perform (exit retval) c = kthread_exit k retval c
  perform (join tid retval) c = kthread_join k tid retval c
  perform yields c = kthread_yield k c
  perform sleeps c = ksleep k c
  perform (wakes tid) c = kwakeup k tid c
  perform (control signum sigact) c = ksigctl k signum sigact c
  perform (alarms seconds) c = kalarm k seconds c
  perform (sends signum tid) c = ksigsend k signum tid c
  perform (awaits signum) c = ksigwait k signum c
  perform returns c = ksigreturn k c
  perform shuts_down c = kshutdown k c
  perform (writes fd buf n) c = nanvix_write k fd buf n c

  -- The kernel call behind each function, with its arguments.
  abbrev pub request : Call → Nr × List ℤ
  request (create tid start arg) = (Nr.thread_create, tid ∷ start ∷ arg ∷ [])
  request (exit retval) = (Nr.thread_exit, retval ∷ [])
  request (join tid retval) = (Nr.thread_join, tid ∷ retval ∷ [])
  request yields = (Nr.thread_yield, [])
  request sleeps = (Nr.sleep, [])
  request (wakes tid) = (Nr.wakeup, tid ∷ [])
  request (control signum sigact) = (Nr.sigctl, signum ∷ sigact ∷ [])
  request (alarms seconds) = (Nr.alarm, seconds ∷ [])
  request (sends signum tid) = (Nr.sigsend, signum ∷ tid ∷ [])
  request (awaits signum) = (Nr.sigwait, signum ∷ [])
  request returns = (Nr.sigreturn, [])
  request shuts_down = (Nr.shutdown, [])
  request (writes fd buf n) = (Nr.write, fd ∷ buf ∷ n ∷ [])

  -- The calls `cs` one after the other: what they return, and what the caller finds at the end.
  unfoldable pub run : List Call → Caller State → List (Option ℕ) × Caller State
  unfolding perform
  run [] c = ([], c)
  run (call ∷ cs) c =
      let (value, c') = perform call c in let (values, c'') = run cs c' in (value ∷ values, c'')

  -- What the kernel answers to the requests behind them, and its state at the end.
  unfoldable pub answers : List Call → State → List Ret × State
  answers [] s = ([], s)
  answers (call ∷ cs) s =
      let (ret, s') = kcall (request call).0 (request call).1 s in
      let (rets, s'') = answers cs s' in (ret ∷ rets, s'')

  perform-kcall :
      (call : Call) (c : Caller State)
      → let (ret, s) = kcall (request call).0 (request call).1 c.state in
        perform call c ≡ (value_of ret, record { state = s; errno = error_of ret c.errno })
  unfolding perform kthread_create kthread_exit kthread_join kthread_yield ksleep kwakeup ksigctl
      kalarm ksigsend ksigwait ksigreturn kshutdown nanvix_write
  perform-kcall (create tid start arg) c = ground arith
  perform-kcall (exit retval) c = ground arith
  perform-kcall (join tid retval) c = ground arith
  perform-kcall yields c = ground arith
  perform-kcall sleeps c = ground arith
  perform-kcall (wakes tid) c = ground arith
  perform-kcall (control signum sigact) c = ground arith
  perform-kcall (alarms seconds) c = ground arith
  perform-kcall (sends signum tid) c = ground arith
  perform-kcall (awaits signum) c = ground arith
  perform-kcall returns c = ground arith
  perform-kcall shuts_down c = ground arith
  perform-kcall (writes fd buf n) c = ground arith

  -- After any sequence of calls that report by `errno`, with the kernel answering in any way, `errno`
  -- holds the code of the last call that failed, however many calls have succeeded since, and is as it
  -- was before if none failed; each call has returned the kernel's answer to its own request, or -1 if
  -- that was an error; and the kernel has got these requests and no others, in their order.
  pub errno_of_last_failure :
      (cs : List Call) (c : Caller State)
      → let (values, after) = run cs c in
        let (rets, s) = answers cs c.state in
        (values ≡ map value_of rets) × (after.errno ≡ last_error rets c.errno) × (after.state ≡ s)
  unfolding run answers last_error
  errno_of_last_failure [] c = (refl, refl, refl)
  errno_of_last_failure (call ∷ cs) c =
      let (ret, s) = kcall (request call).0 (request call).1 c.state in
      let (values, code, state) =
        errno_of_last_failure cs (record { state = s; errno = error_of ret c.errno }) in
      rw (perform-kcall call c)
        (ap (λ vs. value_of ret ∷ vs) values, code ∙ last_error_next ret _ c.errno, state)
