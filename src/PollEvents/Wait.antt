-- ===== src/PollEvents/Wait.antt =====
-- src/core/aws-net-poll_events.adb: `Wait`, the loop around the call that waits, which goes on when a
-- signal has interrupted that call.
use aws.Base.{
  ℕ, zero, suc, ◌+◌, ◌-◌, ◌*◌, ◌/◌, ◌^◌, ℤ, pos, negsuc, minus_one, int_eq, Option, none, some, ltb,
  leb, ◌==◌, if◌then◌else◌,
}
use aws.PollEvents.{PollSet, Outcome, ok, constraint_error, socket_error}

-- What a call of the separate procedure `Wait` gives: the set with the events, Result, the code that
-- Socket_Errno then is, and the time since Stamp when the clock is next read.
pub record Response : Type 0 where
  pub fds : PollSet
  pub result : ℤ
  pub errno : ℤ
  pub elapsed : ℕ

-- A Duration is a number of nanoseconds. `Duration (Timeout_Type'Last - 8) / 1_000`
abbrev pub limit : ℕ
limit = (2 ^ 31 - 1 - 8) * 1000000

-- `Poll_Timeout * 1_000`, rounded to an integer.
abbrev pub milliseconds : ℕ → ℕ
milliseconds n = (n + 500000) / 1000000

abbrev pub negative : ℕ → ℤ
negative zero = pos 0
negative (suc n) = negsuc n

-- C_Timeout. Below -2 ^ 31 it is no `Timeout_Type`.
unfoldable pub c_timeout : ℤ → Outcome ℤ
c_timeout (pos n) = if leb limit n then ok minus_one else ok (pos (milliseconds n))
c_timeout (negsuc n) =
    if ltb (2 ^ 31) (milliseconds (n + 1))
    then constraint_error
    else ok (negative (milliseconds (n + 1)))

-- Poll_Timeout after an interruption.
unfoldable pub next_timeout : ℤ → ℤ → ℤ → ℕ → ℤ
next_timeout timeout poll_timeout (negsuc _) elapsed = poll_timeout
next_timeout (pos n) poll_timeout (pos _) elapsed = pos (n - elapsed)
next_timeout (negsuc _) poll_timeout (pos _) elapsed = pos 0

-- `system` is the separate procedure, by the number of the call, and `eintr` the constant of AWS.OS_Lib.
module _ (system : ℕ → PollSet → ℤ → Response) (eintr : ℤ) where
  -- The loop; `none` is one that has not ended after this number of rounds.
  unfoldable pub wait_loop : ℕ → ℕ → ℤ → ℤ → PollSet → Option (Outcome (PollSet × ℕ))
  unfolding c_timeout next_timeout
  wait_loop zero k timeout poll_timeout fds = none
  wait_loop (suc rounds) k timeout poll_timeout fds = elim (c_timeout poll_timeout) [
    | ok c ↦
        let r = system k fds c in
        let rest =
          wait_loop rounds (k + 1) timeout (next_timeout timeout poll_timeout c r.elapsed) r.fds in
        elim r.result [
          | pos count ↦ some (ok (r.fds, count))
          | negsuc _ ↦ if int_eq r.errno eintr then rest else some socket_error
        ]
    | _ ↦ some constraint_error
  ]

  unfoldable pub wait : ℕ → ℤ → PollSet → Option (Outcome (PollSet × ℕ))
  unfolding wait_loop
  wait rounds timeout fds =
      if fds.len == 0 then some (ok (fds, 0)) else wait_loop rounds 0 timeout timeout fds
