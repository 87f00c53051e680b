-- ===== src/PollEvents/Select.antt =====
-- src/core/aws-net-poll_events-g_poll.adb: waiting by `select`, in the layout of `poll`. Setting
-- and testing a descriptor are the functions of src/poll/os_support.c; the system call and the FD_ZERO
-- of the instance, config/src/aws-net-poll_events-wait__posix.adb, are parameters.
use aws.Base.{
  ℕ, zero, suc, ◌+◌, ◌*◌, ◌/◌, ◌%◌, ℤ, pos, negsuc, Bool, false, not, ◌||◌, Option, none, some,
  List, [], ◌∷◌, ◌++◌, map, take, drop, int_eq, ltb, ◌==◌, if◌then◌else◌,
}
use aws.FdSet.{FdMacros, is_socket_in_set, set_socket_in_set}
use aws.PollEvents.{
  Events, no_events, has_events, Pollfd, PollSet, Outcome, ok, socket_error, program_error,
  constraint_error,
}

-- struct timeval
pub record Timeval : Type 0 where
  pub tv_sec : ℕ
  pub tv_usec : ℕ

-- `Timeout >= 0`: milliseconds as seconds and microseconds. A negative one is no timeout.
unfoldable pub timeval : ℤ → Option Timeval
timeval (pos t) = some (record { tv_sec = t / 1000; tv_usec = t % 1000 * 1000 })
timeval (negsuc t) = none

abbrev pub wants_read : Events → Bool
wants_read e = e.pollin || e.pollpri

abbrev pub clear_revents : Pollfd → Pollfd
clear_revents p = record p { revents = no_events }

-- `FD > Max_FD`.
unfoldable pub above : ℕ → ℤ → Bool
above max_fd (pos fd) = ltb max_fd fd
above max_fd (negsuc _) = false

module _ (macros : FdMacros) where
  open macros use {FdSet}

  -- What `select` leaves behind: its result, and the three sets.
  pub record Selected : Type 0 where
    pub result : ℤ
    pub read : FdSet
    pub write : FdSet
    pub except : FdSet

  -- A call of `select`; `none` is the null pointer, and a set that is not passed stays as it is.
  pub record Call : Type 0 where
    pub nfds : ℕ
    pub read : Option FdSet
    pub write : Option FdSet
    pub except : FdSet
    pub timeout : Option Timeval

  -- The local variables of the procedure while it fills the sets.
  pub record Setup : Type 0 where
    pub rfds : FdSet
    pub rcount : ℕ
    pub wfds : FdSet
    pub wcount : ℕ
    pub efds : FdSet

  -- One round of the first loop, for a descriptor and its events.
  unfoldable pub fill_one : ℤ → Events → Setup → Setup
  unfolding set_socket_in_set
  fill_one fd e u =
      let r =
        if wants_read e
        then record u { rfds = set_socket_in_set macros fd u.rfds; rcount = u.rcount + 1 }
        else u in
      let w =
        if e.pollout
        then record r { wfds = set_socket_in_set macros fd r.wfds; wcount = r.wcount + 1 }
        else r in
      record w { efds = set_socket_in_set macros fd w.efds }

  -- The first loop, over the slots in use. A descriptor above Max_FD is refused after it was set.
  unfoldable pub fill : ℕ → List Pollfd → Setup → Outcome Setup
  unfolding fill_one above
  fill max_fd [] u = ok u
  fill max_fd (p ∷ ps) u =
      let rest = fill max_fd ps (fill_one p.fd p.events u) in
      if above max_fd p.fd then program_error else rest

  abbrev pub is_set : ℤ → FdSet → Bool
  is_set fd s = not (int_eq (is_socket_in_set macros fd s) (pos 0))

  -- One round of the second loop.
  unfoldable pub collect_one : FdSet → FdSet → FdSet → Pollfd → Pollfd
  collect_one r w e p = record p {
    revents = record no_events {
      pollin = is_set p.fd r;
      pollout = is_set p.fd w;
      pollerr = is_set p.fd e;
    };
  }

  -- The second loop, with the number of slots that have an event.
  unfoldable pub collect : FdSet → FdSet → FdSet → List Pollfd → List Pollfd × ℕ
  collect r w e [] = ([], 0)
  collect r w e (p ∷ ps) =
      let q = collect_one r w e p in
      let (qs, n) = collect r w e ps in (q ∷ qs, if has_events q.revents then n + 1 else n)

  module _ (fd_zero : FdSet → FdSet) (select : Call → Selected) (storage : FdSet) where
    -- The sets start as whatever the storage holds, and are cleared.
    abbrev pub empty_setup : Setup
    empty_setup = record {
      rfds = fd_zero storage;
      rcount = 0;
      wfds = fd_zero storage;
      wcount = 0;
      efds = fd_zero storage;
    }

    abbrev pub select_call : ℕ → ℤ → Setup → Call
    select_call max_fd timeout u = record {
      nfds = max_fd + 1;
      read = if u.rcount == 0 then none else some u.rfds;
      write = if u.wcount == 0 then none else some u.wfds;
      except = u.efds;
      timeout = timeval timeout;
    }

    -- The slots in use and the result, from what `select` left. A set that was not passed stays.
    unfoldable pub finish : List Pollfd → Setup → Selected → List Pollfd × ℤ
    unfolding collect
    finish ps u (selected) =
        let r = if u.rcount == 0 then u.rfds else selected.read in
        let w = if u.wcount == 0 then u.wfds else selected.write in
        elim selected.result [
          | pos zero ↦ (map clear_revents ps, pos 0)
          | pos (suc n) ↦ let (qs, count) = collect r w selected.except ps in (qs, pos count)
          | negsuc n ↦ (map clear_revents ps, negsuc n)
        ]

    -- `G_Poll`: the set afterwards, and the result.
    unfoldable pub g_poll : PollSet → ℤ → Outcome (PollSet × ℤ)
    g_poll s timeout = elim (fill s.max_fd (take s.len s.slots) empty_setup) [
      | ok u ↦
          let call = select_call s.max_fd timeout u in
          let (ps, result) = finish (take s.len s.slots) u (select call) in
          ok (record s { slots = ps ++ drop s.len s.slots }, result)
      | constraint_error ↦ constraint_error
      | socket_error ↦ socket_error
      | program_error ↦ program_error
    ]
