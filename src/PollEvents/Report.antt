-- ===== src/PollEvents/Report.antt =====
-- src/core/aws-net-poll_events-g_poll.adb: what the procedure reports is what is ready, as the
-- system says, among what the slots ask for.
use aws.Base.{
  ℕ, zero, suc, ◌+◌, ◌<◌, ◌≡◌, refl, ℤ, pos, negsuc, Bool, true, ◌&&◌, Bool-cases, inl, inr, some,
  List, [], ◌∷◌, ◌++◌, map, take, drop, All, All-In, In, here, there, ◌==◌, ==_iff, int_eq_iff,
  if◌then◌else◌, arith,
}
use aws.FdSet.{FdMacros, InRoom}
use aws.PollEvents.Invariant.{IsValid, AtMost}
use aws.PollEvents.Ready.{asks, Filled, HasRoom, IsZero, Within, Within-InRoom, fill-Filled}
use aws.PollEvents.Select.{
  Selected, Call, Setup, timeval, wants_read, is_set, collect_one, collect, clear_revents,
  empty_setup, select_call, finish, g_poll,
}
use aws.PollEvents.{no_events, has_events, Pollfd, PollSet, ok}

-- Which descriptors the system finds ready during a call.
pub record Readiness : Type 0 where
  pub readable : ℤ → Bool
  pub writable : ℤ → Bool
  pub exceptional : ℤ → Bool

abbrev pub asks_read : ℤ → List Pollfd → Bool
asks_read = asks wants_read

abbrev pub asks_write : ℤ → List Pollfd → Bool
asks_write = asks (λ e. e.pollout)

-- The events of a slot: of what some slot with the same descriptor asks for, what is ready, and
-- an exceptional condition in any case.
abbrev pub report : Readiness → List Pollfd → Pollfd → Pollfd
report ready all_slots p = record p {
  revents = record no_events {
    pollin = asks_read p.fd all_slots && ready.readable p.fd;
    pollout = asks_write p.fd all_slots && ready.writable p.fd;
    pollerr = ready.exceptional p.fd;
  };
}

pub count_events : List Pollfd → ℕ
count_events [] = 0
count_events (p ∷ ps) = if has_events p.revents then count_events ps + 1 else count_events ps

-- The slots and the result of a wait that ended with this result of `select`.
abbrev pub expected : Readiness → List Pollfd → ℤ → List Pollfd × ℤ
expected ready ps (pos zero) = (map clear_revents ps, pos 0)
expected ready ps (pos (suc n)) = let qs = map (report ready ps) ps in (qs, pos (count_events qs))
expected ready ps (negsuc n) = (map clear_revents ps, negsuc n)

asks_any : (ps : List Pollfd) {p : Pollfd} → In p ps → asks (λ e. true) p.fd ps ≡ true
asks_any [] i = elim i [ ]
asks_any (p ∷ ps) here = ground (arith, (int_eq_iff p.fd p.fd).1 refl)
asks_any (q ∷ ps) {p} (there i) = ground (arith, asks_any ps i)

module _ (macros : FdMacros) where
  open macros use {FdSet, capacity}

  -- What POSIX says of `select`: when it returns a positive number, each set that was passed holds
  -- the descriptors below `nfds` that it held before and that are ready.
  pub record IsSelect (ready : Readiness) (select : Call macros → Selected macros) : Type 0 where
    pub reads :
        (c : Call macros) (n : ℕ) (fd : ℤ) (r : FdSet)
        → (select c).result ≡ pos (suc n)
        → c.read ≡ some r
        → InRoom c.nfds fd
        → is_set macros fd (select c).read ≡ (is_set macros fd r && ready.readable fd)
    pub writes :
        (c : Call macros) (n : ℕ) (fd : ℤ) (w : FdSet)
        → (select c).result ≡ pos (suc n)
        → c.write ≡ some w
        → InRoom c.nfds fd
        → is_set macros fd (select c).write ≡ (is_set macros fd w && ready.writable fd)
    pub excepts :
        (c : Call macros) (n : ℕ) (fd : ℤ)
        → (select c).result ≡ pos (suc n)
        → InRoom c.nfds fd
        → is_set macros fd (select c).except ≡ (is_set macros fd c.except && ready.exceptional fd)

  -- The second loop, where the sets agree with a function of the slot.
  collect-map :
      (r w e : FdSet) (f : Pollfd → Pollfd) (ps : List Pollfd)
      → ((p : Pollfd) → In p ps → collect_one macros r w e p ≡ f p)
      → collect macros r w e ps ≡ (map f ps, count_events (map f ps))
  unfolding collect count_events
  collect-map r w e f [] h = refl
  collect-map r w e f (p ∷ ps) h = rw (h p here, collect-map r w e f ps (λ q i. h q (there i)))

  start-HasRoom :
      (fd_zero : FdSet → FdSet) (select : Call macros → Selected macros) (storage : FdSet) {m : ℕ}
      → IsZero macros fd_zero
      → m < capacity storage
      → HasRoom macros m (empty_setup macros fd_zero select storage)
  start-HasRoom fd_zero select storage zeroed h =
      let same = zeroed.capacity-zero storage in
      record { read_room = omega arith; write_room = omega arith; except_room = omega arith }

  module _ (ready : Readiness) (fd_zero : FdSet → FdSet) (zeroed : IsZero macros fd_zero)
      (select : Call macros → Selected macros) (storage : FdSet) (posix : IsSelect ready select)
      (max_fd : ℕ) (timeout : ℤ) (ps : List Pollfd) (u : Setup macros)
      (room : max_fd < capacity storage)
      (filled : (fd : ℤ)
        → Within max_fd fd
        → Filled macros fd ps (empty_setup macros fd_zero select storage) u) where
    abbrev call : Call macros
    call = select_call macros fd_zero select storage max_fd timeout u

    -- The sets as the second loop reads them.
    abbrev read_after : FdSet
    read_after = if u.rcount == 0 then u.rfds else (select call).read

    abbrev write_after : FdSet
    write_after = if u.wcount == 0 then u.wfds else (select call).write

    module _ (n : ℕ) (found : (select call).result ≡ pos (suc n)) (fd : ℤ)
        (le : Within max_fd fd) where
      read_bit : is_set macros fd read_after ≡ (asks_read fd ps && ready.readable fd)
      read_bit =
          let f = filled fd le in
          let empty = zeroed.is_set-zero fd storage (Within-InRoom fd le room) in
          elim (Bool-cases (u.rcount == 0)) [
            | inl zero_count ↦
                ground (arith, f.read_set, empty, f.read_none ((==_iff u.rcount 0).0 zero_count))
            | inr some_count ↦
                let passed : call.read ≡ some u.rfds = rw (some_count, if◌then◌else◌) in
                ground (
                  arith,
                  f.read_set,
                  empty,
                  posix.reads call n fd u.rfds found passed (Within-InRoom fd le (omega arith)),
                )
          ]

      write_bit : is_set macros fd write_after ≡ (asks_write fd ps && ready.writable fd)
      write_bit =
          let f = filled fd le in
          let empty = zeroed.is_set-zero fd storage (Within-InRoom fd le room) in
          elim (Bool-cases (u.wcount == 0)) [
            | inl zero_count ↦
                ground (arith, f.write_set, empty, f.write_none ((==_iff u.wcount 0).0 zero_count))
            | inr some_count ↦
                let passed : call.write ≡ some u.wfds = rw (some_count, if◌then◌else◌) in
                ground (
                  arith,
                  f.write_set,
                  empty,
                  posix.writes call n fd u.wfds found passed (Within-InRoom fd le (omega arith)),
                )
          ]

      except_bit :
          asks (λ e. true) fd ps ≡ true
          → is_set macros fd (select call).except ≡ ready.exceptional fd
      except_bit any =
          let f = filled fd le in
          ground
            (arith, f.except_set, posix.excepts call n fd found (Within-InRoom fd le (omega arith)))

    -- One slot, after a call that found something.
    collect_one-report :
        (n : ℕ) (p : Pollfd)
        → (select call).result ≡ pos (suc n)
        → Within max_fd p.fd
        → In p ps
        → collect_one macros read_after write_after (select call).except p ≡ report ready ps p
    unfolding collect_one
    collect_one-report n p found le i = ground (
      arith,
      read_bit n found p.fd le,
      write_bit n found p.fd le,
      except_bit n found p.fd le (asks_any ps i),
    )

    finish-expected :
        All (λ p. Within max_fd p.fd) ps
        → (r : ℤ) → (select call).result ≡ r
        → finish macros fd_zero select storage ps u (select call) ≡ expected ready ps r
    unfolding finish
    finish-expected below (pos zero) e = rw e
    finish-expected below (negsuc n) e = rw e
    finish-expected below (pos (suc n)) e = rw e (
        rw (
          collect-map read_after write_after (select call).except (report ready ps) ps
            (λ p i. collect_one-report n p e (All-In _ below i) i)))

-- The descriptor is not negative.
abbrev pub IsDescriptor : ℤ → Type 0
IsDescriptor (pos _) = Unit
IsDescriptor (negsuc _) = ⊥

AtMost-Within :
    (m : ℕ) (ps : List Pollfd)
    → All (λ p. AtMost m p.fd) ps
    → All (λ p. IsDescriptor p.fd) ps
    → All (λ p. Within m p.fd) ps
AtMost-Within m [] h k = tt
AtMost-Within m (p ∷ ps) h k = (both p.fd h.0 k.0, AtMost-Within m ps h.1 k.1)
  where
    both : (z : ℤ) → AtMost m z → IsDescriptor z → Within m z
    both (pos n) a d = a
    both (negsuc n) a d = d

-- A valid set, none of whose descriptors in use is negative, and for whose Max_FD an `fd_set` has room,
-- is polled by one call of `select`, on Max_FD + 1 descriptors and with the timeout in seconds and
-- microseconds, and no exception is raised. If `select` finds something, each slot in use reports as
-- POLLIN and POLLOUT what is ready among what any slots of its descriptor ask for, POLLPRI counting as
-- POLLIN, and as POLLERR an exceptional condition, asked for or not, and the result counts the slots that report
-- anything; if it fails or times out, every slot in use reports nothing, and the result is that of
-- `select`. Slots not in use, Length and Max_FD stay as they are.
pub g_poll-expected :
    (macros : FdMacros) (ready : Readiness) (fd_zero : macros.FdSet → macros.FdSet)
    (select : Call macros → Selected macros) (storage : macros.FdSet) {s : PollSet} (timeout : ℤ)
    → IsZero macros fd_zero
    → IsSelect macros ready select
    → IsValid s
    → All (λ p. IsDescriptor p.fd) (take s.len s.slots)
    → s.max_fd < macros.capacity storage
    → (c : Call macros) × (c.nfds ≡ s.max_fd + 1)
      × (c.timeout ≡ timeval timeout)
      × (g_poll macros fd_zero select storage s timeout ≡ (
          let (ps, z) = expected ready (take s.len s.slots) (select c).result in
          ok (record s { slots = ps ++ drop s.len s.slots }, z)))
unfolding g_poll
g_poll-expected macros ready fd_zero select storage {s} timeout zeroed posix v descriptors room =
    let ps = take s.len s.slots in
    let start = empty_setup macros fd_zero select storage in
    let within = AtMost-Within s.max_fd ps v.below_max descriptors in
    let (u, u_eq, filled) =
      fill-Filled macros s.max_fd ps start (start-HasRoom macros fd_zero select storage zeroed room)
        within in
    let c = select_call macros fd_zero select storage s.max_fd timeout u in
    (
      c,
      refl,
      refl,
      rw (
        g_poll,
        u_eq,
        finish-expected macros ready fd_zero zeroed select storage posix s.max_fd timeout ps u room
            filled within (select c).result refl,
      ),
    )
