-- ===== src/PollEvents/Tests.antt =====
-- The set of descriptors of src/core/aws-net-poll_events.adb, on small sets.
use aws.Base.{
  ℕ, ◌+◌, ◌^◌, ◌<◌, ◌≤◌, ◌⊎◌, ◌≡◌, ◌≢◌, refl, ℤ, pos, negsuc, minus_one, Bool, true, false, ◌&&◌,
  not, Option, none, some, List, [], ◌∷◌, ◌++◌, take, drop, ◌==◌, int_eq, int_eq_iff, if◌then◌else◌,
  arith,
}
use aws.FdSet.{FdMacros, InRoom, is_socket_in_set}
use aws.PollEvents.Asked.{contents, outcome_map, meaning}
use aws.PollEvents.Copy.{copy_lem}
use aws.PollEvents.Next.{IsNext, next-IsNext}
use aws.PollEvents.Refinement.{apply-meaning}
use aws.PollEvents.Interrupted.{IsInterruption, IsNearest, Waits, wait-Waits, c_timeout-positive}
use aws.PollEvents.Wait.{Response, limit, c_timeout, wait}
use aws.PollEvents.Invariant.{
  IsValid, Op, add_op, replace_op, set_event_op, remove_op, apply, run_ops, run_ops-IsValid,
}
use aws.PollEvents.Ready.{IsZero}
use aws.PollEvents.Report.{Readiness, IsSelect, expected, g_poll-expected}
use aws.PollEvents.Select.{Call, Selected, g_poll, timeval}
use aws.PollEvents.{copy, size, next, Events, no_events, Pollfd, PollSet, Outcome, ok, input}

abbrev unused : Pollfd
unused = record { fd = pos 0; events = no_events; revents = no_events }

abbrev empty_set : PollSet
empty_set = record { slots = unused ∷ unused ∷ unused ∷ []; len = 0; max_fd = 0 }

empty_set-IsValid : IsValid empty_set
empty_set-IsValid = record { len_le = omega arith; below_max = tt }

abbrev some_ops : List Op
some_ops =
    add_op (pos 5) (record { input = true; output = false })
    ∷ add_op (pos 7) (record { input = true; output = true })
    ∷ set_event_op 2 input false
    ∷ replace_op 1 (pos 9)
    ∷ replace_op 1 minus_one
    ∷ remove_op 1
    ∷ []

run_ops-IsValid_example : IsValid (run_ops empty_set some_ops)
run_ops-IsValid_example = run_ops-IsValid some_ops empty_set-IsValid

isset_self :
    (n : ℤ) (s : ℤ → Bool)
    → InRoom 16 n
    → (if (if int_eq n n then true else s n) then pos 1 else pos 0) ≢ pos 0
isset_self n s h = ground (arith, (int_eq_iff n n).1 refl)

isset_ne :
    (n m : ℤ) (s : ℤ → Bool)
    → n ≢ m
    → InRoom 16 n
    → InRoom 16 m
    → (if (if int_eq n m then true else s m) then pos 1 else pos 0) ≡ (if s m then pos 1 else pos 0)
isset_ne n m s h k l = ground (arith, (int_eq_iff n m).0)

-- Sets of 16 descriptors as functions.
abbrev bits : FdMacros
bits = record {
  FdSet = ℤ → Bool;
  capacity = λ s. 16;
  fd_isset = λ n s. if s n then pos 1 else pos 0;
  fd_set = λ n s m. if int_eq n m then true else s m;
  fd_zero = λ s m. false;
  capacity-fd_set = λ n s. refl;
  capacity-fd_zero = λ s. refl;
  fd_isset-fd_zero = λ n s h. refl;
  fd_isset-fd_set_self = isset_self;
  fd_isset-fd_set_ne = isset_ne;
}

abbrev seven : Readiness
seven = record {
  readable = λ n. int_eq n (pos 7);
  writable = λ n. int_eq n (pos 7);
  exceptional = λ n. false;
}

-- A system on which descriptor 7 is ready.
abbrev masked : Option (ℤ → Bool) → (ℤ → Bool) → ℤ → Bool
masked (some s) f n = s n && f n
masked none f n = false

abbrev system : Call bits → Selected bits
system c = record {
  result = pos 1;
  read = masked c.read seven.readable;
  write = masked c.write seven.writable;
  except = masked (some c.except) seven.exceptional;
}

bit_and :
    (a b : Bool)
    → not (int_eq (if a && b then pos 1 else pos 0) (pos 0))
      ≡ (not (int_eq (if a then pos 1 else pos 0) (pos 0)) && b)
unfolding int_eq
bit_and true true = refl
bit_and true _ = refl
bit_and _ _ = refl

system-IsSelect : IsSelect bits seven system
unfolding is_socket_in_set
system-IsSelect = record {
  reads = λ c n fd r h k l. rw k (bit_and (r fd) (seven.readable fd));
  writes = λ c n fd w h k l. rw k (bit_and (w fd) (seven.writable fd));
  excepts = λ c n fd h l. bit_and (c.except fd) (seven.exceptional fd);
}

-- Two slots in use, the second with descriptor 7.
abbrev asks_both : Events
asks_both = record no_events { pollin = true; pollpri = true; pollout = true }

abbrev two_slots : PollSet
two_slots = record {
  slots =
      record { fd = pos 5; events = asks_both; revents = no_events }
      ∷ record { fd = pos 7; events = asks_both; revents = no_events }
      ∷ unused
      ∷ [];
  len = 2;
  max_fd = 7;
}

two_slots-IsValid : IsValid two_slots
two_slots-IsValid = record { len_le = omega arith; below_max = (omega arith, (omega arith, tt)) }

g_poll-expected_example :
    (c : Call bits) × (c.nfds ≡ 8)
    × (c.timeout ≡ timeval (pos 1500))
    × (g_poll bits (λ s m. false) system (λ n. true) two_slots (pos 1500) ≡ (
        let (ps, z) = expected seven (take 2 two_slots.slots) (system c).result in
        ok (record two_slots { slots = ps ++ drop 2 two_slots.slots }, z)))
g_poll-expected_example =
    g_poll-expected bits seven (λ s m. false) system (λ n. true) {s = two_slots} (pos 1500) zeroed
      system-IsSelect two_slots-IsValid (tt, (tt, tt)) (omega arith)
  where
    zeroed : IsZero bits (λ s m. false)
    zeroed = record {
      capacity-zero = λ s. refl;
      is_set-zero = λ n s h. unfold is_socket_in_set int_eq in refl;
    }

-- Slot 1 leaves, and descriptor 7 takes its place.
apply-meaning_example :
    outcome_map contents (apply two_slots (remove_op 1))
    ≡ ok (record { descriptor = pos 7; reads = true; writes = true } ∷ [])
unfolding meaning
apply-meaning_example = apply-meaning {s = two_slots} (remove_op 1) two_slots-IsValid (omega arith)

next-IsNext_example : IsNext two_slots 1 (next two_slots 1)
next-IsNext_example = next-IsNext {s = two_slots} 1 two_slots-IsValid (omega arith)

copy_lem_example :
    IsValid (copy (λ n. pos 99) two_slots 4)
    × (size (copy (λ n. pos 99) two_slots 4) ≡ 4)
    × (contents (copy (λ n. pos 99) two_slots 4) ≡ contents two_slots)
copy_lem_example = copy_lem (λ n. pos 99) {s = two_slots} 4 two_slots-IsValid

-- The first call is interrupted after two milliseconds, and the next finds a slot.
abbrev interrupted_once : ℕ → PollSet → ℤ → Response
interrupted_once k fds c = record {
  fds = fds;
  result = if k == 0 then negsuc 0 else pos 1;
  errno = pos 4;
  elapsed = 2000000;
}

interrupted_once-stops :
    (fds : PollSet) → (c : ℤ) → IsInterruption (pos 4) (interrupted_once 1 fds c) → ⊥
interrupted_once-stops fds c ((n, h), e) = pos_ne h
  where
    pos_ne : {m n : ℕ} → pos m ≢ negsuc n
    pos_ne h = cc

wait-Waits_example :
    (o : Outcome (PollSet × ℕ)) × (wait interrupted_once (pos 4) 2 (pos 5000000) two_slots ≡ some o)
    × Waits interrupted_once (pos 4) 5000000 0 two_slots 0 o
wait-Waits_example = wait-Waits interrupted_once (pos 4) 5000000 1 two_slots interrupted_once-stops

c_timeout-positive_example :
    ((limit ≤ 1500600) × (c_timeout (pos 1500600) ≡ ok minus_one))
    ⊎ ((1500600 < limit)
        × ((k : ℕ) × (c_timeout (pos 1500600) ≡ ok (pos k))
            × (k + 9 ≤ 2 ^ 31)
            × IsNearest k 1500600))
c_timeout-positive_example = c_timeout-positive 1500600
