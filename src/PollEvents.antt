-- ===== src/PollEvents.antt =====
-- src/core/aws-net-poll_events.ads and .adb: a set of descriptors to wait on, in the layout of
-- `poll`. An array indexed from 1 is the list of its slots.

pub mod Invariant
pub mod Select
pub mod Ready
pub mod Report
pub mod Copy
pub mod Asked
pub mod Refinement
pub mod Next
pub mod Wait
pub mod Interrupted
mod Tests
use aws.Base.{
  ℕ, zero, suc, ◌+◌, ◌-◌, ◌*◌, ℤ, pos, negsuc, Bool, true, false, not, ◌||◌, ◌&&◌, Option, none,
  some, List, [], ◌∷◌, get_elem?, take, replicate, ◌++◌, set, length, ltb, leb, ◌==◌, if◌then◌else◌,
}

-- The bits of `Events_Type`: each POLL value has bits of its own.
pub record Events : Type 0 where
  pub pollin : Bool
  pub pollpri : Bool
  pub pollout : Bool
  pub pollerr : Bool
  pub pollhup : Bool
  pub pollnval : Bool

abbrev pub no_events : Events
no_events = record {
  pollin = false;
  pollpri = false;
  pollout = false;
  pollerr = false;
  pollhup = false;
  pollnval = false;
}

pub record Pollfd : Type 0 where
  pub fd : ℤ
  pub events : Events
  pub revents : Events

-- `slots` has `Size` items, of which the first `len` are in use.
pub record PollSet : Type 0 where
  pub slots : List Pollfd
  pub len : ℕ
  pub max_fd : ℕ

abbrev pub size : PollSet → ℕ
size s = length s.slots

pub record WaitEvents : Type 0 where
  pub input : Bool
  pub output : Bool

pub record EventSet : Type 0 where
  pub error : Bool
  pub input : Bool
  pub output : Bool

-- What a call returns, or the exception that it raises.
pub data Outcome {ℓ} (A : Type ℓ) : Type ℓ where
  ok : A → Outcome A
  constraint_error : Outcome A
  socket_error : Outcome A
  program_error : Outcome A

pub data WaitEvent : Type 0 where
  input output : WaitEvent

-- `Set_Event` of a slot: the bits of POLLIN and POLLPRI, or of POLLOUT.
unfoldable pub set_slot_event : Pollfd → WaitEvent → Bool → Pollfd
set_slot_event item input value = record item {
  events = record item.events { pollin = value; pollpri = value };
}
set_slot_event item output value = record item { events = record item.events { pollout = value } }

-- `Set_Mode` of a slot: the loop over Input .. Output.
unfoldable pub set_slot_mode : Pollfd → WaitEvents → Pollfd
unfolding set_slot_event
set_slot_mode item mode = set_slot_event (set_slot_event item input mode.input) output mode.output

-- The slot at an index from 1; out of the array the access is refused.
unfoldable pub at_index : PollSet → ℕ → Option Pollfd
at_index s zero = none
at_index s (suc i) = get_elem? s.slots i

unfoldable pub set_index : PollSet → ℕ → Pollfd → PollSet
set_index s i p = record s { slots = set s.slots (i - 1) p }

abbrev pub with_slot : PollSet → ℕ → (Pollfd → Outcome PollSet) → Outcome PollSet
with_slot s i f = elim (at_index s i) [ some p ↦ f p | none ↦ constraint_error ]

-- `Max_FD` is 0 at first, and is only raised.
unfoldable pub higher : ℕ → ℤ → ℕ
higher m (pos fd) = if ltb m fd then fd else m
higher m (negsuc _) = m

unfoldable pub raise_max : PollSet → ℤ → PollSet
unfolding higher
raise_max s fd = record s { max_fd = higher s.max_fd fd }

-- `Add`
unfoldable pub add_fd : PollSet → ℕ → WaitEvents → Outcome PollSet
unfolding raise_max at_index set_index set_slot_mode
add_fd s fd event =
    let t = raise_max s (pos fd) in
    let u = record t { len = t.len + 1 } in
    with_slot u u.len (λ p. ok (set_index u u.len (set_slot_mode (record p { fd = pos fd }) event)))

unfoldable pub add : PollSet → ℤ → WaitEvents → Outcome PollSet
unfolding add_fd
add s (pos fd) event = if size s == s.len then constraint_error else add_fd s fd event
add s (negsuc fd) event = if size s == s.len then constraint_error else socket_error

-- `Check_Range`, then the rest of an operation.
abbrev pub in_range {ℓ} : {A : Type ℓ} → PollSet → ℕ → Outcome A → Outcome A
in_range s i k = if ltb s.len i then constraint_error else k

-- The loop at the end of `Copy`: the largest descriptor in use.
unfoldable pub max_fds : ℕ → List Pollfd → ℕ
unfolding higher
max_fds m [] = m
max_fds m (p ∷ ps) = max_fds (higher m p.fd) ps

-- New slots. They have no value for FD: `fd` is what their memory happens to hold.
unfoldable pub fresh_slots : (ℕ → ℤ) → ℕ → List Pollfd
fresh_slots fd zero = []
fresh_slots fd (suc n) =
    record { fd = fd n; events = no_events; revents = no_events } ∷ fresh_slots fd n

-- `Copy`: the new slots, with the number of those in use.
unfoldable pub copy_slots : (ℕ → ℤ) → PollSet → ℕ → List Pollfd × ℕ
unfolding fresh_slots
copy_slots fd s n =
    if ltb (size s) n then (s.slots ++ fresh_slots fd (n - size s), s.len) else (take n s.slots, n)

unfoldable pub copy : (ℕ → ℤ) → PollSet → ℕ → PollSet
unfolding copy_slots max_fds
copy fd s n =
    let (slots, len) = copy_slots fd s n in
    record { slots = slots; len = len; max_fd = max_fds 0 (take len slots) }

-- `Replace`
unfoldable pub replace : PollSet → ℕ → ℤ → Outcome PollSet
unfolding raise_max at_index set_index
replace s i fd =
    in_range s i (with_slot s i (λ p. ok (raise_max (set_index s i (record p { fd = fd })) fd)))

-- `Set_Mode`
unfoldable pub set_mode : PollSet → ℕ → WaitEvents → Outcome PollSet
unfolding at_index set_index set_slot_mode
set_mode s i mode = in_range s i (with_slot s i (λ p. ok (set_index s i (set_slot_mode p mode))))

-- `Set_Event`
unfoldable pub set_event : PollSet → ℕ → WaitEvent → Bool → Outcome PollSet
unfolding at_index set_index set_slot_event
set_event s i event value =
    in_range s i (with_slot s i (λ p. ok (set_index s i (set_slot_event p event value))))

-- `Remove`: the last slot in use takes the place of the removed one.
unfoldable pub remove : PollSet → ℕ → Outcome PollSet
unfolding at_index set_index
remove s i = in_range s i (
    if ltb i s.len
    then with_slot s s.len (λ p. let t = set_index s i p in ok (record t { len = t.len - 1 }))
    else if ltb s.len i
    then constraint_error
    else ok (record s { len = s.len - 1 }))

-- `Next`: the first index from `i` on that is past the end or has an event.
abbrev pub has_events : Events → Bool
has_events e = e.pollin || e.pollpri || e.pollout || e.pollerr || e.pollhup || e.pollnval

-- `rounds` bounds the loop: `len + 1 - i` are enough.
unfoldable pub next_from : ℕ → PollSet → ℕ → ℕ
next_from zero s i = i
next_from (suc n) s i = if ltb s.len i then i else elim (at_index s i) [
  | some p ↦ if has_events p.revents then i else next_from n s (i + 1)
  | none ↦ i
]

unfoldable pub next : PollSet → ℕ → ℕ
unfolding next_from at_index
next s i = next_from (s.len + 1 - i) s i

-- `Status`
unfoldable pub status : PollSet → ℕ → Outcome EventSet
unfolding at_index
status s i = in_range s i (elim (at_index s i) [
  | some p ↦ ok (record {
    error = p.revents.pollerr || p.revents.pollhup || p.revents.pollnval;
    input = p.revents.pollin || p.revents.pollpri;
    output = p.revents.pollout;
  })
  | none ↦ constraint_error
])
