-- ===== src/PollEvents/Invariant.antt =====
-- src/core/aws-net-poll_events.adb: the slots in use lie in the array, and none of them holds a
-- descriptor above Max_FD, which is what `select` is given. Every operation keeps that.
use aws.Base.{
  [], ◌∷◌, ℕ, zero, suc, ◌+◌, ◌-◌, ◌≤◌, ◌<◌, ◌≡◌, refl, subst, ℤ, pos, negsuc, Bool, true, false,
  Bool-cases, inl, inr, Option, none, some, List, take, All, length-set, All-take-set,
  All-take-set_next, All-take_le, All-take_get, All-weaken, ltb, ◌==◌, if◌then◌else◌, arith,
}
use native.Mathlib.Numerals.{add-one}
use aws.PollEvents.{
  Pollfd, PollSet, WaitEvents, WaitEvent, Outcome, ok, constraint_error, socket_error, size, add,
  add_fd, replace, remove, set_mode, set_event, set_slot_mode, set_slot_event, higher, raise_max,
  at_index, set_index, with_slot, in_range, input, output,
}

-- The descriptor is not above the number.
abbrev pub AtMost : ℕ → ℤ → Type 0
AtMost m (pos n) = n ≤ m
AtMost m (negsuc _) = Unit

pub AtMost-le : {m k : ℕ} (z : ℤ) → AtMost m z → m ≤ k → AtMost k z
AtMost-le (pos n) h l = omega arith
AtMost-le (negsuc n) h l = tt

pub higher_le : (m : ℕ) (z : ℤ) → m ≤ higher m z
unfolding higher
higher_le m (pos n) = ground arith
higher_le m (negsuc n) = omega arith

pub AtMost-higher : (m : ℕ) (z : ℤ) → AtMost (higher m z) z
unfolding higher
AtMost-higher m (pos n) = ground arith
AtMost-higher m (negsuc n) = tt

pub record IsValid (s : PollSet) : Type 0 where
  pub len_le : s.len ≤ size s
  pub below_max : All (λ p. AtMost s.max_fd p.fd) (take s.len s.slots)

-- An exception leaves the set as it was.
abbrev pub Keeps : Outcome PollSet → Type 0
Keeps (ok s) = IsValid s
Keeps _ = Unit

raise_max-IsValid : {s : PollSet} (fd : ℤ) → IsValid s → IsValid (raise_max s fd)
unfolding raise_max
raise_max-IsValid {s} fd v = record {
  len_le = v.len_le;
  below_max = All-weaken _ _ _ (λ p h. AtMost-le p.fd h (higher_le s.max_fd fd)) v.below_max;
}

-- A write into a slot.
set_index-IsValid :
    {s : PollSet} (i : ℕ) (p : Pollfd)
    → IsValid s
    → AtMost s.max_fd p.fd
    → IsValid (set_index s i p)
unfolding set_index
set_index-IsValid {s} i p v h = record {
  len_le = omega (arith, length-set s.slots (i - 1) p, v.len_le);
  below_max = All-take-set _ s.len (i - 1) s.slots p v.below_max h;
}

Keeps-with_slot :
    (s : PollSet) (i : ℕ) (f : Pollfd → Outcome PollSet)
    → ((p : Pollfd) → at_index s i ≡ some p → Keeps (f p))
    → Keeps (with_slot s i f)
Keeps-with_slot s i f h = go (at_index s i) h
  where
    go :
        (o : Option Pollfd)
        → ((p : Pollfd) → o ≡ some p → Keeps (f p))
        → Keeps (elim o [ some p ↦ f p | none ↦ constraint_error ])
    go none h = tt
    go (some p) h = h p refl

Keeps-in_range :
    (s : PollSet) (i : ℕ) (r : Outcome PollSet) → (i ≤ s.len → Keeps r) → Keeps (in_range s i r)
Keeps-in_range s i r h = elim (Bool-cases (ltb s.len i)) [
  | inl above ↦ rw above tt
  | inr below ↦ rw below (h (ground arith))
]

-- A slot in use holds a descriptor up to Max_FD.
fd-le-max_fd :
    {s : PollSet} (i : ℕ) {p : Pollfd}
    → IsValid s
    → i ≤ s.len
    → at_index s i ≡ some p
    → AtMost s.max_fd p.fd
unfolding at_index
fd-le-max_fd zero v h e = cc
fd-le-max_fd {s} (suc i) v h e = All-take_get _ s.len i s.slots h e v.below_max

AtMost-set_slot_mode :
    (k : ℕ) (p : Pollfd) (m : WaitEvents) → AtMost k p.fd → AtMost k (set_slot_mode p m).fd
unfolding set_slot_mode
AtMost-set_slot_mode k p m h = h

AtMost-set_slot_event :
    (k : ℕ) (p : Pollfd) (e : WaitEvent) (b : Bool)
    → AtMost k p.fd
    → AtMost k (set_slot_event p e b).fd
unfolding set_slot_event
AtMost-set_slot_event k p input b h = h
AtMost-set_slot_event k p output b h = h

set_mode-IsValid : {s : PollSet} (i : ℕ) (m : WaitEvents) → IsValid s → Keeps (set_mode s i m)
unfolding set_mode
set_mode-IsValid {s} i m v = Keeps-in_range s i _ λ h. Keeps-with_slot s i _ λ p e.
    set_index-IsValid i (set_slot_mode p m) v (AtMost-set_slot_mode _ p m (fd-le-max_fd i v h e))

set_event-IsValid :
    {s : PollSet} (i : ℕ) (e : WaitEvent) (b : Bool) → IsValid s → Keeps (set_event s i e b)
unfolding set_event
set_event-IsValid {s} i w b v = Keeps-in_range s i _ λ h. Keeps-with_slot s i _ λ p e.
    set_index-IsValid i (set_slot_event p w b) v
      (AtMost-set_slot_event _ p w b (fd-le-max_fd i v h e))

-- The order of the write and of the update of Max_FD does not matter.
raise_max-set_index :
    (s : PollSet) (i : ℕ) (p : Pollfd) (fd : ℤ)
    → set_index (raise_max s fd) i p ≡ raise_max (set_index s i p) fd
unfolding raise_max set_index
raise_max-set_index s i p fd = refl

replace-IsValid : {s : PollSet} (i : ℕ) (fd : ℤ) → IsValid s → Keeps (replace s i fd)
unfolding replace raise_max
replace-IsValid {s} i fd v = Keeps-in_range s i _ λ h. Keeps-with_slot s i _ λ p e.
    subst IsValid (raise_max-set_index s i (record p { fd = fd }) fd) (
      set_index-IsValid i (record p { fd = fd }) (raise_max-IsValid fd v)
        (AtMost-higher s.max_fd fd))

-- The slot behind those in use.
next_slot-IsValid :
    {s : PollSet} (p : Pollfd)
    → IsValid s
    → s.len < size s
    → AtMost s.max_fd p.fd
    → IsValid (set_index (record s { len = s.len + 1 }) (s.len + 1) p)
unfolding set_index
next_slot-IsValid {s} p v lt h = record {
  len_le = omega (arith, length-set s.slots (s.len + 1 - 1) p);
  below_max =
      let at : s.len + 1 - 1 ≡ s.len = omega arith in
      rw (at, add-one) (All-take-set_next _ s.len s.slots p v.below_max h);
}

add_fd-IsValid :
    {s : PollSet} (fd : ℕ) (m : WaitEvents) → IsValid s → s.len < size s → Keeps (add_fd s fd m)
unfolding add_fd raise_max
add_fd-IsValid {s} fd m v lt =
    let t = raise_max s (pos fd) in
    Keeps-with_slot (record t { len = t.len + 1 }) (t.len + 1) _
      λ p e.
        next_slot-IsValid {s = t} (set_slot_mode (record p { fd = pos fd }) m)
          (raise_max-IsValid (pos fd) v) lt
          (AtMost-set_slot_mode _ (record p { fd = pos fd }) m (AtMost-higher s.max_fd (pos fd)))

add-IsValid : {s : PollSet} (fd : ℤ) (m : WaitEvents) → IsValid s → Keeps (add s fd m)
unfolding add add_fd
add-IsValid {s} (negsuc fd) m v = go (size s == s.len)
  where
    go : (b : Bool) → Keeps (if b then constraint_error else socket_error)
    go true = tt
    go _ = tt
add-IsValid {s} (pos fd) m v = elim (Bool-cases (size s == s.len)) [
  | inl full ↦ rw (full, if◌then◌else◌) tt
  | inr room ↦ rw (room, if◌then◌else◌) (add_fd-IsValid fd m v (ground arith))
]

fewer-IsValid : {s : PollSet} → IsValid s → IsValid (record s { len = s.len - 1 })
fewer-IsValid {s} v = record {
  len_le = omega (arith, v.len_le);
  below_max = All-take_le _ (s.len - 1) s.len s.slots (omega arith) v.below_max;
}

remove-IsValid : {s : PollSet} (i : ℕ) → IsValid s → Keeps (remove s i)
unfolding remove
remove-IsValid {s} i v = Keeps-in_range s i _ λ h. elim (Bool-cases (ltb i s.len)) [
  | inl inside ↦
      rw (inside, if◌then◌else◌)
        (Keeps-with_slot s s.len _
          λ p e. fewer-IsValid (set_index-IsValid i p v (fd-le-max_fd s.len v (omega arith) e)))
  | inr outside ↦
      let last : ltb s.len i ≡ false = ground arith in
      rw (outside, last, if◌then◌else◌) (fewer-IsValid v)
]

-- The calls that change a set.
pub data Op : Type 0 where
  add_op : ℤ → WaitEvents → Op
  replace_op : ℕ → ℤ → Op
  set_mode_op : ℕ → WaitEvents → Op
  set_event_op : ℕ → WaitEvent → Bool → Op
  remove_op : ℕ → Op

unfoldable pub apply : PollSet → Op → Outcome PollSet
apply s (add_op fd m) = add s fd m
apply s (replace_op i fd) = replace s i fd
apply s (set_mode_op i m) = set_mode s i m
apply s (set_event_op i e b) = set_event s i e b
apply s (remove_op i) = remove s i

-- A client that handles each exception and goes on with the set as it was.
abbrev pub after : PollSet → Outcome PollSet → PollSet
after s (ok t) = t
after s _ = s

unfoldable pub run_ops : PollSet → List Op → PollSet
unfolding apply
run_ops s [] = s
run_ops s (o ∷ os) = run_ops (after s (apply s o)) os

apply-IsValid : {s : PollSet} (o : Op) → IsValid s → Keeps (apply s o)
unfolding apply
apply-IsValid (add_op fd m) v = add-IsValid fd m v
apply-IsValid (replace_op i fd) v = replace-IsValid i fd v
apply-IsValid (set_mode_op i m) v = set_mode-IsValid i m v
apply-IsValid (set_event_op i e b) v = set_event-IsValid i e b v
apply-IsValid (remove_op i) v = remove-IsValid i v

after-IsValid : {s : PollSet} (r : Outcome PollSet) → IsValid s → Keeps r → IsValid (after s r)
after-IsValid (ok t) v k = k
after-IsValid _ v k = v

-- Whatever calls of Add, Replace, Set_Mode, Set_Event and Remove a client makes, in any order and
-- with any arguments, a valid set stays valid: the slots in use lie in the array, and no
-- descriptor in use is above Max_FD.
pub run_ops-IsValid : (os : List Op) {s : PollSet} → IsValid s → IsValid (run_ops s os)
unfolding run_ops
run_ops-IsValid [] v = v
run_ops-IsValid (o ∷ os) {s} v =
    run_ops-IsValid os (after-IsValid (apply s o) v (apply-IsValid o v))
