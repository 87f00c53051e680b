-- ===== src/PollEvents/Asked.antt =====
-- src/core/aws-net-poll_events.ads: what a client of a set sees, a list of descriptors with what is
-- asked for each.
use aws.Base.{
  ℕ, ◌-◌, ℤ, pos, negsuc, Bool, none, some, List, [], ◌∷◌, ◌++◌, map, take, set, length, get_elem?,
  ◌==◌, if◌then◌else◌,
}
use aws.PollEvents.Invariant.{Op, add_op, replace_op, set_mode_op, set_event_op, remove_op}
use aws.PollEvents.{
  Pollfd, PollSet, WaitEvent, input, Outcome, ok, constraint_error, socket_error, program_error,
}

pub record Asked : Type 0 where
  pub descriptor : ℤ
  pub reads : Bool
  pub writes : Bool

abbrev pub asked : Pollfd → Asked
asked p = record { descriptor = p.fd; reads = p.events.pollin; writes = p.events.pollout }

-- The slots in use, as a client sees them.
abbrev pub contents : PollSet → List Asked
contents s = map asked (take s.len s.slots)

abbrev pub outcome_map {ℓ κ} : {A : Type ℓ} {B : Type κ} → (A → B) → Outcome A → Outcome B
outcome_map f (ok a) = ok (f a)
outcome_map f constraint_error = constraint_error
outcome_map f socket_error = socket_error
outcome_map f program_error = program_error

-- An item changed in its place; an index that the list lacks is refused.
abbrev pub change : List Asked → ℕ → (Asked → Asked) → Outcome (List Asked)
change xs i f = elim (get_elem? xs (i - 1)) [
  | some x ↦ ok (set xs (i - 1) (f x))
  | none ↦ constraint_error
]

abbrev pub ask_event : WaitEvent → Bool → Asked → Asked
ask_event input b x = record x { reads = b }
ask_event _ b x = record x { writes = b }

-- The last item moves to the place of the removed one.
abbrev pub drop_item : List Asked → ℕ → Outcome (List Asked)
drop_item xs i = elim (get_elem? xs (i - 1)) [
  | some _ ↦ elim (get_elem? xs (length xs - 1)) [
    | some last ↦ ok (take (length xs - 1) (set xs (i - 1) last))
    | none ↦ constraint_error
  ]
  | none ↦ constraint_error
]

-- What an operation means for a client of a set that has room for so many descriptors.
unfoldable pub meaning : ℕ → List Asked → Op → Outcome (List Asked)
meaning room xs (add_op (pos fd) m) =
    if room == length xs
    then constraint_error
    else ok (xs ++ (record { descriptor = pos fd; reads = m.input; writes = m.output } ∷ []))
meaning room xs (add_op (negsuc _) m) = if room == length xs then constraint_error else socket_error
meaning room xs (replace_op i fd) = change xs i (λ x. record x { descriptor = fd })
meaning room xs (set_mode_op i m) =
    change xs i (λ x. record x { reads = m.input; writes = m.output })
meaning room xs (set_event_op i e b) = change xs i (ask_event e b)
meaning room xs (remove_op i) = drop_item xs i
