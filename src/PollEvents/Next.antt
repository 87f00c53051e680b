-- ===== src/PollEvents/Next.antt =====
-- src/core/aws-net-poll_events.adb: `Next`, by which a client goes through the slots with an event.
use aws.Base.{
  ℕ, zero, suc, ◌+◌, ◌-◌, ◌≤◌, ◌<◌, ◌≡◌, Bool, true, false, Bool-cases, inl, inr, some,
  get_elem?-lt, subst, ltb, arith,
}
use aws.PollEvents.Invariant.{IsValid}
use aws.PollEvents.{Pollfd, PollSet, at_index, has_events, next_from, next, size}

-- The slot at an index has an event, or has none.
abbrev pub HasEvent : PollSet → ℕ → Bool → Type 0
HasEvent s k b = (p : Pollfd) × (at_index s k ≡ some p) × (has_events p.revents ≡ b)

-- The first index from a start on that is past the end or has an event.
pub record IsNext (s : PollSet) (start index : ℕ) : Type 0 where
  pub start_le : start ≤ index
  pub skipped : (k : ℕ) → start ≤ k → k < index → HasEvent s k false
  pub found : index ≤ s.len → HasEvent s index true

at_index-lt : (s : PollSet) (k : ℕ) → 0 < k → k ≤ size s → (p : Pollfd) × (at_index s k ≡ some p)
unfolding at_index
at_index-lt s zero h l = absurd (omega arith)
at_index-lt s (suc k) h l = get_elem?-lt s.slots k (omega arith)

IsNext-after : {s : PollSet} {i j : ℕ} → HasEvent s i false → IsNext s (i + 1) j → IsNext s i j
IsNext-after {s} {i} {j} none_here later = record {
  start_le = omega (arith, later.start_le);
  skipped = λ k h l. elim (Bool-cases (ltb i k)) [
    | inl after ↦ later.skipped k (ground arith) l
    | inr here ↦ subst (λ m. HasEvent s m false) (ground arith) none_here
  ];
  found = later.found;
}

next_from-IsNext :
    (n : ℕ) (s : PollSet) (i : ℕ) → IsValid s → 0 < i → s.len < n + i → IsNext s i (next_from n s i)
unfolding next_from
next_from-IsNext zero s i v pos_i h = record {
  start_le = omega arith;
  skipped = λ k a b. absurd (omega arith);
  found = λ a. absurd (omega arith);
}
next_from-IsNext (suc n) s i v pos_i h = elim (Bool-cases (ltb s.len i)) [
  | inl past ↦ rw past (record {
    start_le = omega arith;
    skipped = λ k a b. absurd (omega arith);
    found = λ a. absurd (ground arith);
  })
  | inr inside ↦
      let (p, at) = at_index-lt s i pos_i (ground (arith, v.len_le)) in
      elim (Bool-cases (has_events p.revents)) [
        | inl event ↦
            rw (inside, at, event)
              (record {
                start_le = omega arith;
                skipped = λ k a b. absurd (omega arith);
                found = λ a. (p, at, event);
              })
        | inr quiet ↦
            rw (inside, at, quiet)
              (IsNext-after (p, at, quiet)
                (next_from-IsNext n s (i + 1) v (omega arith) (omega arith)))
      ]
]

-- In a valid set, `Next` from an index of at least 1 ends: at the first index from there on that is
-- past Length or whose slot has an event.
pub next-IsNext : {s : PollSet} (i : ℕ) → IsValid s → 0 < i → IsNext s i (next s i)
unfolding next
next-IsNext {s} i v h = next_from-IsNext (s.len + 1 - i) s i v h (omega arith)
