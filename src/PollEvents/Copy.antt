-- ===== src/PollEvents/Copy.antt =====
-- src/core/aws-net-poll_events.adb: `Copy`, a new set of another size.
use aws.Base.{
  ℕ, zero, suc, ℤ, refl, ◌-◌, ◌≤◌, ◌≡◌, ap, Bool-cases, inl, inr, List, [], ◌∷◌, ◌++◌, map, All,
  take, length, length-append, length-take, take-append, take-take, ltb, if◌then◌else◌, arith,
}
use aws.PollEvents.Asked.{asked, contents}
use aws.PollEvents.Invariant.{IsValid, AtMost, AtMost-le, AtMost-higher, higher_le}
use aws.PollEvents.{Pollfd, PollSet, higher, fresh_slots, size, max_fds, copy_slots, copy}

max_fds_le : (m : ℕ) (ps : List Pollfd) → m ≤ max_fds m ps
unfolding max_fds
max_fds_le m [] = omega arith
max_fds_le m (p ∷ ps) = omega (arith, max_fds_le (higher m p.fd) ps, higher_le m p.fd)

length-fresh_slots : (fd : ℕ → ℤ) (n : ℕ) → length (fresh_slots fd n) ≡ n
unfolding fresh_slots
length-fresh_slots fd zero = refl
length-fresh_slots fd (suc n) = omega (arith, length-fresh_slots fd n)

max_fds-All : (m : ℕ) (ps : List Pollfd) → All (λ p. AtMost (max_fds m ps) p.fd) ps
unfolding max_fds
max_fds-All m [] = tt
max_fds-All m (p ∷ ps) =
    let next = higher m p.fd in
    (AtMost-le p.fd (AtMost-higher m p.fd) (max_fds_le next ps), max_fds-All next ps)

-- A copy of a valid set to any size is valid and has that size, whatever its new memory holds.
-- To a larger size it has the same
-- descriptors in use, with what is asked for each; to any other size n the first n slots
-- count as in use, whether or not they were.
pub copy_lem :
    (fd : ℕ → ℤ) {s : PollSet} (n : ℕ)
    → IsValid s
    → IsValid (copy fd s n)
      × (size (copy fd s n) ≡ n)
      × (contents (copy fd s n)
          ≡ (if ltb (size s) n then contents s else map asked (take n s.slots)))
unfolding copy copy_slots
copy_lem fd {s} n v = elim (Bool-cases (ltb (size s) n)) [
  | inl larger ↦
      let added = fresh_slots fd (n - size s) in
      let size_eq : length (s.slots ++ added) ≡ n =
        ground (arith, length-append s.slots added, length-fresh_slots fd (n - size s)) in
      rw (larger, if◌then◌else◌)
        (
          record {
            len_le = omega (arith, size_eq, v.len_le, length-append s.slots added);
            below_max = max_fds-All 0 (take s.len (s.slots ++ added));
          },
          size_eq,
          ap (map asked) (take-append s.len s.slots added v.len_le),
        )
  | inr other ↦
      let size_eq : length (take n s.slots) ≡ n = length-take n s.slots (ground arith) in
      rw (other, if◌then◌else◌)
        (
          record {
            len_le = omega (arith, size_eq);
            below_max = max_fds-All 0 (take n (take n s.slots));
          },
          size_eq,
          ap (map asked) (take-take n n s.slots (omega arith)),
        )
]
