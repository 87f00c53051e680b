-- ===== src/PollEvents/Interrupted.antt =====
-- src/core/aws-net-poll_events.adb: `Wait` against a description by the time that is left.
use aws.Base.{
  ℕ, zero, suc, ◌+◌, ◌-◌, ◌*◌, ◌^◌, ◌≤◌, ◌<◌, ◌≡◌, refl, sym, subst, ap, ◌∙◌, ◌⊎◌, inl, inr,
  Bool-cases, ℤ, pos, negsuc, minus_one, int_eq, true, false, some, leb, leb→le, ◌==◌,
  if◌then◌else◌, arith,
}
use aws.PollEvents.{PollSet, Outcome, ok, socket_error}
use aws.PollEvents.Wait.{Response, limit, milliseconds, c_timeout, next_timeout, wait_loop, wait}

-- What a call is asked to wait for when this time has gone: for ever if the timeout is at the limit,
-- and else what is left.
abbrev pub asked : ℕ → ℕ → ℤ
asked timeout elapsed =
    if leb limit timeout then minus_one else pos (milliseconds (timeout - elapsed))

abbrev pub IsInterruption : ℤ → Response → Type 0
IsInterruption eintr r = ((n : ℕ) × (r.result ≡ negsuc n)) × (int_eq r.errno eintr ≡ true)

module _ (system : ℕ → PollSet → ℤ → Response) (eintr : ℤ) (timeout : ℕ) where
  -- What comes of the calls from number k on, with this set and this time gone.
  pub data Waits : ℕ → PollSet → ℕ → Outcome (PollSet × ℕ) → Type 0 where
    answered :
        {k : ℕ} {fds : PollSet} {elapsed count : ℕ}
        → (system k fds (asked timeout elapsed)).result ≡ pos count
        → Waits k fds elapsed (ok ((system k fds (asked timeout elapsed)).fds, count))
    failed :
        {k : ℕ} {fds : PollSet} {elapsed n : ℕ}
        → (system k fds (asked timeout elapsed)).result ≡ negsuc n
        → int_eq (system k fds (asked timeout elapsed)).errno eintr ≡ false
        → Waits k fds elapsed socket_error
    interrupted :
        {k : ℕ} {fds : PollSet} {elapsed : ℕ} {o : Outcome (PollSet × ℕ)}
        → IsInterruption eintr (system k fds (asked timeout elapsed))
        → Waits
            (k + 1)
            (system k fds (asked timeout elapsed)).fds
            (system k fds (asked timeout elapsed)).elapsed
            o
        → Waits k fds elapsed o

-- Poll_Timeout when this time has gone.
abbrev left : ℕ → ℕ → ℤ
left timeout elapsed = if leb limit timeout then pos timeout else pos (timeout - elapsed)

left-zero : (timeout : ℕ) → left timeout 0 ≡ pos timeout
left-zero timeout = elim (Bool-cases (leb limit timeout)) [
  | inl long ↦ rw (long, if◌then◌else◌)
  | inr short ↦
      let all_of_it : timeout - 0 ≡ timeout = omega arith in rw (short, if◌then◌else◌, all_of_it)
]

c_timeout-left :
    (timeout elapsed : ℕ) → c_timeout (left timeout elapsed) ≡ ok (asked timeout elapsed)
unfolding c_timeout
c_timeout-left timeout elapsed = elim (Bool-cases (leb limit timeout)) [
  | inl long ↦ rw (long, if◌then◌else◌) (rw (long, if◌then◌else◌))
  | inr short ↦
      let still : leb limit (timeout - elapsed) ≡ false = ground arith in
      rw (short, if◌then◌else◌) (rw (still, if◌then◌else◌))
]

next_timeout-left :
    (timeout elapsed now : ℕ)
    → next_timeout (pos timeout) (left timeout elapsed) (asked timeout elapsed) now
      ≡ left timeout now
unfolding next_timeout
next_timeout-left timeout elapsed now = elim (Bool-cases (leb limit timeout)) [
  | inl long ↦ rw (long, if◌then◌else◌)
  | inr short ↦ rw (short, if◌then◌else◌)
]

ℤ-cases : (z : ℤ) → ((n : ℕ) × (z ≡ pos n)) ⊎ ((n : ℕ) × (z ≡ negsuc n))
ℤ-cases (pos n) = inl (n, refl)
ℤ-cases (negsuc n) = inr (n, refl)

module _ (system : ℕ → PollSet → ℤ → Response) (eintr : ℤ) (timeout : ℕ) where
  -- The loop ends as the description has it.
  Ends : ℕ → ℕ → PollSet → ℕ → Type 0
  Ends rounds k fds elapsed =
      (o : Outcome (PollSet × ℕ)) × (wait_loop system eintr rounds k (pos timeout)
          (left timeout elapsed) fds
        ≡ some o)
      × Waits system eintr timeout k fds elapsed o

  one_round :
      (rounds k : ℕ) (fds : PollSet) (elapsed : ℕ)
      → (IsInterruption eintr (system k fds (asked timeout elapsed))
          → Ends rounds
              (k + 1)
              (system k fds (asked timeout elapsed)).fds
              (system k fds (asked timeout elapsed)).elapsed)
      → Ends (suc rounds) k fds elapsed
  unfolding wait_loop Ends
  one_round rounds k fds elapsed again =
      let r = system k fds (asked timeout elapsed) in
      elim (ℤ-cases r.result) [
        | inl (count, done) ↦
            (ok (r.fds, count), rw (wait_loop, c_timeout-left timeout elapsed, done), answered done)
        | inr (n, negative) ↦ elim (Bool-cases (int_eq r.errno eintr)) [
          | inl signal ↦
              let (o, rest, waits) = again ((n, negative), signal) in
              (
                o,
                rw
                    (
                      wait_loop,
                      c_timeout-left timeout elapsed,
                      negative,
                      signal,
                      if◌then◌else◌,
                      next_timeout-left timeout elapsed r.elapsed,
                    )
                    rest,
                interrupted ((n, negative), signal) waits,
              )
          | inr other ↦ (
            socket_error,
            rw (wait_loop, c_timeout-left timeout elapsed, negative, other, if◌then◌else◌),
            failed negative other,
          )
        ]
      ]

  -- With one more round than there are calls before one that is not interrupted, the loop ends.
  wait_loop-Ends :
      (rounds k m : ℕ) (fds : PollSet) (elapsed : ℕ)
      → ((fds : PollSet) → (c : ℤ) → IsInterruption eintr (system m fds c) → ⊥)
      → m ≡ k + rounds
      → Ends (suc rounds) k fds elapsed
  wait_loop-Ends zero k m fds elapsed stops e =
      let here : m ≡ k = omega arith in
      one_round zero k fds elapsed λ i. absurd (
        subst (λ j. (fds : PollSet) → (c : ℤ) → IsInterruption eintr (system j fds c) → ⊥) here
          stops fds (asked timeout elapsed) i)
  wait_loop-Ends (suc rounds) k m fds elapsed stops e = one_round (suc rounds) k fds elapsed λ i.
      wait_loop-Ends rounds (k + 1) m (system k fds (asked timeout elapsed)).fds
        (system k fds (asked timeout elapsed)).elapsed stops (omega arith)

-- `Wait` with a timeout that is not negative returns or raises Socket_Error as soon as a call is not
-- interrupted by a signal: if the call of number m cannot be, m + 1 rounds are enough. For an empty set it
-- returns 0 at once. Else each call has the set that the one before left, and waits for ever if the timeout
-- is at the limit, and else for the time that is left of it, or not at all if none is; the first answer
-- with a result from 0 on is returned with its set, and any error but an interruption raises Socket_Error.
pub wait-Waits :
    (system : ℕ → PollSet → ℤ → Response) (eintr : ℤ) (timeout m : ℕ) (fds : PollSet)
    → ((fds : PollSet) → (c : ℤ) → IsInterruption eintr (system m fds c) → ⊥)
    → (o : Outcome (PollSet × ℕ)) × (wait system eintr (m + 1) (pos timeout) fds ≡ some o)
      × (if fds.len == 0 then (o ≡ ok (fds, 0)) else Waits system eintr timeout 0 fds 0 o)
unfolding wait Ends
wait-Waits system eintr timeout m fds stops = elim (Bool-cases (fds.len == 0)) [
  | inl empty ↦ (ok (fds, 0), rw (empty, if◌then◌else◌), rw (empty, if◌then◌else◌) refl)
  | inr some_fds ↦
      let (o, ends, waits) = wait_loop-Ends system eintr timeout m 0 m fds 0 stops (omega arith) in
      (o, rw (some_fds, if◌then◌else◌) (whole_wait o ends), rw (some_fds, if◌then◌else◌) waits)
]
  where
    whole_wait :
        (o : Outcome (PollSet × ℕ))
        → wait_loop system eintr (suc m) 0 (pos timeout) (left timeout 0) fds ≡ some o
        → wait_loop system eintr (m + 1) 0 (pos timeout) (pos timeout) fds ≡ some o
    whole_wait o ends =
        let rounds : suc m ≡ m + 1 = omega arith in
        ap (λ q. wait_loop system eintr (m + 1) 0 (pos timeout) q fds) (sym (left-zero timeout))
        ∙ subst (λ n. wait_loop system eintr n 0 (pos timeout) (left timeout 0) fds ≡ some o) rounds
            ends

-- The nearest number of milliseconds.
abbrev pub IsNearest : ℕ → ℕ → Type 0
IsNearest k n = (k * 1000000 ≤ n + 500000) × (n ≤ k * 1000000 + 500000)

milliseconds-IsNearest : (n : ℕ) → IsNearest (milliseconds n) n
milliseconds-IsNearest n = (omega arith, omega arith)

-- The number that a call gets as its timeout if Poll_Timeout is n nanoseconds: -1 from the limit on, and
-- below it the nearest number of milliseconds, which is at most 2 ^ 31 - 9.
pub c_timeout-positive :
    (n : ℕ)
    → ((limit ≤ n) × (c_timeout (pos n) ≡ ok minus_one))
      ⊎ ((n < limit)
          × ((k : ℕ) × (c_timeout (pos n) ≡ ok (pos k)) × (k + 9 ≤ 2 ^ 31) × IsNearest k n))
unfolding c_timeout
c_timeout-positive n = elim (Bool-cases (leb limit n)) [
  | inl long ↦ inl (leb→le limit n long, rw (long, if◌then◌else◌))
  | inr short ↦
      let below : n < limit = ground arith in
      inr
        (below, (milliseconds n, rw (short, if◌then◌else◌), omega arith, milliseconds-IsNearest n))
]
