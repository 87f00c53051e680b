-- ===== src/PollEvents/Refinement.antt =====
-- src/core/aws-net-poll_events.adb: the operations against what they mean for a client of the set.
use aws.Base.{
  ℕ, zero, suc, ◌+◌, ◌-◌, ◌<◌, ◌≡◌, refl, sym, ap, ◌∙◌, ℤ, pos, negsuc, Bool, Bool-cases, inl, inr,
  some, List, [], ◌∷◌, ◌++◌, map, map-append, take, set, length, get_elem?, length-take, length-map,
  take-set, take-set_self, take-take, set-take_out, take-map, map-set, get_elem?-map,
  get_elem?-take, get_elem?-le, get_elem?-lt, ltb, ◌==◌, arith,
}
use native.Mathlib.Numerals.{add-one}
use aws.PollEvents.Asked.{
  Asked, asked, contents, outcome_map, change, ask_event, drop_item, meaning,
}
use aws.PollEvents.Invariant.{
  IsValid, Op, add_op, replace_op, set_mode_op, set_event_op, remove_op, apply,
}
use aws.PollEvents.{
  Pollfd, PollSet, size, WaitEvents, WaitEvent, input, output, ok, set_slot_event, set_slot_mode,
  at_index, set_index, with_slot, raise_max, in_range, add, add_fd, replace, set_mode, set_event,
  remove,
}

length-contents : {s : PollSet} → IsValid s → length (contents s) ≡ s.len
length-contents {s} v = length-map asked (take s.len s.slots) ∙ length-take s.len s.slots v.len_le

-- The item of a slot in use.
contents-slot :
    {s : PollSet} (k : ℕ)
    → IsValid s
    → k < s.len
    → (p : Pollfd) × (get_elem? s.slots k ≡ some p) × (get_elem? (contents s) k ≡ some (asked p))
contents-slot {s} k v h =
    let (p, e) = get_elem?-lt s.slots k (omega (arith, v.len_le)) in
    (p, e, get_elem?-map asked k (take s.len s.slots) ∙ rw (get_elem?-take s.len k s.slots h, e))

suc-sub_one : (k : ℕ) → suc k - 1 ≡ k
suc-sub_one k = omega arith

contents-set_index :
    (s : PollSet) (k : ℕ) (p : Pollfd)
    → contents (set_index s (suc k) p) ≡ set (contents s) k (asked p)
unfolding set_index
contents-set_index s k p =
    ap (λ j. map asked (take s.len (set s.slots j p))) (suc-sub_one k)
    ∙ ap (map asked) (take-set s.len k s.slots p)
    ∙ map-set asked k (take s.len s.slots) p

contents-raise_max : (s : PollSet) (fd : ℤ) → contents (raise_max s fd) ≡ contents s
unfolding raise_max
contents-raise_max s fd = refl

-- An operation that changes one slot.
change_lem :
    {s : PollSet} (k : ℕ) (result : Pollfd → PollSet) (f : Pollfd → Pollfd) (g : Asked → Asked)
    → IsValid s
    → ((p : Pollfd) → contents (result p) ≡ contents (set_index s (suc k) (f p)))
    → ((p : Pollfd) → asked (f p) ≡ g (asked p))
    → outcome_map contents (in_range s (suc k) (with_slot s (suc k) (λ p. ok (result p))))
      ≡ change (contents s) (suc k) g
unfolding at_index
change_lem {s} k result f g v same means = elim (Bool-cases (ltb s.len (suc k))) [
  | inl past ↦
      let missing = get_elem?-le k (contents s) (ground (arith, length-contents v)) in
      rw (past, change, suc-sub_one k, missing)
  | inr inside ↦
      let (p, slot, item) = contents-slot k v (ground arith) in
      rw (inside, with_slot, slot, change, suc-sub_one k, item, suc-sub_one k)
        (ap ok (same p ∙ contents-set_index s k (f p) ∙ ap (set (contents s) k) (means p)))
]

replace_lem :
    {s : PollSet} (k : ℕ) (fd : ℤ)
    → IsValid s
    → outcome_map contents (replace s (suc k) fd)
      ≡ meaning (size s) (contents s) (replace_op (suc k) fd)
unfolding replace meaning
replace_lem {s} k fd v =
    change_lem k (λ p. raise_max (set_index s (suc k) (record p { fd = fd })) fd)
      (λ p. record p { fd = fd }) (λ x. record x { descriptor = fd }) v
      (λ p. contents-raise_max (set_index s (suc k) (record p { fd = fd })) fd) (λ p. refl)

asked-set_slot_event :
    (e : WaitEvent) (b : Bool) (p : Pollfd) → asked (set_slot_event p e b) ≡ ask_event e b (asked p)
unfolding set_slot_event
asked-set_slot_event input b p = refl
asked-set_slot_event output b p = refl

asked-set_slot_mode :
    (m : WaitEvents) (p : Pollfd)
    → asked (set_slot_mode p m) ≡ record { descriptor = p.fd; reads = m.input; writes = m.output }
unfolding set_slot_mode set_slot_event
asked-set_slot_mode m p = refl

set_mode_lem :
    {s : PollSet} (k : ℕ) (m : WaitEvents)
    → IsValid s
    → outcome_map contents (set_mode s (suc k) m)
      ≡ meaning (size s) (contents s) (set_mode_op (suc k) m)
unfolding set_mode meaning
set_mode_lem {s} k m v =
    change_lem k (λ p. set_index s (suc k) (set_slot_mode p m)) (λ p. set_slot_mode p m)
      (λ x. record x { reads = m.input; writes = m.output }) v (λ p. refl) (asked-set_slot_mode m)

set_event_lem :
    {s : PollSet} (k : ℕ) (e : WaitEvent) (b : Bool)
    → IsValid s
    → outcome_map contents (set_event s (suc k) e b)
      ≡ meaning (size s) (contents s) (set_event_op (suc k) e b)
unfolding set_event meaning
set_event_lem {s} k e b v =
    change_lem k (λ p. set_index s (suc k) (set_slot_event p e b)) (λ p. set_slot_event p e b)
      (ask_event e b) v (λ p. refl) (asked-set_slot_event e b)

-- The slot behind those in use becomes one of them.
next_slot :
    (s : PollSet)
    → s.len < size s
    → (p : Pollfd) × (at_index (record s { len = s.len + 1 }) (s.len + 1) ≡ some p)
unfolding at_index
next_slot s h = let (p, e) = get_elem?-lt s.slots s.len h in (p, rw add-one e)

take-next :
    (n : ℕ) (xs : List Pollfd) (q : Pollfd)
    → n < length xs
    → take (n + 1) (set xs (n + 1 - 1) q) ≡ take n xs ++ (q ∷ [])
take-next n xs q h =
    let at : n + 1 - 1 ≡ n = omega arith in rw (at, add-one) (take-set_self n xs q h)

contents-next :
    (s : PollSet) (q : Pollfd)
    → s.len < size s
    → contents (set_index (record s { len = s.len + 1 }) (s.len + 1) q)
      ≡ contents s ++ (asked q ∷ [])
unfolding set_index
contents-next s q h =
    ap (map asked) (take-next s.len s.slots q h) ∙ map-append asked (take s.len s.slots) (q ∷ [])

add_fd_lem :
    (s : PollSet) (fd : ℕ) (m : WaitEvents)
    → s.len < size s
    → outcome_map contents (add_fd s fd m)
      ≡ ok (contents s ++ (record { descriptor = pos fd; reads = m.input; writes = m.output } ∷ []))
unfolding add_fd raise_max
add_fd_lem s fd m h =
    let t = raise_max s (pos fd) in
    let room : t.len < size t = h in
    let (p, slot) = next_slot t room in
    let q = set_slot_mode (record p { fd = pos fd }) m in
    rw (with_slot, slot)
      (ap ok (
        contents-next t q room
        ∙ rw (asked-set_slot_mode m (record p { fd = pos fd }), contents-raise_max s (pos fd))))

add_lem :
    {s : PollSet} (fd : ℤ) (m : WaitEvents)
    → IsValid s
    → outcome_map contents (add s fd m) ≡ meaning (size s) (contents s) (add_op fd m)
unfolding add meaning
add_lem {s} (pos fd) m v = elim (Bool-cases (size s == s.len)) [
  | inl full ↦ rw (length-contents v, full)
  | inr room ↦ rw (length-contents v, room) (add_fd_lem s fd m (ground (arith, v.len_le)))
]
add_lem {s} (negsuc fd) m v = elim (Bool-cases (size s == s.len)) [
  | inl full ↦ rw (length-contents v, full)
  | inr room ↦ rw (length-contents v, room)
]

contents-fewer :
    (s : PollSet) → contents (record s { len = s.len - 1 }) ≡ take (s.len - 1) (contents s)
contents-fewer s = sym (
    take-map asked (s.len - 1) (take s.len s.slots)
    ∙ ap (map asked) (take-take (s.len - 1) s.len s.slots (omega arith)))

at_index-sub_one : (s : PollSet) (n : ℕ) → 0 < n → at_index s n ≡ get_elem? s.slots (n - 1)
unfolding at_index
at_index-sub_one s zero h = absurd (omega arith)
at_index-sub_one s (suc n) h = rw (suc-sub_one n)

-- The meaning of a removal, for a slot in use.
drop_item-inside :
    {s : PollSet} (k : ℕ)
    → IsValid s
    → k < s.len
    → (q : Pollfd) × (at_index s s.len ≡ some q)
      × (drop_item (contents s) (suc k) ≡ ok (take (s.len - 1) (set (contents s) k (asked q))))
drop_item-inside {s} k v h =
    let (p, slot, item) = contents-slot k v h in
    let (q, last_slot, last_item) = contents-slot (s.len - 1) v (omega arith) in
    (
      q,
      at_index-sub_one s s.len (omega arith) ∙ last_slot,
      rw (
        drop_item,
        suc-sub_one k,
        item,
        length-contents v,
        last_item,
        suc-sub_one k,
        length-contents v,
      ),
    )

remove_lem :
    {s : PollSet} (k : ℕ)
    → IsValid s
    → outcome_map contents (remove s (suc k)) ≡ meaning (size s) (contents s) (remove_op (suc k))
unfolding remove meaning
remove_lem {s} k v = elim (Bool-cases (ltb s.len (suc k))) [
  | inl past ↦
      let missing = get_elem?-le k (contents s) (ground (arith, length-contents v)) in
      rw (past, drop_item, suc-sub_one k, missing)
  | inr inside ↦
      let (q, last_slot, means) = drop_item-inside k v (ground arith) in
      elim (Bool-cases (ltb (suc k) s.len)) [
        | inl before ↦
            rw (inside, before, with_slot, last_slot, means)
              (ap ok (
                contents-fewer (set_index s (suc k) q)
                ∙ ap (take (s.len - 1)) (contents-set_index s k q)))
        | inr at_last ↦
            let k_eq : k ≡ s.len - 1 = ground arith in
            rw (inside, at_last, means)
              (ap ok (
                contents-fewer s
                ∙ sym (
                    ap (λ j. take (s.len - 1) (set (contents s) j (asked q))) k_eq
                    ∙ take-set (s.len - 1) (s.len - 1) (contents s) (asked q)
                    ∙ set-take_out (s.len - 1) (contents s) (asked q))))
      ]
]

-- An index of an operation is at least 1, as the subtype Positive has it.
abbrev pub HasPositiveIndex : Op → Type 0
HasPositiveIndex (add_op _ _) = Unit
HasPositiveIndex (replace_op i _) = 0 < i
HasPositiveIndex (set_mode_op i _) = 0 < i
HasPositiveIndex (set_event_op i _ _) = 0 < i
HasPositiveIndex (remove_op i) = 0 < i

-- For a client that sees the descriptors in use with what is asked for each, in order, every
-- operation on a valid set, at an index of at least 1, does what it means, or raises the exception
-- that it means: Add puts a descriptor at the end, unless the set is full or the descriptor is
-- negative, Replace, for any descriptor, Set_Mode and Set_Event change the item at the index,
-- Remove moves the last item to the place of the removed one, and an index past the end is refused.
pub apply-meaning :
    {s : PollSet} (o : Op)
    → IsValid s
    → HasPositiveIndex o
    → outcome_map contents (apply s o) ≡ meaning (size s) (contents s) o
unfolding apply
apply-meaning (add_op fd m) v h = add_lem fd m v
apply-meaning (replace_op zero fd) v h = absurd (omega arith)
apply-meaning (replace_op (suc k) fd) v h = replace_lem k fd v
apply-meaning (set_mode_op zero m) v h = absurd (omega arith)
apply-meaning (set_mode_op (suc k) m) v h = set_mode_lem k m v
apply-meaning (set_event_op zero e b) v h = absurd (omega arith)
apply-meaning (set_event_op (suc k) e b) v h = set_event_lem k e b v
apply-meaning (remove_op zero) v h = absurd (omega arith)
apply-meaning (remove_op (suc k)) v h = remove_lem k v
