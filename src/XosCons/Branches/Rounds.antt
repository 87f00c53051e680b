-- ===== src/XosCons/Branches/Rounds.antt =====
-- config/setup/xoscons.adb: the rounds of the loop of `Parse_Cond`, for each kind of line.
use aws.Base.{
  ℕ, zero, suc, ◌+◌, ◌≤◌, ◌≡◌, refl, subst, Bool, not, ◌&&◌, some, List, [], ◌∷◌, Text, codes,
  text_eq, length, arith,
}
use aws.XosCons.{Table}
use aws.XosCons.Condition.{
  condition, if_line, plain_line, line_kind, is_if, Copied, write_line, write_lines, cond_loop,
  parse_cond,
}

-- With a round for each line, the loop ends with this result.
pub record Loops (t : Table) (cond res : Bool) (line : ℕ) (ls : List Text) (r : Copied)
    : Type 0 where
  pub ends : (n : ℕ) → length ls ≤ n → cond_loop n t cond res line ls ≡ some r

Loops-cons :
    {t : Table} {cond res : Bool} {line : ℕ} {l : Text} {ls : List Text} {r : Copied}
    → ((n : ℕ) → length ls ≤ n → cond_loop (suc n) t cond res line (l ∷ ls) ≡ some r)
    → Loops t cond res line (l ∷ ls) r
Loops-cons {t} {cond} {res} {line} {l} {ls} {r} one_round = record { ends = go }
  where
    go : (n : ℕ) → suc (length ls) ≤ n → cond_loop n t cond res line (l ∷ ls) ≡ some r
    go zero h = absurd (omega arith)
    go (suc n) h = one_round n (omega arith)

-- One round, for each kind of line.
pub Loops-end_if :
    (t : Table) (cond res : Bool) (line : ℕ) (ls : List Text)
    → Loops t cond res line
        (codes "@END_IF" ∷ ls)
        (record { written = []; current_line = line + 1; rest = ls })
unfolding cond_loop line_kind text_eq
Loops-end_if t cond res line ls = Loops-cons λ n h. refl

pub Loops-else :
    {t : Table} {cond : Bool} (res : Bool) {line : ℕ} {ls : List Text} {r : Copied}
    → Loops t cond (cond && not res) (line + 1) ls r
    → Loops t cond res line (codes "@ELSE" ∷ ls) r
unfolding cond_loop line_kind text_eq is_if
Loops-else res loops = Loops-cons λ n h. loops.ends n h

pub Loops-plain :
    {t : Table} {cond : Bool} {res : Bool} {line : ℕ} {l : Text} {ls : List Text} {r : Copied}
    → line_kind l ≡ plain_line
    → Loops t cond res (line + 1) ls r
    → Loops t cond res line (l ∷ ls) (write_line res l r)
unfolding cond_loop
Loops-plain kind loops = Loops-cons λ n h. rw (cond_loop, kind, loops.ends n h)

pub Loops-if :
    {t : Table} {cond res v : Bool} {line : ℕ} {l : Text} {ls : List Text} {inner outer : Copied}
    → line_kind l ≡ if_line
    → condition t l ≡ some v
    → Loops t res (res && v) (line + 2) ls inner
    → length inner.rest ≤ length ls
    → Loops t cond res inner.current_line inner.rest outer
    → Loops t cond res line (l ∷ ls) (write_lines inner.written outer)
unfolding cond_loop
Loops-if kind value loops shorter after =
    Loops-cons λ n h. rw (cond_loop, kind, value, loops.ends n h, after.ends n (omega arith))

pub Loops-eq :
    {t : Table} {cond res : Bool} {line line2 : ℕ} {ls : List Text} {r r2 : Copied}
    → line ≡ line2
    → r ≡ r2
    → Loops t cond res line ls r
    → Loops t cond res line2 ls r2
Loops-eq {t} {cond} {res} {line2} {ls} {r} line_eq r_eq loops =
    subst (λ q. Loops t cond res line2 ls q) r_eq
      (subst (λ k. Loops t cond res k ls r) line_eq loops)

-- What the loop behind the `@IF` line gives.
pub Loops-parse_cond :
    {t : Table} {v : Bool} {ls : List Text} {r : Copied} (i : Text) (cond : Bool) (line : ℕ)
    → condition t i ≡ some v
    → Loops t cond (cond && v) (line + 1) ls r
    → parse_cond t i cond line ls ≡ some r
unfolding parse_cond
Loops-parse_cond {ls} i cond line value loops = rw value (loops.ends (length ls) (omega arith))
