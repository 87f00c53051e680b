-- ===== src/FdSet.antt =====
-- src/poll/os_support.c: the functions by which Ada code uses the macros on `fd_set`.
-- The macros of <sys/select.h> are a parameter, with what POSIX says of them.
use aws.Base.{ℕ, ◌<◌, ◌≡◌, ◌≢◌, ℤ, pos, negsuc}

-- A descriptor for which a set of this capacity has room.
abbrev pub InRoom : ℕ → ℤ → Type 0
InRoom c (pos n) = n < c
InRoom c (negsuc _) = ⊥

-- `capacity` is the number of descriptors for which a set has room; the macros are defined for
-- those only.
pub record FdMacros : Type 1 where
  pub FdSet : Type 0
  pub capacity : FdSet → ℕ
  pub fd_isset : ℤ → FdSet → ℤ
  pub fd_set : ℤ → FdSet → FdSet
  pub fd_zero : FdSet → FdSet
  pub capacity-fd_set : (n : ℤ) (s : FdSet) → capacity (fd_set n s) ≡ capacity s
  pub capacity-fd_zero : (s : FdSet) → capacity (fd_zero s) ≡ capacity s
  pub fd_isset-fd_zero :
      (n : ℤ) (s : FdSet) → InRoom (capacity s) n → fd_isset n (fd_zero s) ≡ pos 0
  pub fd_isset-fd_set_self :
      (n : ℤ) (s : FdSet) → InRoom (capacity s) n → fd_isset n (fd_set n s) ≢ pos 0
  pub fd_isset-fd_set_ne :
      (n m : ℤ) (s : FdSet)
      → n ≢ m
      → InRoom (capacity s) n
      → InRoom (capacity s) m
      → fd_isset m (fd_set n s) ≡ fd_isset m s

module _ (macros : FdMacros) where
  open macros use {FdSet, fd_isset, fd_set, fd_zero}

  -- `__aws_is_socket_in_set`
  unfoldable pub is_socket_in_set : ℤ → FdSet → ℤ
  is_socket_in_set socket s = fd_isset socket s

  -- `__aws_set_socket_in_set`
  unfoldable pub set_socket_in_set : ℤ → FdSet → FdSet
  set_socket_in_set socket s = fd_set socket s

  -- `__aws_clear_socket_set`
  unfoldable pub clear_socket_set : FdSet → FdSet
  clear_socket_set s = fd_zero s
