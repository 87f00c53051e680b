-- ===== src/PollEvents/Ready.antt =====
-- src/core/aws-net-poll_events-g_poll.adb: what the procedure reports is what is ready, as the
-- system says, among what the slots ask for.
use aws.Base.{
  ℕ, ◌≤◌, ◌<◌, ◌≡◌, ◌≢◌, inl, inr, refl, subst, ℤ, pos, negsuc, int_eq, int_eq_iff, Bool, true,
  false, ◌||◌, ◌&&◌, Bool-cases, List, [], ◌∷◌, All, if◌then◌else◌, arith,
}
use aws.FdSet.{FdMacros, InRoom, is_socket_in_set, set_socket_in_set, clear_socket_set}
use aws.PollEvents.Select.{above, Setup, wants_read, fill_one, fill, is_set}
use aws.PollEvents.{Events, Pollfd, ok}

-- Whether some slot asks about a descriptor.
abbrev pub asks : (Events → Bool) → ℤ → List Pollfd → Bool
asks want fd [] = false
asks want fd (p ∷ ps) = (int_eq p.fd fd && want p.events) || asks want fd ps

-- A descriptor from 0 to Max_FD.
abbrev pub Within : ℕ → ℤ → Type 0
Within m (pos n) = n ≤ m
Within m (negsuc _) = ⊥

pub Within-InRoom : {m c : ℕ} (z : ℤ) → Within m z → m < c → InRoom c z
Within-InRoom (pos n) h l = omega arith
Within-InRoom (negsuc n) h l = h

Within-above : (m : ℕ) (z : ℤ) → Within m z → above m z ≡ false
unfolding above
Within-above m (pos n) h = ground arith
Within-above m (negsuc n) h = refl

module _ (macros : FdMacros) where
  open macros use {FdSet, capacity}

  -- What G_Poll relies on of the FD_ZERO of an instance.
  pub record IsZero (fd_zero : FdSet → FdSet) : Type 0 where
    pub capacity-zero : (s : FdSet) → capacity (fd_zero s) ≡ capacity s
    pub is_set-zero :
        (n : ℤ) (s : FdSet) → InRoom (capacity s) n → is_set macros n (fd_zero s) ≡ false

  -- The one of src/poll/os_support.c is such.
  pub clear_socket_set-IsZero : IsZero (clear_socket_set macros)
  unfolding is_socket_in_set clear_socket_set
  clear_socket_set-IsZero = record {
    capacity-zero = macros.capacity-fd_zero;
    is_set-zero = λ n s h. rw (macros.fd_isset-fd_zero n s h) (unfold int_eq in refl);
  }

  is_set-set :
      (n m : ℤ) (s : FdSet)
      → InRoom (capacity s) n
      → InRoom (capacity s) m
      → is_set macros m (set_socket_in_set macros n s) ≡ (int_eq n m || is_set macros m s)
  unfolding is_socket_in_set set_socket_in_set
  is_set-set n m s hn hm = elim (Bool-cases (int_eq n m)) [
    | inl same ↦
        let n_eq : n ≡ m = (int_eq_iff n m).0 same in
        let there =
          subst (λ k. macros.fd_isset k (macros.fd_set n s) ≢ pos 0) n_eq
            (macros.fd_isset-fd_set_self n s hn) in
        ground (arith, int_eq_iff (macros.fd_isset m (macros.fd_set n s)) (pos 0))
    | inr other ↦
        let n_ne : n ≢ m = λ e. ground (arith, (int_eq_iff n m).1 e) in
        ground (arith, macros.fd_isset-fd_set_ne n m s n_ne hn hm)
  ]

  -- The sets have room for every descriptor up to Max_FD.
  pub record HasRoom (max_fd : ℕ) (u : Setup macros) : Type 0 where
    pub read_room : max_fd < capacity u.rfds
    pub write_room : max_fd < capacity u.wfds
    pub except_room : max_fd < capacity u.efds

  capacity-set_socket : (n : ℤ) (s : FdSet) → capacity (set_socket_in_set macros n s) ≡ capacity s
  unfolding set_socket_in_set
  capacity-set_socket n s = macros.capacity-fd_set n s

  fill_one-HasRoom :
      {m : ℕ} {u : Setup macros} (fd : ℤ) (e : Events)
      → HasRoom m u
      → HasRoom m (fill_one macros fd e u)
  unfolding fill_one
  fill_one-HasRoom {u} fd e h = ground (
    arith,
    macros.capacity-fd_set fd u.rfds,
    macros.capacity-fd_set fd u.wfds,
    macros.capacity-fd_set fd u.efds,
  )

  -- What the first loop has put in the sets for a descriptor.
  pub record Filled (fd : ℤ) (ps : List Pollfd) (u u' : Setup macros) : Type 0 where
    pub read_set : is_set macros fd u'.rfds ≡ (asks wants_read fd ps || is_set macros fd u.rfds)
    pub write_set :
        is_set macros fd u'.wfds ≡ (asks (λ e. e.pollout) fd ps || is_set macros fd u.wfds)
    pub except_set : is_set macros fd u'.efds ≡ (asks (λ e. true) fd ps || is_set macros fd u.efds)
    pub read_none : u'.rcount ≡ 0 → (u.rcount ≡ 0) × (asks wants_read fd ps ≡ false)
    pub write_none : u'.wcount ≡ 0 → (u.wcount ≡ 0) × (asks (λ e. e.pollout) fd ps ≡ false)

  fill_one-Filled :
      (m : ℕ) (fd : ℤ) (p : Pollfd) (u : Setup macros)
      → HasRoom m u
      → Within m fd
      → Within m p.fd
      → Filled fd (p ∷ []) u (fill_one macros p.fd p.events u)
  unfolding fill_one
  fill_one-Filled m fd p u r hfd hp = record {
    read_set = ground (
      arith,
      is_set-set p.fd fd u.rfds (Within-InRoom p.fd hp r.read_room)
          (Within-InRoom fd hfd r.read_room),
    );
    write_set = ground (
      arith,
      is_set-set p.fd fd u.wfds (Within-InRoom p.fd hp r.write_room)
          (Within-InRoom fd hfd r.write_room),
    );
    except_set = ground (
      arith,
      is_set-set p.fd fd u.efds (Within-InRoom p.fd hp r.except_room)
          (Within-InRoom fd hfd r.except_room),
    );
    read_none = λ h. ground arith;
    write_none = λ h. ground arith;
  }

  Filled-trans :
      {fd : ℤ} {p : Pollfd} {ps : List Pollfd} {u v w : Setup macros}
      → Filled fd (p ∷ []) u v
      → Filled fd ps v w
      → Filled fd (p ∷ ps) u w
  Filled-trans f g = record {
    read_set = ground (arith, f.read_set, g.read_set);
    write_set = ground (arith, f.write_set, g.write_set);
    except_set = ground (arith, f.except_set, g.except_set);
    read_none = λ h. ground (arith, g.read_none h, f.read_none (g.read_none h).0);
    write_none = λ h. ground (arith, g.write_none h, f.write_none (g.write_none h).0);
  }

  -- The first loop ends, without Program_Error, where the descriptors are from 0 to Max_FD.
  pub fill-Filled :
      (m : ℕ) (ps : List Pollfd) (u : Setup macros)
      → HasRoom m u
      → All (λ p. Within m p.fd) ps
      → (u' : Setup macros) × (fill macros m ps u ≡ ok u')
        × ((fd : ℤ) → Within m fd → Filled fd ps u u')
  unfolding fill
  fill-Filled m [] u r h = (
    u,
    refl,
    λ fd hfd. record {
      read_set = refl;
      write_set = refl;
      except_set = refl;
      read_none = λ z. (z, refl);
      write_none = λ z. (z, refl);
    },
  )
  fill-Filled m (p ∷ ps) u r h =
      let (w, w_eq, filled) =
        fill-Filled m ps (fill_one macros p.fd p.events u) (fill_one-HasRoom p.fd p.events r) h.1 in
      let below : above m p.fd ≡ false = Within-above m p.fd h.0 in
      (
        w,
        rw (below, if◌then◌else◌) w_eq,
        λ fd hfd. Filled-trans (fill_one-Filled m fd p u r hfd h.0) (filled fd hfd),
      )
