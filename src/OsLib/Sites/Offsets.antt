-- ===== src/OsLib/Sites/Offsets.antt =====
-- config/setup/os_lib-tmplt.c: the values of the sizes and offsets that the conditions of the template's
-- text ask for.
use aws.Base.{
  ℕ, ◌*◌, ◌≡◌, refl, sym, ap, ◌∙◌, ℤ, pos, negsuc, to_int, Bool, true, false, Option, none, some,
  List, [], ◌∷◌, ◌++◌, map, append_assoc, Sub, if◌then◌else◌, ◌>>=◌,
}
use aws.OsLib.Errno.{errno_values}
use aws.OsLib.Families.{socket_constants}
use aws.OsLib.Secure.{secure_sockets, mingw_constants}
use aws.OsLib.General.{general}
use aws.OsLib.Headers.{headers}
use aws.OsLib.Macros.{
  Body, number, Layout, Platform, Marker, cnd, Pp, emit, defined, define, emit_cnd, value, start,
}
use aws.OsLib.Sites.Sections.{
  headers-Yields, general-Yields, poll_sizes-Yields, poll_values-Yields, io_constants-Yields,
  errno_values-Yields, socket_constants-Yields, secure_sockets-Yields, mingw_constants-Yields,
  general_sites,
}
use aws.OsLib.Sites.{site, Site, Yields, stops, yields, Yields-bind}
use aws.OsLib.Sizes.{emit_size, sizes, addrinfo_offsets, poll_sizes, poll_values, io_constants}
use aws.OsLib.Template.{sections, compile}
use aws.OsLib.Sites.Passes.{
  Passes, PassesOption, a_state, PassesOption-bind, headers-Passes, general-Passes,
}

-- An offset of struct addrinfo, which <netdb.h> gives, or the number in its place.
abbrev pub addrinfo_value : Bool → ℕ → ℤ → ℤ
addrinfo_value netdb offset other = to_int (if netdb then pos offset else other)

-- The markers of `sizes`.
abbrev pub size_markers : Layout → Bool → ℤ → List Marker
size_markers l netdb fd =
    cnd 322 "SIZEOF_unsigned_int" (to_int (pos l.unsigned_int)) "Size of unsigned int"
    ∷ cnd 325 "SIZEOF_fd_set" (to_int (pos l.fd_set)) "fd_set"
    ∷ cnd 326 "FD_SETSIZE" fd "Max fd value"
    ∷ cnd 332 "SIZEOF_sin_family" (to_int (pos (l.sin_family * 8))) "Size of sa.sin_family"
    ∷ cnd 336 "SIN_FAMILY_OFFSET" (to_int (pos l.sin_family_offset)) "sin_family offset in record"
    ∷ cnd 355 "AI_FAMILY_OFFSET" (addrinfo_value netdb l.ai_family_offset (negsuc 6)) "???"
    ∷ cnd 356 "AI_CANONNAME_OFFSET" (addrinfo_value netdb l.ai_canonname_offset (negsuc 1)) "???"
    ∷ cnd 357 "AI_ADDR_OFFSET" (addrinfo_value netdb l.ai_addr_offset (negsuc 2)) "???"
    ∷ []

record SizesDone (s t : Pp) : Type 0 where
  fd : ℤ
  out_eq : t.out ≡ s.out ++ size_markers s.layout (defined s "AI_PASSIVE") fd

data SizesOption (s : Pp) : Option Pp → Type 0 where
  no_sizes : SizesOption s none
  some_sizes : {t : Pp} → SizesDone s t → SizesOption s (some t)

sizes_lem : (s : Pp) → SizesOption s (sizes s)
unfolding sizes addrinfo_offsets emit_size emit_cnd define
sizes_lem s = go (value s2 "FD_SETSIZE")
  where
    s2 : Pp
    s2 = emit (cnd 325 "SIZEOF_fd_set" (to_int (pos s.layout.fd_set)) "fd_set") (
        define "SIZEOF_fd_set" (number (pos s.layout.fd_set)) (
          emit
            (cnd 322 "SIZEOF_unsigned_int" (to_int (pos s.layout.unsigned_int))
              "Size of unsigned int")
            (define "SIZEOF_unsigned_int" (number (pos s.layout.unsigned_int)) s)))

    go :
        (o : Option ℤ)
        → SizesOption s (
            (o >>= λ z. some (emit (cnd 326 "FD_SETSIZE" (to_int z) "Max fd value") s2)) >>= λ t.
            emit_size 332 "SIZEOF_sin_family"
              (pos (s.layout.sin_family * 8))
              "Size of sa.sin_family"
              t
            >>= λ u.
                emit_size 336 "SIN_FAMILY_OFFSET"
                  (pos s.layout.sin_family_offset)
                  "sin_family offset in record"
                  u
                >>= λ v. addrinfo_offsets v)
    go none = no_sizes
    go (some z) = some_sizes (record { fd = to_int z; out_eq = simp append_assoc })

-- What a compiled template holds: the markers of its head, those of the sizes, and more.
pub record HoldsSizes (p : Platform) (out : List Marker) : Type 0 where
  pub before : List Marker
  pub fd : ℤ
  pub after : List Marker
  pub out_eq : out ≡ before ++ (size_markers p.layout (defined (start p) "AI_PASSIVE") fd ++ after)
  pub head : Sub (map site before) general_sites

unfoldable rest : Pp → Option Pp
rest s = do
  s ← poll_sizes s
  s ← poll_values s
  s ← io_constants s
  s ← errno_values s
  s ← socket_constants s
  s ← secure_sockets s
  mingw_constants s

-- A state with all the markers of another, and more.
data Extends (s : Pp) : Option Pp → Type 0 where
  no_more : Extends s none
  extends : {t : Pp} → (added : List Marker) → t.out ≡ s.out ++ added → Extends s (some t)

Extends-of_Yields : {sites : List Site} {s : Pp} {r : Option Pp} → Yields sites s r → Extends s r
Extends-of_Yields stops = no_more
Extends-of_Yields (yields g) = extends g.added g.out_eq

rest-Extends : (s : Pp) → Extends s (rest s)
unfolding rest
rest-Extends s = Extends-of_Yields (
    Yields-bind (poll_sizes-Yields s) λ s. Yields-bind (poll_values-Yields s) λ s.
      Yields-bind (io_constants-Yields s) λ s. Yields-bind (errno_values-Yields s) λ s.
        Yields-bind (socket_constants-Yields s)
          λ s. Yields-bind (secure_sockets-Yields s) mingw_constants-Yields)

compile-rest :
    (p : Platform)
    → compile p ≡ (((headers (start p) >>= general) >>= λ t. sizes t >>= rest) >>= λ u. some u.out)
unfolding compile sections rest
compile-rest p = go (headers (start p))
  where
    go :
        (o : Option Pp)
        → (o >>= λ s. sections s >>= λ u. some u.out)
          ≡ (((o >>= general) >>= λ t. sizes t >>= rest) >>= λ u. some u.out)
    go none = refl
    go (some s) = refl

after_sizes :
    (p : Platform) (t : Pp) {u : Pp} {o : Option Pp} {out before : List Marker}
    → Sub (map site before) general_sites
    → t.out ≡ before
    → Passes (start p) t
    → SizesDone t u
    → Extends u o
    → (o >>= λ v. some v.out) ≡ some out
    → HoldsSizes p out
unfolding start
after_sizes p t h b q d no_more e = cc
after_sizes p s {u} {out} {before} h b q d (extends {t} added out_eq) e =
    let got : out ≡ t.out = cc in
    let netdb : defined s "AI_PASSIVE" ≡ defined (start p) "AI_PASSIVE" =
      ap (λ (o : Option Body). let y : Bool = elim o [ none ↦ false | some _ ↦ true ] in y)
        q.netdb_eq in
    let markers : size_markers s.layout (defined s "AI_PASSIVE") d.fd
        ≡ size_markers p.layout (defined (start p) "AI_PASSIVE") d.fd =
      ap (λ l. size_markers l (defined s "AI_PASSIVE") d.fd) q.layout_eq
      ∙ ap (λ n. size_markers p.layout n d.fd) netdb in
    record {
      before = before;
      fd = d.fd;
      after = added;
      out_eq =
          got
          ∙ out_eq
          ∙ ap (λ l. l ++ added)
              (d.out_eq
                ∙ ap (λ l. l ++ size_markers s.layout (defined s "AI_PASSIVE") d.fd) b
                ∙ ap (λ l. before ++ l) markers)
          ∙ append_assoc before (size_markers p.layout (defined (start p) "AI_PASSIVE") d.fd) added;
      head = h;
    }

-- The compiled template has, behind the markers of its head, those of the sizes with the layout of the
-- target, and of struct addrinfo if <netdb.h> is there.
pub compile-HoldsSizes :
    (p : Platform) {out : List Marker} → compile p ≡ some out → HoldsSizes p out
unfolding start
compile-HoldsSizes p {out} h =
    go (Yields-bind (headers-Yields (start p)) general-Yields)
      (PassesOption-bind (headers-Passes (start p)) general-Passes) (sym (compile-rest p) ∙ h)
  where
    go_sizes :
        {t : Pp} {o : Option Pp} {before : List Marker}
        → Sub (map site before) general_sites
        → t.out ≡ before
        → Passes (start p) t
        → SizesOption t o
        → ((o >>= rest) >>= λ u. some u.out) ≡ some out
        → HoldsSizes p out
    go_sizes sub b q no_sizes e = cc
    go_sizes sub b q (some_sizes {t} d) e = after_sizes p _ sub b q d (rest-Extends t) e

    go :
        {o : Option Pp}
        → Yields general_sites (start p) o
        → PassesOption (start p) o
        → ((o >>= λ t. sizes t >>= rest) >>= λ u. some u.out) ≡ some out
        → HoldsSizes p out
    go stops q e = cc
    go (yields g) (a_state {t} q) e = go_sizes g.from_sites g.out_eq q (sizes_lem t) e
