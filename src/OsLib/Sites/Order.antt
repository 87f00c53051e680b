-- ===== src/OsLib/Sites/Order.antt =====
-- config/setup/os_lib-tmplt.c: the order of the markers and the names of the constants, on every
-- target.
use aws.Base.{
  ◌<◌, ◌≡◌, ◌≢◌, refl, sym, ◌∙◌, ap, subst, >>=_assoc, String, Bool, true, not, ◌&&◌, Option, some,
  List, [], ◌++◌, map, Sub, AllPairs, Sub-AllPairs, AllPairs-map, all_pairs, all_pairs_sound, ltb,
  str_eq, eq_iff, arith, ◌>>=◌,
}
use aws.OsLib.Errno.{errno_entries}
use aws.OsLib.Headers.{headers}
use aws.OsLib.Macros.{Platform, Marker, Pp, start}
use aws.OsLib.Secure.{openssl_entries}
use aws.OsLib.Sites.Sections.{
  general_sites, sizes_sites, poll_sites, poll_value_sites, io_sites, socket_sites, winsock_sites,
  general-Yields, sizes-Yields, poll_sizes-Yields, poll_values-Yields, io_constants-Yields,
  errno_values-Yields, socket_constants-Yields, secure_sockets-Yields, mingw_constants-Yields,
  headers-Yields,
}
use aws.OsLib.Sites.{Site, site, entry_site, Yields, stops, yields, Yields-bind}
use aws.OsLib.Template.{sections, compile}

-- Every site of the template, in the order of its lines.
abbrev pub template_sites : List Site
template_sites =
    general_sites
    ++ (sizes_sites
        ++ (poll_sites
            ++ (poll_value_sites
                ++ (io_sites
                    ++ (map entry_site errno_entries
                        ++ (socket_sites ++ (map entry_site openssl_entries ++ winsock_sites)))))))

sections-Yields : (s : Pp) → Yields template_sites s (sections s)
unfolding sections
sections-Yields s = Yields-bind (general-Yields s) λ s. Yields-bind (sizes-Yields s) λ s.
    Yields-bind (poll_sizes-Yields s) λ s. Yields-bind (poll_values-Yields s) λ s.
      Yields-bind (io_constants-Yields s) λ s. Yields-bind (errno_values-Yields s) λ s.
        Yields-bind (socket_constants-Yields s)
          λ s. Yields-bind (secure_sockets-Yields s) mingw_constants-Yields

compile_result :
    {sites : List Site} {s : Pp} {r : Option Pp} {out : List Marker}
    → Yields sites s r
    → s.out ≡ []
    → (r >>= λ t. some t.out) ≡ some out
    → Sub (map site out) sites
compile_result {sites} {out} (yields {s'} g) e h =
    let same : s'.out ≡ g.added = g.out_eq ∙ ap (λ l. l ++ g.added) e in
    let got : s'.out ≡ out = cc in subst (λ l. Sub (map site l) sites) (sym same ∙ got) g.from_sites
compile_result stops e h = cc

-- What a compiled template holds is a part of its sites.
pub compile-Sub :
    (p : Platform) {out : List Marker} → compile p ≡ some out → Sub (map site out) template_sites
unfolding compile start
compile-Sub p h =
    compile_result (Yields-bind (headers-Yields (start p)) sections-Yields) refl
      (>>=_assoc (headers (start p)) sections (λ t. some t.out) ∙ h)

-- Two constants of one package have different names.
abbrev pub Differs : Option String → Option String → Type 0
Differs (some a) (some b) = a ≢ b
Differs _ _ = Unit

abbrev differs : Option String → Option String → Bool
differs (some a) (some b) = not (str_eq a b)
differs _ _ = true

differs_sound : (a b : Option String) → differs a b ≡ true → Differs a b
differs_sound (some a) (some b) h = ground (arith, eq_iff a b)
differs_sound _ _ h = tt

-- A marker stands above another in the template, and defines another constant.
abbrev pub IsBefore : Site → Site → Type 0
IsBefore a b = (a.0 < b.0) × Differs a.1 b.1

abbrev is_before : Site → Site → Bool
is_before a b = ltb a.0 b.0 && differs a.1 b.1

is_before_sound : (a b : Site) → is_before a b ≡ true → IsBefore a b
is_before_sound (l, n) (k, m) h = (ground arith, differs_sound n m (ground arith))

template_sites-IsBefore : AllPairs IsBefore template_sites
template_sites-IsBefore =
    all_pairs_sound IsBefore is_before is_before_sound template_sites (unfold all_pairs in refl)

-- On every target on which the template compiles, each marker has a larger line number than
-- those before it, and no two markers define a constant of the same name.
pub compile-IsBefore :
    (p : Platform) {out : List Marker}
    → compile p ≡ some out
    → AllPairs (λ m n. IsBefore (site m) (site n)) out
compile-IsBefore p h =
    AllPairs-map IsBefore site _ (Sub-AllPairs IsBefore (compile-Sub p h) template_sites-IsBefore)
