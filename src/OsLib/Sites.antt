-- ===== src/OsLib/Sites.antt =====
-- config/setup/os_lib-tmplt.c: where the markers of the template come from. Each section leaves a
-- part of its own list of sites, in order.
pub mod Sections
pub mod Order
mod Passes
pub mod Offsets
use aws.Base.{
  ℕ, ◌≡◌, refl, sym, ap, ◌∙◌, ℤ, to_int, String, Bool, true, Option, none, some, List, [], ◌∷◌,
  ◌++◌, map, append_assoc, append-nil, map-append, Sub, done, keep, Sub-nil, Sub-append,
  if◌then◌else◌, arith, ◌>>=◌,
}
use aws.OsLib.Entries.{Entry, run_entry, run_entries}
use aws.OsLib.Macros.{
  Body, Marker, cnd, cns, c, txt, Pp, emit, define, undef, ifndef, emit_cnd, emit_cns, emit_c,
  string_value, value,
}

-- A line of the template, and the constant that it defines, if it is no text.
abbrev pub Site : Type 0
Site = ℕ × Option String

abbrev pub site : Marker → Site
site (cnd l n v k) = (l, some n)
site (cns l n t k) = (l, some n)
site (c l n ty t k) = (l, some n)
site (txt l t) = (l, none)

-- The markers that `s'` has more than `s` come from these sites, in order.
pub record Grows (sites : List Site) (s s' : Pp) : Type 0 where
  pub added : List Marker
  pub out_eq : s'.out ≡ s.out ++ added
  pub from_sites : Sub (map site added) sites

-- A section's result, if it compiles.
pub data Yields (sites : List Site) (s : Pp) : Option Pp → Type 0 where
  stops : Yields sites s none
  yields : {s' : Pp} → Grows sites s s' → Yields sites s (some s')

pub Grows-of_out : (sites : List Site) (s s' : Pp) → s'.out ≡ s.out → Grows sites s s'
Grows-of_out sites s s' e = record {
  added = [];
  out_eq = e ∙ sym (append-nil s.out);
  from_sites = Sub-nil sites;
}

pub Grows-trans : {a b : List Site} {s t u : Pp} → Grows a s t → Grows b t u → Grows (a ++ b) s u
Grows-trans {a} {b} {s} {t} {u} g h = record {
  added = g.added ++ h.added;
  out_eq = h.out_eq ∙ ap (λ l. l ++ h.added) g.out_eq ∙ append_assoc s.out g.added h.added;
  from_sites = rw map-append (Sub-append g.from_sites h.from_sites);
}

pub Yields-after :
    {a b : List Site} {s t : Pp} {r : Option Pp} → Grows a s t → Yields b t r → Yields (a ++ b) s r
Yields-after g stops = stops
Yields-after g (yields h) = yields (Grows-trans g h)

-- The rule for a chain of sections.
pub Yields-bind :
    {a b : List Site} {s : Pp} {m : Option Pp} {f : Pp → Option Pp}
    → Yields a s m
    → ((t : Pp) → Yields b t (f t))
    → Yields (a ++ b) s (m >>= f)
Yields-bind stops h = stops
Yields-bind (yields {s'} g) h = Yields-after g (h s')

-- A step that changes macros alone.
pub record Keeps (s t : Pp) : Type 0 where
  pub same_out : t.out ≡ s.out

pub Keeps-refl : (s : Pp) → Keeps s s
Keeps-refl s = record { same_out = refl }

pub Keeps-trans : {s t u : Pp} → Keeps s t → Keeps t u → Keeps s u
Keeps-trans k l = record { same_out = l.same_out ∙ k.same_out }

pub Keeps-define : (n : String) (b : Body) (s : Pp) → Keeps s (define n b s)
unfolding define
Keeps-define n b s = record { same_out = refl }

pub Keeps-undef : (n : String) (s : Pp) → Keeps s (undef n s)
unfolding undef
Keeps-undef n s = record { same_out = refl }

pub Keeps-ifndef : (n : String) (b : Body) (s : Pp) → Keeps s (ifndef n b s)
unfolding ifndef
Keeps-ifndef n b s = record { same_out = ground arith }

pub Keeps-if : {s x y : Pp} (b : Bool) → Keeps s x → Keeps s y → Keeps s (if b then x else y)
Keeps-if true p q = p
Keeps-if _ p q = q

pub Yields-from :
    {a : List Site} {s t : Pp} {r : Option Pp} → Yields a t r → Keeps s t → Yields a s r
Yields-from {s} {t} y k = Yields-after {a = []} (Grows-of_out [] s t k.same_out) y

pub Yields-if :
    {a : List Site} {s : Pp} (b : Bool) {x y : Option Pp}
    → Yields a s x
    → Yields a s y
    → Yields a s (if b then x else y)
Yields-if true p q = p
Yields-if _ p q = q

emit-Grows : (m : Marker) (s s' : Pp) → s'.out ≡ s.out ++ (m ∷ []) → Grows (site m ∷ []) s s'
emit-Grows m s s' e = record { added = m ∷ []; out_eq = e; from_sites = keep done }

pub emit_cnd-Yields :
    (l : ℕ) (n k : String) (s : Pp) → Yields ((l, some n) ∷ []) s (emit_cnd l n k s)
unfolding emit_cnd
emit_cnd-Yields l n k s = go (value s n)
  where
    go :
        (v : Option ℤ)
        → Yields ((l, some n) ∷ []) s (v >>= λ z. some (emit (cnd l n (to_int z) k) s))
    go none = stops
    go (some z) = yields (emit-Grows (cnd l n (to_int z) k) s _ refl)

pub emit_cns-Yields :
    (l : ℕ) (n k : String) (s : Pp) → Yields ((l, some n) ∷ []) s (emit_cns l n k s)
unfolding emit_cns
emit_cns-Yields l n k s = go (string_value s n)
  where
    go : (v : Option String) → Yields ((l, some n) ∷ []) s (v >>= λ t. some (emit (cns l n t k) s))
    go none = stops
    go (some t) = yields (emit-Grows (cns l n t k) s _ refl)

pub emit_c-Yields :
    (l : ℕ) (n ty vn k : String) (s : Pp) → Yields ((l, some n) ∷ []) s (emit_c l n ty vn k s)
unfolding emit_c
emit_c-Yields l n ty vn k s = go (string_value s vn)
  where
    go : (v : Option String) → Yields ((l, some n) ∷ []) s (v >>= λ t. some (emit (c l n ty t k) s))
    go none = stops
    go (some t) = yields (emit-Grows (c l n ty t k) s _ refl)

abbrev pub entry_site : Entry → Site
entry_site e = (e.line, some e.name)

pub run_entry-Yields : (e : Entry) (s : Pp) → Yields (entry_site e ∷ []) s (run_entry e s)
unfolding run_entry
run_entry-Yields e s =
    Yields-from (emit_cnd-Yields e.line e.name e.comment _) (Keeps-ifndef e.name e.fallback s)

pub run_entries-Yields :
    (es : List Entry) (s : Pp) → Yields (map entry_site es) s (run_entries es s)
unfolding run_entries
run_entries-Yields [] s = yields (Grows-of_out [] s s refl)
run_entries-Yields (e ∷ es) s = Yields-bind (run_entry-Yields e s) (run_entries-Yields es)

pub emit_txt-Grows : (l : ℕ) (t : String) (s : Pp) → Grows ((l, none) ∷ []) s (emit (txt l t) s)
emit_txt-Grows l t s = emit-Grows (txt l t) s _ refl

-- A section that may be left out.
pub Grows-skip : {a : List Site} {s s' : Pp} (b : List Site) → Grows a s s' → Grows (a ++ b) s s'
Grows-skip b g = Grows-trans g (Grows-of_out b _ _ refl)

pub Grows-if :
    {a : List Site} {s x y : Pp} (b : Bool)
    → Grows a s x
    → Grows a s y
    → Grows a s (if b then x else y)
Grows-if true p q = p
Grows-if _ p q = q
