-- ===== src/OsLib/Sites/Passes.antt =====
-- config/setup/os_lib-tmplt.c: what the template up to the sizes leaves alone.
use Prim.Native.String
use aws.Base.{
  ℕ, ◌≡◌, refl, ◌∙◌, pos, String, Bool, true, false, Option, none, some, str_eq, not, ◌&&◌,
  if◌then◌else◌, ◌>>=◌,
}
use aws.OsLib.General.{emit_txt, version_text, with_clauses, target_os, general}
use aws.OsLib.Headers.{
  require_target, vxworks_shutdown, define_from, define_all, windows_aliases, windows_names,
  headers,
}
use aws.OsLib.Macros.{Body, number, alias, c, Pp, emit, defined, define, emit_c, string_value}

-- What is left alone before the sizes: the layout, and whether <netdb.h> was included.
pub record Passes (s t : Pp) : Type 0 where
  pub layout_eq : t.layout ≡ s.layout
  pub netdb_eq : t.env "AI_PASSIVE" ≡ s.env "AI_PASSIVE"

pub data PassesOption (s : Pp) : Option Pp → Type 0 where
  no_state : PassesOption s none
  a_state : {t : Pp} → Passes s t → PassesOption s (some t)

Passes-refl : (s : Pp) → Passes s s
Passes-refl s = record { layout_eq = refl; netdb_eq = refl }

Passes-trans : {s t u : Pp} → Passes s t → Passes t u → Passes s u
Passes-trans p q = record {
  layout_eq = q.layout_eq ∙ p.layout_eq;
  netdb_eq = q.netdb_eq ∙ p.netdb_eq;
}

PassesOption-after : {s t : Pp} {r : Option Pp} → Passes s t → PassesOption t r → PassesOption s r
PassesOption-after p no_state = no_state
PassesOption-after p (a_state q) = a_state (Passes-trans p q)

pub PassesOption-bind :
    {s : Pp} {m : Option Pp} {f : Pp → Option Pp}
    → PassesOption s m
    → ((t : Pp) → PassesOption t (f t))
    → PassesOption s (m >>= f)
PassesOption-bind no_state h = no_state
PassesOption-bind (a_state {t} p) h = PassesOption-after p (h t)

Passes-if : {s x y : Pp} (b : Bool) → Passes s x → Passes s y → Passes s (if b then x else y)
Passes-if true p q = p
Passes-if false p q = q

Passes-define :
    (n : String) (b : Body) (s : Pp) → str_eq n "AI_PASSIVE" ≡ false → Passes s (define n b s)
unfolding define
Passes-define n b s h = record { layout_eq = refl; netdb_eq = rw (h, if◌then◌else◌) }

Passes-define_from :
    (n m : String) (s : Pp) → str_eq n "AI_PASSIVE" ≡ false → Passes s (define_from n m s)
unfolding define_from
Passes-define_from n m s h =
    Passes-if (not (defined s n) && defined s m) (Passes-define n (alias m) s h) (Passes-refl s)

emit_c-Passes : (l : ℕ) (n ty vn k : String) (s : Pp) → PassesOption s (emit_c l n ty vn k s)
unfolding emit_c
emit_c-Passes l n ty vn k s = go (string_value s vn)
  where
    go : (v : Option String) → PassesOption s (v >>= λ t. some (emit (c l n ty t k) s))
    go none = no_state
    go (some t) = a_state (record { layout_eq = refl; netdb_eq = refl })

windows_aliases-Passes : (s : Pp) → Passes s (define_all windows_aliases s)
unfolding define_all define
windows_aliases-Passes s = record { layout_eq = refl; netdb_eq = refl }

pub headers-Passes : (s : Pp) → PassesOption s (headers s)
unfolding headers require_target vxworks_shutdown windows_names
headers-Passes s = PassesOption-bind (target (defined s "TARGET")) λ t. a_state (names t)
  where
    target : (b : Bool) → PassesOption s (if b then some s else none)
    target true = a_state (Passes-refl s)
    target false = no_state

    names : (t : Pp) → Passes t (windows_names (vxworks_shutdown t))
    names t = Passes-trans (shutdown t) (windows (vxworks_shutdown t))
      where
        shutdown : (u : Pp) → Passes u (vxworks_shutdown u)
        shutdown u =
            Passes-if (defined u "__vxworks")
              (Passes-trans
                (Passes-trans (Passes-define "SHUT_RD" (number (pos 0)) u refl)
                  (Passes-define "SHUT_WR" (number (pos 1)) _ refl))
                (Passes-define "SHUT_RDWR" (number (pos 2)) _ refl))
              (Passes-refl u)

        windows : (u : Pp) → Passes u (windows_names u)
        windows u =
            Passes-if (defined u "_WIN32")
              (Passes-trans
                (Passes-trans
                  (Passes-trans (Passes-define_from "SHUT_RD" "SD_RECEIVE" u refl)
                    (Passes-define_from "SHUT_WR" "SD_SEND" _ refl))
                  (Passes-define_from "SHUT_RDWR" "SD_BOTH" _ refl))
                (windows_aliases-Passes _))
              (Passes-refl u)

emit_txt-Passes : (l : ℕ) (t : String) (s : Pp) → Passes s (emit_txt l t s)
unfolding emit_txt
emit_txt-Passes l t s = record { layout_eq = refl; netdb_eq = refl }

with_clauses-Passes : (s : Pp) → Passes s (with_clauses s)
unfolding with_clauses emit_txt
with_clauses-Passes s =
    Passes-if (defined s "_WIN32") (record { layout_eq = refl; netdb_eq = refl })
      (record { layout_eq = refl; netdb_eq = refl })

target_os-Passes : (s : Pp) → Passes s (target_os s)
unfolding target_os
target_os-Passes s = Passes-define "TARGET_OS" _ s refl

pub general-Passes : (s : Pp) → PassesOption s (general s)
unfolding general version_text
general-Passes s = PassesOption-bind (version (string_value s "TARGET")) λ t.
    PassesOption-bind
      (PassesOption-after (Passes-trans (with_clauses-Passes t) (target_os-Passes (with_clauses t)))
        (emit_c-Passes _ _ _ _ _ _))
      λ u.
        PassesOption-after (Passes-define "Target_Name" (alias "TARGET") u refl)
          (emit_c-Passes _ _ _ _ _ _)
  where
    version :
        (o : Option String)
        → PassesOption s
            (o >>= λ t. some (emit_txt 245 (String.◌++◌ "--  This is the version for " t) s))
    version none = no_state
    version (some t) =
        a_state (emit_txt-Passes 245 (String.◌++◌ "--  This is the version for " t) s)
