-- ===== src/OsLib/Macros.antt =====
-- config/setup/os_lib-tmplt.c: the state of the preprocessor while it reads the template, and the
-- macros CND, CNS, C and TXT, which leave a marker in the assembly listing.
use mathlib.Core.Option
use aws.Base.{
  ℕ, ℤ, String, Bool, true, false, Option, none, some, List, [], ◌∷◌, ◌++◌, to_int, pos,
  if◌then◌else◌, ◌>>=◌, str_eq,
}

-- What a macro stands for. The macros of the system headers and of the command line are given by
-- the integer that they expand to; an `alias` is a macro that the template defines as another name.
pub data Body : Type 0 where
  number : ℤ → Body
  alias : String → Body
  text : String → Body

-- The sizes and offsets, in bytes, that `sizeof` and address arithmetic give on the target.
pub record Layout : Type 0 where
  pub unsigned_int : ℕ
  pub fd_set : ℕ
  pub sin_family : ℕ
  pub sin_family_offset : ℕ
  pub ai_family_offset : ℕ
  pub ai_canonname_offset : ℕ
  pub ai_addr_offset : ℕ
  pub int : ℕ
  pub short : ℕ
  pub size_t : ℕ
  pub nfds_t : ℕ
  pub pollfd_events : ℕ
  pub pollfd_fd : ℕ
  pub socket : ℕ
  pub socklen_t : ℕ
  pub tv_sec : ℕ
  pub tv_usec : ℕ

-- The C compiler for a target. `macros` are those that the headers and the command line define;
-- `identifiers` are the names that the headers declare, such as enumeration constants, with
-- their values; `target` is the string of -DTARGET.
pub record Platform : Type 0 where
  pub macros : String → Option ℤ
  pub identifiers : String → Option ℤ
  pub target : Option String
  pub layout : Layout

-- A line that the template leaves in the listing, `->KIND:line:...`.
pub data Marker : Type 0 where
  cnd : ℕ → String → ℤ → String → Marker
  cns : ℕ → String → String → String → Marker
  c : ℕ → String → String → String → String → Marker
  txt : ℕ → String → Marker

pub record Pp : Type 0 where
  pub env : String → Option Body
  pub identifiers : String → Option ℤ
  pub layout : Layout
  pub out : List Marker

abbrev pub defined : Pp → String → Bool
defined s n = elim (s.env n) [ none ↦ false | some _ ↦ true ]

abbrev pub update : (String → Option Body) → String → Option Body → String → Option Body
update e n b m = if str_eq n m then b else e m

-- `#define n b`
unfoldable pub define : String → Body → Pp → Pp
define n b s = record s { env = update s.env n (some b) }

-- `#undef n`
unfoldable pub undef : String → Pp → Pp
undef n s = record s { env = update s.env n none }

-- `#ifndef n`, `# define n b`, `#endif`
unfoldable pub ifndef : String → Body → Pp → Pp
unfolding define
ifndef n b s = if defined s n then s else define n b s

-- The value of a name in an expression after macro replacement: a macro's integer, the value of
-- the name that it stands for, or that of a declared identifier. Any other name does not compile.
abbrev pub name_value : (String → Option Body) → (String → Option ℤ) → String → Option ℤ
name_value env ids n = elim (env n) [ some (number z) ↦ some z | none ↦ ids n | some _ ↦ none ]

abbrev pub body_value : (String → Option Body) → (String → Option ℤ) → Body → Option ℤ
body_value env ids (number z) = some z
body_value env ids (alias m) = name_value env ids m
body_value env ids (text t) = none

abbrev pub value : Pp → String → Option ℤ
value s n = elim (s.env n) [ none ↦ s.identifiers n | some b ↦ body_value s.env s.identifiers b ]

-- The value of a name in an `#if`: a name that is no macro counts as 0.
abbrev pub if_value : Pp → String → Option ℤ
if_value s n = elim (s.env n) [
  | none ↦ some (pos 0)
  | some b ↦ body_value s.env (λ _. some (pos 0)) b
]

abbrev pub emit : Marker → Pp → Pp
emit m s = record s { out = s.out ++ (m ∷ []) }

-- `CND (name, comment)` at a line of the template.
unfoldable pub emit_cnd : ℕ → String → String → Pp → Option Pp
emit_cnd line name comment s = do v ← value s name; some (emit (cnd line name (to_int v) comment) s)

-- A macro whose body is a string literal, or a name for one, where the string is needed.
abbrev pub body_string : (String → Option Body) → Body → Option String
body_string env (text t) = some t
body_string env (alias m) = elim (env m) [ some (text t) ↦ some t | _ ↦ none ]
body_string env (number z) = none

abbrev pub string_value : Pp → String → Option String
string_value s n = s.env n >>= body_string s.env

-- `CNS (name, comment)`
unfoldable pub emit_cns : ℕ → String → String → Pp → Option Pp
emit_cns line name comment s = do t ← string_value s name; some (emit (cns line name t comment) s)

-- `C (sname, type, value, comment)` with the string that a macro stands for.
unfoldable pub emit_c : ℕ → String → String → String → String → Pp → Option Pp
emit_c line sname ty value_name comment s = do
  t ← string_value s value_name
  some (emit (c line sname ty t comment) s)

-- Where the compiler starts: the command line's TARGET, and the headers' macros.
unfoldable pub start : Platform → Pp
start p = record {
  env = λ n. if str_eq "TARGET" n then Option.map text p.target else Option.map number (p.macros n);
  identifiers = p.identifiers;
  layout = p.layout;
  out = [];
}
