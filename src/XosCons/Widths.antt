-- ===== src/XosCons/Widths.antt =====
-- config/setup/xoscons.adb: the widths that the tool keeps while it reads the listing.
use aws.Base.{
  ℕ, ◌*◌, ◌^◌, ◌≤◌, ◌≡◌, refl, sym, ◌∙◌, subst, Bool, true, false, ◌⊎◌, inl, inr, Option, none,
  some, List, [], ◌∷◌, ◌&&◌, Text, codes, cut, text_eq, All, All-weaken, All-append, length, ltb,
  ◌==◌, if◌then◌else◌, ◌>>=◌, arith,
}
use aws.XosCons.{IntValue, Kind, cnd, cnu, cns, c, sub, txt, AsmInfo, Table, kind_value}
use aws.XosCons.Listing.{
  cut_first, parse_int, to_integer, see_name, see_type, see_value, append_info, see_size,
  image_length, parse_number, parse_text, parse_fields, parse_asm_line, parse_line, load,
}
use aws.XosCons.Output.{name_of}

-- An entry fits the widths, but for the name of a subtype and the value of an entry without a comment.
pub record Fits (t : Table) (info : AsmInfo) : Type 0 where
  pub name_fits : (info.kind ≡ sub) ⊎ (length (name_of info) ≤ t.max_name_len)
  pub type_fits : length info.constant_type ≤ t.max_type_len
  pub value_fits : (info.comment ≡ []) ⊎ (info.value_len ≤ t.max_value_len)

abbrev pub Covers : Table → Type 0
Covers t = All (Fits t) t.infos

-- The same entries, and widths that are not smaller.
record Widens (t u : Table) : Type 0 where
  infos_eq : u.infos ≡ t.infos
  name_le : t.max_name_len ≤ u.max_name_len
  type_le : t.max_type_len ≤ u.max_type_len
  value_le : t.max_value_len ≤ u.max_value_len

Widens-trans : {t u v : Table} → Widens t u → Widens u v → Widens t v
Widens-trans w x = record {
  infos_eq = x.infos_eq ∙ w.infos_eq;
  name_le = omega arith;
  type_le = omega arith;
  value_le = omega arith;
}

Fits-Widens : (t u : Table) (info : AsmInfo) → Widens t u → Fits t info → Fits u info
Fits-Widens t u info w f = record {
  name_fits = elim f.name_fits [ inl s ↦ inl s | inr l ↦ inr (omega arith) ];
  type_fits = omega arith;
  value_fits = elim f.value_fits [ inl s ↦ inl s | inr l ↦ inr (omega arith) ];
}

Covers-Widens : {t u : Table} → Widens t u → Covers t → Covers u
Covers-Widens {t} {u} w h =
    subst (All (Fits u)) (sym w.infos_eq)
      (All-weaken (Fits t) (Fits u) t.infos (λ info f. Fits-Widens t u info w f) h)

Fits-append_info : (t : Table) (info new : AsmInfo) → Fits t info → Fits (append_info new t) info
Fits-append_info t info new f = record {
  name_fits = f.name_fits;
  type_fits = f.type_fits;
  value_fits = f.value_fits;
}

Covers-append_info :
    (t : Table) (info : AsmInfo) → Covers t → Fits t info → Covers (append_info info t)
Covers-append_info t info h f =
    All-append (Fits (append_info info t)) t.infos (info ∷ [])
      (All-weaken (Fits t) (Fits (append_info info t)) t.infos (λ i g. Fits-append_info t i info g)
        h)
      (Fits-append_info t info info f, tt)

see_name-Widens :
    (name : Text) (t : Table)
    → Widens t (see_name name t) × (length name ≤ (see_name name t).max_name_len)
unfolding see_name
see_name-Widens name t = (
  record { infos_eq = refl; name_le = ground arith; type_le = omega arith; value_le = omega arith },
  ground arith,
)

see_type-Widens :
    (ty : Text) (t : Table) → Widens t (see_type ty t) × (length ty ≤ (see_type ty t).max_type_len)
unfolding see_type
see_type-Widens ty t = (
  record { infos_eq = refl; name_le = omega arith; type_le = ground arith; value_le = omega arith },
  ground arith,
)

see_value-Widens :
    (len : ℕ) (comment : Text) (t : Table)
    → Widens t (see_value len comment t)
      × ((comment ≡ []) ⊎ (len ≤ (see_value len comment t).max_value_len))
unfolding see_value
see_value-Widens len [] t = (
  record { infos_eq = refl; name_le = omega arith; type_le = omega arith; value_le = omega arith },
  inl refl,
)
see_value-Widens len (a ∷ s) t = (
  record { infos_eq = refl; name_le = omega arith; type_le = omega arith; value_le = ground arith },
  inr (ground arith),
)

Widens-refl : (t : Table) → Widens t t
Widens-refl t = record {
  infos_eq = refl;
  name_le = omega arith;
  type_le = omega arith;
  value_le = omega arith;
}

Widens-of_some : (t v : Table) {u : Table} → Widens t v → some v ≡ some u → Widens t u
Widens-of_some t v {u} w h = let e : v ≡ u = cc in subst (λ q. Widens t q) e w

see_size-Widens :
    (name : Text) (n : ℕ) (t : Table) {u : Table} → see_size name n t ≡ some u → Widens t u
unfolding see_size
see_size-Widens name n t {u} h =
    go (text_eq name (codes "SIZEOF_unsigned_int")) (ltb (8 * n) (2 ^ 31)) h
  where
    go :
        (named small : Bool)
        → (if named
            then (if small then some (record t { size_of_unsigned_int = 8 * n }) else none)
            else some t)
          ≡ some u
        → Widens t u
    go true true e =
        Widens-of_some t (record t { size_of_unsigned_int = 8 * n })
          (record {
            infos_eq = refl;
            name_le = omega arith;
            type_le = omega arith;
            value_le = omega arith;
          })
          e
    go true false e = cc
    go false b e = Widens-of_some t t (Widens-refl t) e

-- An entry is appended behind a step that widened the table for its value.
Covers-entry :
    (t u : Table) (info : AsmInfo)
    → Covers t
    → Widens t u
    → (info.kind ≡ sub) ⊎ (length (name_of info) ≤ t.max_name_len)
    → length info.constant_type ≤ t.max_type_len
    → Covers (append_info info (see_value info.value_len info.comment u))
Covers-entry t u info h w name ty =
    let (v, value) = see_value-Widens info.value_len info.comment u in
    let after = Widens-trans w v in
    Covers-append_info (see_value info.value_len info.comment u) info (Covers-Widens after h)
      (record {
        name_fits = elim name [ inl s ↦ inl s | inr l ↦ inr (omega (arith, after.name_le)) ];
        type_fits = omega (arith, after.type_le);
        value_fits = value;
      })

parse_number-Covers :
    (kind : Kind) (line : ℕ) (name rest : Text) (t : Table)
    → Covers t
    → length name ≤ t.max_name_len
    → Covers (parse_number kind line name rest t)
unfolding parse_number
parse_number-Covers kind line name rest t h l =
    go (parse_int kind t.size_of_unsigned_int (cut b':' rest).0)
  where
    entry : IntValue → AsmInfo
    entry v = record {
      kind = kind;
      line_number = line;
      constant_name = some name;
      constant_type = [];
      value_len = image_length v;
      text_value = [];
      int_value = some v;
      comment = (cut b':' rest).1;
    }

    sized :
        (v : IntValue) (o : Option Table)
        → see_size name v.abs_value t ≡ o
        → Covers (elim o [
          | none ↦ t
          | some u ↦ append_info (entry v) (see_value (image_length v) (cut b':' rest).1 u)
        ])
    sized v none e = h
    sized v (some u) e =
        Covers-entry t u (entry v) h (see_size-Widens name v.abs_value t e) (inr l) (omega arith)

    go :
        (o : Option IntValue)
        → Covers (elim o [
          | none ↦ t
          | some v ↦ elim (see_size name v.abs_value t) [
            | none ↦ t
            | some u ↦ append_info (entry v) (see_value (image_length v) (cut b':' rest).1 u)
          ]
        ])
    go none = h
    go (some v) = sized v (see_size name v.abs_value t) refl

parse_text-Covers :
    (kind : Kind) (line : ℕ) (name ty rest : Text) (t : Table)
    → Covers t
    → (kind ≡ sub) ⊎ (length name ≤ t.max_name_len)
    → length ty ≤ t.max_type_len
    → Covers (parse_text kind line name ty rest t)
unfolding parse_text
parse_text-Covers kind line name ty rest t h l m = go (see_size name 0 t) refl
  where
    entry : AsmInfo
    entry = record {
      kind = kind;
      line_number = line;
      constant_name = some name;
      constant_type = ty;
      value_len = length (cut b':' rest).0;
      text_value = (cut b':' rest).0;
      int_value = none;
      comment = (cut b':' rest).1;
    }

    go :
        (o : Option Table)
        → see_size name 0 t ≡ o
        → Covers (elim o [
          | none ↦ t
          | some u ↦ append_info entry (see_value (length (cut b':' rest).0) (cut b':' rest).1 u)
        ])
    go none e = h
    go (some u) e = Covers-entry t u entry h (see_size-Widens name 0 t e) l m

numbered-Covers :
    (kind : Kind) (line : ℕ) (name rest : Text) (t : Table)
    → Covers t
    → Covers (parse_number kind line name rest (see_name name t))
numbered-Covers kind line name rest t h =
    let (w, l) = see_name-Widens name t in
    parse_number-Covers kind line name rest (see_name name t) (Covers-Widens w h) l

parse_fields-Covers :
    (kind : Kind) (line : ℕ) (rest : Text) (t : Table)
    → Covers t
    → Covers (parse_fields kind line rest t)
unfolding parse_fields
parse_fields-Covers cnd line rest t h =
    numbered-Covers cnd line (cut b':' rest).0 (cut b':' rest).1 t h
parse_fields-Covers cnu line rest t h =
    numbered-Covers cnu line (cut b':' rest).0 (cut b':' rest).1 t h
parse_fields-Covers cns line rest t h =
    let name = (cut b':' rest).0 in
    let (w, l) = see_name-Widens name t in
    parse_text-Covers cns line name [] (cut b':' rest).1 (see_name name t) (Covers-Widens w h)
      (inr l) (omega arith)
parse_fields-Covers sub line rest t h =
    parse_text-Covers sub line (cut b':' rest).0 [] (cut b':' rest).1 t h (inl refl) (omega arith)
parse_fields-Covers c line rest t h =
    let name = (cut b':' rest).0 in
    let ty = (cut b':' (cut b':' rest).1).0 in
    let (w, l) = see_name-Widens name t in
    let (x, m) = see_type-Widens ty (see_name name t) in
    parse_text-Covers c line name ty (cut b':' (cut b':' rest).1).1 (see_type ty (see_name name t))
      (Covers-Widens (Widens-trans w x) h) (inr (omega (arith, x.name_le))) m
parse_fields-Covers txt line rest t h = Covers-append_info t _ h (record {
  name_fits = inr (omega arith);
  type_fits = omega arith;
  value_fits = inr (omega arith);
})

parse_asm_line-Covers : (line : Text) (t : Table) → Covers t → Covers (parse_asm_line line t)
unfolding parse_asm_line
parse_asm_line-Covers line t h = with_kind (kind_value (cut_first line).0)
  where
    rest : Text
    rest = (cut_first line).1

    with_number :
        (kind : Kind) (o : Option ℕ)
        → Covers (elim o [ none ↦ t | some n ↦ parse_fields kind n (cut b':' rest).1 t ])
    with_number kind none = h
    with_number kind (some n) = parse_fields-Covers kind n (cut b':' rest).1 t h

    with_kind :
        (o : Option Kind)
        → Covers (elim o [
          | none ↦ t
          | some kind ↦
              elim (parse_int cnu t.size_of_unsigned_int (cut b':' rest).0 >>= λ v.
              to_integer v.abs_value) [
                | none ↦ t
                | some n ↦ parse_fields kind n (cut b':' rest).1 t
              ]
        ])
    with_kind none = h
    with_kind (some kind) =
        with_number kind
          (parse_int cnu t.size_of_unsigned_int (cut b':' rest).0 >>= λ v. to_integer v.abs_value)

parse_line-Covers : (line : Text) (t : Table) → Covers t → Covers (parse_line line t)
unfolding parse_line
parse_line-Covers (a ∷ b ∷ d ∷ s) t h = marked (a == b'-' && b == b'>')
  where
    marked : (m : Bool) → Covers (if m then parse_asm_line (d ∷ s) t else t)
    marked true = parse_asm_line-Covers (d ∷ s) t h
    marked false = h
parse_line-Covers [] t h = h
parse_line-Covers (_ ∷ []) t h = h
parse_line-Covers (_ ∷ _ ∷ []) t h = h

pub load-Covers : (ls : List Text) (t : Table) → Covers t → Covers (load ls t)
unfolding load
load-Covers [] t h = h
load-Covers (l ∷ ls) t h = load-Covers ls (parse_line l t) (parse_line-Covers l t h)
