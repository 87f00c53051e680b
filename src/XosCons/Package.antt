-- ===== src/XosCons/Package.antt =====
-- config/setup/xoscons.adb on config/setup/os_lib-tmplt.c: the package for a target.
use aws.Base.{
  ℕ, ◌<◌, ◌≡◌, ◌≢◌, refl, sym, subst, ap, ◌∙◌, Bool, some, List, [], ◌∷◌, map, Text, In, here,
  there, All, AllPairs, All-weaken, All-In, Sub, keep, skip, Sub-nil, arith,
}
use aws.OsLib.Macros.{Platform, Marker}
use aws.OsLib.Sites.Order.{IsBefore, compile-IsBefore}
use aws.OsLib.Sites.{site}
use aws.OsLib.Template.{compile}
use aws.XosCons.{empty_table}
use aws.XosCons.Emitted.{xoscons-files_of}
use aws.XosCons.Listing.{load}
use aws.XosCons.Numbers.{IsOperandPrefix}
use aws.XosCons.Parts.{Parts, lines_of, IsMarker, IsMore, IsParts, code_numbers, over, files_of}
use aws.XosCons.RoundTrip.{listing_line, info_of, IsPrintable, load-listing_line}
use aws.XosCons.Template.{xoscons}

abbrev pub line_of : Marker → ℕ
line_of m = (site m).0

line_numbers : (ms : List Marker) → map (λ i. i.line_number) (map info_of ms) ≡ map line_of ms
line_numbers [] = refl
line_numbers (Marker.cnd l n z k ∷ ms) = ap (λ r. l ∷ r) (line_numbers ms)
line_numbers (Marker.cns l n t k ∷ ms) = ap (λ r. l ∷ r) (line_numbers ms)
line_numbers (Marker.c l n ty t k ∷ ms) = ap (λ r. l ∷ r) (line_numbers ms)
line_numbers (Marker.txt l t ∷ ms) = ap (λ r. l ∷ r) (line_numbers ms)

-- Increasing numbers that all occur among increasing numbers are a part of them, in order.
In-tail : {y : ℕ} (x : ℕ) {ys : List ℕ} → y < x → In x (y ∷ ys) → In x ys
In-tail x h here = absurd (omega arith)
In-tail x h (there i) = i

In-tails :
    (y : ℕ) (ys xs : List ℕ)
    → All (λ x. y < x) xs
    → All (λ x. In x (y ∷ ys)) xs
    → All (λ x. In x ys) xs
In-tails y ys [] h k = tt
In-tails y ys (x ∷ xs) h k = (In-tail x h.0 k.0, In-tails y ys xs h.1 k.1)

All-lt : {x y : ℕ} (xs : List ℕ) → y < x → All (λ z. x < z) xs → All (λ z. y < z) xs
All-lt [] h k = tt
All-lt (z ∷ zs) h k = (omega (arith, k.0), All-lt zs h k.1)

increasing-Sub :
    (xs ys : List ℕ) → AllPairs ◌<◌ xs → AllPairs ◌<◌ ys → All (λ x. In x ys) xs → Sub xs ys
increasing-Sub [] ys hx hy h = Sub-nil ys
increasing-Sub (x ∷ xs) [] hx hy (i, h) = elim i [ ]
increasing-Sub (x ∷ xs) (_ ∷ ys) hx hy (here, h) =
    keep (increasing-Sub xs ys hx.1 hy.1 (In-tails x ys xs hx.0 h))
increasing-Sub (x ∷ xs) (y ∷ ys) hx hy (there i, h) =
    let less : y < x = All-In (λ z. y < z) hy.0 i in
    skip (increasing-Sub (x ∷ xs) ys hx hy.1 (i, In-tails y ys xs (All-lt xs less hx.0) h))

AllPairs-ne : (ys : List ℕ) → AllPairs ◌<◌ ys → AllPairs ◌≢◌ ys
AllPairs-ne [] h = tt
AllPairs-ne (y ∷ ys) h =
    (All-weaken (λ z. y < z) (λ z. y ≢ z) ys (λ z k. omega arith) h.0, AllPairs-ne ys h.1)

All-line_of :
    (P : ℕ → Type 0) (ms : List Marker) → All (λ m. P (line_of m)) ms → All P (map line_of ms)
All-line_of P [] h = tt
All-line_of P (m ∷ ms) h = (h.0, All-line_of P ms h.1)

lines-increasing :
    (ms : List Marker)
    → AllPairs (λ m n. IsBefore (site m) (site n)) ms
    → AllPairs ◌<◌ (map line_of ms)
lines-increasing [] h = tt
lines-increasing (m ∷ ms) h = (
  All-line_of (λ n. line_of m < n) ms
      (All-weaken (λ n. IsBefore (site m) (site n)) (λ n. line_of m < line_of n) ms (λ n k. k.0)
        h.0),
  lines-increasing ms h.1,
)

-- From the template to the package, on any target on which it compiles: the tool is run on the
-- compiler's listing of the template's markers, which are printable, and on any preprocessed text
-- that begins with a line marker of the template, is made of parts in order, with well nested
-- comments whose conditions have values, and whose code lines have increasing numbers as the tool
-- counts them, among them the line of each marker and not the one found behind the table's end.
-- Then it ends without an exception, and the package and the header have, in the order of the
-- template, the line of each marker's constant or text at its code line, unless /*NOGEN*/ stands
-- against it, and the comments as the conditions in them select.
pub xoscons-compile :
    (p : Platform) {prefix : Text} {out : List Marker} (tmpl_name : Text) (beyond : ℕ)
    (in_template : Bool) (buffer m : Text) (k : ℕ) (parts : Parts)
    → compile p ≡ some out
    → IsOperandPrefix prefix
    → All IsPrintable out
    → IsMarker tmpl_name m (some k)
    → IsMore parts
    → IsParts tmpl_name (load (map (listing_line prefix) out) empty_table) parts
    → AllPairs ◌<◌ (code_numbers k parts)
    → All (λ n. In (line_of n) (code_numbers k parts)) out
    → All (λ n. beyond ≢ n) (code_numbers k parts)
    → xoscons tmpl_name beyond in_template buffer
        (map (listing_line prefix) out)
        (m ∷ lines_of parts)
      ≡ some (
          files_of
            (load (map (listing_line prefix) out) empty_table)
            (map info_of out)
            k
            (over m buffer)
            parts)
xoscons-compile p {prefix} {out} tmpl_name beyond in_template buffer m k parts h pre hs marker more
      ok increasing among behind =
    let t = load (map (listing_line prefix) out) empty_table in
    let table : t.infos ≡ map info_of out = load-listing_line out pre hs in
    let lines : map (λ i. i.line_number) t.infos ≡ map line_of out =
      ap (map (λ i. i.line_number)) table ∙ line_numbers out in
    let part : Sub (map line_of out) (code_numbers k parts) =
      increasing-Sub (map line_of out) (code_numbers k parts)
        (lines-increasing out (compile-IsBefore p h)) increasing
        (All-line_of (λ n. In n (code_numbers k parts)) out among) in
    xoscons-files_of tmpl_name beyond in_template buffer (map (listing_line prefix) out) m k parts
      marker more ok behind (AllPairs-ne (code_numbers k parts) increasing)
      (subst (λ ns. Sub ns (code_numbers k parts)) (sym lines) part)
    ∙ ap (λ is. some (files_of t is k (over m buffer) parts)) table
