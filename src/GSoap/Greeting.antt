-- ===== src/GSoap/Greeting.antt =====
-- demos/gSOAP/c_server_doc.c and c_server_rpc.c: the operation, which builds its answer in a block of
-- 100 bytes.
use aws.Base.{
  ℕ, zero, suc, ◌+◌, ◌-◌, ◌≤◌, ◌<◌, ◌≡◌, ◌≢◌, refl, sym, ap, ◌∙◌, append_assoc, Option, none, some,
  [], ◌∷◌, ◌++◌, All, length, drop, take, leb, if◌then◌else◌, ◌>>=◌, length-append, Bool-cases, inl,
  inr, subst, arith,
}
use aws.GSoap.Memory.{Bytes, codes, strlen, write_string, strcpy, strcat, c_string}
use native.Mathlib.Nat.{zero-add}

-- `malloc(100)`: none is the null pointer. Its use is undefined, as is a write behind the block.
abbrev pub Malloc : Type 0
Malloc = ℕ → Option Bytes

-- `__ns1__sayHello` of c_server_doc.c: the block in *greeting, where the behaviour is defined.
unfoldable pub say_hello_doc : Malloc → Bytes → Option Bytes
say_hello_doc malloc first_name = do
  greeting ← malloc 100
  greeting ← strcpy greeting (codes "gSOAP: Hello ")
  strcat greeting first_name

-- `ns1__sayHello` of c_server_rpc.c: the block in resp->greeting.
unfoldable pub say_hello_rpc : Malloc → Bytes → Option Bytes
say_hello_rpc malloc first_name = do
  greeting ← malloc 100
  greeting ← strcpy greeting (codes "Hello ")
  strcat greeting first_name

-- A string has no terminator inside.
abbrev pub IsString : Bytes → Type 0
IsString = All (λ b. b ≢ 0)

strlen-append : (s r : Bytes) → IsString s → strlen (s ++ (0 ∷ r)) ≡ some (length s)
unfolding strlen
strlen-append [] r h = refl
strlen-append (b ∷ bs) r h = ground (arith, strlen-append bs r h.1)

c_string-append : (s r : Bytes) → IsString s → c_string (s ++ (0 ∷ r)) ≡ some s
unfolding c_string
c_string-append [] r h = refl
c_string-append (b ∷ bs) r h = ground (arith, c_string-append bs r h.1)

take-append_self : (s r : Bytes) → take (length s) (s ++ r) ≡ s
take-append_self [] r = refl
take-append_self (b ∷ bs) r = ap (◌∷◌ b) (take-append_self bs r)

length-drop : (n : ℕ) (xs : Bytes) → length (drop n xs) ≡ length xs - n
length-drop zero xs = omega arith
length-drop (suc n) [] = omega arith
length-drop (suc n) (x ∷ xs) = omega (arith, length-drop n xs)

IsString-append : (s t : Bytes) → IsString s → IsString t → IsString (s ++ t)
IsString-append [] t hs ht = ht
IsString-append (b ∷ bs) t hs ht = (hs.0, IsString-append bs t hs.1 ht)

-- A copy that fits, and one that does not.
write_string-fits :
    (dst : Bytes) (at : ℕ) (src : Bytes)
    → at + length src + 1 ≤ length dst
    → write_string dst at src ≡ some (take at dst ++ (src ++ (0 ∷ drop (at + length src + 1) dst)))
unfolding write_string
write_string-fits dst at src h = ground arith

write_string_overflow :
    (dst : Bytes) (at : ℕ) (src : Bytes)
    → length dst < at + length src + 1
    → write_string dst at src ≡ none
unfolding write_string
write_string_overflow dst at src h = ground arith

greet : Bytes → Bytes → Bytes → Option Bytes
greet block prefix name = do greeting ← strcpy block prefix; strcat greeting name

module _ (block prefix name : Bytes) (prefix_string : IsString prefix) (name_string : IsString name)
    (prefix_fits : length prefix + 1 ≤ length block) where
  abbrev started : Bytes
  started = prefix ++ (0 ∷ drop (length prefix + 1) block)

  length-started : length started ≡ length block
  length-started = omega (
    arith,
    length-append {0} prefix (0 ∷ drop (length prefix + 1) block),
    length-drop (length prefix + 1) block,
  )

  greet-write_string : greet block prefix name ≡ write_string started (length prefix) name
  unfolding greet strcpy strcat
  greet-write_string =
      rw (write_string-fits block 0 prefix (omega arith), zero-add)
        (rw (strlen-append prefix (drop (length prefix + 1) block) prefix_string))

  greet-written :
      length prefix + length name + 1 ≤ length block
      → let rest = drop (length prefix + length name + 1) started in
        (greet block prefix name ≡ some (prefix ++ (name ++ (0 ∷ rest))))
        × (length rest + (length prefix + length name + 1) ≡ length block)
  greet-written h =
      let fits : length prefix + length name + 1 ≤ length started = omega (arith, length-started) in
      (
        greet-write_string
            ∙ write_string-fits started (length prefix) name fits
            ∙ rw (take-append_self prefix (0 ∷ drop (length prefix + 1) block)),
        omega (arith, length-started, length-drop (length prefix + length name + 1) started),
      )

  greet_fits :
      length prefix + length name + 1 ≤ length block
      → (out : Bytes) × (greet block prefix name ≡ some out)
        × (length out ≡ length block)
        × (c_string out ≡ some (prefix ++ name))
  greet_fits h =
      let rest = drop (length prefix + length name + 1) started in
      let (written, rest_length) = greet-written h in
      (
        prefix ++ (name ++ (0 ∷ rest)),
        written,
        omega (
          arith,
          length-append {0} prefix (name ++ (0 ∷ rest)),
          length-append {0} name (0 ∷ rest),
        ),
        ap c_string (sym (append_assoc prefix name (0 ∷ rest)))
            ∙ c_string-append (prefix ++ name) rest
                (IsString-append prefix name prefix_string name_string),
      )

  greet_overflow : length block < length prefix + length name + 1 → greet block prefix name ≡ none
  greet_overflow h =
      greet-write_string
      ∙ write_string_overflow started (length prefix) name (omega (arith, length-started))

  -- Both cases at once: the bytes written, and whether they fit.
  greet_lem :
      (room : ℕ)
      → length block ≡ length prefix + room + 1
      → (out : Bytes) × (greet block prefix name
          ≡ (if leb (length name) room then some out else none))
        × (c_string out ≡ some (prefix ++ name))
        × (leb (length out) (length block) ≡ leb (length name) room)
  greet_lem room size = elim (Bool-cases (leb (length name) room)) [
    | inl fits ↦
        let (out, written, out_length, holds) = greet_fits (ground arith) in
        (out, rw (fits, if◌then◌else◌) written, holds, ground arith)
    | inr long ↦ (
      prefix ++ (name ++ (0 ∷ [])),
      rw (long, if◌then◌else◌) (greet_overflow (ground arith)),
      ap c_string (sym (append_assoc prefix name (0 ∷ [])))
          ∙ c_string-append (prefix ++ name) []
              (IsString-append prefix name prefix_string name_string),
      ground (arith, length-append prefix (name ++ (0 ∷ [])), length-append name (0 ∷ [])),
    )
  ]

-- With a block of 100 bytes from malloc, the document style server answers a name of at most 86
-- bytes by a block that holds "gSOAP: Hello " and the name, within its 100 bytes; a longer name is
-- written behind the end of the block, which is undefined.
pub say_hello_doc_lem :
    (malloc : Malloc) (name : Bytes) {block : Bytes}
    → malloc 100 ≡ some block
    → length block ≡ 100
    → IsString name
    → (out : Bytes) × (say_hello_doc malloc name
        ≡ (if leb (length name) 86 then some out else none))
      × (c_string out ≡ some (codes "gSOAP: Hello " ++ name))
      × (leb (length out) 100 ≡ leb (length name) 86)
unfolding say_hello_doc
say_hello_doc_lem malloc name {block} got size h =
    let (out, result, holds, fits) =
      greet_lem block (codes "gSOAP: Hello ") name (omega arith) h (omega arith) 86 (omega arith) in
    (
      out,
      rw got (unfold greet in result),
      holds,
      subst (λ n. leb (length out) n ≡ leb (length name) 86) size fits,
    )

-- The same for the RPC style server, with "Hello " and at most 93 bytes.
pub say_hello_rpc_lem :
    (malloc : Malloc) (name : Bytes) {block : Bytes}
    → malloc 100 ≡ some block
    → length block ≡ 100
    → IsString name
    → (out : Bytes) × (say_hello_rpc malloc name
        ≡ (if leb (length name) 93 then some out else none))
      × (c_string out ≡ some (codes "Hello " ++ name))
      × (leb (length out) 100 ≡ leb (length name) 93)
unfolding say_hello_rpc
say_hello_rpc_lem malloc name {block} got size h =
    let (out, result, holds, fits) =
      greet_lem block (codes "Hello ") name (omega arith) h (omega arith) 93 (omega arith) in
    (
      out,
      rw got (unfold greet in result),
      holds,
      subst (λ n. leb (length out) n ≡ leb (length name) 93) size fits,
    )
