-- ===== src/GSoap/Server.antt =====
-- demos/gSOAP: the `main` of c_server_doc.c and c_server_rpc.c, which is the same, and the `main` of
-- c_client_doc.c and c_client_rpc.c. The runtime of gSOAP is a parameter.
use aws.Base.{
  ℕ, zero, suc, ◌+◌, ◌*◌, ◌/◌, ◌%◌, ◌<◌, ◌≡◌, ℤ, pos, negsuc, Option, none, some, List, [], ◌∷◌,
  ◌++◌, length, int_eq, if◌then◌else◌, arith,
}
use aws.GSoap.Memory.{Bytes, codes}

-- What the programs call. `ip` is the field that `soap_accept` sets; SOAP_OK is 0.
pub record Runtime : Type 1 where
  pub World : Type 0
  pub soap_init : World → World
  pub soap_bind : World → ℤ × World
  pub soap_accept : World → ℤ × World
  pub ip : World → ℕ
  pub soap_serve : World → ℤ × World
  pub soap_destroy : World → World
  pub soap_end : World → World
  pub soap_done : World → World

-- The four numbers of an address.
pub record Octets : Type 0 where
  pub first : ℕ
  pub second : ℕ
  pub third : ℕ
  pub fourth : ℕ

-- `(soap.ip >> 24)&0xFF` and so on.
unfoldable pub octets : ℕ → Octets
octets ip = record {
  first = ip / 16777216 % 256;
  second = ip / 65536 % 256;
  third = ip / 256 % 256;
  fourth = ip % 256;
}

-- What is printed, in order: the lines to stderr, and a fault by `soap_print_fault`.
pub data Line : Type 0 where
  bound : ℤ → Line
  accepted : ℕ → Octets → ℤ → Line
  served : Line
  fault : Line

-- A connection: its socket, the address it comes from, and the code of `soap_serve`.
pub record Visit : Type 0 where
  pub socket : ℕ
  pub address : ℕ
  pub code : ℤ

-- What the connections leave in the log, numbered from a number on.
pub log : ℕ → List Visit → List Line
log i [] = fault ∷ []
log i (v ∷ vs) =
    (accepted i (octets v.address) (pos v.socket)
      ∷ (if int_eq v.code (pos 0) then served ∷ [] else fault ∷ served ∷ []))
    ++ log (i + 1) vs

module _ (runtime : Runtime) where
  open runtime use {
    World, ip, soap_init, soap_bind, soap_accept, soap_serve, soap_destroy, soap_end, soap_done,
  }

  -- The body of the loop once a connection is accepted: what it prints, and the state afterwards.
  unfoldable pub serve_one : ℕ → ℤ → World → List Line × World
  serve_one i s w =
      let (code, w2) = soap_serve w in
      (
        accepted i (octets (ip w)) s
            ∷ (if int_eq code (pos 0) then served ∷ [] else fault ∷ served ∷ []),
        soap_end (soap_destroy w2),
      )

  -- A round of the loop, from what `soap_accept` returns, and the rounds after it.
  unfoldable pub serve_round :
      ℕ → (World → Option (List Line × World)) → ℤ × World → Option (List Line × World)
  unfolding serve_one
  serve_round i next (negsuc s, w) = some (fault ∷ [], w)
  serve_round i next (pos s, w) =
      let (lines, w2) = serve_one i (pos s) w in
      elim (next w2) [ none ↦ none | some r ↦ some (lines ++ r.0, r.1) ]

  -- `for (i = 1; ; i++)`, on fuel: `none` while it has not ended within that many rounds.
  unfoldable pub serve_loop : ℕ → ℕ → World → Option (List Line × World)
  unfolding serve_round
  serve_loop zero i w = none
  serve_loop (suc n) i w = serve_round i (serve_loop n (i + 1)) (soap_accept w)

  -- `main`
  unfoldable pub server_main : ℕ → World → Option (List Line × World)
  unfolding serve_loop
  server_main rounds w =
      let (master, w1) = soap_bind (soap_init w) in
      elim master [
        | negsuc m ↦ some (fault ∷ [], soap_done w1)
        | pos m ↦ elim (serve_loop rounds 1 w1) [
          | none ↦ none
          | some r ↦ some (bound (pos m) ∷ r.0, soap_done r.1)
        ]
      ]

  -- The connections that the runtime delivers from a state on, until an accept fails.
  pub data Visits : World → List Visit → World → Type 0 where
    refused : {w w1 : World} {n : ℕ} → soap_accept w ≡ (negsuc n, w1) → Visits w [] w1
    visit :
        {w w1 w2 w3 : World} {s : ℕ} {code : ℤ} {vs : List Visit}
        → soap_accept w ≡ (pos s, w1)
        → soap_serve w1 ≡ (code, w2)
        → Visits (soap_end (soap_destroy w2)) vs w3
        → Visits w (record { socket = s; address = ip w1; code = code } ∷ vs) w3

  serve_loop-log :
      (rounds i : ℕ) {w w2 : World} {vs : List Visit}
      → Visits w vs w2
      → length vs < rounds
      → serve_loop rounds i w ≡ some (log i vs, w2)
  unfolding serve_loop log
  serve_loop-log zero i vs h = absurd (omega arith)
  serve_loop-log (suc n) i (refused e) h = rw (e, serve_round)
  serve_loop-log (suc n) i (visit accept serve rest) h =
      rw (accept, serve_round, serve, serve_loop-log n (i + 1) rest (omega arith), serve_one, serve)

-- The four numbers hold an address of 32 bits.
pub address_of : Octets → ℕ
address_of o = ((o.first * 256 + o.second) * 256 + o.third) * 256 + o.fourth

-- The four numbers that the server prints for an address of 32 bits make the address again.
pub octets_lem : (a : ℕ) → a < 4294967296 → address_of (octets a) ≡ a
unfolding octets address_of
octets_lem a h = omega arith

-- If the socket is bound, and the connections that arrive until an accept fails are `vs`, then the
-- server ends, given rounds for one accept more than there are connections: its log is the line for
-- the master socket, then for each connection a line with its number from 1, its address and its
-- socket, a fault if it was not served well, and `request served`, and a fault at the end. Then
-- the runtime is released.
pub server_main_lem :
    (runtime : Runtime) {w w1 w2 : runtime.World} {vs : List Visit} {m : ℕ} (rounds : ℕ)
    → runtime.soap_bind (runtime.soap_init w) ≡ (pos m, w1)
    → Visits runtime w1 vs w2
    → length vs < rounds
    → server_main runtime rounds w ≡ some (bound (pos m) ∷ log 1 vs, runtime.soap_done w2)
unfolding server_main
server_main_lem runtime rounds e visits h =
    rw (server_main, e, e, serve_loop-log runtime rounds 1 visits h)

-- What a client prints, from the code of the stub and the greeting that it delivers.
unfoldable pub client_text : ℤ × Bytes → Bytes
client_text (code, greeting) =
    if int_eq code (pos 0) then greeting ++ (10 ∷ []) else codes "Error calling ns1__sayHello\n"

-- `main` of a client, with the call of the stub.
unfoldable pub client_main :
    (runtime : Runtime)
    → (runtime.World → (ℤ × Bytes) × runtime.World)
    → runtime.World
    → Bytes × runtime.World
unfolding client_text
client_main runtime call w =
    let (answer, w1) = call (runtime.soap_init w) in (client_text answer, runtime.soap_done w1)
