-- ===== src/GSoap/Tests.antt =====
-- The demonstration of gSOAP, with a block of memory and with two connections.
use aws.Base.{
  ℕ, ◌+◌, ◌-◌, ◌≡◌, refl, pos, negsuc, some, none, List, [], ◌∷◌, ◌++◌, replicate, length, leb,
  if◌then◌else◌, arith,
}
use aws.GSoap.Greeting.{Malloc, say_hello_doc, say_hello_rpc, say_hello_doc_lem, say_hello_rpc_lem}
use aws.GSoap.Memory.{Bytes, codes, c_string}
use aws.GSoap.Server.{
  Runtime, Visit, visit, refused, bound, log, server_main, server_main_lem, octets, address_of,
  octets_lem,
}

abbrev block : Bytes
block = replicate 100 7

abbrev malloc : Malloc
malloc n = some (replicate n 7)

abbrev name : Bytes
name = codes "c_client"

say_hello_doc_lem_example :
    (out : Bytes) × (say_hello_doc malloc name ≡ (if leb (length name) 86 then some out else none))
    × (c_string out ≡ some (codes "gSOAP: Hello " ++ name))
    × (leb (length out) 100 ≡ leb (length name) 86)
say_hello_doc_lem_example = say_hello_doc_lem malloc name {block = block} refl refl (omega arith)

say_hello_rpc_lem_example :
    (out : Bytes) × (say_hello_rpc malloc name ≡ (if leb (length name) 93 then some out else none))
    × (c_string out ≡ some (codes "Hello " ++ name))
    × (leb (length out) 100 ≡ leb (length name) 93)
say_hello_rpc_lem_example = say_hello_rpc_lem malloc name {block = block} refl refl (omega arith)

-- A runtime whose state is the number of connections still to come.
abbrev two_visits : Runtime
two_visits = record {
  World = ℕ;
  soap_init = λ w. w;
  soap_bind = λ w. (pos 3, w);
  soap_accept = λ w. if leb 1 w then (pos 4, w) else (negsuc 0, w);
  ip = λ w. 2130706432 + w;
  soap_serve = λ w. (pos 0, w - 1);
  soap_destroy = λ w. w;
  soap_end = λ w. w;
  soap_done = λ w. w;
}

abbrev visits : List Visit
visits =
    record { socket = 4; address = 2130706434; code = pos 0 }
    ∷ record { socket = 4; address = 2130706433; code = pos 0 }
    ∷ []

server_main_lem_example : server_main two_visits 3 2 ≡ some (bound (pos 3) ∷ log 1 visits, 0)
server_main_lem_example =
    server_main_lem two_visits {w = 2} {w1 = 2} {w2 = 0} {vs = visits} {m = 3} 3 refl
      (visit refl refl (visit refl refl (refused refl))) (omega arith)

octets_lem_example : address_of (octets 2130706433) ≡ 2130706433
octets_lem_example = octets_lem 2130706433 (omega arith)
