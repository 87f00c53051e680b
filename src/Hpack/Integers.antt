-- ===== src/Hpack/Integers.antt =====
-- Integers on the wire: `Get_Integer` and `Send_Integer` of src/http2/aws-http2-hpack.adb. The bytes
-- that are not yet read are a list, and `B and Mask` is the remainder by `Mask + 1`.
pub mod RoundTrip
use Prim.Native.Nat.{bit_or}
use aws.Base.{ℕ, zero, suc, ◌+◌, ◌-◌, ◌*◌, ◌/◌, ◌%◌, ◌^◌, List, [], ◌∷◌, ltb, ◌==◌, if◌then◌else◌}
use aws.Hpack.Outcome.{Outcome, ok, err, stuck, ◌>>=◌, protocol_error, constraint_error}

-- The loop of `Get_Integer`; where the stream is at its end `Get_Byte_Safe` fails. `Unsigned_32` wraps.
unfoldable pub get_groups : ℕ → ℕ → List ℕ → Outcome (ℕ × List ℕ)
get_groups result k [] = err protocol_error
get_groups result k (byte ∷ rest) =
    let result' = (result + 2 ^ k % 2 ^ 32 * (byte % 128) % 2 ^ 32) % 2 ^ 32 in
    let more = get_groups result' (k + 7) rest in
    if byte / 128 % 2 == 0 then ok (result', rest) else more

-- `byte` is the variable `Byte`, which holds the first byte.
unfoldable pub get_integer : ℕ → ℕ → List ℕ → Outcome (ℕ × List ℕ)
unfolding get_groups
get_integer n byte rest =
    if byte % 2 ^ n == 2 ^ n - 1 then get_groups (byte % 2 ^ n) 0 rest else ok (byte % 2 ^ n, rest)

-- `while V >= Mod7 loop ... end loop; Append (Bit8 (V))`.
unfoldable pub send_groups : ℕ → ℕ → Outcome (List ℕ)
send_groups zero v = stuck
send_groups (suc fuel) v =
    if ltb v 128
    then ok (v ∷ [])
    else (send_groups fuel (v / 128) >>= λ groups. ok ((v % 128 + 128) ∷ groups))

-- Five rounds are enough for a `Positive`. The range check of `I` is the caller's.
unfoldable pub send_integer : ℕ → ℕ → ℕ → Outcome (List ℕ)
unfolding send_groups
send_integer i prefix n =
    if i == 0
    then err constraint_error
    else if ltb i (2 ^ n - 1)
    then ok (bit_or prefix i ∷ [])
    else (send_groups 5 (i - (2 ^ n - 1)) >>= λ groups. ok (bit_or prefix (2 ^ n - 1) ∷ groups))
