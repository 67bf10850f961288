-- ===== src/Protocol/Input/Requests.antt =====
-- Requests in a buffer, as `processMultibulkBuffer` (src/vr_client.c) reads them, and their lengths.
use myownproject.Base.{
  is_empty, suc, ◌*◌, ◌≤◌, ◌≡◌, refl, false, List, [], ◌∷◌, ◌++◌, arith, length, get_or,
  length-append,
}
use myownproject.Util.Decimal.{decimal}
use myownproject.Protocol.State.{Bytes}
use myownproject.Protocol.Multibulk.RoundTrip.{encode, encode_arguments, encode_argument, AreLegal}

-- Requests that follow one another.
unfoldable pub encode_all : List (List Bytes) → Bytes
encode_all [] = []
encode_all (r ∷ rs) = encode r (encode_all rs)

-- A request that is not empty and within the limits of the protocol.
abbrev pub IsRequest : List Bytes → Type 0
IsRequest args = (is_empty args ≡ false) × (length args ≤ 1024 * 1024) × AreLegal args

abbrev pub AreRequests : List (List Bytes) → Type 0
AreRequests [] = Unit {0}
AreRequests (r ∷ rs) = IsRequest r × AreRequests rs

-- A request starts with the mark of its type.
pub encode-first :
    (args : List Bytes) (rest : Bytes)
    → (get_or (encode args rest) 0 0 ≡ b'*') × (is_empty (encode args rest) ≡ false)
unfolding encode
encode-first args rest = (refl, refl)

length-encode_argument : (a rest : Bytes) → length rest ≤ length (encode_argument a rest)
unfolding encode_argument
length-encode_argument a rest = omega (
  arith,
  length-append (decimal (length a)) (b'\r' ∷ b'\n' ∷ (a ++ (b'\r' ∷ b'\n' ∷ rest))),
  length-append a (b'\r' ∷ b'\n' ∷ rest),
)

length-encode_arguments :
    (args : List Bytes) (rest : Bytes) → length rest ≤ length (encode_arguments args rest)
unfolding encode_arguments
length-encode_arguments [] rest = omega arith
length-encode_arguments (a ∷ args) rest = omega (
  arith,
  length-encode_arguments args rest,
  length-encode_argument a (encode_arguments args rest),
)

pub length-encode :
    (args : List Bytes) (rest : Bytes) → suc (length rest) ≤ length (encode args rest)
unfolding encode
length-encode args rest = omega (
  arith,
  length-encode_arguments args rest,
  length-append (decimal (length args)) (b'\r' ∷ b'\n' ∷ encode_arguments args rest),
)

pub length-encode_all : (rs : List (List Bytes)) → length rs ≤ length (encode_all rs)
unfolding encode_all
length-encode_all [] = omega arith
length-encode_all (r ∷ rs) = omega (arith, length-encode r (encode_all rs), length-encode_all rs)
