-- ===== src/Network/RpcServer.antt =====
-- network/rpc/rpc.cc and rpc_server.cc: the hash of the name of a service, the services of a server,
-- and what is done with a request. A service is a value of any type; running it is left out.
pub mod Hash
use Prim.Native.Nat.{bit_xor}
use alphadb.Prelude.{
  ℕ, zero, suc, ◌+◌, ◌%◌, ◌^◌, Bool, true, false, List, [], ◌∷◌, Option, none, some, ◌==◌,
  if◌then◌else◌,
}
use alphadb.Prelude.Int.{ℤ, pos, int_eq}
use alphadb.Prelude.Memory.{signed}

-- The loop of rpc::hash, `fuel` tests of its condition at most and none where they are used up; `p++`
-- stands behind the loop.
unfoldable pub hash_loop : ℕ → ℕ → ℕ → Option ℕ
hash_loop zero p hashcode = none
hash_loop (suc fuel) p hashcode = elim p [
  | zero ↦ some hashcode
  | suc c ↦ hash_loop fuel (suc c) (bit_xor hashcode (suc c))
]

-- rpc::hash of a name, which ends with a zero; its chars are ASCII.
unfoldable pub hash : ℕ → List ℕ → Option ℕ
hash fuel [] = hash_loop fuel 0 0
hash fuel (c ∷ cs) = hash_loop fuel c 0

pub record RpcServer (S : Type 0) : Type 0 where
  pub services : List (ℤ × S)
  pub rpc_count : ℕ

module _ {S : Type 0} where
  unfoldable pub find : ℤ → List (ℤ × S) → Option S
  find key [] = none
  find key ((k, service) ∷ l) = if int_eq key k then some service else find key l

  -- The last two lines of rpc_server::Register.
  unfoldable pub add_service : ℤ → S → RpcServer S → RpcServer S
  add_service key service r = elim (find key r.services) [
    | some other ↦ r
    | none ↦ record r { services = (key, service) ∷ r.services }
  ]

  -- rpc_server::Register
  unfoldable pub register : ℕ → List ℕ → S → RpcServer S → Option (RpcServer S)
  register fuel name service r = elim (hash fuel name) [
    | none ↦ none
    | some hashcode ↦ some (add_service (pos hashcode) service r)
  ]

  -- What handle_accept makes of a request with an id, which becomes an int: the service that is run.
  unfoldable pub serve : ℕ → RpcServer S → Option S × RpcServer S
  serve id r = elim (find (signed (2 ^ 31) (id % 2 ^ 32)) r.services) [
    | none ↦ (none, r)
    | some service ↦ (some service, record r { rpc_count = r.rpc_count + 1 })
  ]
