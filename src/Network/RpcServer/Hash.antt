-- ===== src/Network/RpcServer/Hash.antt =====
-- The names for which the hash ends.
use Prim.Native.Nat.{bit_xor}
use alphadb.Prelude.{ℕ, zero, suc, ◌≡◌, refl, List, ◌∷◌, none}
use alphadb.Network.RpcServer.{hash_loop, hash, RpcServer, register}

hash_loop-endless : (fuel c hashcode : ℕ) → hash_loop fuel (suc c) hashcode ≡ none
unfolding hash_loop
hash_loop-endless zero c hashcode = refl
hash_loop-endless (suc fuel) c hashcode = hash_loop-endless fuel c (bit_xor hashcode (suc c))

-- Register of a service whose name is not empty is still computing the hash after any number of
-- rounds.
pub register-endless :
    {S : Type 0} (fuel c : ℕ) (cs : List ℕ) (service : S) (r : RpcServer S)
    → register fuel (suc c ∷ cs) service r ≡ none
unfolding register hash
register-endless fuel c cs service r = rw (register, hash, hash_loop-endless fuel c 0) refl
