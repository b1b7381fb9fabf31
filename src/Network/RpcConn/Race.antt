-- ===== src/Network/RpcConn/Race.antt =====
-- Replies that come too early, and cancellations that come too late.
use alphadb.Prelude.{ℕ, ◌≡◌, refl, none, ltb, false, arith, count, erase, count-erase}
use alphadb.Network.RpcConn.{RpcConn, start_call, find_future, run_future, cancel}
use alphadb.Network.RpcConn.Once.{IsOnce}

-- A reply that comes before its call has inserted its function is not found.
find_future-early : (c : RpcConn) → IsOnce c → (find_future c.rpc_id (start_call c)).found ≡ none
unfolding find_future start_call
find_future-early c v =
    let absent : ltb 0 (count c.rpc_id c.futures) ≡ false = ground (arith, v c.rpc_id) in
    rw absent refl

-- If a call is cancelled after on_read has found its function, on_read goes on with an iterator that
-- is no longer valid.
run_future-cancel : (id : ℕ) (c : RpcConn) → IsOnce c → run_future id (cancel id c) ≡ none
unfolding run_future cancel
run_future-cancel id c v =
    let absent : ltb 0 (count id (erase id c.futures)) ≡ false =
      ground (arith, v id, count-erase id id c.futures) in
    rw absent refl
