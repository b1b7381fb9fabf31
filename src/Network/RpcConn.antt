-- ===== src/Network/RpcConn.antt =====
-- network/rpc/rpc_conn.cc: the calls of a connection, as steps of the callers and of the thread that
-- runs on_read. A function kept for a reply is the id of its call; sending the request and the
-- argument of the callback are left out. Fewer than 2 ^ 64 calls are made.
pub mod Once
pub mod Race
use alphadb.Prelude.{
  ℕ, zero, suc, ◌+◌, ◌^◌, ◌<◌, ◌≡◌, List, [], ◌∷◌, Option, none, some, ltb, if◌then◌else◌, count,
  erase,
}

pub record RpcConn : Type 0 where
  -- rpc_id_ and the keys of futures_
  pub rpc_id : ℕ
  pub futures : List ℕ
  -- the calls that have sent their request and have not yet inserted their function
  pub sent : List ℕ
  -- what on_read has found and not yet taken
  pub found : Option ℕ
  -- the calls whose functions were run
  pub ran : List ℕ

unfoldable pub new : RpcConn
new = record { rpc_id = 0; futures = []; sent = []; found = none; ran = [] }

-- rpc_conn::call up to send_output, and the insertion
unfoldable pub start_call : RpcConn → RpcConn
start_call c = record c { rpc_id = c.rpc_id + 1; sent = c.rpc_id ∷ c.sent }

unfoldable pub insert_future : ℕ → RpcConn → RpcConn
insert_future id c = record c {
  futures = (if ltb 0 (count id c.futures) then c.futures else id ∷ c.futures);
  sent = erase id c.sent;
}

-- futures_.find(rpcid) in on_read
unfoldable pub find_future : ℕ → RpcConn → RpcConn
find_future id c = record c { found = (if ltb 0 (count id c.futures) then some id else none) }

-- What on_read does with the iterator: it is invalid if the entry is gone, and erasing through it is
-- undefined.
unfoldable pub run_future : ℕ → RpcConn → Option RpcConn
run_future id c =
    if ltb 0 (count id c.futures)
    then some (record c { futures = erase id c.futures; found = none; ran = id ∷ c.ran })
    else none

-- rpc_conn::cancel
unfoldable pub cancel : ℕ → RpcConn → RpcConn
cancel id c = record c { futures = erase id c.futures }

-- One step of some thread; a reply may bear any id.
pub data Step (c : RpcConn) : RpcConn → Type 0 where
  starts : (d : RpcConn) → c.rpc_id + 1 < 2 ^ 64 → d ≡ start_call c → Step c d
  inserts : (id : ℕ) (d : RpcConn) → 0 < count id c.sent → d ≡ insert_future id c → Step c d
  finds : (id : ℕ) (d : RpcConn) → c.found ≡ none → d ≡ find_future id c → Step c d
  runs : (id : ℕ) (d : RpcConn) → c.found ≡ some id → run_future id c ≡ some d → Step c d
  cancels : (id : ℕ) (d : RpcConn) → d ≡ cancel id c → Step c d

pub data Steps : RpcConn → RpcConn → Type 0 where
  here : (c : RpcConn) → Steps c c
  onward : (c d e : RpcConn) → Steps c d → Step d e → Steps c e
