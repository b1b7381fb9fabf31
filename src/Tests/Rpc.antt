-- ===== src/Tests/Rpc.antt =====
-- A connection with a call that is answered, and one that sends over a socket that takes two bytes
-- at a time.
use alphadb.Prelude.{
  ℕ, ◌+◌, ◌≡◌, ◌≤◌, ◌<◌, refl, false, none, [], ◌∷◌, arith, count, erase, min, length,
}
use alphadb.Network.Buffer.{Buffer, size}
use alphadb.Network.Conn.{Socket, took, received, send}
use alphadb.Network.Conn.Send.{IsFlat, Sends, IsPatient, send-Sends}
use alphadb.Network.RpcConn.{
  RpcConn, new, start_call, insert_future, find_future, run_future, starts, inserts, finds, runs,
  Steps, here, onward,
}
use alphadb.Network.RpcConn.Once.{Steps-Once}

abbrev looked : RpcConn
looked = find_future 0 (insert_future 0 (start_call new))

abbrev answered : RpcConn
answered = record { rpc_id = 1; futures = []; sent = []; found = none; ran = 0 ∷ [] }

one_call : Steps new answered
unfolding new start_call insert_future find_future count run_future erase
one_call =
    onward new looked answered
      (onward new (insert_future 0 (start_call new)) looked
        (onward new (start_call new) (insert_future 0 (start_call new))
          (onward new new (start_call new) (here new) (starts (start_call new) (omega arith) refl))
          (inserts 0 (insert_future 0 (start_call new)) (omega arith) refl))
        (finds 0 looked refl refl))
      (runs 0 answered refl refl)

Steps-Once_example : (count 0 (0 ∷ []) ≤ 1) × (0 < count 0 (0 ∷ []) → (0 < 1) × (count 0 [] ≡ 0))
Steps-Once_example = Steps-Once answered one_call 0

-- A socket that takes two bytes at most, and one that has none to read.
abbrev narrow : Socket ℕ
narrow = record { write = λ l w. (took (min 2 (length l)), w); read = λ n w. (received [], w) }

narrow-IsPatient : IsPatient narrow (λ w. w)
narrow-IsPatient = record {
  within = λ l w n e. (ground arith, omega arith);
  patient = λ l w e. absurd (ground arith);
}

-- Three bytes in a buffer of eight.
abbrev waiting : Buffer
waiting = record { buf = λ i. 10 + i; full = false; head = 5; tail = 2; max_size = 8 }

waiting-IsFlat : IsFlat waiting
waiting-IsFlat = record {
  room = refl;
  ahead = omega arith;
  inside = omega arith;
  small = omega arith;
}

send-Sends_example : Sends waiting (send narrow 4 waiting 0)
unfolding size
send-Sends_example =
    send-Sends narrow (λ w. w) narrow-IsPatient 4 waiting 0 waiting-IsFlat (omega arith)
