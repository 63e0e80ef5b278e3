-- ===== src/Examples/StompRuns.antt =====
-- Runs of the STOMP client.
use resilient_python_api.Prelude.{ℕ, suc, false, none, some, ◌≡◌, refl, [], arith}
use resilient_python_api.Stomp.{
  Connection, StompClient, connect_failed, exits, init, contains_lower,
}
use resilient_python_api.Stomp.Attempts.{attempts, attempts_end}

-- A server that refuses every connection, and counts the attempts.
abbrev refusing : Connection ℕ
refusing = record {
  is_connected = λ w. false;
  connect = λ w. (some (connect_failed "No more data"), suc w);
  disconnect = λ w. (none, w);
  subscribe = λ destination w. (none, w);
  unsubscribe = λ destination w. (none, w);
  ack = λ id w. (none, w);
  send = λ destination body w. (none, w);
}

abbrev limited : StompClient
limited = record {
  subscribed = [];
  stomp_connection_errors = 1;
  stomp_max_connection_errors = 2;
  announced = [];
}

attempts_end_example : (attempts refusing 2 (init 2 limited) 0).0 ≡ exits
unfolding contains_lower
attempts_end_example =
    attempts_end refusing 2 limited 0 (ground arith) (omega arith)
      (λ i h. ("No more data", refl, refl))
