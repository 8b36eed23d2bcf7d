-- ===== src/Gateway/Returned.antt =====
-- What a task of the effectful branch of `dispatch` (网关/bigqmt_gateway_proxy.py) has given back once
-- it is over.
use qmt_python_tcp.Prelude.{String, ◌≡◌, none, lookup}
use qmt_python_tcp.Gateway.Tasks.{System}
use qmt_python_tcp.Gateway.Returns.{Returns}

module _ {Reply : Type 0} where
  -- No pending response is reserved, and no turn is open.
  pub record IsReturned (s : System Reply) : Type 0 where
    pub no_reservations :
        (request : String) → lookup request s.runtime.pending_response_reservations ≡ none
    pub no_turns : s.open_turns ≡ 0
