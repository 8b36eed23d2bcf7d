-- ===== src/Client/Connect.antt =====
-- `BridgeClient._connect_once` (外置策略API/qmt_local_api/client.py): the check of the gateway's
-- identity. What the transport's `connect` answers is an argument.
use qmt_python_tcp.Prelude.{
  ℕ, String, Bool, true, false, List, [], ◌∷◌, ◌++◌, not, ◌=t=◌, if◌then◌else◌, ◌==◌,
}
use qmt_python_tcp.Client.Delivery.{Handshake, Config, Client}
use Prim.Native.String.{◌++◌ as append_text}

-- PROTOCOL_VERSION
abbrev pub protocol_version : ℕ
protocol_version = 2

-- `",".join(fields)`
abbrev pub join_commas : List String → String
join_commas [] = ""
join_commas (x ∷ []) = x
join_commas (x ∷ y ∷ xs) = append_text x (append_text "," (join_commas (y ∷ xs)))

-- the fields that differ, in the code's order
unfoldable pub mismatches : Config → Handshake → List String
mismatches config handshake =
    (if handshake.protocol_version == protocol_version then [] else "protocol_version" ∷ [])
    ++ (if handshake.build_id =t= config.expected_gateway_build_id then [] else "build_id" ∷ [])
    ++ (if handshake.account_id =t= config.account_id then [] else "account_id" ∷ [])
    ++ (if handshake.account_name =t= config.account_name then [] else "account_name" ∷ [])

-- `_connect_once`, where the transport's `connect` answers `accepted` and leaves this handshake
unfoldable pub connect_once : Bool → Handshake → Client → Bool × Client
unfolding mismatches
connect_once accepted handshake c =
    let c' = record c { transport_connected = accepted; last_handshake_response = handshake } in
    if not accepted
    then (
      false,
      if handshake.code =t= "HANDSHAKE_REJECTED"
          then record c' {
            connected = false;
            identity_guard_reason = "handshake_rejected";
            identity_guard_failed = true;
          }
          else record c' { connected = false },
    )
    else (elim (mismatches c.config handshake) [
      | [] ↦ (true, record c' { connected = true })
      | fields ↦ (
        false,
        record c' {
          identity_guard_reason = join_commas fields;
          identity_guard_failed = true;
          transport_connected = false;
          connected = false;
        },
      )
    ])
