-- ===== src/Client/Settings.antt =====
-- `ConnectionConfig.validate` (外置策略API/qmt_local_api/config.py). `ipaddress.ip_address` is a
-- parameter.
use qmt_python_tcp.Prelude.{
  ℕ, zero, suc, String, Bool, true, false, Option, none, some, [], ◌∷◌, not, ◌&&◌, ◌||◌, ◌=t=◌,
  is_empty, strip, if◌then◌else◌, ltb, leb, ◌==◌, Result, value_error, ok, err, is_one_of,
  count_chars, all_chars,
}
use Prim.Native.Char.{Char, code}

-- `ipaddress.ip_address(text)`, where it is not refused
pub record Address : Type 0 where
  pub version : ℕ
  pub is_loopback : Bool

-- A float: no finite positive number, or so many of a unit.
pub data Seconds : Type 0 where
  no_seconds : Seconds
  seconds : (amount : ℕ) → Seconds

pub record ConnectionConfig : Type 0 where
  pub account_name : String
  pub account_id : String
  pub account_type : String
  pub auth_token : String
  pub host : String
  pub local_host : String
  pub port : ℕ
  pub expected_gateway_build_id : String
  pub connect_timeout : Seconds
  pub recv_timeout : Seconds
  pub handshake_timeout : Seconds
  pub heartbeat_interval : Seconds
  pub heartbeat_timeout : Seconds
  pub max_frame_bytes : ℕ

-- EXPECTED_GATEWAY_BUILD_ID, MAX_FRAME_BYTES
abbrev pub gateway_build_id : String
gateway_build_id = "xuanling_local_qmt_gateway_20260718_low_latency_v7_post_enqueue_barrier"

abbrev pub max_frame_bytes : ℕ
max_frame_bytes = 10485760

-- `[0-9A-Fa-f]`
abbrev pub is_hex : Char → Bool
is_hex c =
    (leb 48 (code c) && leb (code c) 57)
    || (leb 65 (code c) && leb (code c) 70)
    || (leb 97 (code c) && leb (code c) 102)

-- AUTH_TOKEN_PATTERN.fullmatch
abbrev pub is_token : String → Bool
is_token value = (count_chars value == 64) && all_chars is_hex value

-- `not math.isfinite(float(value)) or float(value) <= 0`
abbrev pub is_positive : Seconds → Bool
is_positive no_seconds = false
is_positive (seconds zero) = false
is_positive (seconds (suc amount)) = true

abbrev pub exceeds : Seconds → Seconds → Bool
exceeds (seconds a) (seconds b) = ltb b a
exceeds _ _ = false

-- `if condition: raise ValueError(...)`, and what follows
unfoldable pub refuse_if : Bool → Result (Unit {0}) → Result (Unit {0})
refuse_if condition rest = if condition then err value_error else rest

module _ (ip_address : String → Option Address) where
  abbrev pub is_local : String → Bool
  is_local host = elim (ip_address host) [
    | none ↦ false
    | some address ↦ (address.version == 4) && address.is_loopback
  ]

  unfoldable pub validate : ConnectionConfig → Result (Unit {0})
  unfolding refuse_if
  validate c = refuse_if (not (is_token c.auth_token)) (
      refuse_if (not (is_local c.host)) (
        refuse_if (not (is_empty c.local_host) && not (is_local c.local_host)) (
          refuse_if (not (leb 1 c.port && leb c.port 65535)) (
            refuse_if (is_empty (strip c.account_name)) (
              refuse_if (is_empty (strip c.account_id)) (
                refuse_if (not (is_one_of c.account_type ("STOCK" ∷ "CREDIT" ∷ []))) (
                  refuse_if (is_empty (strip c.expected_gateway_build_id)) (
                    refuse_if (not (c.expected_gateway_build_id =t= gateway_build_id)) (
                      refuse_if (not (c.max_frame_bytes == max_frame_bytes)) (
                        refuse_if (not (is_positive c.connect_timeout)) (
                          refuse_if (not (is_positive c.recv_timeout)) (
                            refuse_if (not (is_positive c.handshake_timeout)) (
                              refuse_if (not (is_positive c.heartbeat_interval)) (
                                refuse_if (not (is_positive c.heartbeat_timeout)) (
                                  refuse_if (not (exceeds c.heartbeat_timeout c.heartbeat_interval))
                                    (ok tt))))))))))))))))
