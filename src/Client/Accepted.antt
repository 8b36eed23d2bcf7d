-- ===== src/Client/Accepted.antt =====
-- Which configurations `ConnectionConfig.validate` (外置策略API/qmt_local_api/config.py) accepts.
use qmt_python_tcp.Prelude.{
  ℕ, zero, suc, ◌≤◌, ◌<◌, String, ◌≡◌, ◌≢◌, ◌↔◌, ◌⊎◌, inl, inr, refl, sym, ◌∙◌, Bool, true, false,
  Option, some, [], ◌∷◌, not, ◌&&◌, ◌=t=◌, is_empty, strip, leb, ◌==◌, Result, ok, is_one_of, arith,
  eq_iff, Bool-cases, Option-cases, ltb→lt, leb→le, lt→ltb, &&-true, count_chars, all_chars,
}
use qmt_python_tcp.Client.Settings.{
  Address, Seconds, no_seconds, seconds, ConnectionConfig, gateway_build_id, max_frame_bytes,
  is_hex, is_positive, exceeds, refuse_if, is_local, validate,
}

-- A float that is finite and positive.
abbrev pub IsPositive : Seconds → Type 0
IsPositive s = (n : ℕ) × (s ≡ seconds n) × (0 < n)

module _ (ip_address : String → Option Address) where
  abbrev pub IsLoopback : String → Type 0
  IsLoopback host =
      (address : Address) × (ip_address host ≡ some address)
      × (address.version ≡ 4)
      × (address.is_loopback ≡ true)

  -- What a configuration has to be.
  pub record IsAcceptable (c : ConnectionConfig) : Type 0 where
    pub token : (count_chars c.auth_token ≡ 64) × (all_chars is_hex c.auth_token ≡ true)
    pub bind : IsLoopback c.host
    pub source : (c.local_host ≡ "") ⊎ IsLoopback c.local_host
    pub in_range : (1 ≤ c.port) × (c.port ≤ 65535)
    pub has_name : strip c.account_name ≢ ""
    pub has_account : strip c.account_id ≢ ""
    pub kind : (c.account_type ≡ "STOCK") ⊎ (c.account_type ≡ "CREDIT")
    pub build : c.expected_gateway_build_id ≡ gateway_build_id
    pub frame : c.max_frame_bytes ≡ max_frame_bytes
    pub connect : IsPositive c.connect_timeout
    pub recv : IsPositive c.recv_timeout
    pub shake : IsPositive c.handshake_timeout
    pub heartbeat :
        (interval timeout : ℕ) × (c.heartbeat_interval ≡ seconds interval)
        × (c.heartbeat_timeout ≡ seconds timeout)
        × (0 < interval)
        × (interval < timeout)

  local-IsLoopback : (host : String) → is_local ip_address host ≡ true → IsLoopback host
  local-IsLoopback host e = elim (Option-cases (ip_address host)) [
    | inl refused ↦
        absurd (let bad : is_local ip_address host ≡ false = rw (is_local, refused) in cc)
    | inr (address, parsed) ↦
        let e' : ((address.version == 4) && address.is_loopback) ≡ true =
          sym (rw (is_local, parsed)) ∙ e in
        let (four, loops) = &&-true (address.version == 4) address.is_loopback e' in
        (address, parsed, ground (arith, four), loops)
  ]

  IsLoopback-local : (host : String) → IsLoopback host → is_local ip_address host ≡ true
  IsLoopback-local host (address, parsed, four, loops) = rw (is_local, parsed, four, loops)

passed :
    (condition : Bool) (rest : Result (Unit {0}))
    → refuse_if condition rest ≡ ok tt
    → (condition ≡ false) × (rest ≡ ok tt)
unfolding refuse_if
passed true rest e = absurd cc
passed false rest e = (refl, e)

passes :
    (condition : Bool) (rest : Result (Unit {0}))
    → condition ≡ false
    → rest ≡ ok tt
    → refuse_if condition rest ≡ ok tt
unfolding refuse_if
passes true rest e h = absurd cc
passes false rest e h = h

not-not : (b : Bool) → not b ≡ false → b ≡ true
not-not true e = refl
not-not false e = absurd cc

not_yes : (b : Bool) → b ≡ true → not b ≡ false
not_yes true e = refl
not_yes false e = absurd cc

nonempty : (s : String) → is_empty s ≡ false → s ≢ ""
nonempty s e same = (let bad = sym ((eq_iff s "").1 same) ∙ e in cc)

is_empty-false : (s : String) → s ≢ "" → is_empty s ≡ false
is_empty-false s h = elim (Bool-cases (is_empty s)) [
  | inl empty ↦ absurd (h ((eq_iff s "").0 empty))
  | inr other ↦ other
]

is_positive-IsPositive : (s : Seconds) → is_positive s ≡ true → IsPositive s
is_positive-IsPositive no_seconds e = absurd cc
is_positive-IsPositive (seconds zero) e = absurd cc
is_positive-IsPositive (seconds (suc n)) e = (suc n, refl, omega arith)

IsPositive-positive : (s : Seconds) → IsPositive s → is_positive s ≡ true
IsPositive-positive s (zero, e, h) = absurd (omega (arith, h))
IsPositive-positive s (suc n, e, h) = rw e

stock_or_credit :
    (t : String) → is_one_of t ("STOCK" ∷ "CREDIT" ∷ []) ≡ true → (t ≡ "STOCK") ⊎ (t ≡ "CREDIT")
stock_or_credit t e = elim (Bool-cases (t =t= "STOCK")) [
  | inl same ↦ inl ((eq_iff t "STOCK").0 same)
  | inr other ↦ inr ((eq_iff t "CREDIT").0 (ground (arith, e, other)))
]

is_stock_or_credit :
    (t : String) → (t ≡ "STOCK") ⊎ (t ≡ "CREDIT") → is_one_of t ("STOCK" ∷ "CREDIT" ∷ []) ≡ true
is_stock_or_credit t (inl e) = rw e
is_stock_or_credit t (inr e) = rw e

beats :
    (interval timeout : Seconds)
    → is_positive interval ≡ true
    → exceeds timeout interval ≡ true
    → (i t : ℕ) × (interval ≡ seconds i) × (timeout ≡ seconds t) × (0 < i) × (i < t)
beats no_seconds timeout e h = absurd cc
beats (seconds i) no_seconds e h = absurd cc
beats (seconds zero) (seconds t) e h = absurd cc
beats (seconds (suc i)) (seconds t) e h = (suc i, t, refl, refl, omega arith, ltb→lt (suc i) t h)

module _ (ip_address : String → Option Address) where
  accepted-IsAcceptable :
      (c : ConnectionConfig) → validate ip_address c ≡ ok tt → IsAcceptable ip_address c
  unfolding validate
  accepted-IsAcceptable c e =
      let (token, e1) = passed _ _ e in
      let (host, e2) = passed _ _ e1 in
      let (source, e3) = passed _ _ e2 in
      let (port, e4) = passed _ _ e3 in
      let (name, e5) = passed _ _ e4 in
      let (account, e6) = passed _ _ e5 in
      let (kind, e7) = passed _ _ e6 in
      let (build_there, e8) = passed _ _ e7 in
      let (build, e9) = passed _ _ e8 in
      let (frame, e10) = passed _ _ e9 in
      let (connect, e11) = passed _ _ e10 in
      let (recv, e12) = passed _ _ e11 in
      let (shake, e13) = passed _ _ e12 in
      let (interval, e14) = passed _ _ e13 in
      let (timeout, e15) = passed _ _ e14 in
      let (beat, e16) = passed _ _ e15 in
      let (many, hex) =
        &&-true (count_chars c.auth_token == 64) (all_chars is_hex c.auth_token)
          (not-not _ token) in
      let (low, high) = &&-true (leb 1 c.port) (leb c.port 65535) (not-not _ port) in
      record {
        token = (ground (arith, many), hex);
        bind = local-IsLoopback ip_address c.host (not-not _ host);
        source = elim (Bool-cases (is_empty c.local_host)) [
          | inl empty ↦ inl ((eq_iff c.local_host "").0 empty)
          | inr there ↦
              inr (local-IsLoopback ip_address c.local_host (ground (arith, source, there)))
        ];
        in_range = (leb→le 1 c.port low, leb→le c.port 65535 high);
        has_name = nonempty _ name;
        has_account = nonempty _ account;
        kind = stock_or_credit c.account_type (not-not _ kind);
        build = (eq_iff c.expected_gateway_build_id gateway_build_id).0 (not-not _ build);
        frame =
            (let same = not-not (c.max_frame_bytes == max_frame_bytes) frame in
              ground (arith, same));
        connect = is_positive-IsPositive c.connect_timeout (not-not _ connect);
        recv = is_positive-IsPositive c.recv_timeout (not-not _ recv);
        shake = is_positive-IsPositive c.handshake_timeout (not-not _ shake);
        heartbeat =
            beats c.heartbeat_interval c.heartbeat_timeout (not-not _ interval) (not-not _ beat);
      }

  IsAcceptable-accepted :
      (c : ConnectionConfig) → IsAcceptable ip_address c → validate ip_address c ≡ ok tt
  unfolding validate strip
  IsAcceptable-accepted c h =
      let (i, t, is_i, is_t, positive, less) = h.heartbeat in
      let timeout_positive : IsPositive c.heartbeat_timeout = (t, is_t, omega (arith, less)) in
      passes _ _ (not_yes _ (ground (arith, h.token))) (
        passes _ _ (not_yes _ (IsLoopback-local ip_address c.host h.bind)) (
          passes _ _
            (elim (h.source) [
              | inl empty ↦ rw empty
              | inr there ↦ rw (IsLoopback-local ip_address c.local_host there) (ground arith)
            ])
            (passes _ _ (not_yes _ (ground (arith, h.in_range))) (
              passes _ _ (is_empty-false _ h.has_name) (
                passes _ _ (is_empty-false _ h.has_account) (
                  passes _ _ (not_yes _ (is_stock_or_credit c.account_type h.kind)) (
                    passes _ _ (rw (h.build)) (
                      passes _ _
                        (not_yes _
                          ((eq_iff c.expected_gateway_build_id gateway_build_id).1 h.build))
                        (passes _ _ (not_yes _ (rw (h.frame))) (
                          passes _ _ (not_yes _ (IsPositive-positive _ h.connect)) (
                            passes _ _ (not_yes _ (IsPositive-positive _ h.recv)) (
                              passes _ _ (not_yes _ (IsPositive-positive _ h.shake)) (
                                passes _ _ (not_yes _ (IsPositive-positive _ (i, is_i, positive))) (
                                  passes _ _ (not_yes _ (IsPositive-positive _ timeout_positive)) (
                                    passes _ _ (not_yes _ (rw (is_t, is_i) (lt→ltb i t less)))
                                      refl)))))))))))))))

  -- A configuration is accepted exactly if it has a token of 64 hexadecimal digits, an IPv4 loopback
  -- address to connect to and another or none to connect from, a port, an account with a name, one of
  -- the two account types, the fixed build and frame size, and positive times of which the heartbeat's
  -- timeout is longer than its interval.
  pub validate-IsAcceptable :
      (c : ConnectionConfig) → (validate ip_address c ≡ ok tt) ↔ IsAcceptable ip_address c
  validate-IsAcceptable c = (accepted-IsAcceptable c, IsAcceptable-accepted c)
