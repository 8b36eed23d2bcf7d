-- ===== src/Protocol/Header.antt =====
-- The four-byte header (外置策略API/qmt_local_api/protocol.py).
use qmt_python_tcp.Prelude.{ℕ, ◌<◌, ◌^◌, ◌/◌, ◌%◌, ◌≡◌, arith}
use qmt_python_tcp.Protocol.Frame.{unpack}

pub unpack-pack :
    (n : ℕ) → n < 2 ^ 32 → unpack (n / 16777216) (n / 65536 % 256) (n / 256 % 256) (n % 256) ≡ n
unfolding unpack
unpack-pack n h = omega arith
