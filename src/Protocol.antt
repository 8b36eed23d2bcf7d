-- ===== src/Protocol.antt =====
-- Length-prefixed framing of JSON objects (外置策略API/qmt_local_api/protocol.py).
pub mod Frame
pub mod Header
pub mod Stream
pub mod Chunks
pub mod RoundTrip
