-- ===== src/Protocol.antt =====
-- inc/boost_web.h: support_protocol_t, a set of protocols as the bits of an unsigned char.
use Prim.Native.Nat.{bit_and, bit_or}
use boost_web.Common.{ℕ, Bool, not, ◌==◌}

abbrev pub protocol_http : ℕ
protocol_http = 0x01

abbrev pub protocol_https : ℕ
protocol_https = 0x02

abbrev pub protocol_httpss : ℕ
protocol_httpss = bit_or protocol_http protocol_https

abbrev pub protocol_ws : ℕ
protocol_ws = 0x04

abbrev pub protocol_wss : ℕ
protocol_wss = 0x08

abbrev pub protocol_wsss : ℕ
protocol_wsss = bit_or protocol_ws protocol_wss

abbrev pub protocol_plain : ℕ
protocol_plain = bit_or protocol_http protocol_ws

abbrev pub protocol_ssl : ℕ
protocol_ssl = bit_or protocol_https protocol_wss

abbrev pub protocol_all : ℕ
protocol_all = bit_or protocol_httpss protocol_wsss

-- `0x0 != (a & b)`
abbrev pub meets : ℕ → ℕ → Bool
meets a b = not (bit_and a b == 0)
