-- ===== src/Proxy/Tests.antt =====
-- The PROXY header with a C library that reads one-character hosts and ports.
use mtbolt.Common.{ℕ, ◌-◌, ◌≡◌, refl, arith, Option, none, some, [], ◌∷◌, ◌++◌, Bytes, eq_bytes}
use mtbolt.Common.Int.{ℤ, pos}
use mtbolt.Common.Text.{codes}
use mtbolt.Proxy.{
  inet, Source, no_source, header, source_addr, choose, parse_v2, as_port, proxy_protocol_parse,
}
use mtbolt.Proxy.Stream.{Decided, proxy_protocol_parse-Decided}
use mtbolt.Proxy.RoundTrip.{tag, fields, proxy_protocol_parse-header}

abbrev pton4 : Bytes → Option ℕ
pton4 (c ∷ []) = some c
pton4 _ = none

abbrev pton6 : Bytes → Option Bytes
pton6 s = none

abbrev number : Bytes → ℤ
number [] = pos 0
number (c ∷ cs) = pos (c - 48)

-- LOCAL: 16 bytes, no addresses
abbrev local_header : Bytes
local_header =
    0x0d ∷ 0x0a ∷ 0x0d ∷ 0x0a ∷ 0x00 ∷ 0x0d ∷ 0x0a ∷ 0x51 ∷ 0x55 ∷ 0x49 ∷ 0x54 ∷ 0x0a ∷ 0x20 ∷ 0 ∷ 0
    ∷ 0 ∷ []

local_parse : proxy_protocol_parse pton4 pton6 number local_header ≡ header 16 no_source
unfolding proxy_protocol_parse choose parse_v2 eq_bytes
local_parse = refl

proxy_protocol_parse-Decided_example :
    Decided local_header
      (proxy_protocol_parse pton4 pton6 number local_header)
      (proxy_protocol_parse pton4 pton6 number (local_header ++ (1 ∷ 2 ∷ [])))
proxy_protocol_parse-Decided_example =
    proxy_protocol_parse-Decided pton4 pton6 number local_header (1 ∷ 2 ∷ [])

abbrev found : Source
found = record no_source { family = inet; src_ip = 52 }

addressed : source_addr pton4 pton6 number inet (52 ∷ []) ≡ some found
unfolding source_addr
addressed = refl

proxy_protocol_parse-header_example :
    proxy_protocol_parse pton4 pton6 number (
      codes "PROXY "
      ++ ((tag inet ++ fields (52 ∷ []) (53 ∷ []) (55 ∷ []) (56 ∷ [])) ++ (13 ∷ 10 ∷ 1 ∷ [])))
    ≡ header 20 (record found { src_port = as_port (pos 7) })
proxy_protocol_parse-header_example =
    proxy_protocol_parse-header pton4 pton6 number inet (52 ∷ []) (53 ∷ []) (55 ∷ []) (56 ∷ [])
      (1 ∷ []) found (ground arith) (ground arith) (ground arith) (ground arith) addressed
      (omega arith)
