-- ===== src/Lib.antt =====
-- MTBolt (Teleproxy), an MTProto proxy in C: a model of the parts that decide what a connection may
-- do, and what becomes of it.
--
-- A client connects with fake TLS or plain obfuscated2. The fake-TLS front (src/net/net-tls-parse.c,
-- called by src/net/net-tcp-rpc-ext-server.c) reads the ClientHello, and probes the domain that it
-- imitates by checking that domain's ServerHello. Behind it comes the 64-byte obfuscated2 header,
-- which is tried against the secrets of the proxy, and then frames (src/net/net-obfs2-parse.c; written
-- by src/net/net-tcp-rpc-common.c). The secret that matched is a slot of a table that SIGHUP reloads
-- and a sweeper drains (src/net/net-tcp-rpc-ext-drain.c, src/mtproto/mtproto-proxy.c). In direct mode
-- the data centre number of the header is looked up in a table with overrides
-- (src/mtproto/mtproto-dc-table.c). A client's address is first checked against an allow and a block
-- list (src/net/net-ip-acl.c).
--
-- Files and code:
--   Common    lists, tests and integers of C; `Common.Parse` is a run of a parser over a buffer, which
--             may read outside it, run out of fuel, refuse, or return; `Common.Suffix` follows a
--             parser over a buffer that is built from pieces.
--   Tls       src/net/net-tls-parse.c: `Tls.Hello` is tls_check_server_hello, `Tls.Sni` tls_parse_sni,
--             `Tls.Ciphers` tls_parse_client_hello_ciphers, `Tls.Mlkem` tls_client_hello_offers_mlkem,
--             `Tls.Read` tls_read_length.
--   Obfs2     `Obfs2.Header` is obfs2_parse_header, `Obfs2.Frame` obfs2_parse_frame_length and
--             tcp_rpc_write_packet_compact.
--   Secrets   `Secrets.Slot` is the slot table, `Secrets.Reload` tcp_rpcs_reload_ext_secrets pass by
--             pass, `Secrets.Drain` tcp_rpcs_drain_release_slot_if_empty,
--             tcp_rpcs_drain_force_close_for_slot and drain_sweep_gw.
--             `Secrets.Gate` is the check of a connection without TLS in tcp_rpcs_compact_parse_execute,
--             `Secrets.Track` the table of its addresses, `Secrets.Bloom` the filter of
--             src/net/net-tcp-rpc-ext-uniq-bloom.c, `Secrets.Rate` the token bucket of an address,
--             which its connections share, with rate_limit_after_relay and rate_limit_resume.
--   Dc        dc_table_init, direct_dc_lookup and direct_dc_override.
--   Acl       src/net/net-ip-acl.c: ip_acl_parse_cidr, the rule match, ip_acl_check_v4 and _v6.
--   Domains   wildcard_match and the end of tcp_rpc_add_proxy_domain of
--             src/net/net-tcp-rpc-ext-domain.c, with get_domain_info_bucket and get_domain_info of
--             src/net/net-tcp-rpc-ext-server.c.
--   Proxy     src/net/net-proxy-protocol.c: proxy_protocol_parse, both versions.
--   Http      src/net/net-http-parse.c: http_parse_data; a module per group of cases of its switch
--             (`Words`, `Lines`), the loop in `Parser`, what each case keeps in `Sound`.
--   TopIps    src/net/net-tcp-rpc-ext-top-ips.c: the traffic of each secret by address, and its snapshot.
--   Drs       src/net/net-tcp-drs.c: `encrypt_output_drs` is its writer of TLS records; `drs_alarm` and
--             `pump` are the alarm of a pause, in src/net/net-tcp-rpc-ext-server.c.
--   Treap     src/vv/vv-tree.c, the tree that src/net/net-conn-targets.c, src/net/net-rpc-targets.c and
--             src/engine/engine-rpc.c include: `Order` is what its operations keep, `Find` its
--             lookups, `Refine` that it is a sorted list.
--   Timers    src/net/net-timers.c: `Hole`, `Move` and `Sift` are about the two loops of
--             basic_et_adjust, `Change` about insertion and removal, `Run` about thread_run_timers.
--   Ja4       src/net/net-ja4.c: ja4_parse, ja4_compute in `Fingerprint`, the tables in `Table`;
--             `Sorting` is what is asked of qsort, and `Insertion` a sort that does it.
--   IpStats   src/mtproto/ip-stats.c: the hash table of addresses that the workers share, as steps of the
--             workers in any order.
-- Each has a module Tests with runs on concrete inputs.
--
-- Bounds and fuel: a byte is a number, a buffer the list of its bytes, and `len` what the caller
-- passes for its length. A read outside the buffer is the outcome `fault`. The loops of the TLS
-- parsers take fuel, `len + 1` rounds or the length of the hello plus one: a round moves at least
-- one byte forward, so it is enough, and the outcome of too little fuel is one that `Ensures`
-- leaves out. The extensions of JA4 take `len + 1` rounds. The HTTP parser's loop takes `12 * len +
-- 12` rounds: at most 12 cases of its switch follow one another before a byte is consumed. The
-- writer of records takes a round for a byte of its output. The loops of the timers' heap take a
-- round for a slot, and a run of the due timers more rounds than a rank that every callback lowers.
-- The other loops are structural. Machine words keep their width where a shift or a mask reads it
-- (the frame lengths, the data centre number of the header); positions of the TLS parsers stay far
-- below 2 ^ 31.
--
-- Parameters: qsort is a function that is asked to return the same strings in order; SHA-256 and
-- AES-256-CTR are functions (of a stream cipher is asked, where it matters, that it keeps the
-- length, works byte by byte from the key and the vector, and undoes itself); inet_pton, inet_addr,
-- atoi, strtol and isspace are functions of their arguments; a clock reading is a number that the
-- caller gives, and in `Drs` and `TopIps` a second is a number of its ticks (in `Secrets.Rate` a
-- million). `Drs` takes the random numbers, and the encryption of the first bytes of the output, as
-- functions. In `Timers` a callback is a function on the heap, and the clock stands still during a
-- run.
--
-- Not modelled: sockets, events, jobs and buffers (src/net/net-connections.c, net-events.c, net-msg.c,
-- src/jobs), whose effects are the kernel's; log lines; the memory barriers around ext_secret_cnt, since
-- the secrets are modelled in one thread; the vendored TOML and QR libraries; statistics pages and the command line.
pub mod Common
pub mod Acl
pub mod Dc
pub mod Domains
pub mod Drs
pub mod Http
pub mod IpStats
pub mod Ja4
pub mod Obfs2
pub mod Proxy
pub mod Secrets
pub mod Timers
pub mod Tls
pub mod TopIps
pub mod Treap
