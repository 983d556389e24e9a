-- ===== src/Secrets/Gate.antt =====
-- The limits of a secret, and the check of a connection without TLS that they decide, in
-- `tcp_rpcs_compact_parse_execute` of src/net/net-tcp-rpc-ext-server.c; the end of a connection is
-- `mtproto_ext_rpc_close` of src/mtproto/mtproto-proxy-http.c. Closing the socket, log lines, and the
-- statistics of addresses are left out.
pub mod Exact
pub mod Limits
mod Tests
use mtbolt.Common.{
  ℕ, zero, suc, ◌+◌, ◌-◌, Bool, true, false, not, ◌&&◌, List, Bytes, ltb, leb, if◌then◌else◌,
}
use mtbolt.Common.Int.{ℤ, pos, negsuc}
use mtbolt.Secrets.Slot.{Tracking, Counters, Policy, Slot, is_draining}
use mtbolt.Secrets.Track.{share, positive, is_tracked, ip_track_connect, ip_track_disconnect}

-- `used >= eff` where a limit is set
unfoldable pub reaches : ℕ → ℤ → ℕ → Bool
unfolding share
reaches workers (pos (suc n)) used = leb (share workers (suc n)) used
reaches workers _ used = false

unfoldable pub secret_over_limit : ℕ → Slot → Bool
unfolding reaches
secret_over_limit workers s = reaches workers s.policy.limit s.counters.connections

-- `now` is not negative.
unfoldable pub secret_expired : ℕ → Slot → Bool
secret_expired now s = elim s.policy.expires [
  | pos exp ↦ ltb 0 exp && leb exp now
  | negsuc n ↦ false
]

unfoldable pub secret_over_quota : ℕ → Slot → Bool
unfolding reaches
secret_over_quota workers s =
    reaches workers s.policy.quota (s.counters.bytes_received + s.counters.bytes_sent)

unfoldable pub ip_over_limit : ℕ → ℕ → Bytes → Slot → Bool
unfolding reaches positive is_tracked
ip_over_limit workers ip ipv6 s =
    if is_tracked ip ipv6 s.tracking.tracked_ips
    then false
    else reaches workers s.policy.max_ips s.tracking.unique_ip_count

-- The counters of a slot, changed.
abbrev pub with_counters : Slot → Counters → Slot
with_counters s k = record s { counters = k }

-- what happens to a connection that passes: its counters and its address
unfoldable pub admit : ℕ → ℕ → ℕ → Bytes → Slot → Slot
unfolding ip_track_connect
admit workers clock ip ipv6 s = ip_track_connect workers clock ip ipv6 (
    with_counters s (record s.counters {
      connections = s.counters.connections + 1;
      connections_created = s.counters.connections_created + 1;
    }))

-- Whether a connection is accepted, and the slot after it. `now` is in seconds, `clock` the precise time.
unfoldable pub accept : ℕ → ℕ → ℕ → ℕ → Bytes → Slot → Bool × Slot
unfolding is_draining secret_expired secret_over_limit secret_over_quota ip_over_limit admit
accept workers now clock ip ipv6 s =
    let k = s.counters in
    if is_draining s
    then (false, with_counters s (record k { rejected_draining = k.rejected_draining + 1 }))
    else (if secret_expired now s
        then (false, with_counters s (record k { rejected_expired = k.rejected_expired + 1 }))
        else (if secret_over_limit workers s
            then (
              false,
              with_counters s (record k { connections_rejected = k.connections_rejected + 1 }),
            )
            else (if secret_over_quota workers s
                then (false, with_counters s (record k { rejected_quota = k.rejected_quota + 1 }))
                else (if ip_over_limit workers ip ipv6 s
                    then (false, with_counters s (record k { rejected_ips = k.rejected_ips + 1 }))
                    else (true, admit workers clock ip ipv6 s)))))

-- the end of a connection that was accepted
unfoldable pub leave : ℕ → Bytes → Slot → Slot
unfolding ip_track_disconnect
leave ip ipv6 s =
    ip_track_disconnect ip ipv6
      (with_counters s (record s.counters { connections = s.counters.connections - 1 }))
