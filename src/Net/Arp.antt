-- ===== src/Net/Arp.antt =====
-- src/drivers/net/arp.c: the cache of hardware addresses, the requests that fill it and the queue
-- of packets that wait for it. `malloc` is an argument that says whether a request succeeds.
-- `retry_pending_packets`, which nothing calls, is not modelled.
pub mod Cache
use Prim.Native.Nat.{bit_and}
use hal_os.Base.{
  ℕ, ◌+◌, ◌-◌, ◌==◌, ltb, leb, Bool, true, false, not, ◌&&◌, ◌||◌, if◌then◌else◌, sub32,
}
use hal_os.Base.{Option, none, some, List, [], ◌∷◌, ◌++◌, length, replicate}
use hal_os.Net.{Net, ArpEntry, Pending}
use hal_os.Net.Bytes.{htonl, store32}

-- `ARP_CACHE_TIMEOUT`
abbrev pub cache_timeout : ℕ
cache_timeout = 30000

-- `MAX_PENDING_PACKETS`
abbrev pub max_pending : ℕ
max_pending = 5

unfoldable pub is_local_ip : Net → ℕ → Bool
is_local_ip net ip = bit_and net.ip_addr net.netmask == bit_and ip net.netmask

-- `arp_cache[i].ip == ip && (get_ticks() - arp_cache[i].timestamp) < ARP_CACHE_TIMEOUT`
abbrev pub is_fresh : ℕ → ℕ → ArpEntry → Bool
is_fresh ticks ip e = e.ip == ip && ltb (sub32 ticks e.timestamp) cache_timeout

-- the loop of `arp_lookup`: the address of the first entry that serves
unfoldable pub cache_find : ℕ → ℕ → List ArpEntry → Option (List ℕ)
cache_find ticks ip [] = none
cache_find ticks ip (e ∷ rest) = elim (is_fresh ticks ip e) [
  | true ↦ some e.mac
  | false ↦ cache_find ticks ip rest
]

-- the loop of `arp_cache_contains`
unfoldable pub cache_has : ℕ → ℕ → List ArpEntry → Bool
cache_has ticks ip [] = false
cache_has ticks ip (e ∷ rest) = elim (is_fresh ticks ip e) [
  | true ↦ true
  | false ↦ cache_has ticks ip rest
]

unfoldable pub arp_cache_contains : ℕ → Net → Bool
arp_cache_contains ip net = cache_has net.ticks ip net.arp_cache

-- the 42 bytes that `create_arp_packet` writes
unfoldable pub arp_packet : List ℕ → ℕ → ℕ → List ℕ
arp_packet src_mac src_ip target_ip =
    replicate 6 0xFF
    ++ (src_mac
        ++ ((0x08 ∷ 0x06 ∷ 0x00 ∷ 0x01 ∷ 0x08 ∷ 0x00 ∷ 6 ∷ 4 ∷ 0x00 ∷ 0x01 ∷ [])
            ++ (src_mac
                ++ (store32 (htonl src_ip) ++ (replicate 6 0 ++ store32 (htonl target_ip))))))

unfoldable pub send_arp_request : ℕ → ℕ → Net → Net
send_arp_request src_ip target_ip net =
    if net.has_nic
    then record net {
      sent = net.sent ++ ((arp_packet net.mac src_ip target_ip ++ replicate 18 0) ∷ []);
    }
    else net

-- Which address is looked up: the gateway's for one outside the local network.
unfoldable pub arp_target : Net → ℕ → ℕ
arp_target net ip = if is_local_ip net ip then ip else net.gateway_ip

unfoldable pub arp_lookup : ℕ → Net → Option (List ℕ) × Net
arp_lookup ip net =
    let target = arp_target net ip in
    elim (cache_find net.ticks target net.arp_cache) [
      | some mac ↦ (some mac, net)
      | none ↦
          if target == net.gateway_ip && not (arp_cache_contains net.gateway_ip net)
          then (none, send_arp_request net.ip_addr net.gateway_ip net)
          else (none, net)
    ]

-- the loop of `arp_cache_update`: the first entry for the address, or an empty one
unfoldable pub cache_put : ℕ → List ℕ → ℕ → List ArpEntry → List ArpEntry
cache_put ip mac ticks [] = []
cache_put ip mac ticks (e ∷ rest) = elim (e.ip == ip || e.ip == 0) [
  | true ↦ record { ip = ip; mac = mac; timestamp = ticks } ∷ rest
  | false ↦ e ∷ cache_put ip mac ticks rest
]

unfoldable pub arp_cache_update : ℕ → List ℕ → Net → Net
arp_cache_update ip mac net = record net { arp_cache = cache_put ip mac net.ticks net.arp_cache }

module _ (malloc : ℕ → Bool) where
  unfoldable pub queue_packet : ℕ → ℕ → List ℕ → Net → Net
  queue_packet dst_ip protocol payload net =
      if leb max_pending (length net.pending)
      then net
      else if not (malloc (length payload))
      then net
      else record net {
        pending =
            net.pending
            ++ (record {
              dst_ip = dst_ip;
              protocol = protocol;
              payload = payload;
              timestamp = net.ticks;
            }
                ∷ []);
      }
