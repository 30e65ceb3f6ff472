-- ===== src/Net/Arp/Cache.antt =====
-- The cache of src/drivers/net/arp.c: what an update does to later lookups.
use hal_os.Base.{ℕ, ◌<◌, ◌^◌, true, false}
use hal_os.Base.{◌≡◌, ◌≢◌, ◌⊎◌, refl, arith, none, some, List, [], ◌∷◌, ap}
use hal_os.Net.{Net, ArpEntry}
use hal_os.Net.Arp.{cache_find, cache_has, cache_put, arp_cache_update, arp_lookup}
use hal_os.Net.Arp.{arp_target, is_local_ip}

-- Is there an entry for the address, or one that is not taken?
abbrev pub HasRoom : ℕ → List ArpEntry → Type 0
HasRoom ip [] = ⊥
HasRoom ip (e ∷ rest) = (e.ip ≡ ip) ⊎ ((e.ip ≡ 0) ⊎ HasRoom ip rest)

cache_find-put :
    (ip ticks : ℕ) (mac : List ℕ) (cache : List ArpEntry)
    → ticks < 2 ^ 32
    → HasRoom ip cache
    → cache_find ticks ip (cache_put ip mac ticks cache) ≡ some mac
unfolding cache_find cache_put
cache_find-put ip ticks mac [] h room = absurd room
cache_find-put ip ticks mac (e ∷ rest) h room = ground (arith, cache_find-put ip ticks mac rest h)

cache_find-put_ne :
    (ip other ticks now : ℕ) (mac : List ℕ) (cache : List ArpEntry)
    → other ≢ ip
    → other ≢ 0
    → cache_find now other (cache_put ip mac ticks cache) ≡ cache_find now other cache
unfolding cache_find cache_put
cache_find-put_ne ip other ticks now mac [] a b = refl
cache_find-put_ne ip other ticks now mac (e ∷ rest) a b =
    ground (arith, cache_find-put_ne ip other ticks now mac rest a b)

cache_has-find :
    (ticks ip : ℕ) (mac : List ℕ) (cache : List ArpEntry)
    → cache_find ticks ip cache ≡ none
    → cache_has ticks ip cache ≡ false
unfolding cache_find cache_has
cache_has-find ticks ip mac [] h = refl
cache_has-find ticks ip mac (e ∷ rest) h = ground (arith, cache_has-find ticks ip mac rest)

-- After an update that finds room, a lookup of a local address, at a time below 2 ^ 32, at once returns the new hardware
-- address and sends nothing.
pub arp_lookup-update :
    (ip : ℕ) (mac : List ℕ) (net : Net)
    → net.ticks < 2 ^ 32
    → HasRoom ip net.arp_cache
    → is_local_ip net ip ≡ true
    → arp_lookup ip (arp_cache_update ip mac net) ≡ (some mac, arp_cache_update ip mac net)
unfolding arp_lookup arp_cache_update arp_target is_local_ip
arp_lookup-update ip mac net h room local =
    ground (arith, local, cache_find-put ip net.ticks mac net.arp_cache h room)

-- An update for one address changes no lookup of another one that is not 0.
pub cache_find-update_ne :
    (ip other : ℕ) (mac : List ℕ) (net : Net)
    → other ≢ ip
    → other ≢ 0
    → cache_find net.ticks other (arp_cache_update ip mac net).arp_cache
      ≡ cache_find net.ticks other net.arp_cache
unfolding arp_cache_update
cache_find-update_ne ip other mac net a b =
    cache_find-put_ne ip other net.ticks net.ticks mac net.arp_cache a b

-- a full cache in which the address does not stand
abbrev pub IsFullWithout : ℕ → List ArpEntry → Type 0
IsFullWithout ip [] = Unit {0}
IsFullWithout ip (e ∷ rest) = (e.ip ≢ ip) × (e.ip ≢ 0) × IsFullWithout ip rest

cache_put-full :
    (ip ticks : ℕ) (mac : List ℕ) (cache : List ArpEntry)
    → IsFullWithout ip cache
    → cache_put ip mac ticks cache ≡ cache
unfolding cache_put
cache_put-full ip ticks mac [] f = refl
cache_put-full ip ticks mac (e ∷ rest) f = ground (arith, cache_put-full ip ticks mac rest f.2)

-- Once every entry is taken, a new address is never stored, however old the entries are: no entry
-- is given up.
arp_cache_update-full :
    (ip : ℕ) (mac : List ℕ) (net : Net)
    → IsFullWithout ip net.arp_cache
    → arp_cache_update ip mac net ≡ net
unfolding arp_cache_update
arp_cache_update-full ip mac net f =
    ap (λ c. record net { arp_cache = c }) (cache_put-full ip net.ticks mac net.arp_cache f)
