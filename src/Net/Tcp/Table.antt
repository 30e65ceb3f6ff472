-- ===== src/Net/Tcp/Table.antt =====
-- The list of connections of src/drivers/net/tcp.c as a table by address.
use hal_os.Base.{ℕ, ◌<◌, ◌≡◌, ◌≢◌, refl, arith}
use hal_os.Base.{none, some, List, [], ◌∷◌}
use hal_os.Net.{Net, Connection}
use hal_os.Net.Tcp.{load, store, delete, find_connection}

-- the address of the written connection leads to it, and any other to what it led to
pub load-store_ne :
    (a : ℕ) (c : Connection) (cs : List Connection)
    → c.address ≢ a
    → load a (store c cs) ≡ load a cs
unfolding load store
load-store_ne a c [] ne = refl
load-store_ne a c (d ∷ rest) ne = ground (arith, load-store_ne a c rest ne)

pub load-store_self :
    (c d : Connection) (cs : List Connection)
    → load c.address cs ≡ some d
    → load c.address (store c cs) ≡ some c
unfolding load store
load-store_self c d [] h = cc
load-store_self c d (e ∷ rest) h = ground (arith, load-store_self c d rest)

-- Writing back makes no address lead somewhere that led nowhere.
pub load-store-none :
    (a : ℕ) (c : Connection) (cs : List Connection) → load a cs ≡ none → load a (store c cs) ≡ none
unfolding load store
load-store-none a c [] h = refl
load-store-none a c (d ∷ rest) h = ground (arith, load-store-none a c rest)

pub load-delete_ne : (a b : ℕ) (cs : List Connection) → a ≢ b → load a (delete b cs) ≡ load a cs
unfolding load delete
load-delete_ne a b [] ne = refl
load-delete_ne a b (c ∷ rest) ne = ground (arith, load-delete_ne a b rest ne)

pub load-delete-none :
    (a b : ℕ) (cs : List Connection) → load a cs ≡ none → load a (delete b cs) ≡ none
unfolding load delete
load-delete-none a b [] h = refl
load-delete-none a b (c ∷ rest) h = ground (arith, load-delete-none a b rest)

-- no two connections at one address
abbrev pub Distinct : List Connection → Type 0
Distinct [] = Unit {0}
Distinct (c ∷ rest) = (load c.address rest ≡ none) × Distinct rest

abbrev pub AllBelow : ℕ → List Connection → Type 0
AllBelow n [] = Unit {0}
AllBelow n (c ∷ rest) = (c.address < n) × AllBelow n rest

pub load-delete_self : (a : ℕ) (cs : List Connection) → Distinct cs → load a (delete a cs) ≡ none
unfolding load delete
load-delete_self a [] h = refl
load-delete_self a (c ∷ rest) h = ground (arith, load-delete_self a rest)

pub store-Distinct : (c : Connection) (cs : List Connection) → Distinct cs → Distinct (store c cs)
unfolding store
store-Distinct c [] h = tt
store-Distinct c (d ∷ rest) h =
    ground (arith, store-Distinct c rest h.1, load-store-none d.address c rest h.0)

pub delete-Distinct : (a : ℕ) (cs : List Connection) → Distinct cs → Distinct (delete a cs)
unfolding delete
delete-Distinct a [] h = tt
delete-Distinct a (c ∷ rest) h =
    ground (arith, delete-Distinct a rest h.1, load-delete-none c.address a rest h.0)

pub store-AllBelow :
    (n : ℕ) (c : Connection) (cs : List Connection) → AllBelow n cs → AllBelow n (store c cs)
unfolding store
store-AllBelow n c [] h = tt
store-AllBelow n c (d ∷ rest) h = ground (arith, store-AllBelow n c rest)

pub delete-AllBelow : (n a : ℕ) (cs : List Connection) → AllBelow n cs → AllBelow n (delete a cs)
unfolding delete
delete-AllBelow n a [] h = tt
delete-AllBelow n a (c ∷ rest) h = ground (arith, delete-AllBelow n a rest)

pub AllBelow-mono : (n m : ℕ) (cs : List Connection) → n < m → AllBelow n cs → AllBelow m cs
AllBelow-mono n m [] lt h = tt
AllBelow-mono n m (c ∷ rest) lt h = (omega arith, AllBelow-mono n m rest lt h.1)

pub load-AllBelow : (n : ℕ) (cs : List Connection) → AllBelow n cs → load n cs ≡ none
unfolding load
load-AllBelow n [] h = refl
load-AllBelow n (c ∷ rest) h = ground (arith, load-AllBelow n rest)

-- What a search by ends finds, its address leads to.
pub load-find_connection :
    (remote_ip remote_port local_ip local_port : ℕ) (c : Connection) (cs : List Connection)
    → Distinct cs
    → find_connection remote_ip remote_port local_ip local_port cs ≡ some c
    → load c.address cs ≡ some c
unfolding load find_connection
load-find_connection remote_ip remote_port local_ip local_port c [] d h = cc
load-find_connection remote_ip remote_port local_ip local_port c (e ∷ rest) d h =
    ground (arith, load-find_connection remote_ip remote_port local_ip local_port c rest, d.0)

-- The addresses of the table lie apart and below the next one.
pub record IsTable (net : Net) : Type 0 where
  pub distinct : Distinct net.connections
  pub below : AllBelow net.next_address net.connections

pub address-load :
    (a : ℕ) (c : Connection) (cs : List Connection) → load a cs ≡ some c → c.address ≡ a
unfolding load
address-load a c [] h = cc
address-load a c (d ∷ rest) h = ground (arith, address-load a c rest)
