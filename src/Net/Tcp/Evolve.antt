-- ===== src/Net/Tcp/Evolve.antt =====
-- How the table of connections of src/drivers/net/tcp.c goes over into another one.
use mathlib.Core.Path.{subst}
use native.Mathlib.Decide.{ℕ_discrete}
use hal_os.Base.{ℕ, ◌≡◌, arith, sym, ◌∙◌}
use hal_os.Base.{some, List, ap}
use hal_os.Net.{Connection, TcpState}
use hal_os.Net.Tcp.{load, store, delete}
use hal_os.Net.Tcp.Table.{
  Distinct, load-store_ne, load-store_self, load-delete_ne, load-delete_self,
}

-- Each connection of `after` was in `before`, and its state went over by `R`.
abbrev pub Evolves : (TcpState → TcpState → Type 0) → List Connection → List Connection → Type 0
Evolves R before after =
    (a : ℕ) (d : Connection)
    → load a after ≡ some d
    → (c : Connection) × (load a before ≡ some c) × R c.state d.state

-- the same state
abbrev pub Same : TcpState → TcpState → Type 0
Same s t = t ≡ s

module _ (R : TcpState → TcpState → Type 0) (refl_R : (s : TcpState) → R s s) where
  pub store-Evolves :
      (c d : Connection) (cs : List Connection)
      → load d.address cs ≡ some c
      → R c.state d.state
      → Evolves R cs (store d cs)
  store-Evolves c d cs h r a e le = elim (ℕ_discrete d.address a) [
    | no ne ↦ (e, sym (load-store_ne a d cs ne) ∙ le, refl_R e.state)
    | yes q ↦ here q
  ]
    where
      here : d.address ≡ a → (c : Connection) × (load a cs ≡ some c) × R c.state e.state
      here q =
          let found : load a (store d cs) ≡ some d = rw (sym q) (load-store_self d c cs h) in
          let same : d ≡ e = cc (found, le) in
          (c, rw (sym q) h, subst (λ x. R c.state x.state) same r)

  pub delete-Evolves : (b : ℕ) (cs : List Connection) → Distinct cs → Evolves R cs (delete b cs)
  delete-Evolves b cs distinct a e le = elim (ℕ_discrete a b) [
    | no ne ↦ (e, sym (load-delete_ne a b cs ne) ∙ le, refl_R e.state)
    | yes q ↦
        absurd (ground (arith, load-delete_self b cs distinct, ap (λ n. load n (delete b cs)) q))
  ]
