-- ===== src/Tunnel.antt =====
-- src/connections/tunnel.js: reaching a database through a forward of the host's SSH manager, which is
-- outside the repository: what it can do and answers are parameters, and so is `Number`.
mod Tests
use mathlib.Core.Option.{none-ne-some}
use tedi_sql_explorer.Base.{
  ℕ, ◌==◌, ◌≡◌, refl, ap, ◌∙◌, Bool, true, false, not, ◌&&◌, ◌||◌, Bool-cases, inl, inr, Option,
  none, some, List, [], Text, codes, is_empty, trim, show_ℕ, if◌then◌else◌,
}
use tedi_sql_explorer.Connection.{Connection}
use tedi_sql_explorer.Dialects.{get_dialect}

-- A forward: the SSH connection, and the host and port behind it.
pub record Forward : Type 0 where
  pub ssh : Text
  pub host : Text
  pub port : ℕ

-- `open` is the local port that a forward gets, or `none` where it cannot be opened; `number s` is
-- `Number(s)`, with 0 for what is no number.
pub record Host : Type 0 where
  pub can_open : Bool
  pub can_close : Bool
  pub open_forward : Forward → Option ℕ
  pub number : Text → ℕ

pub data Endpoint : Type 0 where
  direct : Text → Text → Endpoint
  needs_newer incomplete unreachable : Endpoint

-- `usesTunnel(conn)`.
unfoldable pub uses_tunnel : Connection → Bool
unfolding get_dialect
uses_tunnel c = not (is_empty c.ssh_tunnel) && not (get_dialect (some c.kind)).file_based

module _ (h : Host) where
  abbrev pub or_number : ℕ → ℕ → ℕ
  or_number n m = if n == 0 then m else n

  -- `tunnelTarget(conn)`, with the SSH connection.
  unfoldable pub tunnel_target : Connection → Forward
  unfolding get_dialect trim
  tunnel_target c = record {
    ssh = c.ssh_tunnel;
    host = trim c.host;
    port = or_number (h.number c.port) (h.number (get_dialect (some c.kind)).default_port);
  }

  abbrev pub local_end : Option ℕ → Endpoint
  local_end none = unreachable
  local_end (some p) = direct (codes "127.0.0.1") (show_ℕ p)

  -- By whether a tunnel is used, the host can open one, and the target lacks a part.
  unfoldable pub endpoint_of : Bool → Bool → Bool → Forward → Connection → Option Forward × Endpoint
  endpoint_of false can missing target c = (none, direct c.host c.port)
  endpoint_of true false missing target c = (none, needs_newer)
  endpoint_of true true true target c = (none, incomplete)
  endpoint_of true true false target c = (some target, local_end (h.open_forward target))

  -- `resolveEndpoint(form)`: the forward that is asked for, and where the driver connects.
  unfoldable pub resolve_endpoint : Connection → Option Forward × Endpoint
  unfolding endpoint_of uses_tunnel tunnel_target
  resolve_endpoint c =
      let target = tunnel_target c in
      endpoint_of (uses_tunnel c) h.can_open (is_empty target.host || target.port == 0) target c

  unfoldable pub closed_of : Bool → Bool → Forward → Option Forward
  closed_of false can target = none
  closed_of true can target = if can then some target else none

  -- `releaseTunnel(conn)`: the forward that is closed.
  unfoldable pub release_tunnel : Connection → Option Forward
  unfolding closed_of uses_tunnel tunnel_target
  release_tunnel c = closed_of (uses_tunnel c) h.can_close (tunnel_target c)

  asked :
      (u can missing : Bool) (t f : Forward) (c : Connection)
      → (endpoint_of u can missing t c).0 ≡ some f
      → closed_of u true t ≡ some f
  unfolding endpoint_of closed_of
  asked false can missing t f c e = absurd (none-ne-some f e)
  asked true false missing t f c e = absurd (none-ne-some f e)
  asked true true true t f c e = absurd (none-ne-some f e)
  asked true true false t f c e = e

  -- A forward that was asked for is the one that is closed afterwards, and a connection that goes
  -- through no jump host opens none, closes none, and is reached at its own host and port. The host can
  -- close forwards.
  pub release_tunnel-resolve_endpoint :
      (c : Connection)
      → h.can_close ≡ true
      → ((f : Forward) → (resolve_endpoint c).0 ≡ some f → release_tunnel c ≡ some f)
        × (uses_tunnel c ≡ false
            → (resolve_endpoint c ≡ (none, direct c.host c.port)) × (release_tunnel c ≡ none))
  release_tunnel-resolve_endpoint c k = (
    λ f e.
        unfold release_tunnel in
        (ap (λ b. closed_of (uses_tunnel c) b (tunnel_target c)) k
          ∙ asked (uses_tunnel c) h.can_open
              (is_empty (tunnel_target c).host || (tunnel_target c).port == 0) (tunnel_target c) f c
              (unfold resolve_endpoint in e)),
    λ u. (
      unfold resolve_endpoint endpoint_of in
          ap
            (λ b.
              endpoint_of b h.can_open
                (is_empty (tunnel_target c).host || (tunnel_target c).port == 0) (tunnel_target c)
                c)
            u,
      unfold release_tunnel closed_of in ap (λ b. closed_of b h.can_close (tunnel_target c)) u,
    ),
  )
