-- ===== src/Proxy/Sockets.antt =====
-- dap-lib/src/proxy/socket.rs. Whether a call of the operating system succeeds on a socket is an
-- argument.
use doh_auth_proxy.Prelude.{
  ◌≡◌, refl, Bool, true, false, Outcome, ok, err, ◌>>=◌, Option, none, some, io, if◌then◌else◌,
  ok_inj, subst,
}
use doh_auth_proxy.Globals.{SocketAddr, v4, v6}

pub data Domain : Type 0 where
  ipv4 ipv6 : Domain

pub record Socket : Type 0 where
  pub domain : Domain
  pub reuse_address : Bool
  pub reuse_port : Bool
  pub nonblocking : Bool
  pub bound_to : Option SocketAddr

pub data SocketCall : Type 0 where
  create set_reuse_address set_reuse_port set_nonblocking bind : SocketCall

abbrev pub domain_of : SocketAddr → Domain
domain_of a = elim a.ip [ v4 _ ↦ ipv4 | v6 _ ↦ ipv6 ]

abbrev pub fresh : SocketAddr → Socket
fresh a = record {
  domain = domain_of a;
  reuse_address = false;
  reuse_port = false;
  nonblocking = false;
  bound_to = none;
}

module _ (succeeds : SocketCall → Socket → Bool) where
  -- A call, with `?`.
  abbrev call : SocketCall → Socket → Socket → Outcome Socket
  call c before after = if succeeds c before then ok after else err io

  unfoldable pub bind_tcp_socket : SocketAddr → Outcome Socket
  bind_tcp_socket listening_on = do
    s ← call create (fresh listening_on) (fresh listening_on)
    s ← call set_reuse_address s (record s { reuse_address = true })
    s ← call set_reuse_port s (record s { reuse_port = true })
    call bind s (record s { bound_to = some listening_on })

  unfoldable pub bind_udp_socket : SocketAddr → Outcome Socket
  bind_udp_socket listening_on = do
    s ← call create (fresh listening_on) (fresh listening_on)
    s ← call set_reuse_address s (record s { reuse_address = true })
    s ← call set_reuse_port s (record s { reuse_port = true })
    s ← call set_nonblocking s (record s { nonblocking = true })
    call bind s (record s { bound_to = some listening_on })

  >>=-call :
      (c : SocketCall) (before after s : Socket) (rest : Socket → Outcome Socket)
      → (call c before after >>= rest) ≡ ok s
      → rest after ≡ ok s
  >>=-call c before after s rest e =
      elim (succeeds c before)
          as (λ b. ((if b then ok after else err io) >>= rest) ≡ ok s → rest after ≡ ok s) [
            | true ↦ λ h. h
            | false ↦ λ h. cc
          ]
        e

  call-eq-ok : (c : SocketCall) (before after s : Socket) → call c before after ≡ ok s → after ≡ s
  call-eq-ok c before after s e =
      elim (succeeds c before) as (λ b. (if b then ok after else err io) ≡ ok s → after ≡ s) [
        | true ↦ λ h. ok_inj h
        | false ↦ λ h. cc
      ]
        e

  -- What a socket needs before it is bound, and that it is bound to the address.
  abbrev pub IsListeningOn : SocketAddr → Socket → Type 0
  IsListeningOn a s =
      (s.domain ≡ domain_of a)
      × (s.reuse_address ≡ true)
      × (s.reuse_port ≡ true)
      × (s.bound_to ≡ some a)

  -- Whichever calls of the operating system succeed, a TCP socket that is returned is of the
  -- address's family, may be bound again, and is bound to the address.
  pub bind_tcp_socket_lem :
      (a : SocketAddr) (s : Socket) → bind_tcp_socket a ≡ ok s → IsListeningOn a s
  unfolding bind_tcp_socket
  bind_tcp_socket_lem a s e =
      let e1 = >>=-call create (fresh a) (fresh a) s _ e in
      let e2 = >>=-call set_reuse_address _ _ s _ e1 in
      let e3 = >>=-call set_reuse_port _ _ s _ e2 in
      subst (IsListeningOn a) (call-eq-ok bind _ _ s e3) (refl, refl, refl, refl)

  -- Whichever calls of the operating system succeed, a UDP socket that is returned is of the
  -- address's family, may be bound again, does not block, and is bound to the address.
  pub bind_udp_socket_lem :
      (a : SocketAddr) (s : Socket)
      → bind_udp_socket a ≡ ok s
      → IsListeningOn a s × (s.nonblocking ≡ true)
  unfolding bind_udp_socket
  bind_udp_socket_lem a s e =
      let e1 = >>=-call create (fresh a) (fresh a) s _ e in
      let e2 = >>=-call set_reuse_address _ _ s _ e1 in
      let e3 = >>=-call set_reuse_port _ _ s _ e2 in
      let e4 = >>=-call set_nonblocking _ _ s _ e3 in
      subst (λ t. IsListeningOn a t × (t.nonblocking ≡ true)) (call-eq-ok bind _ _ s e4)
        ((refl, refl, refl, refl), refl)
