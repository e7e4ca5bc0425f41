-- ===== src/Proxy/Answering.antt =====
-- A datagram that a proxy of dap-lib/src/proxy/proxy_main.rs can answer.
use doh_auth_proxy.Prelude.{
  if◌then◌else◌, ℕ, ◌<◌, ◌≡◌, sym, ap, subst, true, false, some, List, [], ◌∷◌, ◌++◌, Memᴰ, ok, leb,
  length, take, first,
}
use doh_auth_proxy.Url.{UrlLib}
use doh_auth_proxy.Globals.{SocketAddr}
use doh_auth_proxy.Proxy.Counter.{ConnCounter, udp, increment, IsBalanced, decrement-increment}
use doh_auth_proxy.Proxy.Service.{
  Datagram, TcpStream, Proxy, udp_spawned, udp_asking, udp_refused, udp_sent, udp_done, udp_next,
  Running, Move, udp_enter, udp_ask, udp_leave, receive, move, send, respond, exchanged, Run, stay,
  more,
}

module _ {U : UrlLib} (p : Proxy U) (datagrams : List Datagram) (streams : List TcpStream) where
  admits :
      (c : ConnCounter) (d : Datagram)
      → leb p.proxy_config.max_connections (increment c udp).1 ≡ false
      → Move p datagrams streams c (udp_spawned d) (increment c udp).0 (udp_asking d)
  admits c d room =
      subst
        (λ b.
          Move p datagrams streams c (udp_spawned d) (increment c udp).0
            (if b then udp_refused else udp_asking d))
        room udp_enter

  leaves_as_it_was :
      (c : ConnCounter)
      → IsBalanced c
      → Move p datagrams streams (increment c udp).0 udp_sent c udp_done
  leaves_as_it_was c b =
      subst (λ k. Move p datagrams streams (increment c udp).0 udp_sent k udp_done)
        (decrement-increment c udp b) (udp_leave exchanged)

  -- Whatever the other tasks are doing, as long as the counter is balanced, there is room for a UDP
  -- query, the UDP listener and the responder run, and the channel is empty and can hold a message, a
  -- datagram to which the client can give an answer can be answered in six steps, which leave the
  -- counter as it was.
  pub can_answer :
      (g : Running) (bytes r : List ℕ) (src_addr : SocketAddr)
      → IsBalanced g.cnt
      → leb p.proxy_config.max_connections (increment g.cnt udp).1 ≡ false
      → 0 < p.proxy_config.udp_channel_capacity
      → g.udp_runs ≡ true
      → g.responder_runs ≡ true
      → g.channel ≡ []
      → Memᴰ (bytes, src_addr) datagrams
      → p.doh_client (take p.proxy_config.udp_buffer_size bytes) (some (ok r))
      → Run p datagrams streams g 6 (record g {
        tasks = udp_done ∷ g.tasks;
        channel = [];
        sent = g.sent ++ (r, src_addr) ∷ [];
      })
  unfolding udp_next
  can_answer g bytes r src_addr b room capacity runs responds empty m answer =
      let d : Datagram = (take p.proxy_config.udp_buffer_size bytes, src_addr) in
      let r1 = more stay (receive runs m) in
      let r2 = more r1 (move (admits g.cnt d room) first) in
      let r3 = more r2 (move (udp_ask {d = d} answer) first) in
      let r4 = more r3 (
        send responds
          (subst (λ k. length k < p.proxy_config.udp_channel_capacity) (sym empty) capacity)
          first) in
      let r5 = more r4 (move (leaves_as_it_was g.cnt b) first) in
      more r5 (respond responds (ap (λ k. k ++ (r, src_addr) ∷ []) empty))
