-- ===== src/Proxy/Interleaved.antt =====
-- What a proxy of dap-lib/src/proxy/proxy_main.rs sends, however its steps are interleaved.
use doh_auth_proxy.Prelude.{
  ℕ, ◌%◌, ◌≡◌, refl, subst, Bool, true, false, Option, List, [], ◌∷◌, All, All-append, Outcome, leb,
  length, arith, Change, first, later, if◌then◌else◌,
}
use doh_auth_proxy.Url.{UrlLib}
use doh_auth_proxy.Globals.{SocketAddr, ProxyConfig}
use doh_auth_proxy.Proxy.Counter.{ConnCounter, tcp, udp, increment}
use doh_auth_proxy.Proxy.Serve.{read_exact, to_be_bytes, write_all}
use doh_auth_proxy.Proxy.Sockets.{SocketCall, Socket}
use doh_auth_proxy.Proxy.Service.{
  Datagram, TcpStream, Proxy, new, Task, Running, start, admitted, Move, udp_enter, udp_refuse,
  udp_ask, udp_leave, tcp_enter, tcp_refuse, tcp_get, tcp_ask, tcp_leave, tcp_write_length,
  tcp_write_body, Step, receive, accept, move, send, lose, respond, drop, stop_udp, stop_tcp,
  stop_responder, Run, stay, more, tcp_read, length_written,
}
use doh_auth_proxy.Proxy.ServiceLaws.{
  IsAnswer, IsSoundTask, udp_next-IsSound, silent, read_length-IsSound, tcp_next-IsSound,
  tcp_checked-IsSound, length_written-IsSound, body_written-IsSound, write_all-Prefix,
}

-- The member that a step changes, and the others.
All-Change :
    {A : Type 0} (P : A → Type 0) {x y : A} {l l' : List A}
    → Change x y l l'
    → (P x → P y)
    → All P l
    → All P l'
All-Change P first f (h, k) = (f h, k)
All-Change P (later c) f (h, k) = (h, All-Change P c f k)

All-Change_at :
    {A : Type 0} (P : A → Type 0) {x y : A} {l l' : List A} → Change x y l l' → All P l → P x
All-Change_at P first (h, k) = h
All-Change_at P (later c) (h, k) = All-Change_at P c k

module _ {U : UrlLib} (p : Proxy U) (datagrams : List Datagram) (streams : List TcpStream) where
  admitted-IsSound :
      (old : ℕ) (refused asking : Task)
      → IsSoundTask p datagrams streams refused
      → IsSoundTask p datagrams streams asking
      → IsSoundTask p datagrams streams (admitted p datagrams streams old refused asking)
  admitted-IsSound old refused asking h k =
      elim (leb p.proxy_config.max_connections old)
        as (λ b. IsSoundTask p datagrams streams (if b then refused else asking)) [
          | true ↦ h
          | false ↦ k
        ]

  Move-IsSound :
      {c c' : ConnCounter} {x y : Task}
      → Move p datagrams streams c x c' y
      → IsSoundTask p datagrams streams x
      → IsSoundTask p datagrams streams y
  unfolding tcp_read
  Move-IsSound (udp_enter {c} {d}) h = admitted-IsSound (increment c udp).1 _ _ tt h
  Move-IsSound (udp_refuse v) h = tt
  Move-IsSound (udp_ask {d = d} {o = o} g) h = udp_next-IsSound p datagrams streams d o h g
  Move-IsSound (udp_leave v) h = tt
  Move-IsSound (tcp_enter {c} {s}) h = admitted-IsSound (increment c tcp).1 _ _ h h
  Move-IsSound (tcp_refuse {s = s} v) h = silent p datagrams streams s _ h (λ q. cc)
  Move-IsSound (tcp_get {s = s}) h =
      read_length-IsSound p datagrams streams s (read_exact 2 s.bytes) h refl
  Move-IsSound (tcp_ask {s = s} {packet_buf = k} {o = o} g) h =
      tcp_next-IsSound p datagrams streams s k o h g
  Move-IsSound (tcp_leave {s = s} {o = o} v) h = tcp_checked-IsSound p datagrams streams s o h
  Move-IsSound (tcp_write_length {s = s} {r = r}) (m, (a, short)) =
      let same : length r ≡ length r % 65536 = omega arith in
      subst
        (λ n.
          IsSoundTask p datagrams streams (length_written s r (write_all s.room (to_be_bytes n))))
        same
        (length_written-IsSound p datagrams streams s r _ (m, (a, short))
          (write_all-Prefix s.room (to_be_bytes (length r))).0)
  Move-IsSound (tcp_write_body {s = s} {r = r}) h =
      body_written-IsSound p datagrams streams s r _ h (write_all-Prefix _ r)

  -- The tasks are sound, and the messages are answers.
  pub record IsSound (g : Running) : Type 0 where
    pub tasks_sound : All (IsSoundTask p datagrams streams) g.tasks
    pub channel_sound : All (IsAnswer p datagrams streams) g.channel
    pub sent_sound : All (IsAnswer p datagrams streams) g.sent

  Step-IsSound : {g h : Running} → Step p datagrams streams g h → IsSound g → IsSound h
  Step-IsSound (receive {bytes} e m) i = record {
    tasks_sound = ((bytes, m, refl), i.tasks_sound);
    channel_sound = i.channel_sound;
    sent_sound = i.sent_sound;
  }
  Step-IsSound (accept e m) i = record {
    tasks_sound = (m, i.tasks_sound);
    channel_sound = i.channel_sound;
    sent_sound = i.sent_sound;
  }
  Step-IsSound (move v c) i = record {
    tasks_sound = All-Change _ c (Move-IsSound v) i.tasks_sound;
    channel_sound = i.channel_sound;
    sent_sound = i.sent_sound;
  }
  Step-IsSound (send {d} e room c) i = record {
    tasks_sound = All-Change (IsSoundTask p datagrams streams) c (λ h. tt) i.tasks_sound;
    channel_sound =
        All-append _ _ (d ∷ []) i.channel_sound
          (All-Change_at (IsSoundTask p datagrams streams) c i.tasks_sound, tt);
    sent_sound = i.sent_sound;
  }
  Step-IsSound (lose e c) i = record {
    tasks_sound = All-Change (IsSoundTask p datagrams streams) c (λ h. tt) i.tasks_sound;
    channel_sound = i.channel_sound;
    sent_sound = i.sent_sound;
  }
  Step-IsSound (respond {d} e c) i =
      let (h, k) = subst (All (IsAnswer p datagrams streams)) c i.channel_sound in
      record {
        tasks_sound = i.tasks_sound;
        channel_sound = k;
        sent_sound = All-append _ _ (d ∷ []) i.sent_sound (h, tt);
      }
  Step-IsSound (drop e c) i =
      let (h, k) = subst (All (IsAnswer p datagrams streams)) c i.channel_sound in
      record { tasks_sound = i.tasks_sound; channel_sound = k; sent_sound = i.sent_sound }
  Step-IsSound stop_udp i = record {
    tasks_sound = i.tasks_sound;
    channel_sound = i.channel_sound;
    sent_sound = i.sent_sound;
  }
  Step-IsSound stop_tcp i = record {
    tasks_sound = i.tasks_sound;
    channel_sound = i.channel_sound;
    sent_sound = i.sent_sound;
  }
  Step-IsSound stop_responder i = record {
    tasks_sound = i.tasks_sound;
    channel_sound = i.channel_sound;
    sent_sound = i.sent_sound;
  }

  Run-IsSound :
      {g : Running} {n : ℕ} {h : Running} → Run p datagrams streams g n h → IsSound g → IsSound h
  Run-IsSound stay i = i
  Run-IsSound (more r s) i = Step-IsSound s (Run-IsSound r i)

-- Whichever sockets can be bound, whatever is received, and however the steps of the listeners, the
-- tasks and the responder are interleaved, every datagram that is sent goes to an address that one
-- was received from and is an answer of the client to that one, cut to the size of the buffer; and
-- what a task that has come to an end has written on its stream is nothing, or a beginning of the
-- framed answer of the client to the packet that the stream frames, and all of it where the task has
-- succeeded.
pub start-IsSound :
    {U : UrlLib} (succeeds : SocketCall → Socket → Bool) (proxy_config : ProxyConfig U)
    (listening_on : SocketAddr) (doh_client : List ℕ → Option (Outcome (List ℕ)) → Type 0)
    (datagrams : List Datagram) (streams : List TcpStream) (n : ℕ) (h : Running)
    → Run
        (new U proxy_config listening_on doh_client)
        datagrams
        streams
        (start succeeds (new U proxy_config listening_on doh_client))
        n
        h
    → IsSound (new U proxy_config listening_on doh_client) datagrams streams h
unfolding start
start-IsSound {U} succeeds proxy_config listening_on doh_client datagrams streams n h r =
    Run-IsSound (new U proxy_config listening_on doh_client) datagrams streams r
      (record { tasks_sound = tt; channel_sound = tt; sent_sound = tt })
