-- ===== src/Proxy/Service.antt =====
-- `Proxy::new` and `Proxy::start` of dap-lib/src/proxy/proxy_main.rs, with the listeners of
-- proxy_udp.rs and proxy_tcp.rs. Every query is a task, and a step is one of a listener, a task or the
-- responder, in any order; a task's increment or decrement of the counter is one step, in which an
-- exchange may fail. Which datagrams and streams come is a parameter.
use doh_auth_proxy.Prelude.{
  ℕ, suc, ◌-◌, ◌%◌, ◌<◌, ◌≡◌, Bool, true, false, Option, none, some, List, [], ◌∷◌, ◌++◌, Memᴰ,
  Outcome, ok, err, panic, io, null_tcp_stream, too_many_connections, invalid_dns_response_size,
  failed_to_make_doh_query, ltb, leb, ◌==◌, length, take, if◌then◌else◌, Change,
}
use doh_auth_proxy.Url.{UrlLib}
use doh_auth_proxy.Globals.{SocketAddr, ProxyConfig}
use doh_auth_proxy.Auth.{is_ok}
use doh_auth_proxy.Proxy.Counter.{
  ConnCounter, CounterType, tcp, udp, increment, decrement, sum_total,
}
use doh_auth_proxy.Proxy.Serve.{read_exact, from_be_bytes, to_be_bytes, write_all}
use doh_auth_proxy.Proxy.Sockets.{SocketCall, Socket, bind_tcp_socket, bind_udp_socket}

-- Bytes with the address that they come from or go to.
abbrev pub Datagram : Type 0
Datagram = List ℕ × SocketAddr

-- A connection: the bytes that the peer sends, and how many it takes before a write fails.
pub record TcpStream : Type 0 where
  pub bytes : List ℕ
  pub room : ℕ

-- What the client may give for a packet, with nothing for a timeout, is a relation, since it answers
-- the same packet differently at different times.
pub record Proxy (U : UrlLib) : Type 1 where
  pub proxy_config : ProxyConfig U
  pub counter : ConnCounter
  pub doh_client : List ℕ → Option (Outcome (List ℕ)) → Type 0
  pub listening_on : SocketAddr

-- `ConnCounter::default()`.
abbrev pub no_connections : ConnCounter
no_connections = record { cnt_total = 0; cnt_udp = 0; cnt_tcp = 0 }

module _ (U : UrlLib) where
  unfoldable pub new :
      ProxyConfig U → SocketAddr → (List ℕ → Option (Outcome (List ℕ)) → Type 0) → Proxy U
  new proxy_config listening_on doh_client = record {
    proxy_config = proxy_config;
    counter = no_connections;
    doh_client = doh_client;
    listening_on = listening_on;
  }

-- Where a task is in `serve_udp_query` or `serve_tcp_query`: before its increment, before the
-- decrement of a query that is refused, before the client is asked, and so on. A task that has come
-- to an end keeps what it has written on its stream and how it ended.
pub data Task : Type 0 where
  udp_spawned udp_asking udp_sending : Datagram → Task
  udp_refused udp_sent udp_done : Task
  tcp_spawned tcp_refused tcp_reading : TcpStream → Task
  tcp_asking : TcpStream → List ℕ → Task
  tcp_answered : TcpStream → Option (Outcome (List ℕ)) → Task
  tcp_writing tcp_length_written : TcpStream → List ℕ → Task
  tcp_done : TcpStream → List ℕ → Outcome (Unit {0}) → Task

-- The two frames of the code that a stream carries.
abbrev pub frame : List ℕ → List ℕ
frame r = to_be_bytes (length r) ++ r

-- `send` on the channel follows an answer; a query without one returns before the decrement.
unfoldable pub udp_next : SocketAddr → Option (Outcome (List ℕ)) → Task
udp_next src_addr (some (ok r)) = udp_sending (r, src_addr)
udp_next src_addr (some (err e)) = udp_done
udp_next src_addr (some panic) = udp_done
udp_next src_addr none = udp_done

-- The two calls of `read_exact`.
unfoldable pub read_packet : TcpStream → Option (List ℕ × List ℕ) → Task
read_packet s none = tcp_done s [] (err io)
read_packet s (some (packet_buf, _)) = tcp_asking s packet_buf

unfoldable pub read_length : TcpStream → Option (List ℕ × List ℕ) → Task
unfolding read_packet
read_length s none = tcp_done s [] (err io)
read_length s (some (length_buf, rest)) =
    if from_be_bytes length_buf == 0
    then tcp_done s [] (err null_tcp_stream)
    else read_packet s (read_exact (from_be_bytes length_buf) rest)

unfoldable pub tcp_read : TcpStream → Task
unfolding read_length
tcp_read s = read_length s (read_exact 2 s.bytes)

-- A panic of the client ends the task before the decrement.
unfoldable pub tcp_next : TcpStream → Option (Outcome (List ℕ)) → Task
tcp_next s (some (ok r)) = tcp_answered s (some (ok r))
tcp_next s (some (err e)) = tcp_answered s (some (err e))
tcp_next s (some panic) = tcp_done s [] panic
tcp_next s none = tcp_answered s none

unfoldable pub tcp_checked : TcpStream → Option (Outcome (List ℕ)) → Task
tcp_checked s (some (ok r)) =
    if ltb 65535 (length r) then tcp_done s [] (err invalid_dns_response_size) else tcp_writing s r
tcp_checked s (some (err e)) = tcp_done s [] (err failed_to_make_doh_query)
tcp_checked s (some panic) = tcp_done s [] panic
tcp_checked s none = tcp_done s [] (err failed_to_make_doh_query)

-- What follows on the first `write_all`, with what it has written, and on the second.
unfoldable pub length_written : TcpStream → List ℕ → List ℕ × Outcome (Unit {0}) → Task
length_written s r (w, ok _) = tcp_length_written s r
length_written s r (w, err e) = tcp_done s w (err e)
length_written s r (w, panic) = tcp_done s w panic

unfoldable pub body_written : TcpStream → List ℕ → List ℕ × Outcome (Unit {0}) → Task
body_written s r (w, o) = tcp_done s (to_be_bytes (length r % 65536) ++ w) o

-- The counter, the tasks, the messages in the channel to the responder, and those that it has sent.
-- A listener or the responder that is not running has not started or was notified to end.
pub record Running : Type 0 where
  pub cnt : ConnCounter
  pub tasks : List Task
  pub channel : List Datagram
  pub sent : List Datagram
  pub udp_runs : Bool
  pub tcp_runs : Bool
  pub responder_runs : Bool

module _ {U : UrlLib} (succeeds : SocketCall → Socket → Bool) where
  -- `start`: a listener whose socket cannot be bound ends at once.
  unfoldable pub start : Proxy U → Running
  start p = record {
    cnt = p.counter;
    tasks = [];
    channel = [];
    sent = [];
    udp_runs = is_ok (bind_udp_socket succeeds p.listening_on);
    tcp_runs = is_ok (bind_tcp_socket succeeds p.listening_on);
    responder_runs = is_ok (bind_udp_socket succeeds p.listening_on);
  }

-- A decrement among other tasks: another one may overtake its exchange, which is not tried again.
pub data Decremented (c : ConnCounter) (t : CounterType) : ConnCounter → Type 0 where
  exchanged : Decremented c t (decrement c t)
  overtaken : Decremented c t (sum_total c)

module _ {U : UrlLib} (p : Proxy U) (datagrams : List Datagram) (streams : List TcpStream) where
  -- The task behind an increment that has read the counter.
  abbrev pub admitted : ℕ → Task → Task → Task
  admitted old refused asking = if leb p.proxy_config.max_connections old then refused else asking

  -- One step of a task: from one point to another, with the counter before and after.
  pub data Move : ConnCounter → Task → ConnCounter → Task → Type 0 where
    udp_enter :
        {c : ConnCounter} {d : Datagram}
        → Move c
            (udp_spawned d)
            (increment c udp).0
            (admitted (increment c udp).1 udp_refused (udp_asking d))
    udp_refuse : {c c' : ConnCounter} → Decremented c udp c' → Move c udp_refused c' udp_done
    udp_ask :
        {c : ConnCounter} {d : Datagram} {o : Option (Outcome (List ℕ))}
        → p.doh_client d.0 o
        → Move c (udp_asking d) c (udp_next d.1 o)
    udp_leave : {c c' : ConnCounter} → Decremented c udp c' → Move c udp_sent c' udp_done
    tcp_enter :
        {c : ConnCounter} {s : TcpStream}
        → Move c
            (tcp_spawned s)
            (increment c tcp).0
            (admitted (increment c tcp).1 (tcp_refused s) (tcp_reading s))
    tcp_refuse :
        {c c' : ConnCounter} {s : TcpStream}
        → Decremented c tcp c'
        → Move c (tcp_refused s) c' (tcp_done s [] (err too_many_connections))
    tcp_get : {c : ConnCounter} {s : TcpStream} → Move c (tcp_reading s) c (tcp_read s)
    tcp_ask :
        {c : ConnCounter} {s : TcpStream} {packet_buf : List ℕ} {o : Option (Outcome (List ℕ))}
        → p.doh_client packet_buf o
        → Move c (tcp_asking s packet_buf) c (tcp_next s o)
    tcp_leave :
        {c c' : ConnCounter} {s : TcpStream} {o : Option (Outcome (List ℕ))}
        → Decremented c tcp c'
        → Move c (tcp_answered s o) c' (tcp_checked s o)
    tcp_write_length :
        {c : ConnCounter} {s : TcpStream} {r : List ℕ}
        → Move c
            (tcp_writing s r)
            c
            (length_written s r (write_all s.room (to_be_bytes (length r % 65536))))
    tcp_write_body :
        {c : ConnCounter} {s : TcpStream} {r : List ℕ}
        → Move c (tcp_length_written s r) c (body_written s r (write_all (s.room - 2) r))

  pub data Step (g : Running) : Running → Type 0 where
    -- `recv_from` fills the buffer with the first bytes, and the query becomes a task.
    receive :
        {bytes : List ℕ} {src_addr : SocketAddr}
        → g.udp_runs ≡ true
        → Memᴰ (bytes, src_addr) datagrams
        → Step g (record g {
          tasks = udp_spawned (take p.proxy_config.udp_buffer_size bytes, src_addr) ∷ g.tasks;
        })
    accept :
        {s : TcpStream}
        → g.tcp_runs ≡ true
        → Memᴰ s streams
        → Step g (record g { tasks = tcp_spawned s ∷ g.tasks })
    move :
        {x y : Task} {l : List Task} {c : ConnCounter}
        → Move g.cnt x c y
        → Change x y g.tasks l
        → Step g (record g { cnt = c; tasks = l })
    -- A response is put in the channel while that has room, or is lost without a responder.
    send :
        {d : Datagram} {l : List Task}
        → g.responder_runs ≡ true
        → length g.channel < p.proxy_config.udp_channel_capacity
        → Change (udp_sending d) udp_sent g.tasks l
        → Step g (record g { tasks = l; channel = g.channel ++ d ∷ [] })
    lose :
        {d : Datagram} {l : List Task}
        → g.responder_runs ≡ false
        → Change (udp_sending d) udp_done g.tasks l
        → Step g (record g { tasks = l })
    -- `udp_responder_service` takes a message, and sending it succeeds or fails.
    respond :
        {d : Datagram} {rest : List Datagram}
        → g.responder_runs ≡ true
        → g.channel ≡ d ∷ rest
        → Step g (record g { channel = rest; sent = g.sent ++ d ∷ [] })
    drop :
        {d : Datagram} {rest : List Datagram}
        → g.responder_runs ≡ true
        → g.channel ≡ d ∷ rest
        → Step g (record g { channel = rest })
    -- The notification reaches a listener or the responder.
    stop_udp : Step g (record g { udp_runs = false })
    stop_tcp : Step g (record g { tcp_runs = false })
    stop_responder : Step g (record g { responder_runs = false })

  -- So many steps from one state to another.
  pub data Run (g : Running) : ℕ → Running → Type 0 where
    stay : Run g 0 g
    more : {n : ℕ} {h k : Running} → Run g n h → Step h k → Run g (suc n) k
