-- ===== src/Tests/ServiceRuns.antt =====
-- A proxy with a client that answers every packet by itself gets a datagram.
use doh_auth_proxy.Prelude.{
  ℕ, ◌≡◌, refl, true, Bool, Option, some, List, [], ◌∷◌, Memᴰ, Outcome, ok, arith, none,
}
use doh_auth_proxy.Globals.{SocketAddr, v4}
use doh_auth_proxy.Proxy.Counter.{increment}
use doh_auth_proxy.Proxy.Sockets.{SocketCall, Socket, bind_udp_socket}
use doh_auth_proxy.Proxy.Service.{Datagram, Proxy, new, Running, start, Run, udp_done}
use doh_auth_proxy.Proxy.Interleaved.{IsSound, start-IsSound}
use doh_auth_proxy.Proxy.Answering.{can_answer}
use doh_auth_proxy.Tests.Toy.{toy_url}
use doh_auth_proxy.Tests.PathRuns.{config_with}

abbrev Echo : List ℕ → Option (Outcome (List ℕ)) → Type 0
Echo packet_buf o = o ≡ some (ok packet_buf)

abbrev all_calls : SocketCall → Socket → Bool
all_calls c s = true

abbrev peer : SocketAddr
peer = record { ip = v4 1; port = 53 }

abbrev proxy : Proxy toy_url
proxy = new toy_url (config_with none) peer Echo

abbrev datagrams : List Datagram
datagrams = (6 ∷ [], peer) ∷ []

abbrev started : Running
started = start all_calls proxy

abbrev answered : Running
answered = record started { tasks = udp_done ∷ []; channel = []; sent = (6 ∷ [], peer) ∷ [] }

answered_run : Run proxy datagrams [] started 6 answered
unfolding start new bind_udp_socket increment
answered_run =
    can_answer proxy datagrams [] started (6 ∷ []) (6 ∷ []) peer
      (record { bounded = omega arith; summed = refl }) refl (omega arith) refl refl refl
      (Memᴰ.head refl) refl

can_answer_example : Run proxy datagrams [] started 6 answered
unfolding start new bind_udp_socket increment
can_answer_example =
    can_answer proxy datagrams [] started (6 ∷ []) (6 ∷ []) peer
      (record { bounded = omega arith; summed = refl }) refl (omega arith) refl refl refl
      (Memᴰ.head refl) refl

start-IsSound_example : IsSound proxy datagrams [] answered
start-IsSound_example =
    start-IsSound all_calls (config_with none) peer Echo datagrams [] 6 answered answered_run
