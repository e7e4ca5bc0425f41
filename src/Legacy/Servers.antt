-- ===== src/Legacy/Servers.antt =====
-- `serve_query` of legacy/src/servers/tcpserver.rs and udpserver.rs. The client that is drawn for a
-- query is a function of the packet, with nothing for a timeout, or an error where there is none. The
-- counter is the same code as in dap-lib/src/proxy/counter.rs.
use doh_auth_proxy.Prelude.{
  ℕ, ◌≡◌, ◌≢◌, ◌∙◌, refl, Bool, Option, none, some, List, [], Outcome, ok, err, panic, other, io,
  if◌then◌else◌, ltb, leb, ◌==◌, length, Bool-cases, inl, inr,
}
use doh_auth_proxy.Proxy.Counter.{
  ConnCounter, tcp, udp, increment, decrement, IsBalanced, decrement-increment,
}
use doh_auth_proxy.Proxy.Serve.{Served, served, read_exact, from_be_bytes, write_frame}

abbrev pub Client : Type 0
Client = List ℕ → Option (Outcome (List ℕ))

-- What a UDP query leaves: the counter, the bytes that are put in the channel to the responder, if
-- any, and how the query ends.
pub record UdpServed : Type 0 where
  pub counter : ConnCounter
  pub sent : Option (List ℕ)
  pub result : Outcome (Unit {0})

abbrev udp_served : ConnCounter → Option (List ℕ) → Outcome (Unit {0}) → UdpServed
udp_served c s r = record { counter = c; sent = s; result = r }

module _ (max_connections : ℕ) where
  module _ (room : ℕ) where
    -- The framed response, once the counter is decremented.
    respond : ConnCounter → Option (Outcome (List ℕ)) → Served
    unfolding write_frame
    respond c (some (ok r)) =
        if ltb 65535 (length r)
        then served (decrement c tcp) [] (err other)
        else let (written, o) = write_frame room r in served (decrement c tcp) written o
    respond c (some (err e)) = served (decrement c tcp) [] (err other)
    respond c (some panic) = served c [] panic
    respond c none = served (decrement c tcp) [] (err other)

    with_packet : Client → ConnCounter → Option (List ℕ × List ℕ) → Served
    unfolding respond
    with_packet doh_client c none = served c [] (err io)
    with_packet doh_client c (some (packet_buf, _)) = respond c (doh_client packet_buf)

    with_length : Client → ConnCounter → Option (List ℕ × List ℕ) → Served
    unfolding with_packet
    with_length doh_client c none = served c [] (err io)
    with_length doh_client c (some (length_buf, rest)) =
        if from_be_bytes length_buf == 0
        then served c [] (err other)
        else with_packet doh_client c (read_exact (from_be_bytes length_buf) rest)

    unfoldable pub serve_tcp : Outcome Client → ConnCounter → List ℕ → Served
    unfolding with_length
    serve_tcp (ok doh_client) counter stream =
        if leb max_connections (increment counter tcp).1
        then served (decrement (increment counter tcp).0 tcp) [] (err other)
        else with_length doh_client (increment counter tcp).0 (read_exact 2 stream)
    serve_tcp (err e) counter stream = served counter [] (err e)
    serve_tcp panic counter stream = served counter [] panic

  module _ (send_ok : Bool) where
    -- The spawned task: the counter is decremented whether or not there is an answer to send.
    unfoldable pub answer : ConnCounter → Option (Outcome (List ℕ)) → UdpServed
    answer c (some (ok r)) = udp_served (decrement c udp) (if send_ok then some r else none) (ok tt)
    answer c (some (err e)) = udp_served (decrement c udp) none (ok tt)
    answer c (some panic) = udp_served c none panic
    answer c none = udp_served (decrement c udp) none (ok tt)

    unfoldable pub serve_udp : Outcome Client → ConnCounter → List ℕ → UdpServed
    unfolding answer
    serve_udp (ok doh_client) counter packet_buf =
        if leb max_connections (increment counter udp).1
        then udp_served (decrement (increment counter udp).0 udp) none (err other)
        else answer (increment counter udp).0 (doh_client packet_buf)
    serve_udp (err e) counter packet_buf = udp_served counter none (err e)
    serve_udp panic counter packet_buf = udp_served counter none panic

    pub answer-counter :
        (c : ConnCounter) (o : Option (Outcome (List ℕ)))
        → o ≢ some panic
        → (answer c o).counter ≡ decrement c udp
    unfolding answer
    answer-counter c (some (ok r)) h = refl
    answer-counter c (some (err e)) h = refl
    answer-counter c (some panic) h = absurd (h refl)
    answer-counter c none h = refl

    -- On a balanced counter, a UDP query of the old proxy leaves the counter as it was, whether it is
    -- refused, answered, given up on or left without a client, unless the client panics.
    pub serve_udp-counter :
        (doh_client : Outcome Client) (c : ConnCounter) (packet_buf : List ℕ)
        → IsBalanced c
        → ((client : Client) → doh_client ≡ ok client → client packet_buf ≢ some panic)
        → (serve_udp doh_client c packet_buf).counter ≡ c
    unfolding serve_udp
    serve_udp-counter (ok client) c packet_buf b h =
        elim (Bool-cases (leb max_connections (increment c udp).1)) [
          | inl full ↦ rw full (decrement-increment c udp b)
          | inr room ↦ rw room (
              answer-counter (increment c udp).0 (client packet_buf) (h client refl)
              ∙ decrement-increment c udp b)
        ]
    serve_udp-counter (err e) c packet_buf b h = refl
    serve_udp-counter panic c packet_buf b h = refl
