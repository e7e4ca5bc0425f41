-- ===== src/Proxy/Serve.antt =====
-- `serve_tcp_query` of dap-lib/src/proxy/proxy_tcp.rs and `serve_udp_query` of proxy_udp.rs. What the
-- stream still gives is a list of bytes, the answer of the DoH client a function of the packet,
-- with nothing for a timeout; `room` is how many bytes the stream takes before a write on it fails,
-- and `send_ok` says whether the channel takes the response.
use doh_auth_proxy.Prelude.{
  ℕ, zero, suc, ◌+◌, ◌*◌, ◌/◌, ◌%◌, ◌-◌, take, Bool, Option, none, some, List, [], ◌∷◌, ◌++◌,
  Outcome, ok, err, panic, io, null_tcp_stream, too_many_connections, invalid_dns_response_size,
  failed_to_make_doh_query, udp_channel_send_error, if◌then◌else◌, ltb, leb, ◌==◌, length,
}
use doh_auth_proxy.Proxy.Counter.{ConnCounter, tcp, udp, increment, decrement}

-- `read_exact`: so many bytes, and what is left.
unfoldable pub read_exact : ℕ → List ℕ → Option (List ℕ × List ℕ)
read_exact zero s = some ([], s)
read_exact (suc n) [] = none
read_exact (suc n) (b ∷ s) = elim (read_exact n s) [
  | none ↦ none
  | some (bs, rest) ↦ some (b ∷ bs, rest)
]

-- `u16::from_be_bytes` and `u16::to_be_bytes`.
abbrev pub from_be_bytes : List ℕ → ℕ
from_be_bytes (hi ∷ lo ∷ []) = hi * 256 + lo
from_be_bytes _ = 0

abbrev pub to_be_bytes : ℕ → List ℕ
to_be_bytes n = n / 256 % 256 ∷ n % 256 ∷ []

-- What serving leaves behind: the counter, what was sent to the client, and the result.
pub record Served : Type 0 where
  pub counter : ConnCounter
  pub sent : List ℕ
  pub result : Outcome (Unit {0})

abbrev pub served : ConnCounter → List ℕ → Outcome (Unit {0}) → Served
served c bytes r = record { counter = c; sent = bytes; result = r }

-- `write_all`: what is written, and whether that is all.
unfoldable pub write_all : ℕ → List ℕ → List ℕ × Outcome (Unit {0})
write_all room buf = if leb (length buf) room then (buf, ok tt) else (take room buf, err io)

-- A write of one part and, where that succeeds, of the next.
unfoldable pub written_both :
    List ℕ × Outcome (Unit {0}) → List ℕ × Outcome (Unit {0}) → List ℕ × Outcome (Unit {0})
written_both (w, ok _) (w', o) = (w ++ w', o)
written_both (w, err e) _ = (w, err e)
written_both (w, panic) _ = (w, panic)

unfoldable pub write_both : ℕ → List ℕ → List ℕ → List ℕ × Outcome (Unit {0})
unfolding write_all written_both
write_both room l r = written_both (write_all room l) (write_all (room - length l) r)

-- The response behind its length.
unfoldable pub write_frame : ℕ → List ℕ → List ℕ × Outcome (Unit {0})
unfolding write_both
write_frame room r = write_both room (to_be_bytes (length r % 65536)) r

module _ (max_connections : ℕ) (doh : List ℕ → Option (Outcome (List ℕ))) where
  module _ (room : ℕ) where
    -- The response on the stream, behind its length.
    unfoldable pub tcp_respond : ConnCounter → Option (Outcome (List ℕ)) → Served
    unfolding write_frame
    tcp_respond c (some (ok r)) =
        if ltb 65535 (length r)
        then served c [] (err invalid_dns_response_size)
        else let (written, o) = write_frame room r in served c written o
    tcp_respond c (some (err e)) = served c [] (err failed_to_make_doh_query)
    tcp_respond c (some panic) = served c [] panic
    tcp_respond c none = served c [] (err failed_to_make_doh_query)

    -- A panic in the client ends the task before the counter is decremented.
    after_query : ConnCounter → Option (Outcome (List ℕ)) → ConnCounter
    after_query c (some panic) = c
    after_query c (some (ok r)) = decrement c tcp
    after_query c (some (err e)) = decrement c tcp
    after_query c none = decrement c tcp

    unfoldable pub tcp_query : ConnCounter → Option (List ℕ × List ℕ) → Served
    unfolding tcp_respond after_query
    tcp_query c none = served c [] (err io)
    tcp_query c (some (packet_buf, _)) =
        tcp_respond (after_query c (doh packet_buf)) (doh packet_buf)

    unfoldable pub tcp_body : ConnCounter → Option (List ℕ × List ℕ) → Served
    unfolding tcp_query
    tcp_body c none = served c [] (err io)
    tcp_body c (some (length_buf, rest)) =
        if from_be_bytes length_buf == 0
        then served c [] (err null_tcp_stream)
        else tcp_query c (read_exact (from_be_bytes length_buf) rest)

    unfoldable pub serve_tcp_query : ConnCounter → List ℕ → Served
    unfolding tcp_body
    serve_tcp_query counter stream =
        let (c, old) = increment counter tcp in
        if leb max_connections old
        then served (decrement c tcp) [] (err too_many_connections)
        else tcp_body c (read_exact 2 stream)

  module _ (send_ok : Bool) where
    unfoldable pub udp_respond : ConnCounter → Option (Outcome (List ℕ)) → Served
    udp_respond c (some (ok r)) =
        if send_ok
        then served (decrement c udp) r (ok tt)
        else served c [] (err udp_channel_send_error)
    udp_respond c (some (err e)) = served c [] (err failed_to_make_doh_query)
    udp_respond c (some panic) = served c [] panic
    udp_respond c none = served c [] (err failed_to_make_doh_query)

    unfoldable pub serve_udp_query : ConnCounter → List ℕ → Served
    unfolding udp_respond
    serve_udp_query counter packet_buf =
        let (c, old) = increment counter udp in
        if leb max_connections old
        then served (decrement c udp) [] (err too_many_connections)
        else udp_respond c (doh packet_buf)
