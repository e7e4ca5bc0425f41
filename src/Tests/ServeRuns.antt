-- ===== src/Tests/ServeRuns.antt =====
-- Connections of an idle counter: a query of one byte, a stream that ends, and a full counter.
use doh_auth_proxy.Prelude.{
  ℕ, ◌≡◌, refl, true, Option, none, some, List, [], ◌∷◌, ◌++◌, Outcome, ok, err, arith,
  too_many_connections,
}
use doh_auth_proxy.Proxy.Counter.{ConnCounter, IsBalanced}
use doh_auth_proxy.Proxy.Serve.{served, to_be_bytes, serve_tcp_query, serve_udp_query, read_exact}
use doh_auth_proxy.Proxy.ServeLaws.{
  serve_tcp_answered, after_abandoned, serve_tcp_blocked, serve_udp_abandoned,
}

abbrev one_udp : ConnCounter
one_udp = record { cnt_total = 1; cnt_udp = 1; cnt_tcp = 0 }

one_udp-IsBalanced : IsBalanced one_udp
one_udp-IsBalanced = record { bounded = omega arith; summed = refl }

-- A client that answers every packet by itself, and one that never answers.
abbrev echo : List ℕ → Option (Outcome (List ℕ))
echo p = some (ok p)

abbrev silent : List ℕ → Option (Outcome (List ℕ))
silent p = none

serve_tcp_answered_example :
    serve_tcp_query 2 echo 9 one_udp (to_be_bytes 1 ++ ((7 ∷ []) ++ []))
    ≡ served one_udp (to_be_bytes 1 ++ 7 ∷ []) (ok tt)
serve_tcp_answered_example =
    serve_tcp_answered 2 echo 9 one_udp (7 ∷ []) [] (7 ∷ []) one_udp-IsBalanced (omega arith)
      (omega arith) (omega arith) refl (omega arith) (omega arith)

cut : read_exact 2 (0 ∷ []) ≡ none
unfolding read_exact
cut = refl

serve_tcp_blocked_example :
    (serve_tcp_query 2 echo 9 (after_abandoned 2 echo 9 2 one_udp) (0 ∷ 1 ∷ 7 ∷ [])).result
    ≡ err too_many_connections
serve_tcp_blocked_example =
    serve_tcp_blocked 2 echo 9 2 one_udp (0 ∷ 1 ∷ 7 ∷ []) one_udp-IsBalanced refl (omega arith)

serve_udp_abandoned_example : (serve_udp_query 2 silent true one_udp (7 ∷ [])).counter.cnt_udp ≡ 2
serve_udp_abandoned_example =
    serve_udp_abandoned 2 silent true one_udp (7 ∷ []) one_udp-IsBalanced (omega arith) refl
