-- ===== src/Proxy/ServeLaws.antt =====
-- What serving a query sends and how it leaves the counter.
use doh_auth_proxy.Prelude.{
  ℕ, zero, suc, ◌+◌, ◌-◌, ◌%◌, ◌≤◌, ◌<◌, ◌≡◌, refl, sym, ap, ◌∙◌, subst, ◌⊎◌, inl, inr, Bool, true,
  false, Option, none, some, List, [], ◌∷◌, ◌++◌, arith, Outcome, DapError, ok, err, io,
  null_tcp_stream, too_many_connections, ltb, leb, ◌==◌, length,
}
use doh_auth_proxy.Proxy.Counter.{
  ConnCounter, tcp, udp, increment, usize_mod, IsBalanced, decrement-increment, increment_lem,
  increment_tcp,
}
use doh_auth_proxy.Proxy.Serve.{
  Served, served, read_exact, from_be_bytes, to_be_bytes, serve_tcp_query, serve_udp_query,
  write_all, written_both, write_both, write_frame,
}

read_exact_lem : (p rest : List ℕ) → read_exact (length p) (p ++ rest) ≡ some (p, rest)
unfolding read_exact
read_exact_lem [] rest = refl
read_exact_lem (b ∷ p) rest = rw (read_exact_lem p rest)

be_bytes_lem : (n : ℕ) → n < 65536 → from_be_bytes (to_be_bytes n) ≡ n
be_bytes_lem n h = omega arith

-- What an abandoned TCP connection leaves: one more TCP query, for good.
abbrev pub counted : ConnCounter → ConnCounter
counted c = record { cnt_total = c.cnt_total + 1; cnt_udp = c.cnt_udp; cnt_tcp = c.cnt_tcp + 1 }

pub write_all_lem :
    (room : ℕ) (buf : List ℕ) → length buf ≤ room → write_all room buf ≡ (buf, ok tt)
unfolding write_all
write_all_lem room buf h = let fits : leb (length buf) room ≡ true = ground arith in rw fits

write_both_lem :
    (room : ℕ) (l r : List ℕ) → length l + length r ≤ room → write_both room l r ≡ (l ++ r, ok tt)
unfolding write_both written_both
write_both_lem room l r h =
    ap (λ x. written_both x (write_all (room - length l) r)) (write_all_lem room l (omega arith))
    ∙ ap (written_both (l, ok tt)) (write_all_lem (room - length l) r (omega arith))

write_frame_lem :
    (room : ℕ) (r : List ℕ)
    → length r < 65536
    → length r + 2 ≤ room
    → write_frame room r ≡ (to_be_bytes (length r) ++ r, ok tt)
unfolding write_frame
write_frame_lem room r fits h =
    let same : length r % 65536 ≡ length r = omega arith in
    write_both_lem room (to_be_bytes (length r % 65536)) r (omega arith)
    ∙ ap (λ n. (to_be_bytes n ++ r, ok tt)) same

module _ (most : ℕ) (doh : List ℕ → Option (Outcome (List ℕ))) (room : ℕ) (c : ConnCounter) where
  -- On a balanced counter a TCP query is refused where as many TCP queries as the maximum are
  -- counted already, and the counter is left as it was.
  pub serve_tcp_refused :
      (stream : List ℕ)
      → IsBalanced c
      → most ≤ c.cnt_tcp
      → serve_tcp_query most doh room c stream ≡ served c [] (err too_many_connections)
  unfolding serve_tcp_query
  serve_tcp_refused stream b h =
      let (_, _, old, _) = increment_lem c b in
      let full : leb most (increment c tcp).1 ≡ true = ground arith in
      rw (full, decrement-increment c tcp b)

  -- On a balanced counter with room, a framed query of 1 to 65535 bytes that is answered within
  -- 65535 bytes gets the framed response where the stream takes as many bytes, and the counter is left
  -- as it was.
  pub serve_tcp_answered :
      (p rest r : List ℕ)
      → IsBalanced c
      → c.cnt_tcp < most
      → 0 < length p
      → length p < 65536
      → doh p ≡ some (ok r)
      → length r < 65536
      → length r + 2 ≤ room
      → serve_tcp_query most doh room c (to_be_bytes (length p) ++ (p ++ rest))
        ≡ served c (to_be_bytes (length r) ++ r) (ok tt)
  unfolding serve_tcp_query read_exact
  serve_tcp_answered p rest r b h pos short e fits w =
      let (_, _, old, _) = increment_lem c b in
      let free : leb most (increment c tcp).1 ≡ false = ground arith in
      let some_query : (length p == 0) ≡ false = ground arith in
      let small : ltb 65535 (length r) ≡ false = ground arith in
      rw (
        free,
        be_bytes_lem (length p) short,
        some_query,
        read_exact_lem p rest,
        e,
        small,
        decrement-increment c tcp b,
        write_frame_lem room r fits w,
      )

  -- On a balanced counter with room, a connection that ends before a length was read, or gives the
  -- length zero, is an error that leaves the counters of TCP queries and of all queries one higher.
  pub serve_tcp_abandoned :
      (stream : List ℕ)
      → IsBalanced c
      → c.cnt_tcp < most
      → (read_exact 2 stream ≡ none) ⊎ ((rest : List ℕ) × (stream ≡ 0 ∷ 0 ∷ rest))
      → (e : DapError) × (serve_tcp_query most doh room c stream ≡ served (counted c) [] (err e))
  unfolding serve_tcp_query read_exact
  serve_tcp_abandoned stream b h (inl short) =
      let (_, _, old, _) = increment_lem c b in
      let free : leb most (increment c tcp).1 ≡ false = ground arith in
      (io, rw (free, short) (ap (λ k. served k [] (err io)) (increment_tcp c b)))
  serve_tcp_abandoned stream b h (inr (rest, e)) =
      let (_, _, old, _) = increment_lem c b in
      let free : leb most (increment c tcp).1 ≡ false = ground arith in
      (
        null_tcp_stream,
        rw (e, free) (ap (λ k. served k [] (err null_tcp_stream)) (increment_tcp c b)),
      )

module _ (most : ℕ) (doh : List ℕ → Option (Outcome (List ℕ))) (send_ok : Bool)
    (c : ConnCounter) where
  -- A UDP query that is accepted and answered gives the answer to the client, and the counter is
  -- left as it was.
  pub serve_udp_answered :
      (p r : List ℕ)
      → IsBalanced c
      → c.cnt_udp < most
      → doh p ≡ some (ok r)
      → send_ok ≡ true
      → serve_udp_query most doh send_ok c p ≡ served c r (ok tt)
  unfolding serve_udp_query
  serve_udp_answered p r b h e w =
      let (_, _, _, old) = increment_lem c b in
      let free : leb most (increment c udp).1 ≡ false = ground arith in
      rw (free, e, w, decrement-increment c udp b)

  -- On a balanced counter with room, a UDP query that the DoH client does not answer in time leaves
  -- the counter of UDP queries one higher.
  pub serve_udp_abandoned :
      (p : List ℕ)
      → IsBalanced c
      → c.cnt_udp < most
      → doh p ≡ none
      → (serve_udp_query most doh send_ok c p).counter.cnt_udp ≡ c.cnt_udp + 1
  unfolding serve_udp_query
  serve_udp_abandoned p b h e =
      let (_, plus, _, old) = increment_lem c b in
      let free : leb most (increment c udp).1 ≡ false = ground arith in rw (free, e) plus

counted-IsBalanced :
    (c : ConnCounter)
    → IsBalanced c
    → c.cnt_udp + c.cnt_tcp < usize_mod - 2
    → IsBalanced (counted c)
counted-IsBalanced c b h = ground arith

module _ (most : ℕ) (doh : List ℕ → Option (Outcome (List ℕ))) (room : ℕ) where
  -- The counter after so many connections that are closed without a byte.
  abbrev pub after_abandoned : ℕ → ConnCounter → ConnCounter
  after_abandoned zero c = c
  after_abandoned (suc n) c = after_abandoned n (serve_tcp_query most doh room c []).counter

  after_abandoned_lem :
      (n : ℕ) (c : ConnCounter)
      → IsBalanced c
      → c.cnt_tcp + n ≡ most
      → c.cnt_udp + most < usize_mod - 2
      → IsBalanced (after_abandoned n c) × ((after_abandoned n c).cnt_tcp ≡ most)
  unfolding read_exact
  after_abandoned_lem zero c b e h = (b, omega arith)
  after_abandoned_lem (suc n) c b e h =
      let (_, s) = serve_tcp_abandoned most doh room c [] b (omega arith) (inl refl) in
      subst (λ k. IsBalanced (after_abandoned n k) × ((after_abandoned n k).cnt_tcp ≡ most))
        (sym (ap (λ (t : Served). t.counter) s))
        (after_abandoned_lem n (counted c) (counted-IsBalanced c b (omega arith)) (omega arith) h)

  -- From a balanced counter that is far from overflow, after as many connections that are closed
  -- without a byte as are still allowed, every TCP query is refused, although none of them is being
  -- served.
  pub serve_tcp_blocked :
      (n : ℕ) (c : ConnCounter) (stream : List ℕ)
      → IsBalanced c
      → c.cnt_tcp + n ≡ most
      → c.cnt_udp + most < usize_mod - 2
      → (serve_tcp_query most doh room (after_abandoned n c) stream).result
        ≡ err too_many_connections
  serve_tcp_blocked n c stream b e h =
      let (b', full) = after_abandoned_lem n c b e h in
      ap (λ (s : Served). s.result)
        (serve_tcp_refused most doh room (after_abandoned n c) stream b' (omega arith))
