-- ===== src/Proxy/ServiceLaws.antt =====
-- What the tasks of dap-lib/src/proxy send, however their steps are interleaved.
use doh_auth_proxy.Prelude.{
  ℕ, zero, suc, ◌%◌, ◌≤◌, ◌≡◌, ◌≢◌, refl, sym, ap, ◌∙◌, subst, ◌⊎◌, inl, inr, Option, none, some,
  List, [], ◌∷◌, ◌++◌, Memᴰ, append_assoc, append-nil, Outcome, ok, err, panic, ltb, leb, ◌==◌,
  length, take, arith, Bool-cases,
}
use doh_auth_proxy.Text.{Prefix}
use doh_auth_proxy.Url.{UrlLib}
use doh_auth_proxy.Proxy.Serve.{read_exact, from_be_bytes, to_be_bytes, write_all}
use doh_auth_proxy.Proxy.Service.{
  Datagram, TcpStream, Proxy, Task, udp_spawned, udp_asking, udp_sending, udp_refused, udp_sent,
  udp_done, tcp_spawned, tcp_refused, tcp_reading, tcp_asking, tcp_answered, tcp_writing,
  tcp_length_written, tcp_done, frame, udp_next, read_packet, read_length, tcp_next, tcp_checked,
  length_written, body_written,
}

take-Prefix : (n : ℕ) (l : List ℕ) → Prefix (take n l) l
take-Prefix zero l = (l, refl)
take-Prefix (suc n) [] = ([], refl)
take-Prefix (suc n) (x ∷ l) = let (r, e) = take-Prefix n l in (r, ap (λ k. x ∷ k) e)

Prefix-append : (w l r : List ℕ) → Prefix w l → Prefix w (l ++ r)
Prefix-append w l r (q, e) = (q ++ r, sym (append_assoc w q r) ∙ ap (λ k. k ++ r) e)

append-Prefix : (l w r : List ℕ) → Prefix w r → Prefix (l ++ w) (l ++ r)
append-Prefix l w r (q, e) = (q, append_assoc l w q ∙ ap (λ k. l ++ k) e)

-- A write puts a beginning of the bytes on the stream, and all of them where it succeeds.
pub write_all-Prefix :
    (room : ℕ) (buf : List ℕ)
    → Prefix (write_all room buf).0 buf
      × ((write_all room buf).1 ≡ ok tt → (write_all room buf).0 ≡ buf)
unfolding write_all
write_all-Prefix room buf = elim (Bool-cases (leb (length buf) room)) [
  | inl b ↦ rw b (([], append-nil buf), λ e. refl)
  | inr b ↦ rw b (take-Prefix room buf, λ e. cc)
]

module _ {U : UrlLib} (p : Proxy U) (datagrams : List Datagram) (streams : List TcpStream) where
  -- A packet that was received, cut to the size of the buffer, and an answer of the client to one.
  abbrev pub IsQuery : Datagram → Type 0
  IsQuery (packet_buf, addr) =
      (bytes : List ℕ) × Memᴰ (bytes, addr) datagrams
      × (take p.proxy_config.udp_buffer_size bytes ≡ packet_buf)

  abbrev pub IsAnswer : Datagram → Type 0
  IsAnswer (answer, addr) =
      (packet_buf : List ℕ) × IsQuery (packet_buf, addr)
      × p.doh_client packet_buf (some (ok answer))

  -- The packet that a stream frames, and an answer of the client to it that a frame can hold.
  abbrev pub Frames : TcpStream → List ℕ → Type 0
  Frames s packet_buf =
      (length_buf rest rest' : List ℕ) × (read_exact 2 s.bytes ≡ some (length_buf, rest))
      × (read_exact (from_be_bytes length_buf) rest ≡ some (packet_buf, rest'))

  abbrev pub Replies : TcpStream → List ℕ → Type 0
  Replies s answer =
      (packet_buf : List ℕ) × Frames s packet_buf × p.doh_client packet_buf (some (ok answer))

  abbrev pub Answers : TcpStream → List ℕ → Type 0
  Answers s answer = Replies s answer × (length answer ≤ 65535)

  -- What is written on a stream: nothing and no success, or a beginning of the frame of an answer,
  -- which is all of it in a success.
  abbrev pub IsWritten : TcpStream → List ℕ → Outcome (Unit {0}) → Type 0
  IsWritten s w o =
      ((w ≡ []) × (o ≢ ok tt))
      ⊎ ((answer : List ℕ) × Answers s answer
          × Prefix w (frame answer)
          × (o ≡ ok tt → w ≡ frame answer))

  abbrev pub IsSoundTask : Task → Type 0
  IsSoundTask (udp_spawned d) = IsQuery d
  IsSoundTask (udp_asking d) = IsQuery d
  IsSoundTask (udp_sending d) = IsAnswer d
  IsSoundTask udp_refused = Unit {0}
  IsSoundTask udp_sent = Unit {0}
  IsSoundTask udp_done = Unit {0}
  IsSoundTask (tcp_spawned s) = Memᴰ s streams
  IsSoundTask (tcp_refused s) = Memᴰ s streams
  IsSoundTask (tcp_reading s) = Memᴰ s streams
  IsSoundTask (tcp_asking s packet_buf) = Memᴰ s streams × Frames s packet_buf
  IsSoundTask (tcp_answered s o) = Memᴰ s streams × ((r : List ℕ) → o ≡ some (ok r) → Replies s r)
  IsSoundTask (tcp_writing s r) = Memᴰ s streams × Answers s r
  IsSoundTask (tcp_length_written s r) = Memᴰ s streams × Answers s r
  IsSoundTask (tcp_done s w o) = Memᴰ s streams × IsWritten s w o

  pub udp_next-IsSound :
      (d : Datagram) (o : Option (Outcome (List ℕ)))
      → IsQuery d
      → p.doh_client d.0 o
      → IsSoundTask (udp_next d.1 o)
  unfolding udp_next
  udp_next-IsSound d (some (ok r)) q g = (d.0, q, g)
  udp_next-IsSound d (some (err e)) q g = tt
  udp_next-IsSound d (some panic) q g = tt
  udp_next-IsSound d none q g = tt

  pub silent :
      (s : TcpStream) (o : Outcome (Unit {0}))
      → Memᴰ s streams
      → o ≢ ok tt
      → IsSoundTask (tcp_done s [] o)
  silent s o m h = (m, inl (refl, h))

  pub read_packet-IsSound :
      (s : TcpStream) (length_buf rest : List ℕ) (o : Option (List ℕ × List ℕ))
      → Memᴰ s streams
      → read_exact 2 s.bytes ≡ some (length_buf, rest)
      → read_exact (from_be_bytes length_buf) rest ≡ o
      → IsSoundTask (read_packet s o)
  unfolding read_packet
  read_packet-IsSound s length_buf rest none m e e' = silent s _ m (λ q. cc)
  read_packet-IsSound s length_buf rest (some (packet_buf, rest')) m e e' =
      (m, (length_buf, rest, rest', e, e'))

  pub read_length-IsSound :
      (s : TcpStream) (o : Option (List ℕ × List ℕ))
      → Memᴰ s streams
      → read_exact 2 s.bytes ≡ o
      → IsSoundTask (read_length s o)
  unfolding read_length
  read_length-IsSound s none m e = silent s _ m (λ q. cc)
  read_length-IsSound s (some (length_buf, rest)) m e =
      elim (Bool-cases (from_be_bytes length_buf == 0)) [
        | inl t ↦ rw t (silent s _ m (λ q. cc))
        | inr f ↦ rw f (read_packet-IsSound s length_buf rest _ m e refl)
      ]

  pub tcp_next-IsSound :
      (s : TcpStream) (packet_buf : List ℕ) (o : Option (Outcome (List ℕ)))
      → Memᴰ s streams × Frames s packet_buf
      → p.doh_client packet_buf o
      → IsSoundTask (tcp_next s o)
  unfolding tcp_next
  tcp_next-IsSound s packet_buf (some (ok r)) (m, f) g =
      (m, λ r' e. (packet_buf, f, subst (p.doh_client packet_buf) e g))
  tcp_next-IsSound s packet_buf (some (err x)) (m, f) g = (m, λ r' e. cc)
  tcp_next-IsSound s packet_buf (some panic) (m, f) g = silent s _ m (λ q. cc)
  tcp_next-IsSound s packet_buf none (m, f) g = (m, λ r' e. cc)

  pub tcp_checked-IsSound :
      (s : TcpStream) (o : Option (Outcome (List ℕ)))
      → IsSoundTask (tcp_answered s o)
      → IsSoundTask (tcp_checked s o)
  unfolding tcp_checked
  tcp_checked-IsSound s (some (ok r)) (m, h) = elim (Bool-cases (ltb 65535 (length r))) [
    | inl long ↦ rw long (silent s _ m (λ q. cc))
    | inr short ↦ rw short (m, (h r refl, ground arith))
  ]
  tcp_checked-IsSound s (some (err e)) (m, h) = silent s _ m (λ q. cc)
  tcp_checked-IsSound s (some panic) (m, h) = silent s _ m (λ q. cc)
  tcp_checked-IsSound s none (m, h) = silent s _ m (λ q. cc)

  pub length_written-IsSound :
      (s : TcpStream) (r : List ℕ) (x : List ℕ × Outcome (Unit {0}))
      → Memᴰ s streams × Answers s r
      → Prefix x.0 (to_be_bytes (length r))
      → IsSoundTask (length_written s r x)
  unfolding length_written
  length_written-IsSound s r (w, ok _) h q = h
  length_written-IsSound s r (w, err e) (m, a) q =
      (m, inr (r, a, Prefix-append w (to_be_bytes (length r)) r q, λ z. cc))
  length_written-IsSound s r (w, panic) (m, a) q =
      (m, inr (r, a, Prefix-append w (to_be_bytes (length r)) r q, λ z. cc))

  pub body_written-IsSound :
      (s : TcpStream) (r : List ℕ) (x : List ℕ × Outcome (Unit {0}))
      → Memᴰ s streams × Answers s r
      → Prefix x.0 r × (x.1 ≡ ok tt → x.0 ≡ r)
      → IsSoundTask (body_written s r x)
  unfolding body_written
  body_written-IsSound s r (w, o) (m, (a, short)) (q, whole) =
      let same : length r ≡ length r % 65536 = omega arith in
      let done = λ (n : ℕ). IsSoundTask (tcp_done s (to_be_bytes n ++ w) o) in
      subst done same (
        m,
        inr (
          r,
          (a, short),
          append-Prefix (to_be_bytes (length r)) w r q,
          λ e. ap (λ k. to_be_bytes (length r) ++ k) (whole e),
        ),
      )
