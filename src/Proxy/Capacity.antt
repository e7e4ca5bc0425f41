-- ===== src/Proxy/Capacity.antt =====
-- How many queries a proxy of dap-lib/src/proxy/proxy_main.rs serves at one time.
use doh_auth_proxy.Prelude.{
  ℕ, ◌+◌, ◌-◌, ◌%◌, ◌≤◌, ◌≡◌, refl, Bool-cases, inl, inr, Option, none, some, List, Outcome, ok,
  err, panic, ltb, leb, ◌==◌, length, arith, if◌then◌else◌,
}
use doh_auth_proxy.Proxy.Counter.{CounterType, tcp, udp, usize_mod}
use doh_auth_proxy.Proxy.Serve.{from_be_bytes}
use doh_auth_proxy.Proxy.Service.{
  Datagram, TcpStream, Task, udp_asking, udp_sending, udp_refused, udp_sent, tcp_refused,
  tcp_reading, tcp_asking, tcp_answered, tcp_writing, tcp_done, udp_next, read_packet, read_length,
  tcp_next, tcp_checked, length_written, body_written,
}

-- A task that has been counted and not yet come to its decrement, and one that is being served.
abbrev pub live : CounterType → Task → ℕ
live udp udp_refused = 1
live udp (udp_asking d) = 1
live udp (udp_sending d) = 1
live udp udp_sent = 1
live tcp (tcp_refused s) = 1
live tcp (tcp_reading s) = 1
live tcp (tcp_asking s packet_buf) = 1
live tcp (tcp_answered s o) = 1
live _ _ = 0

abbrev pub refused : CounterType → Task → ℕ
refused udp udp_refused = 1
refused tcp (tcp_refused s) = 1
refused _ _ = 0

abbrev pub served : CounterType → Task → ℕ
served t task = live t task - refused t task

-- What a step of a task does to the counter of a type and to the two measures.
pub data Effect (most cnt cnt' : ℕ) (l l' s s' : ℕ) : Type 0 where
  enters :
      cnt' ≡ (cnt + 1) % usize_mod
      → l ≡ 0
      → l' ≡ 1
      → s ≡ 0
      → s' ≡ (if leb most cnt then 0 else 1)
      → Effect most cnt cnt' l l' s s'
  passes : cnt' ≡ cnt → l' ≤ l → s' ≤ s → Effect most cnt cnt' l l' s s'
  leaves :
      cnt' ≡ (if ltb 0 cnt then cnt - 1 else cnt)
      → l ≡ 1
      → l' ≡ 0
      → s' ≤ s
      → Effect most cnt cnt' l l' s s'

pub udp_next-live :
    (t : CounterType) (d : Datagram) (o : Option (Outcome (List ℕ)))
    → (live t (udp_next d.1 o) ≤ live t (udp_asking d))
      × (served t (udp_next d.1 o) ≤ served t (udp_asking d))
unfolding udp_next
udp_next-live udp d (some (ok r)) = (omega arith, omega arith)
udp_next-live udp d (some (err e)) = (omega arith, omega arith)
udp_next-live udp d (some panic) = (omega arith, omega arith)
udp_next-live udp d none = (omega arith, omega arith)
udp_next-live tcp d (some (ok r)) = (omega arith, omega arith)
udp_next-live tcp d (some (err e)) = (omega arith, omega arith)
udp_next-live tcp d (some panic) = (omega arith, omega arith)
udp_next-live tcp d none = (omega arith, omega arith)

pub tcp_next-live :
    (t : CounterType) (s : TcpStream) (k : List ℕ) (o : Option (Outcome (List ℕ)))
    → (live t (tcp_next s o) ≤ live t (tcp_asking s k))
      × (served t (tcp_next s o) ≤ served t (tcp_asking s k))
unfolding tcp_next
tcp_next-live udp s k (some (ok r)) = (omega arith, omega arith)
tcp_next-live udp s k (some (err e)) = (omega arith, omega arith)
tcp_next-live udp s k (some panic) = (omega arith, omega arith)
tcp_next-live udp s k none = (omega arith, omega arith)
tcp_next-live tcp s k (some (ok r)) = (omega arith, omega arith)
tcp_next-live tcp s k (some (err e)) = (omega arith, omega arith)
tcp_next-live tcp s k (some panic) = (omega arith, omega arith)
tcp_next-live tcp s k none = (omega arith, omega arith)

-- A task of a TCP query that is at most as counted as one that reads.
abbrev pub Reads : CounterType → TcpStream → Task → Type 0
Reads t s task = (live t task ≤ live t (tcp_reading s)) × (served t task ≤ served t (tcp_reading s))

pub done-Reads :
    (t : CounterType) (s : TcpStream) (w : List ℕ) (o : Outcome (Unit {0}))
    → Reads t s (tcp_done s w o)
done-Reads udp s w o = (omega arith, omega arith)
done-Reads tcp s w o = (omega arith, omega arith)

pub read_packet-Reads :
    (t : CounterType) (s : TcpStream) (o : Option (List ℕ × List ℕ)) → Reads t s (read_packet s o)
unfolding read_packet
read_packet-Reads t s none = done-Reads t s _ _
read_packet-Reads udp s (some (k, _)) = (omega arith, omega arith)
read_packet-Reads tcp s (some (k, _)) = (omega arith, omega arith)

pub read_length-Reads :
    (t : CounterType) (s : TcpStream) (o : Option (List ℕ × List ℕ)) → Reads t s (read_length s o)
unfolding read_length
read_length-Reads t s none = done-Reads t s _ _
read_length-Reads t s (some (length_buf, rest)) =
    elim (Bool-cases (from_be_bytes length_buf == 0)) [
      | inl b ↦ rw b (done-Reads t s _ _)
      | inr b ↦ rw b (read_packet-Reads t s _)
    ]

-- A task that is no longer counted.
abbrev pub Uncounted : CounterType → Task → Type 0
Uncounted t task = (live t task ≡ 0) × (served t task ≡ 0)

pub done-Uncounted :
    (t : CounterType) (s : TcpStream) (w : List ℕ) (o : Outcome (Unit {0}))
    → Uncounted t (tcp_done s w o)
done-Uncounted udp s w o = (refl, refl)
done-Uncounted tcp s w o = (refl, refl)

pub writing-Uncounted :
    (t : CounterType) (s : TcpStream) (r : List ℕ) → Uncounted t (tcp_writing s r)
writing-Uncounted udp s r = (refl, refl)
writing-Uncounted tcp s r = (refl, refl)

pub tcp_checked-Uncounted :
    (t : CounterType) (s : TcpStream) (o : Option (Outcome (List ℕ)))
    → Uncounted t (tcp_checked s o)
unfolding tcp_checked
tcp_checked-Uncounted t s (some (ok r)) = elim (Bool-cases (ltb 65535 (length r))) [
  | inl b ↦ rw b (done-Uncounted t s _ _)
  | inr b ↦ rw b (writing-Uncounted t s r)
]
tcp_checked-Uncounted t s (some (err e)) = done-Uncounted t s _ _
tcp_checked-Uncounted t s (some panic) = done-Uncounted t s _ _
tcp_checked-Uncounted t s none = done-Uncounted t s _ _

pub length_written-Uncounted :
    (t : CounterType) (s : TcpStream) (r : List ℕ) (x : List ℕ × Outcome (Unit {0}))
    → Uncounted t (length_written s r x)
unfolding length_written
length_written-Uncounted udp s r (w, ok _) = (refl, refl)
length_written-Uncounted tcp s r (w, ok _) = (refl, refl)
length_written-Uncounted t s r (w, err e) = done-Uncounted t s _ _
length_written-Uncounted t s r (w, panic) = done-Uncounted t s _ _

pub body_written-Uncounted :
    (t : CounterType) (s : TcpStream) (r : List ℕ) (x : List ℕ × Outcome (Unit {0}))
    → Uncounted t (body_written s r x)
unfolding body_written
body_written-Uncounted t s r (w, o) = done-Uncounted t s _ _
