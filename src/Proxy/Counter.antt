-- ===== src/Proxy/Counter.antt =====
-- dap-lib/src/proxy/counter.rs, one operation at a time. A `usize` has 64 bits.
use doh_auth_proxy.Prelude.{ℕ, ◌+◌, ◌-◌, ◌%◌, ◌^◌, ◌<◌, ◌≡◌, arith, if◌then◌else◌, ltb}

pub data CounterType : Type 0 where
  tcp udp : CounterType

pub record ConnCounter : Type 0 where
  pub cnt_total : ℕ
  pub cnt_udp : ℕ
  pub cnt_tcp : ℕ

abbrev pub usize_mod : ℕ
usize_mod = 2 ^ 64

unfoldable pub get_current : ConnCounter → CounterType → ℕ
get_current c tcp = c.cnt_tcp
get_current c udp = c.cnt_udp

-- `fetch_add(1)` on the total and on the counter of the type; the old value of the latter.
unfoldable pub increment : ConnCounter → CounterType → ConnCounter × ℕ
increment c tcp = (
  record c { cnt_total = (c.cnt_total + 1) % usize_mod; cnt_tcp = (c.cnt_tcp + 1) % usize_mod },
  c.cnt_tcp,
)
increment c udp = (
  record c { cnt_total = (c.cnt_total + 1) % usize_mod; cnt_udp = (c.cnt_udp + 1) % usize_mod },
  c.cnt_udp,
)

-- Loaded and exchanged with no other step in between, the exchange succeeds.
abbrev minus_one : ℕ → ℕ
minus_one cnt = if ltb 0 cnt then cnt - 1 else cnt

abbrev pub sum_total : ConnCounter → ConnCounter
sum_total c = record c { cnt_total = (c.cnt_udp + c.cnt_tcp) % usize_mod }

unfoldable pub decrement : ConnCounter → CounterType → ConnCounter
decrement c tcp = sum_total (record c { cnt_tcp = minus_one c.cnt_tcp })
decrement c udp = sum_total (record c { cnt_udp = minus_one c.cnt_udp })

-- The counters do not overflow, and the total is their sum.
pub record IsBalanced (c : ConnCounter) : Type 0 where
  pub bounded : c.cnt_udp + c.cnt_tcp < usize_mod - 1
  pub summed : c.cnt_total ≡ c.cnt_udp + c.cnt_tcp

-- From a balanced state an increment followed by a decrement of the same type changes nothing.
pub decrement-increment :
    (c : ConnCounter) (t : CounterType) → IsBalanced c → decrement (increment c t).0 t ≡ c
unfolding increment decrement
decrement-increment c tcp b = ground arith
decrement-increment c udp b = ground arith

-- A decrement keeps a balanced state balanced, also at zero.
pub decrement-IsBalanced :
    (c : ConnCounter) (t : CounterType) → IsBalanced c → IsBalanced (decrement c t)
unfolding decrement
decrement-IsBalanced c tcp b = ground arith
decrement-IsBalanced c udp b = ground arith

pub increment_lem :
    (c : ConnCounter)
    → IsBalanced c
    → ((increment c tcp).0.cnt_tcp ≡ c.cnt_tcp + 1)
      × ((increment c udp).0.cnt_udp ≡ c.cnt_udp + 1)
      × ((increment c tcp).1 ≡ c.cnt_tcp)
      × ((increment c udp).1 ≡ c.cnt_udp)
unfolding increment
increment_lem c b = ground arith

-- An accepted query is counted once, in its type and in the total.
pub increment_tcp :
    (c : ConnCounter)
    → IsBalanced c
    → (increment c tcp).0
      ≡ record { cnt_total = c.cnt_total + 1; cnt_udp = c.cnt_udp; cnt_tcp = c.cnt_tcp + 1 }
unfolding increment
increment_tcp c b = ground arith
