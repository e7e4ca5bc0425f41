-- ===== src/Proxy/CapacityLaws.antt =====
-- The bound on the queries that a proxy of dap-lib/src/proxy/proxy_main.rs serves at one time.
use doh_auth_proxy.Prelude.{ℕ, ◌≤◌, List, weight}
use doh_auth_proxy.Url.{UrlLib}
use doh_auth_proxy.Proxy.Counter.{ConnCounter, CounterType, get_current}
use doh_auth_proxy.Proxy.Service.{Datagram, TcpStream, Proxy, Task, Running}
use doh_auth_proxy.Proxy.Capacity.{live, served, Effect}

module _ {U : UrlLib} (p : Proxy U) (datagrams : List Datagram) (streams : List TcpStream) where
  abbrev HasEffect : CounterType → ConnCounter → Task → ConnCounter → Task → Type 0
  HasEffect t c x c' y =
      Effect p.proxy_config.max_connections (get_current c t) (get_current c' t) (live t x)
        (live t y) (served t x) (served t y)

-- The counter is at least the number of tasks that are counted, and there is room for those served.
abbrev Fits : ℕ → ℕ → ℕ → ℕ → ℕ → Type 0
Fits most n cnt l s = (l ≤ cnt) × (cnt ≤ n) × (s ≤ most)

-- The measures of the tasks of a type, beside its counter.
abbrev pub HasRoom : ℕ → CounterType → ℕ → Running → Type 0
HasRoom most t n g =
    Fits most n (get_current g.cnt t) (weight (live t) g.tasks) (weight (served t) g.tasks)

module _ {U : UrlLib} (p : Proxy U) (datagrams : List Datagram) (streams : List TcpStream)
    (t : CounterType) where
  abbrev HasRoomAfter : ℕ → Running → Type 0
  HasRoomAfter = HasRoom p.proxy_config.max_connections t
