-- ===== src/Legacy/RwLock.antt =====
-- `tokio::sync::RwLock`, as its documentation describes it, for the clients that legacy/src/context.rs
-- shares: a task that asks to write is suspended until there is no read guard. The guards of other
-- tasks are dropped in the meantime, one after the other, but its own only once it goes on.
use doh_auth_proxy.Prelude.{ℕ, zero, suc, ◌≡◌, refl, Bool, true, false, Option, none, some}

-- Whether the task that asks holds a guard, and how many the others hold.
pub record Guards : Type 0 where
  pub own : Bool
  pub others : ℕ

-- What can happen to the guards while the task is suspended.
pub data Waiting (g : Guards) : Guards → Type 0 where
  waits : Waiting g g
  dropped :
      {own : Bool} {n : ℕ}
      → Waiting g (record { own = own; others = suc n })
      → Waiting g (record { own = own; others = n })

abbrev free : Guards
free = record { own = false; others = 0 }

-- `write().await`, for a task that holds a guard or not: nothing where it never returns.
abbrev pub write : Bool → Option (Unit {0})
write true = none
write false = some tt

own-Waiting : {g h : Guards} → Waiting g h → h.own ≡ g.own
own-Waiting waits = refl
own-Waiting (dropped w) = own-Waiting w

-- Without a guard of its own, a task comes to write once the others have dropped theirs.
comes_to_write : (n : ℕ) → Waiting (record { own = false; others = n }) free
comes_to_write n = from n waits
  where
    from : {g : Guards} (n : ℕ) → Waiting g (record { own = false; others = n }) → Waiting g free
    from zero w = w
    from (suc n) w = from n (dropped w)

-- With one it never does.
never_writes : (n : ℕ) → Waiting (record { own = true; others = n }) free → ⊥
never_writes n w = let same : false ≡ true = own-Waiting w in cc
