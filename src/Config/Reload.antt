-- ===== src/Config/Reload.antt =====
-- `proxy_service_with_watcher` of dap-bin/src/main.rs: the loop that runs the services with the
-- current configuration until a new one is loaded. A generation of services is what one call of
-- `entrypoint` has spawned; the tasks outlive a call that is dropped, and end with the notification.
-- Every call is taken to have spawned its services by the next event.
use doh_auth_proxy.Prelude.{
  ◌≡◌, refl, ap, subst, Option, none, some, List, [], ◌∷◌, ◌++◌, Outcome, ok, err, panic, ◌>>=◌,
  DapError, other, unwrap, Outcome-cases, ok_inj, All, inl, inr, >>=-eq-ok,
}
use doh_auth_proxy.Text.{Text}
use doh_auth_proxy.Url.{UrlLib}
use doh_auth_proxy.Globals.{AddrParser, ProxyConfig}
use doh_auth_proxy.Config.{try_into}
use doh_auth_proxy.Config.PluginFiles.{TargetConfig}

module _ (U : UrlLib) (A : AddrParser) (credential : Text → Outcome (Text → Option Text)) where
  -- What wakes the loop: the services end, or the receiver holds something else.
  pub data Event : Type 0 where
    exited : Event
    changed : Option TargetConfig → Event

  -- The configuration, and the configurations of the generations that run.
  pub record Watcher : Type 0 where
    pub proxy_conf : ProxyConfig U
    pub generations : List (ProxyConfig U)

  abbrev pub converted : TargetConfig → Outcome (ProxyConfig U)
  converted t = try_into U credential A t.config_toml t.query_manipulation_config

  -- `entrypoint` at the head of the loop.
  abbrev start : Watcher → Watcher
  start w = record w { generations = w.proxy_conf ∷ w.generations }

  reloaded : Watcher → Outcome (ProxyConfig U) → Outcome Watcher
  reloaded w (ok p) = ok (start (record { proxy_conf = p; generations = [] }))
  reloaded w (err e) = ok (start w)
  reloaded w panic = panic

  on_event : Watcher → Event → Outcome Watcher
  unfolding reloaded
  on_event w exited = err other
  on_event w (changed none) = err other
  on_event w (changed (some t)) = reloaded w (converted t)

  watch : Watcher → List Event → Outcome Watcher
  unfolding on_event
  watch w [] = ok w
  watch w (e ∷ es) = on_event w e >>= λ w'. watch w' es

  unfoldable pub proxy_service_with_watcher : Option TargetConfig → List Event → Outcome Watcher
  unfolding watch
  proxy_service_with_watcher first es = do
    t ← unwrap first
    p ← converted t
    watch (start (record { proxy_conf = p; generations = [] })) es

  -- The configurations that were received, the last one first.
  abbrev pub received : List Event → List TargetConfig → List TargetConfig
  received [] earlier = earlier
  received (changed (some t) ∷ es) earlier = received es (t ∷ earlier)
  received (changed none ∷ es) earlier = received es earlier
  received (exited ∷ es) earlier = received es earlier

  abbrev pub IsRejected : TargetConfig → Type 0
  IsRejected t = (e : DapError) × (converted t ≡ err e)

  -- A configuration once for each element.
  abbrev pub again : ProxyConfig U → List TargetConfig → List (ProxyConfig U)
  again p [] = []
  again p (t ∷ ts) = p ∷ again p ts

  -- The services run with the newest configuration that is valid; there is one generation of them,
  -- and one more for each configuration that was rejected since.
  abbrev pub RunsNewest : Watcher → List TargetConfig → Type 0
  RunsNewest w ts =
      (later : List TargetConfig) × (t : TargetConfig) × (earlier : List TargetConfig) × (ts
        ≡ later ++ t ∷ earlier)
      × All IsRejected later
      × (converted t ≡ ok w.proxy_conf)
      × (w.generations ≡ w.proxy_conf ∷ again w.proxy_conf later)

  watch_lem :
      (es : List Event) (w : Watcher) (ts : List TargetConfig) (final : Watcher)
      → RunsNewest w ts
      → watch w es ≡ ok final
      → RunsNewest final (received es ts)
  unfolding watch on_event reloaded
  watch_lem [] w ts final h e = subst (λ w. RunsNewest w ts) (ok_inj e) h
  watch_lem (exited ∷ es) w ts final h e = cc
  watch_lem (changed none ∷ es) w ts final h e = cc
  watch_lem (changed (some t) ∷ es) w ts final (later, s, earlier, split, rejected, valid, count)
        e =
      elim (Outcome-cases (converted t)) [
        | inl (p, good) ↦
            watch_lem es _ (t ∷ ts) final ([], t, ts, refl, tt, good, refl) (rw good at e)
        | inr (inl (x, bad)) ↦
            watch_lem es _ (t ∷ ts) final
              (
                t ∷ later,
                s,
                earlier,
                ap (◌∷◌ t) split,
                ((x, bad), rejected),
                valid,
                ap (◌∷◌ w.proxy_conf) count,
              )
              (rw bad at e)
        | inr (inr bad) ↦ cc (rw bad at e)
      ]

  -- As long as the loop runs, whatever was loaded, the configuration is that of the newest file that
  -- is valid. The generations of services that run are one with this configuration, and one more
  -- for each file that was rejected since: a rejected file starts the services again without ending
  -- those that run.
  pub proxy_service_with_watcher_lem :
      (first : TargetConfig) (es : List Event) (w : Watcher)
      → proxy_service_with_watcher (some first) es ≡ ok w
      → RunsNewest w (received es (first ∷ []))
  unfolding proxy_service_with_watcher
  proxy_service_with_watcher_lem first es w e =
      let (p, valid, rest) = >>=-eq-ok (converted first) _ e in
      watch_lem es _ (first ∷ []) w ([], first, [], refl, tt, valid, refl) rest
