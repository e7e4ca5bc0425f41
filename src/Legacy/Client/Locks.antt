-- ===== src/Legacy/Client/Locks.antt =====
-- Where a query of legacy/src/client/doh_client.rs comes to an end.
use doh_auth_proxy.Prelude.{
  ℕ, ◌≡◌, refl, Bool, false, Option, none, some, List, Outcome, ok, err, panic, Bool-cases, inl,
  inr,
}
use doh_auth_proxy.Text.{Text}
use doh_auth_proxy.Url.{UrlLib}
use doh_auth_proxy.Manipulation.Libs.{CedarLib}
use doh_auth_proxy.Client.Http.{HttpLib, OdohLib}
use doh_auth_proxy.Legacy.Libs.{Response, UrlText, Net}
use doh_auth_proxy.Legacy.Context.{Context, update_doh_client}
use doh_auth_proxy.Legacy.Client.{DohClient}
use doh_auth_proxy.Legacy.Client.Exchange.{
  Sealed, is_expired, renewed, refetch, then_answer, answer_in, opened, replied, sent, seal_query,
  serve_oblivious_doh_query,
}

module _ (U : UrlLib) (X : UrlText U) (W : HttpLib) (C : CedarLib) (O : OdohLib) {Conn : Type 0}
    (Cached : Type 0) (N : Net W Conn) (shuffle : List Text → List Text) (gen_range : ℕ → ℕ → ℕ)
    (draw : ℕ) (context : Context C O Conn Cached) (client : DohClient O Conn)
    (packet_buf : List ℕ) where
  abbrev served : Bool → Option (Context C O Conn Cached × Outcome (List ℕ))
  served guarded =
      serve_oblivious_doh_query U X W C O Cached N shuffle gen_range draw guarded context client
        packet_buf

  -- The code comes to an end.
  abbrev Returns : {A : Type 0} → Option A → Type 0
  Returns none = ⊥
  Returns (some a) = Unit

  renewed-Returns :
      (r : Context C O Conn Cached × Outcome (Unit {0}))
      → Returns (renewed U X W C O Cached N shuffle gen_range draw false r)
  unfolding renewed
  renewed-Returns (c, ok _) = tt
  renewed-Returns (c, err e) = tt
  renewed-Returns (c, panic) = tt

  then_answer-Returns :
      (r : Option (Context C O Conn Cached × Outcome (Unit {0}))) (a : Outcome (List ℕ))
      → Returns r
      → Returns (then_answer U X W C O Cached N shuffle gen_range draw r a)
  unfolding then_answer
  then_answer-Returns none a h = h
  then_answer-Returns (some (c, ok _)) a h = tt
  then_answer-Returns (some (c, err e)) a h = tt
  then_answer-Returns (some (c, panic)) a h = tt

  opened-Returns :
      (sealed : Sealed O Conn) (response : Response) (clength : Option ℕ)
      → Returns
          (opened U X W C O Cached N shuffle gen_range draw false context sealed response clength)
  unfolding opened refetch
  opened-Returns sealed response none = tt
  opened-Returns sealed response (some clength) =
      let answer = answer_in U X W C O Cached N shuffle gen_range draw sealed response in
      elim (Bool-cases (is_expired response clength)) [
        | inl b ↦ rw b (
            then_answer-Returns
              (renewed U X W C O Cached N shuffle gen_range draw false
                (update_doh_client U X W N context))
              answer (renewed-Returns (update_doh_client U X W N context)))
        | inr b ↦ rw b (then_answer-Returns (some (context, ok tt)) answer tt)
      ]

  replied-Returns :
      (sealed : Sealed O Conn) (response : Option Response)
      → Returns (replied U X W C O Cached N shuffle gen_range draw false context sealed response)
  unfolding replied
  replied-Returns sealed none = tt
  replied-Returns sealed (some response) = opened-Returns sealed response response.content_length

  sent-Returns :
      (sealed : Outcome (Sealed O Conn))
      → Returns (sent U X W C O Cached N shuffle gen_range draw false context sealed)
  unfolding sent
  sent-Returns (ok sealed) = replied-Returns sealed (N.send sealed.relay sealed.request)
  sent-Returns (err e) = tt
  sent-Returns panic = tt

  some-of_Returns : {A : Type 0} (o : Option A) → Returns o → (a : A) × (o ≡ some a)
  some-of_Returns none h = absurd h
  some-of_Returns (some a) h = (a, refl)

  -- For a task that does not hold a guard of the clients, a query over a relay always comes to an end.
  pub serve_oblivious_doh_query-returns :
      (r : Context C O Conn Cached × Outcome (List ℕ)) × (served false ≡ some r)
  unfolding serve_oblivious_doh_query
  serve_oblivious_doh_query-returns = some-of_Returns _ (
      sent-Returns (seal_query U X W C O shuffle gen_range draw context.settings client packet_buf))
