-- ===== src/Cache/Response.antt =====
-- What `CacheObject::build_response` answers with.
use doh_auth_proxy.Prelude.{
  ℕ, ◌+◌, ◌-◌, ◌%◌, ◌^◌, ◌≤◌, ◌≡◌, refl, sym, ap, ◌∙◌, List, [], ◌∷◌, ◌++◌, map, Memᴰ, arith,
  append_assoc, append-nil, All, All-map, All-of_mem, mem-map,
}
use doh_auth_proxy.Hickory.{Hickory, MessageParts}
use doh_auth_proxy.Cache.{
  CacheObject, cache_object, remained_ttl, as_secs, from_secs, min_or_zero, min_ttl, add_all,
  refresh, response_message,
}

module _ (H : Hickory) where
  abbrev Parts : Type 0
  Parts = MessageParts H.Query H.Record H.ResponseCode

  -- The loop over one section, for any of the three sections.
  module _ (add : H.Message → H.Record → H.Message) (section : Parts → List H.Record)
      (with_section : Parts → List H.Record → Parts)
      (section-with : (p : Parts) (l : List H.Record) → section (with_section p l) ≡ l)
      (with-with : (p : Parts) (l k : List H.Record)
        → with_section (with_section p l) k ≡ with_section p k)
      (with-self : (p : Parts) → with_section p (section p) ≡ p)
      (parts-add : (m : H.Message) (r : H.Record)
        → H.parts (add m r) ≡ with_section (H.parts m) (section (H.parts m) ++ r ∷ [])) where
    parts-add_all :
        (ttl : ℕ) (m : H.Message) (rs : List H.Record)
        → H.parts (add_all H add ttl m rs)
          ≡ with_section (H.parts m) (section (H.parts m) ++ map (λ r. H.set_ttl r ttl) rs)
    unfolding add_all
    parts-add_all ttl m [] =
        sym (ap (with_section (H.parts m)) (append-nil _) ∙ with-self (H.parts m))
    parts-add_all ttl m (r ∷ rs) =
        parts-add_all ttl (add m (H.set_ttl r ttl)) rs
        ∙ rw (parts-add m (H.set_ttl r ttl), section-with, with-with, append_assoc)

    module _ (take : H.Message → List H.Record × H.Message)
        (take_lem : (m : H.Message) → (take m).0 ≡ section (H.parts m))
        (parts-take : (m : H.Message) → H.parts (take m).1 ≡ with_section (H.parts m) []) where
      parts-section :
          (ttl : ℕ) (m : H.Message)
          → H.parts (add_all H add ttl (take m).1 (take m).0)
            ≡ with_section (H.parts m) (map (λ r. H.set_ttl r ttl) (section (H.parts m)))
      parts-section ttl m =
          parts-add_all ttl (take m).1 (take m).0
          ∙ rw (parts-take m, take_lem m, section-with, with-with)

  -- The message with the TTL of all its records replaced.
  abbrev pub with_ttl : ℕ → Parts → Parts
  with_ttl ttl p = record p {
    answers = map (λ r. H.set_ttl r ttl) p.answers;
    additionals = map (λ r. H.set_ttl r ttl) p.additionals;
    name_servers = map (λ r. H.set_ttl r ttl) p.name_servers;
  }

  parts-refresh : (ttl : ℕ) (m : H.Message) → H.parts (refresh H ttl m) ≡ with_ttl ttl (H.parts m)
  unfolding refresh
  parts-refresh ttl m =
      let after_answers =
        λ (m : H.Message). add_all H H.add_answer ttl (H.take_answers m).1 (H.take_answers m).0 in
      let after_additionals = λ (m : H.Message).
        add_all H H.add_additional ttl (H.take_additionals m).1 (H.take_additionals m).0 in
      parts-section H.add_name_server (λ p. p.name_servers) (λ p l. record p { name_servers = l })
        (λ p l. refl) (λ p l k. refl) (λ p. refl) H.parts-add_name_server H.take_name_servers
        H.take_name_servers_lem H.parts-take_name_servers ttl (after_additionals (after_answers m))
      ∙ ap (λ (p : Parts). record p { name_servers = map (λ r. H.set_ttl r ttl) p.name_servers })
          (parts-section H.add_additional (λ p. p.additionals) (λ p l. record p { additionals = l })
            (λ p l. refl) (λ p l k. refl) (λ p. refl) H.parts-add_additional H.take_additionals
            H.take_additionals_lem H.parts-take_additionals ttl (after_answers m))
      ∙ ap
          (λ (p : Parts). record p {
            name_servers = map (λ r. H.set_ttl r ttl) p.name_servers;
            additionals = map (λ r. H.set_ttl r ttl) p.additionals;
          })
          (parts-section H.add_answer (λ p. p.answers) (λ p l. record p { answers = l })
            (λ p l. refl) (λ p l k. refl) (λ p. refl) H.parts-add_answer H.take_answers
            H.take_answers_lem H.parts-take_answers ttl m)

  -- A response from the cache is the stored message under the query's id, with the TTL of every
  -- record of the three sections replaced by the seconds that remain, modulo 2 ^ 32.
  pub parts-response_message :
      (now : ℕ) (o : CacheObject H) (query_id : ℕ)
      → H.parts (response_message H now o query_id)
        ≡ record (with_ttl (as_secs (remained_ttl H now o) % 2 ^ 32) (H.parts o.message)) {
          id = query_id;
        }
  unfolding response_message
  parts-response_message now o query_id = rw (H.parts-set_id _ query_id, parts-refresh _ o.message)

  min_or_zero-le : (l : List ℕ) {x : ℕ} → Memᴰ x l → min_or_zero l ≤ x
  min_or_zero-le [] m = elim m [ ]
  min_or_zero-le (x ∷ []) (Memᴰ.head e) = omega arith
  min_or_zero-le (x ∷ []) (Memᴰ.tail m) = elim m [ ]
  min_or_zero-le (x ∷ y ∷ l) (Memᴰ.head e) = omega arith
  min_or_zero-le (x ∷ y ∷ l) (Memᴰ.tail m) = omega (arith, min_or_zero-le (y ∷ l) m)

  remaining-le :
      (least now after : ℕ)
      → after ≤ from_secs least
      → as_secs (now + from_secs least - (now + after)) % 2 ^ 32 + as_secs after ≤ least
  remaining-le least now after h = omega arith

  -- As long as it has not expired, the TTL of an answer from the cache and the whole seconds
  -- since the response was stored are together at most the TTL of each answer of that response.
  pub response_ttl-le :
      (m : H.Message) (now after query_id : ℕ)
      → after ≤ from_secs (min_ttl H m)
      → All
          (λ r. All (λ r'. H.ttl r + as_secs after ≤ H.ttl r') (H.parts m).answers)
          (H.parts (response_message H (now + after) (cache_object H now m) query_id)).answers
  unfolding cache_object min_ttl
  response_ttl-le m now after query_id fresh =
      rw (parts-response_message (now + after) (cache_object H now m) query_id) (
        All-map bounded (λ r. H.set_ttl r ttl) (H.parts (H.set_id m 0)).answers
          (All-of_mem (λ r. bounded (H.set_ttl r ttl)) _ (λ r _. each r)))
    where
      ttl : ℕ
      ttl = as_secs (remained_ttl H (now + after) (cache_object H now m)) % 2 ^ 32

      bounded : H.Record → Type 0
      bounded r = All (λ r'. H.ttl r + as_secs after ≤ H.ttl r') (H.parts m).answers

      each : (r : H.Record) → bounded (H.set_ttl r ttl)
      each r =
          All-of_mem (λ r'. H.ttl (H.set_ttl r ttl) + as_secs after ≤ H.ttl r') (H.parts m).answers
            (λ r' k.
              let least =
                min_or_zero-le (map H.ttl (H.parts m).answers)
                  (mem-map H.ttl (H.parts m).answers k) in
              let bound =
                remaining-le (min_or_zero (map H.ttl (H.parts m).answers)) now after fresh in
              rw (H.ttl-set_ttl r ttl) (omega arith))
