-- ===== src/Cluster/Actions/Sent.antt =====
-- The POSTs that an action sends, and the errors that it returns.
use nsq.Common.{
  ℕ, ◌+◌, ◌≡◌, refl, sym, ap, ◌∙◌, List, [], ◌∷◌, ◌++◌, Option, none, some, length, length-append,
  arith, Bool-cases, inl, inr, ◌==◌, nat_eq,
}
use mathlib.Core.List.{append_assoc, append-nil}
use nsq.Cluster.Gather.{Gathered, none_answered, gathered}
use nsq.Cluster.Producers.{Producer, Semver, http_address, http_addrs}
use nsq.Cluster.Uris.{endpoint, topic_query, channel_query, topic_delete, channel_delete}
use nsq.Cluster.Actions.{
  Client, Outcome, no_error, partial_err, query_failed, outcome, add_err, nsqlookupd_post,
  producers_post, get_topic_producers, act, delete_topic, delete_channel, act_on_producers,
  action_helper,
}

-- A view of the client's state: the endpoints that were posted to, in order, and how many of the
-- POSTs failed. A GET does not count.
pub record IsLogged {W E V : Type 0} (client : Client W E V) : Type 0 where
  pub sent : W → List (List ℕ)
  pub refused : W → ℕ
  pub post_sent : (w : W) (e : List ℕ) → sent (client.post w e).0 ≡ sent w ++ e ∷ []
  pub post_refused :
      (w : W) (e : List ℕ)
      → refused (client.post w e).0 ≡ refused w + length (add_err (client.post w e).1 [])
  pub ask_lookupds_sent :
      (w : W) (topic : List ℕ) (addrs : List (List ℕ))
      → (sent (client.ask_lookupds w topic addrs).0 ≡ sent w)
        × (refused (client.ask_lookupds w topic addrs).0 ≡ refused w)
  pub ask_nsqds_sent :
      (w : W) (addrs : List (List ℕ))
      → (sent (client.ask_nsqds w addrs).0 ≡ sent w)
        × (refused (client.ask_nsqds w addrs).0 ≡ refused w)
  pub ask_topic_nsqds_sent :
      (w : W) (topic : List ℕ) (addrs : List (List ℕ))
      → (sent (client.ask_topic_nsqds w topic addrs).0 ≡ sent w)
        × (refused (client.ask_topic_nsqds w topic addrs).0 ≡ refused w)

abbrev pub endpoints : List (List ℕ) → List ℕ → List ℕ → List (List ℕ)
endpoints [] uri qs = []
endpoints (addr ∷ addrs) uri qs = endpoint addr uri qs ∷ endpoints addrs uri qs

-- All nsqlookupds, then all producers.
abbrev pub to_all :
    {V : Type 0} → List (List ℕ) → List ℕ → List ℕ → List (Producer V) → List (List ℕ)
to_all lookupd_addrs uri qs ps = endpoints lookupd_addrs uri qs ++ endpoints (http_addrs ps) uri qs

abbrev pub err_count : {E : Type 0} → Outcome E → ℕ
err_count no_error = 0
err_count (partial_err errs) = length errs
err_count (query_failed errs) = length errs

err_count-outcome : {E : Type 0} (errs : List E) → err_count (outcome errs) ≡ length errs
err_count-outcome [] = refl
err_count-outcome (e ∷ errs) = refl

err_count-three :
    {E : Type 0} (xs ys zs : List E)
    → err_count (outcome (xs ++ ys ++ zs)) ≡ length xs + length ys + length zs
err_count-three xs ys zs =
    err_count-outcome (xs ++ ys ++ zs)
    ∙ omega (arith, length-append (xs ++ ys) zs, length-append xs ys)

length-add_err :
    {E : Type 0} (o : Option E) (errs : List E)
    → length (add_err o errs) ≡ length (add_err o []) + length errs
length-add_err none errs = omega arith
length-add_err (some e) errs = omega arith

module _ {W E V : Type 0} (client : Client W E V) (log : IsLogged client) where
  nsqlookupd_post-sent :
      (w : W) (addrs : List (List ℕ)) (uri qs : List ℕ)
      → log.sent (nsqlookupd_post client w addrs uri qs).0 ≡ log.sent w ++ endpoints addrs uri qs
  unfolding nsqlookupd_post
  nsqlookupd_post-sent w [] uri qs = sym (append-nil (log.sent w))
  nsqlookupd_post-sent w (addr ∷ addrs) uri qs =
      let e = endpoint addr uri qs in
      nsqlookupd_post-sent (client.post w e).0 addrs uri qs
      ∙ ap (λ l. l ++ endpoints addrs uri qs) (log.post_sent w e)
      ∙ append_assoc (log.sent w) (e ∷ []) (endpoints addrs uri qs)

  nsqlookupd_post-refused :
      (w : W) (addrs : List (List ℕ)) (uri qs : List ℕ)
      → log.refused (nsqlookupd_post client w addrs uri qs).0
        ≡ log.refused w + length (nsqlookupd_post client w addrs uri qs).1
  unfolding nsqlookupd_post
  nsqlookupd_post-refused w [] uri qs = omega arith
  nsqlookupd_post-refused w (addr ∷ addrs) uri qs =
      let e = endpoint addr uri qs in
      let (w₁, err) = client.post w e in
      omega (
        arith,
        nsqlookupd_post-refused (client.post w e).0 addrs uri qs,
        log.post_refused w e,
        length-add_err (client.post w e).1
            (nsqlookupd_post client (client.post w e).0 addrs uri qs).1,
      )

  producers_post-addrs :
      (w : W) (pl : List (Producer V)) (uri qs : List ℕ)
      → producers_post client w pl uri qs ≡ nsqlookupd_post client w (http_addrs pl) uri qs
  unfolding nsqlookupd_post producers_post http_addrs
  producers_post-addrs w [] uri qs = refl
  producers_post-addrs w (p ∷ pl) uri qs =
      let e = endpoint (http_address p) uri qs in
      ap (λ (r : W × List E). (r.0, add_err (client.post w e).1 r.1))
        (producers_post-addrs (client.post w e).0 pl uri qs)

  -- From `w` an action made `sent_now` and returned; `before` errors were there already.
  abbrev pub Sends : W → ℕ → List (List ℕ) → W × Outcome E → Type 0
  Sends w before sent_now (w', o) =
      (log.sent w' ≡ log.sent w ++ sent_now)
      × (err_count o + log.refused w ≡ before + log.refused w')

  -- The action that needed the producers `found` from the state `w`.
  abbrev pub SendsIfFound :
      W
      → ℕ
      → (List (Producer V) → List (List ℕ))
      → Gathered E (List (Producer V))
      → W × Outcome E
      → Type 0
  SendsIfFound w before sent_now (none_answered errs) (w', o) =
      (o ≡ query_failed errs) × (log.sent w' ≡ log.sent w)
  SendsIfFound w before sent_now (gathered producers errs) r =
      Sends w (before + length errs) (sent_now producers) r

  act-Sends :
      (lookupd_addrs : List (List ℕ)) (uri qs : List ℕ) (w : W)
      (found : Gathered E (List (Producer V))) (semver : Semver V)
      → SendsIfFound w 0
          (to_all lookupd_addrs uri qs)
          found
          (act client semver lookupd_addrs uri qs (w, found))
  act-Sends lookupd_addrs uri qs w (none_answered errs) semver = (refl, refl)
  act-Sends lookupd_addrs uri qs w (gathered ps errs) semver =
      let (w₁, errs₁) = nsqlookupd_post client w lookupd_addrs uri qs in
      let a = nsqlookupd_post client w lookupd_addrs uri qs in
      let b = nsqlookupd_post client a.0 (http_addrs ps) uri qs in
      rw (producers_post-addrs a.0 ps uri qs) (
        nsqlookupd_post-sent a.0 (http_addrs ps) uri qs
            ∙ ap (λ l. l ++ endpoints (http_addrs ps) uri qs)
                (nsqlookupd_post-sent w lookupd_addrs uri qs)
            ∙ append_assoc (log.sent w) (endpoints lookupd_addrs uri qs)
                (endpoints (http_addrs ps) uri qs),
        omega (
          arith,
          nsqlookupd_post-refused w lookupd_addrs uri qs,
          nsqlookupd_post-refused a.0 (http_addrs ps) uri qs,
          err_count-three errs a.1 b.1,
        ),
      )

  act_on_producers-Sends :
      (uri qs : List ℕ) (w : W) (found : Gathered E (List (Producer V))) (semver : Semver V)
      → SendsIfFound w 0
          (λ ps. endpoints (http_addrs ps) uri qs)
          found
          (act_on_producers client semver uri qs (w, found))
  act_on_producers-Sends uri qs w (none_answered errs) semver = (refl, refl)
  act_on_producers-Sends uri qs w (gathered ps errs) semver =
      let a = nsqlookupd_post client w (http_addrs ps) uri qs in
      rw (producers_post-addrs w ps uri qs) (
        nsqlookupd_post-sent w (http_addrs ps) uri qs,
        omega (
          arith,
          nsqlookupd_post-refused w (http_addrs ps) uri qs,
          err_count-outcome (errs ++ a.1),
          length-append errs a.1,
        ),
      )

  get_topic_producers-sent :
      (w : W) (topic : List ℕ) (lookupd_addrs nsqd_addrs : List (List ℕ)) (semver : Semver V)
      → let r = get_topic_producers client semver w topic lookupd_addrs nsqd_addrs in
        (log.sent r.0 ≡ log.sent w) × (log.refused r.0 ≡ log.refused w)
  unfolding get_topic_producers
  get_topic_producers-sent w topic lookupd_addrs nsqd_addrs semver =
      elim (Bool-cases (length lookupd_addrs == 0)) [
        | inl nobody ↦ rw nobody (log.ask_topic_nsqds_sent w topic nsqd_addrs)
        | inr somebody ↦ rw somebody (log.ask_lookupds_sent w topic lookupd_addrs)
      ]

  -- From the state before the query to the one after it.
  SendsIfFound-from :
      (w w₀ : W) (f : List (Producer V) → List (List ℕ)) (found : Gathered E (List (Producer V)))
      (r : W × Outcome E)
      → (log.sent w₀ ≡ log.sent w) × (log.refused w₀ ≡ log.refused w)
      → SendsIfFound w₀ 0 f found r
      → SendsIfFound w 0 f found r
  SendsIfFound-from w w₀ f (none_answered errs) (w', o) e h = (h.0, h.1 ∙ e.0)
  SendsIfFound-from w w₀ f (gathered ps errs) (w', o) e h =
      (h.0 ∙ ap (λ l. l ++ f ps) e.0, omega (arith, h.1, e.1))

  -- DeleteTopic and DeleteChannel, and the actions that go through actionHelper, send nothing and
  -- return the error of the query if nobody answered the query for the producers. Otherwise each of
  -- them posts to all of its targets once, whichever of the POSTs fail: a deletion to all
  -- nsqlookupds and then to all producers that the query found, an action of actionHelper to all
  -- these producers; and it returns as many errors as the query reported and POSTs failed.
  pub actions-SendsIfFound :
      (semver : Semver V) (w : W) (topic channel uri qs : List ℕ)
      (lookupd_addrs nsqd_addrs : List (List ℕ))
      → let found = (get_topic_producers client semver w topic lookupd_addrs nsqd_addrs).1 in
        SendsIfFound w 0
          (to_all lookupd_addrs topic_delete (topic_query topic))
          found
          (delete_topic client semver w topic lookupd_addrs nsqd_addrs)
        × SendsIfFound w 0
            (to_all lookupd_addrs channel_delete (channel_query topic channel))
            found
            (delete_channel client semver w topic channel lookupd_addrs nsqd_addrs)
        × SendsIfFound w 0
            (λ ps. endpoints (http_addrs ps) uri qs)
            found
            (action_helper client semver w topic lookupd_addrs nsqd_addrs uri qs)
  unfolding delete_topic delete_channel action_helper
  actions-SendsIfFound semver w topic channel uri qs lookupd_addrs nsqd_addrs =
      let r = get_topic_producers client semver w topic lookupd_addrs nsqd_addrs in
      let e = get_topic_producers-sent w topic lookupd_addrs nsqd_addrs semver in
      let del = topic_query topic in
      let del_channel = channel_query topic channel in
      (
        SendsIfFound-from w r.0 (to_all lookupd_addrs topic_delete del) r.1
            (act client semver lookupd_addrs topic_delete del r) e
            (act-Sends lookupd_addrs topic_delete del r.0 r.1 semver),
        SendsIfFound-from w r.0 (to_all lookupd_addrs channel_delete del_channel) r.1
            (act client semver lookupd_addrs channel_delete del_channel r) e
            (act-Sends lookupd_addrs channel_delete del_channel r.0 r.1 semver),
        SendsIfFound-from w r.0 (λ ps. endpoints (http_addrs ps) uri qs) r.1
            (act_on_producers client semver uri qs r) e
            (act_on_producers-Sends uri qs r.0 r.1 semver),
      )
