-- ===== src/Cluster/Actions.antt =====
-- internal/clusterinfo/data.go: the changes that nsqadmin makes to a cluster by POSTs. The HTTP client
-- is a parameter: a state of type W, which holds the network and the daemons behind it, a POST, and
-- the GETs of a query, with the answers in the order in which they arrive.
pub mod Sent
use nsq.Common.{
  ℕ, ◌≡◌, Bool, List, [], ◌∷◌, ◌++◌, Option, none, some, Eq, ◌==◌, nat_eq, bytes_eq, if◌then◌else◌,
  length,
}
use nsq.Cluster.Gather.{Answer, Gathered, none_answered, gathered}
use nsq.Cluster.Producers.{Producer, Semver, http_address, get_lookupd_topic_producers}
use nsq.Cluster.Nsqds.{Nsqd, get_nsqd_producers, get_nsqd_topic_producers}
use nsq.Cluster.Uris.{
  endpoint, topic_query, channel_query, node_query, topic_create, topic_delete, topic_pause,
  topic_unpause, topic_empty, topic_tombstone, channel_create, channel_delete, channel_pause,
  channel_unpause, channel_empty,
}

pub record Client (W E V : Type 0) : Type 0 where
  pub post : W → List ℕ → W × Option E
  pub ask_lookupds : W → List ℕ → List (List ℕ) → W × List (Answer E (List (Producer V)))
  pub ask_nsqds : W → List (List ℕ) → W × List (Nsqd E)
  pub ask_topic_nsqds : W → List ℕ → List (List ℕ) → W × List (Nsqd E)

-- The error of an action: nil, a PartialErr, or the error of a query that nobody answered.
pub data Outcome (E : Type 0) : Type 0 where
  no_error : Outcome E
  partial_err query_failed : List E → Outcome E

abbrev pub outcome : {E : Type 0} → List E → Outcome E
outcome [] = no_error
outcome (e ∷ errs) = partial_err (e ∷ errs)

abbrev pub add_err : {E : Type 0} → Option E → List E → List E
add_err none errs = errs
add_err (some e) errs = e ∷ errs

module _ {W E V : Type 0} (client : Client W E V) where
  -- The loops over the addresses and over the producers; they return the errors.
  unfoldable pub nsqlookupd_post : W → List (List ℕ) → List ℕ → List ℕ → W × List E
  nsqlookupd_post w [] uri qs = (w, [])
  nsqlookupd_post w (addr ∷ addrs) uri qs =
      let (w₁, err) = client.post w (endpoint addr uri qs) in
      let (w₂, errs) = nsqlookupd_post w₁ addrs uri qs in (w₂, add_err err errs)

  unfoldable pub producers_post : W → List (Producer V) → List ℕ → List ℕ → W × List E
  producers_post w [] uri qs = (w, [])
  producers_post w (p ∷ pl) uri qs =
      let (w₁, err) = client.post w (endpoint (http_address p) uri qs) in
      let (w₂, errs) = producers_post w₁ pl uri qs in (w₂, add_err err errs)

  module _ (semver : Semver V) where
    unfoldable pub get_topic_producers :
        W → List ℕ → List (List ℕ) → List (List ℕ) → W × Gathered E (List (Producer V))
    get_topic_producers w topic lookupd_addrs nsqd_addrs =
        let (w₁, answers) = client.ask_lookupds w topic lookupd_addrs in
        let (w₂, nsqds) = client.ask_topic_nsqds w topic nsqd_addrs in
        if length lookupd_addrs == 0
        then (w₂, get_nsqd_topic_producers semver topic nsqds)
        else (w₁, get_lookupd_topic_producers answers)

    -- The end of the actions that start with GetTopicProducers.
    abbrev pub act :
        List (List ℕ) → List ℕ → List ℕ → W × Gathered E (List (Producer V)) → W × Outcome E
    act lookupd_addrs uri qs (w, none_answered errs) = (w, query_failed errs)
    act lookupd_addrs uri qs (w, gathered producers errs) =
        let (w₁, errs₁) = nsqlookupd_post w lookupd_addrs uri qs in
        let (w₂, errs₂) = producers_post w₁ producers uri qs in
        (w₂, outcome (errs ++ errs₁ ++ errs₂))

    unfoldable pub delete_topic : W → List ℕ → List (List ℕ) → List (List ℕ) → W × Outcome E
    delete_topic w topic lookupd_addrs nsqd_addrs =
        act lookupd_addrs topic_delete (topic_query topic)
          (get_topic_producers w topic lookupd_addrs nsqd_addrs)

    unfoldable pub delete_channel :
        W → List ℕ → List ℕ → List (List ℕ) → List (List ℕ) → W × Outcome E
    delete_channel w topic channel lookupd_addrs nsqd_addrs =
        act lookupd_addrs channel_delete (channel_query topic channel)
          (get_topic_producers w topic lookupd_addrs nsqd_addrs)

    abbrev pub act_on_producers :
        List ℕ → List ℕ → W × Gathered E (List (Producer V)) → W × Outcome E
    act_on_producers uri qs (w, none_answered errs) = (w, query_failed errs)
    act_on_producers uri qs (w, gathered producers errs) =
        let (w₁, errs₁) = producers_post w producers uri qs in (w₁, outcome (errs ++ errs₁))

    unfoldable pub action_helper :
        W → List ℕ → List (List ℕ) → List (List ℕ) → List ℕ → List ℕ → W × Outcome E
    action_helper w topic lookupd_addrs nsqd_addrs uri qs =
        act_on_producers uri qs (get_topic_producers w topic lookupd_addrs nsqd_addrs)

    unfoldable pub pause_topic : W → List ℕ → List (List ℕ) → List (List ℕ) → W × Outcome E
    pause_topic w topic lookupd_addrs nsqd_addrs =
        action_helper w topic lookupd_addrs nsqd_addrs topic_pause (topic_query topic)

    unfoldable pub un_pause_topic : W → List ℕ → List (List ℕ) → List (List ℕ) → W × Outcome E
    un_pause_topic w topic lookupd_addrs nsqd_addrs =
        action_helper w topic lookupd_addrs nsqd_addrs topic_unpause (topic_query topic)

    unfoldable pub empty_topic : W → List ℕ → List (List ℕ) → List (List ℕ) → W × Outcome E
    empty_topic w topic lookupd_addrs nsqd_addrs =
        action_helper w topic lookupd_addrs nsqd_addrs topic_empty (topic_query topic)

    unfoldable pub pause_channel :
        W → List ℕ → List ℕ → List (List ℕ) → List (List ℕ) → W × Outcome E
    pause_channel w topic channel lookupd_addrs nsqd_addrs =
        action_helper w topic lookupd_addrs nsqd_addrs channel_pause (channel_query topic channel)

    unfoldable pub un_pause_channel :
        W → List ℕ → List ℕ → List (List ℕ) → List (List ℕ) → W × Outcome E
    un_pause_channel w topic channel lookupd_addrs nsqd_addrs =
        action_helper w topic lookupd_addrs nsqd_addrs channel_unpause (channel_query topic channel)

    unfoldable pub empty_channel :
        W → List ℕ → List ℕ → List (List ℕ) → List (List ℕ) → W × Outcome E
    empty_channel w topic channel lookupd_addrs nsqd_addrs =
        action_helper w topic lookupd_addrs nsqd_addrs channel_empty (channel_query topic channel)

    -- The end of TombstoneNodeForTopic and of CreateTopicChannel, after a query.
    abbrev pub finish_on_producers :
        List E → List ℕ → List ℕ → W × Gathered E (List (Producer V)) → W × Outcome E
    finish_on_producers before uri qs (w, none_answered errs) = (w, query_failed errs)
    finish_on_producers before uri qs (w, gathered producers errs) =
        let (w₁, errs₁) = producers_post w producers uri qs in
        (w₁, outcome (before ++ errs ++ errs₁))

    unfoldable pub tombstone_node_for_topic : W → List ℕ → List ℕ → List (List ℕ) → W × Outcome E
    tombstone_node_for_topic w topic node lookupd_addrs =
        let (w₁, errs) = nsqlookupd_post w lookupd_addrs topic_tombstone (node_query topic node) in
        let (w₂, nsqds) = client.ask_nsqds w₁ (node ∷ []) in
        finish_on_producers errs topic_delete (topic_query topic)
          (w₂, get_nsqd_producers semver nsqds)

    unfoldable pub create_topic_channel : W → List ℕ → List ℕ → List (List ℕ) → W × Outcome E
    create_topic_channel w topic channel lookupd_addrs =
        let (w₁, errs₁) = nsqlookupd_post w lookupd_addrs topic_create (topic_query topic) in
        let qs = channel_query topic channel in
        let (w₂, errs₂) = nsqlookupd_post w₁ lookupd_addrs channel_create qs in
        let (w₃, answers) = client.ask_lookupds w₂ topic lookupd_addrs in
        if length channel == 0
        then (w₁, outcome errs₁)
        else finish_on_producers (errs₁ ++ errs₂) channel_create qs
            (w₃, get_lookupd_topic_producers answers)
