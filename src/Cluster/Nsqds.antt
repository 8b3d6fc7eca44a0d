-- ===== src/Cluster/Nsqds.antt =====
-- internal/clusterinfo/data.go: the queries of the nsqds themselves for the producers, and the choice
-- between them and the nsqlookupds. An nsqd is asked for /info and /stats; where the code does not ask
-- for one of them, the answer is not used. An address is given by what net.SplitHostPort and
-- strconv.Atoi make of it.
use nsq.Common.{
  ℕ, false, List, [], ◌∷◌, ◌++◌, Option, none, some, ◌==◌, nat_eq, bytes_eq, if◌then◌else◌, length,
}
use nsq.Cluster.Gather.{Answer, failed, answered, Gathered, collect, conclude, Names}
use nsq.Cluster.Producers.{Producer, ProducerTopic, Semver, parsed}

-- What an nsqd answers to /info.
pub record Info : Type 0 where
  pub version : List ℕ
  pub broadcast_address : List ℕ
  pub hostname : List ℕ
  pub http_port : ℕ
  pub tcp_port : ℕ

-- One nsqd: the host and the port of its address, and its answers to /info and, for the names of
-- topics, /stats.
pub record Nsqd (E : Type 0) : Type 0 where
  pub host : List ℕ
  pub port : ℕ
  pub info : Answer E Info
  pub stats : Answer E Names

unfoldable pub producer_topics : Names → List ProducerTopic
producer_topics [] = []
producer_topics (t ∷ ts) = record { topic = t; tombstoned = false } ∷ producer_topics ts

-- The values of the address where those of the answer are missing.
unfoldable pub with_address : List ℕ → ℕ → Info → Info
with_address host port i =
    let i' =
      if i.broadcast_address == []
      then record i { broadcast_address = host; http_port = port }
      else i in
    if i.hostname == [] then record i' { hostname = host } else i'

abbrev pub append_found : {V : Type 0} → List (Producer V) → Option (Producer V) → List (Producer V)
append_found ps none = ps
append_found ps (some p) = ps ++ p ∷ []

module _ {V : Type 0} (semver : Semver V) where
  unfoldable pub producer_of : Info → Names → Producer V
  producer_of i topics = record {
    remote_addresses = [];
    remote_address = [];
    hostname = i.hostname;
    broadcast_address = i.broadcast_address;
    tcp_port = i.tcp_port;
    http_port = i.http_port;
    version = i.version;
    version_obj = parsed semver (semver.parse i.version);
    topics = producer_topics topics;
    out_of_date = false;
  }

  module _ {E : Type 0} where
    -- The goroutine of GetNSQDProducers, up to the lock.
    abbrev pub ask_nsqd : Answer E Info → Answer E Names → Answer E (Producer V)
    ask_nsqd (failed e) stats = failed e
    ask_nsqd (answered i) (failed e) = failed e
    ask_nsqd (answered i) (answered topics) = answered (producer_of i topics)

    abbrev pub ask_nsqds : List (Nsqd E) → List (Answer E (Producer V))
    ask_nsqds [] = []
    ask_nsqds (n ∷ nsqds) = ask_nsqd n.info n.stats ∷ ask_nsqds nsqds

    unfoldable pub get_nsqd_producers : List (Nsqd E) → Gathered E (List (Producer V))
    get_nsqd_producers nsqds =
        let (producers, errs) = collect (λ ps p. ps ++ p ∷ []) [] [] (ask_nsqds nsqds) in
        conclude (length nsqds) producers errs

    abbrev pub ask_info : List ℕ → ℕ → Names → Answer E Info → Answer E (Option (Producer V))
    ask_info host port topics (failed e) = failed e
    ask_info host port topics (answered i) =
        answered (some (producer_of (with_address host port i) topics))

    -- The loop over the topics, which returns at the first that has the name.
    unfoldable pub find_topic :
        List ℕ → List ℕ → ℕ → Names → Names → Answer E Info → Answer E (Option (Producer V))
    find_topic topic host port topics [] info = answered none
    find_topic topic host port topics (t ∷ ts) info =
        let rest = find_topic topic host port topics ts info in
        if t == topic then ask_info host port topics info else rest

    -- The goroutine of GetNSQDTopicProducers, up to the lock.
    abbrev pub ask_nsqd_topic :
        List ℕ → List ℕ → ℕ → Answer E Info → Answer E Names → Answer E (Option (Producer V))
    ask_nsqd_topic topic host port info (failed e) = failed e
    ask_nsqd_topic topic host port info (answered topics) =
        find_topic topic host port topics topics info

    abbrev pub ask_nsqds_topic : List ℕ → List (Nsqd E) → List (Answer E (Option (Producer V)))
    ask_nsqds_topic topic [] = []
    ask_nsqds_topic topic (n ∷ nsqds) =
        ask_nsqd_topic topic n.host n.port n.info n.stats ∷ ask_nsqds_topic topic nsqds

    unfoldable pub get_nsqd_topic_producers :
        List ℕ → List (Nsqd E) → Gathered E (List (Producer V))
    get_nsqd_topic_producers topic nsqds =
        let (producers, errs) = collect append_found [] [] (ask_nsqds_topic topic nsqds) in
        conclude (length nsqds) producers errs
