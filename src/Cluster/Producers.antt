-- ===== src/Cluster/Producers.antt =====
-- internal/clusterinfo/types.go and data.go: the nsqds that the nsqlookupds know. A producer of Go is
-- behind a pointer: those of one query are held by their TCP address, in the order in which they were
-- found. JSON's null for a producer is left out, and so is what a GET asks for: an answer is what
-- json.Unmarshal makes of it, with the address that gave it. semver is a parameter.
use nsq.Common.{
  ℕ, Bool, true, false, not, ◌||◌, List, [], ◌∷◌, ◌++◌, Option, none, some, ◌==◌, nat_eq, bytes_eq,
  if◌then◌else◌, length,
}
use nsq.Common.Decimal.{itoa}
use nsq.Common.Map.{lookup, insert}
use nsq.Stringy.{contains}
use nsq.Cluster.Sort.{bytes_less, sort_by}
use nsq.Cluster.Gather.{Answer, Gathered, collect, conclude}

pub record ProducerTopic : Type 0 where
  pub topic : List ℕ
  pub tombstoned : Bool

-- An int is its 64-bit pattern.
pub record Producer (V : Type 0) : Type 0 where
  pub remote_addresses : List (List ℕ)
  pub remote_address : List ℕ
  pub hostname : List ℕ
  pub broadcast_address : List ℕ
  pub tcp_port : ℕ
  pub http_port : ℕ
  pub version : List ℕ
  pub version_obj : V
  pub topics : List ProducerTopic
  pub out_of_date : Bool

-- The Less of ProducerTopics.
abbrev pub topic_less : ProducerTopic → ProducerTopic → Bool
topic_less s t = bytes_less s.topic t.topic

-- What the answers hold of a producer.
pub record Reported : Type 0 where
  pub remote_address : List ℕ
  pub hostname : List ℕ
  pub broadcast_address : List ℕ
  pub tcp_port : ℕ
  pub http_port : ℕ
  pub version : List ℕ
  pub topics : List (List ℕ)
  pub tombstoned : List Bool

-- github.com/blang/semver: Parse, LT and the version 0.0.0.
pub record Semver (V : Type 0) : Type 0 where
  pub parse : List ℕ → Option V
  pub lt : V → V → Bool
  pub zero_version : V

-- The loop of UnmarshalJSON over the topics; `none` is the panic where r.Tombstoned is shorter.
unfoldable pub topics_of : List (List ℕ) → List Bool → Option (List ProducerTopic)
topics_of [] tombstoned = some []
topics_of (t ∷ ts) [] = none
topics_of (t ∷ ts) (b ∷ bs) = elim (topics_of ts bs) [
  | none ↦ none
  | some rest ↦ some (record { topic = t; tombstoned = b } ∷ rest)
]

module _ {V : Type 0} (semver : Semver V) where
  -- semver.Parse, with 0.0.0 for what it refuses.
  abbrev pub parsed : Option V → V
  parsed none = semver.zero_version
  parsed (some v) = v

  unfoldable pub unmarshal_producer : Reported → Option (Producer V)
  unmarshal_producer r = elim (topics_of r.topics r.tombstoned) [
    | none ↦ none
    | some topics ↦ some (record {
      remote_addresses = [];
      remote_address = r.remote_address;
      hostname = r.hostname;
      broadcast_address = r.broadcast_address;
      tcp_port = r.tcp_port;
      http_port = r.http_port;
      version = r.version;
      version_obj = parsed (semver.parse r.version);
      topics = topics;
      out_of_date = false;
    })
  ]

-- net.JoinHostPort.
unfoldable pub join_host_port : List ℕ → List ℕ → List ℕ
join_host_port host port =
    if contains host b':' then b'[' ∷ host ++ b']' ∷ b':' ∷ port else host ++ b':' ∷ port

module _ {V : Type 0} where
  -- "N/A" if there is none.
  unfoldable pub address : Producer V → List ℕ
  address p = if p.remote_address == [] then b'N' ∷ b'/' ∷ b'A' ∷ [] else p.remote_address

  unfoldable pub http_address : Producer V → List ℕ
  http_address p = join_host_port p.broadcast_address (itoa p.http_port)

  unfoldable pub tcp_address : Producer V → List ℕ
  tcp_address p = join_host_port p.broadcast_address (itoa p.tcp_port)

  unfoldable pub is_inconsistent : Producer V → ℕ → Bool
  is_inconsistent p num_lookupd = not (length p.remote_addresses == num_lookupd)

  unfoldable pub http_addrs : List (Producer V) → List (List ℕ)
  http_addrs [] = []
  http_addrs (p ∷ ps) = http_address p ∷ http_addrs ps

  unfoldable pub search : List (Producer V) → List ℕ → Option (Producer V)
  search [] needle = none
  search (p ∷ ps) needle = if needle == http_address p then some p else search ps needle

  -- The Less of ProducersByHost.
  abbrev pub host_less : Producer V → Producer V → Bool
  host_less p q = bytes_less p.hostname q.hostname

-- The producers of GetLookupdProducers by their TCP address, and the greatest version among them.
pub record Found (V : Type 0) : Type 0 where
  pub producers_by_addr : List (List ℕ × Producer V)
  pub max_version : V

module _ {V : Type 0} (semver : Semver V) where
  -- An answer adds `addr`, and the address of the nsqd, to the remote addresses of each producer.
  abbrev pub with_remote : List ℕ → Producer V → Producer V → Producer V
  with_remote addr producer p = record p {
    remote_addresses = p.remote_addresses ++ (addr ++ b'/' ∷ address producer) ∷ [];
  }

  abbrev pub add_found : List ℕ → Producer V → Found V → Option (Producer V) → Found V
  add_found addr producer f (some p) = record f {
    producers_by_addr =
        insert (tcp_address producer) (with_remote addr producer p) f.producers_by_addr;
  }
  add_found addr producer f none =
      let p = record producer { topics = sort_by topic_less producer.topics } in
      record {
        producers_by_addr =
            insert (tcp_address producer) (with_remote addr producer p) f.producers_by_addr;
        max_version =
            if semver.lt f.max_version producer.version_obj
            then producer.version_obj
            else f.max_version;
      }

  -- The loop over the producers of one answer.
  unfoldable pub add_producers : List ℕ → Found V → List (Producer V) → Found V
  add_producers addr f [] = f
  add_producers addr f (p ∷ ps) =
      add_producers addr (add_found addr p f (lookup (tcp_address p) f.producers_by_addr)) ps

  -- The loop that marks the producers below the greatest version.
  unfoldable pub mark : V → List (List ℕ × Producer V) → List (Producer V)
  mark max_version [] = []
  mark max_version ((key, p) ∷ m) =
      let p' = if semver.lt p.version_obj max_version then record p { out_of_date = true } else p in
      p' ∷ mark max_version m

  module _ {E : Type 0} where
    unfoldable pub get_lookupd_producers :
        List (Answer E (List ℕ × List (Producer V))) → Gathered E (List (Producer V))
    get_lookupd_producers answers =
        let start : Found V = record {
          producers_by_addr = [];
          max_version = semver.zero_version;
        } in
        let (found, errs) =
          collect (λ f answer. add_producers answer.0 f answer.1) start [] answers in
        conclude (length answers)
          (sort_by host_less (mark found.max_version found.producers_by_addr)) errs

module _ {V : Type 0} where
  -- The loops over the producers of one answer and over those found before.
  unfoldable pub is_known : List (Producer V) → Producer V → Bool
  is_known [] p = false
  is_known (pp ∷ producers) p = (http_address p == http_address pp) || is_known producers p

  unfoldable pub add_unknown : List (Producer V) → List (Producer V) → List (Producer V)
  add_unknown producers [] = producers
  add_unknown producers (p ∷ ps) =
      add_unknown (if is_known producers p then producers else producers ++ p ∷ []) ps

  module _ {E : Type 0} where
    unfoldable pub get_lookupd_topic_producers :
        List (Answer E (List (Producer V))) → Gathered E (List (Producer V))
    get_lookupd_topic_producers answers =
        let (producers, errs) = collect add_unknown [] [] answers in
        conclude (length answers) producers errs
