-- ===== src/Lib.antt =====
-- Verification of nsq: the core of nsqd and of nsqlookupd.
--
-- nsqd takes messages from producers into topics, hands each to the channels of its topic, and
-- delivers the messages of a channel to its consumers, each message until a consumer finishes it.
-- nsqlookupd keeps which nsqd has which topics and channels. Paths are from the root of the repository.
--
--   Common          notation, lists, maps, and bytes in big-endian order
--   Nsqd.Guid       nsqd/guid.go: NewGUID is new_guid, guid.Hex is hex; GenerateID of nsqd/topic.go,
--                   which tries again after an error, is ids over the readings of the clock
--   Nsqd.Message    nsqd/message.go: WriteTo is write_to over any writer, decodeMessage is
--                   decode_message
--   Nsqd.InFlight   nsqd/in_flight_pqueue.go: the array and the index field of each message
--   Nsqd.Client     nsqd/client_v2.go: the counters and the state of a consumer; Settings has what
--                   IDENTIFY negotiates
--   Nsqd.Channel    nsqd/channel.go: the maps and queues of a channel; Scan has the calls that put
--                   messages into queues, the two scans, and the end of a channel; System has the steps
--                   of a channel in any order, as a relation
--   Nsqd.Deferred   internal/pqueue/pqueue.go under container/heap, which fills the interface
--                   DeferredQueue of the channel; Channel.Contract is what the channel relies on
--   Nsqd.Commands   nsqd/protocol_v2.go: the commands of a consumer, over Nsqd.Channel
--   Nsqd.Publish    nsqd/topic.go and nsqd/protocol_v2.go: the queue of a topic and the commands of a
--                   producer
--   Nsqd.Topic      nsqd/topic.go: the loop of messagePump that hands a message to each channel
--   Nsqd.Daemon     nsqd/nsqd.go and nsqd/topic.go: which topics and channels there are, the metadata
--                   that keeps them over a restart, and the number of workers that scan channels
--   Nsqd.Pump       nsqd/protocol_v2.go: a round of messagePump, which sends messages to a client
--   Nsqd.Lookup     nsqd/lookup.go and nsqd/lookup_peer.go: connections to nsqlookupds, and what is
--                   sent to them; Registered runs it against the handlers of nsqlookupd
--   Nsqd.Http       nsqd/http.go: the handlers that publish and administrate
--   Cluster         internal/clusterinfo: data.go and types.go. Gather has the queries for names,
--                   Producers and Nsqds those for producers, Stats the statistics, and Actions what
--                   nsqadmin changes by POSTs
--   Auth            internal/auth/authorizations.go
--   Protocol        internal/protocol: names, numbers, error values and lengths
--   Stringy         internal/stringy/slice.go
--   Lookupd         nsqlookupd/registration_db.go (Db), nsqlookupd/lookup_protocol_v1.go (Session) and
--                   nsqlookupd/http.go (Http)
--   Tests           the theorems on concrete inputs, and runs
--
-- State is passed explicitly: a method takes its receiver and returns it. A pointer to a message is
-- a number, and the heap of messages is a field of the channel, so that the map and the queue of a
-- channel share messages as in the code; a pointer to a peer info of nsqlookupd is a number too. An
-- error is a value, and a panic is `none`. Bytes are numbers; 64-bit counters and ids wrap. The clock
-- and what other parties send are arguments. A method that holds a mutex throughout runs as one
-- step; so does one that takes two in turn, which leaves out what another goroutine may do between.
--
-- Loops over data recurse on it. The loops of the priority queue and of the two scans run on fuel:
-- the length of the queue, or of the map that each round shrinks, and one more; resizePool on the
-- distance to its goal. The theorems on the queues and the scans say that a result is returned.
--
-- Goroutines that ask several servers take a lock for each answer: such a query is a function of
-- the answers in the order of the lock. The disk queue (BackendQueue), decoding of JSON, regular
-- expressions, semver, the commands of go-nsq, connections to nsqlookupd, and the answers of an
-- HTTP or auth server are parameters. container/heap is written out after its documented behaviour.
-- A send to the memory queue of a topic or channel succeeds when the buffer has room; a receiver
-- that waits at an unbuffered one is not modelled. Not modelled either: goroutines and their
-- channels, the loops that read and write connections, TLS and compression, HTTP below the
-- handlers, files, JSON, the statistics of nsqd, the health flag of the daemon, nsqadmin but for
-- internal/clusterinfo, and the programs under apps.
pub mod Auth
pub mod Cluster
pub mod Common
pub mod Lookupd
pub mod Nsqd
pub mod Protocol
pub mod Stringy
pub mod Tests
