-- ===== src/Lookupd/Session.antt =====
-- nsqlookupd/lookup_protocol_v1.go: the commands of a client and the end of its connection.
-- A client is known by its peer info, a pointer, or `none` before IDENTIFY. Logging is left out;
-- `none` as the result of a command is a panic.
pub mod Cleanup
pub mod Identify
pub mod Entries
pub mod Others
use nsq.Common.{
  ℕ, ◌+◌, ◌-◌, ◌*◌, ◌%◌, ◌<◌, ◌≡◌, Bool, true, false, not, ◌&&◌, ◌||◌, List, [], ◌∷◌, ◌++◌, Option,
  none, some, ltb, leb, if◌then◌else◌, Eq, ◌==◌, nat_eq, bytes_eq, length, drop,
}
use nsq.Protocol.{
  Code, ClientErr, fatal_client_err, is_fatal, e_invalid, e_bad_topic, e_bad_channel, e_bad_body,
}
use nsq.Protocol.Names.{is_valid_name, is_ephemeral}
use nsq.Protocol.Reader.{read_full, read_len, negative32}
use nsq.Lookupd.Db.{
  Registration, PeerInfo, Producer, RegistrationDb, registration, star, add_producer,
  remove_producer, remove_registration, find_registrations, lookup_registrations,
}

-- The daemon: its database, and the heap of peer infos, of which `next_peer` are in use.
pub record Lookupd : Type 0 where
  pub db : RegistrationDb
  pub peers : ℕ → PeerInfo
  pub next_peer : ℕ

pub record Client : Type 0 where
  pub peer_info : Option ℕ
  pub remote_address : List ℕ

pub data Reply : Type 0 where
  response : List ℕ → Reply
  failed : ClientErr → Reply

abbrev pub ok_bytes : List ℕ
ok_bytes = b'O' ∷ b'K' ∷ []

abbrev pub topic_category : List ℕ
topic_category = b't' ∷ b'o' ∷ b'p' ∷ b'i' ∷ b'c' ∷ []

abbrev pub channel_category : List ℕ
channel_category = b'c' ∷ b'h' ∷ b'a' ∷ b'n' ∷ b'n' ∷ b'e' ∷ b'l' ∷ []

abbrev pub client_category : List ℕ
client_category = b'c' ∷ b'l' ∷ b'i' ∷ b'e' ∷ b'n' ∷ b't' ∷ []

pub data TopicChan : Type 0 where
  names : List ℕ → List ℕ → TopicChan
  refused : ClientErr → TopicChan

-- The checks of getTopicChan; no channel is the empty name.
abbrev pub check_names : List ℕ → List ℕ → TopicChan
check_names topic channel =
    if not (is_valid_name topic)
    then refused (fatal_client_err e_bad_topic)
    else if not (channel == []) && not (is_valid_name channel)
    then refused (fatal_client_err e_bad_channel)
    else names topic channel

unfoldable pub get_topic_chan : List (List ℕ) → TopicChan
get_topic_chan [] = refused (fatal_client_err e_invalid)
get_topic_chan (topic ∷ []) = check_names topic []
get_topic_chan (topic ∷ channel ∷ rest) = check_names topic channel

abbrev pub producer_of : ℕ → Producer
producer_of peer = record { peer_info = peer; tombstoned = false; tombstoned_at = 0 }

unfoldable pub register_names : Lookupd → ℕ → List ℕ → List ℕ → Lookupd
register_names d peer topic channel =
    let p = producer_of peer in
    let with_channel =
      if channel == []
      then d.db
      else (add_producer d.peers d.db (registration channel_category topic channel) p).0 in
    record d { db = (add_producer d.peers with_channel (registration topic_category topic []) p).0 }

abbrev pub register_checked : Lookupd → ℕ → TopicChan → Lookupd × Reply
register_checked d peer (refused e) = (d, failed e)
register_checked d peer (names topic channel) =
    (register_names d peer topic channel, response ok_bytes)

unfoldable pub register : Lookupd → Client → List (List ℕ) → Lookupd × Reply
register d client params = elim client.peer_info [
  | none ↦ (d, failed (fatal_client_err e_invalid))
  | some peer ↦ register_checked d peer (get_topic_chan params)
]

-- The producer leaves each of the registrations.
unfoldable pub remove_from_all : RegistrationDb → List Registration → List ℕ → RegistrationDb
remove_from_all db [] id = db
remove_from_all db (k ∷ ks) id = remove_from_all (remove_producer db k id).0 ks id

-- An ephemeral topic or channel goes with its last producer.
unfoldable pub unregister_key : RegistrationDb → Registration → List ℕ → List ℕ → RegistrationDb
unregister_key db k id name =
    let (left_db, removed, left) = remove_producer db k id in
    if left == 0 && is_ephemeral name then remove_registration left_db k else left_db

unfoldable pub unregister_names : RegistrationDb → List ℕ → List ℕ → List ℕ → RegistrationDb
unregister_names db id topic channel =
    if channel == []
    then unregister_key (remove_from_all db (find_registrations db channel_category topic star) id)
        (registration topic_category topic []) id topic
    else unregister_key db (registration channel_category topic channel) id channel

abbrev pub unregister_checked : Lookupd → ℕ → TopicChan → Lookupd × Reply
unregister_checked d peer (refused e) = (d, failed e)
unregister_checked d peer (names topic channel) =
    (record d { db = unregister_names d.db (d.peers peer).id topic channel }, response ok_bytes)

unfoldable pub unregister : Lookupd → Client → List (List ℕ) → Lookupd × Reply
unregister d client params = elim client.peer_info [
  | none ↦ (d, failed (fatal_client_err e_invalid))
  | some peer ↦ unregister_checked d peer (get_topic_chan params)
]

-- A PING of a client that did not IDENTIFY does nothing.
unfoldable pub ping : Lookupd → Client → ℕ → Lookupd × Reply
ping d client now = elim client.peer_info [
  | none ↦ (d, response ok_bytes)
  | some peer ↦ (
    record d {
      peers = λ x. if peer == x then record (d.peers x) { last_update = now } else d.peers x;
    },
    response ok_bytes,
  )
]

-- json.Unmarshal of a body into a peer info with its id set, and the answer to IDENTIFY.
pub record Json : Type 0 where
  pub unmarshal : List ℕ → PeerInfo → Option PeerInfo
  pub answer : List ℕ

abbrev pub blank_peer : List ℕ → PeerInfo
blank_peer id = record {
  last_update = 0;
  id = id;
  remote_address = [];
  hostname = [];
  broadcast_address = [];
  tcp_port = 0;
  http_port = 0;
  version = [];
}

abbrev pub has_missing_fields : PeerInfo → Bool
has_missing_fields p =
    (p.broadcast_address == []) || ((p.tcp_port == 0) || ((p.http_port == 0) || (p.version == [])))

-- What a command does: the daemon, the client, its input that is left, and the reply.
abbrev pub Done : Type 0
Done = Lookupd × Client × List ℕ × Reply

module _ (json : Json) where
  -- From the decoded body on.
  unfoldable pub identify_peer : Lookupd → Client → List ℕ → ℕ → Option PeerInfo → Done
  identify_peer d client rest now none = (d, client, rest, failed (fatal_client_err e_bad_body))
  identify_peer d client rest now (some decoded) =
      let info = record decoded { remote_address = client.remote_address; last_update = now } in
      let grown = λ (x : ℕ). if d.next_peer == x then info else d.peers x in
      let added =
        add_producer grown d.db (registration client_category [] []) (producer_of d.next_peer) in
      if has_missing_fields info then (d, client, rest, failed (fatal_client_err e_bad_body)) else (
        record { db = added.0; peers = grown; next_peer = d.next_peer + 1 },
        record client { peer_info = some d.next_peer },
        rest,
        response json.answer,
      )

  -- From the read body on.
  abbrev pub identify_read : Lookupd → Client → ℕ → Option (List ℕ × List ℕ) → Done
  identify_read d client now none = (d, client, [], failed (fatal_client_err e_bad_body))
  identify_read d client now (some (bytes, rest)) =
      identify_peer d client rest now (json.unmarshal bytes (blank_peer client.remote_address))

  -- From the read length on; make([]byte, bodyLen) panics for a negative length.
  unfoldable pub identify_body : Lookupd → Client → ℕ → Option (ℕ × List ℕ) → Option Done
  identify_body d client now none = some (d, client, [], failed (fatal_client_err e_bad_body))
  identify_body d client now (some (body_len, input)) =
      if negative32 body_len
      then none
      else some (identify_read d client now (read_full body_len input))

  abbrev pub identify_new : Lookupd → Client → List ℕ → ℕ → Option ℕ → Option Done
  identify_new d client input now (some peer) =
      some (d, client, input, failed (fatal_client_err e_invalid))
  identify_new d client input now none = identify_body d client now (read_len input)

  unfoldable pub identify : Lookupd → Client → List ℕ → ℕ → Option Done
  identify d client input now = identify_new d client input now client.peer_info

abbrev pub leave : Lookupd → Option ℕ → Lookupd
leave d none = d
leave d (some peer) =
    let id = (d.peers peer).id in
    record d { db = remove_from_all d.db (lookup_registrations d.db id) id }

-- The end of a connection: the client's producers leave all registrations.
unfoldable pub disconnect : Lookupd → Client → Lookupd
disconnect d client = leave d client.peer_info
