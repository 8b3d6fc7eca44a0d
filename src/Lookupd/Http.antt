-- ===== src/Lookupd/Http.antt =====
-- nsqlookupd/http.go: the handlers over the registration database, and GetTopicChannelArgs of
-- internal/http_api/topic_channel_args.go. A request is what its query gives for each
-- key, or nothing when the query or the body cannot be read. doLookup calls FindRegistlrations, which no file declares;
-- FindRegistrations is taken for it. doNodes, doDebug, routing and JSON are not modelled.

pub mod Deleted
pub mod Tombstone
use nsq.Common.{
  ℕ, ◌+◌, ◌-◌, ◌<◌, Bool, true, false, not, ◌&&◌, ◌||◌, List, [], ◌∷◌, ◌++◌, Option, none, some,
  if◌then◌else◌, Eq, ◌==◌, nat_eq, bytes_eq, length,
}
use nsq.Common.Map.{lookup, insert}
use nsq.Stringy.{contains}
use nsq.Protocol.Names.{is_valid_name}
use nsq.Lookupd.Db.{
  Registration, registration_eq, PeerInfo, Producer, ProducerMap, RegistrationDb, registration,
  star, need_filter, is_match, add_registration, remove_registration, find_registrations,
  find_producers, filter_by_active, tombstone, or_empty,
}
use nsq.Lookupd.Session.{topic_category, channel_category}

pub data HttpErr : Type 0 where
  invalid_request missing_arg_topic invalid_arg_topic missing_arg_channel invalid_arg_channel
        missing_arg_node topic_not_found channel_not_found :
      HttpErr

-- What ReqParams.Get gives for a key.
abbrev pub Query : Type 0
Query = List (List ℕ × List ℕ)

pub data Parsed (A : Type 0) : Type 0 where
  parsed : A → Parsed A
  rejected : HttpErr → Parsed A

abbrev pub channel_key : List ℕ
channel_key = channel_category

abbrev pub node_key : List ℕ
node_key = b'n' ∷ b'o' ∷ b'd' ∷ b'e' ∷ []

abbrev pub or_reject : {A : Type 0} → HttpErr → Option A → Parsed A
or_reject e none = rejected e
or_reject e (some a) = parsed a

abbrev pub and_then : {A C : Type 0} → Parsed A → (A → Parsed C) → Parsed C
and_then (rejected e) f = rejected e
and_then (parsed a) f = f a

abbrev checked : HttpErr → List ℕ → Parsed (List ℕ)
checked e name = if is_valid_name name then parsed name else rejected e

-- NewReqParams and Get("topic").
unfoldable pub topic_arg : Option Query → Parsed (List ℕ)
topic_arg q =
    and_then (or_reject invalid_request q)
      λ p. or_reject missing_arg_topic (lookup topic_category p)

unfoldable pub get_topic_channel_args : Query → Parsed (List ℕ × List ℕ)
get_topic_channel_args q = and_then (or_reject missing_arg_topic (lookup topic_category q)) λ topic.
    and_then (checked invalid_arg_topic topic) λ topic.
      and_then (or_reject missing_arg_channel (lookup channel_key q))
        λ channel. and_then (checked invalid_arg_channel channel) λ channel. parsed (topic, channel)

-- The methods Keys and SubKeys.
abbrev pub keys : List Registration → List (List ℕ)
keys [] = []
keys (k ∷ ks) = k.key ∷ keys ks

abbrev pub sub_keys : List Registration → List (List ℕ)
sub_keys [] = []
sub_keys (k ∷ ks) = k.sub_key ∷ sub_keys ks

abbrev pub peer_infos : List Producer → List ℕ
peer_infos [] = []
peer_infos (p ∷ ps) = p.peer_info ∷ peer_infos ps

unfoldable pub do_topics : RegistrationDb → List (List ℕ)
do_topics db = keys (find_registrations db topic_category star [])

unfoldable pub do_channels : RegistrationDb → Option Query → Parsed (List (List ℕ))
do_channels db q =
    and_then (topic_arg q)
      λ topic. parsed (sub_keys (find_registrations db channel_category topic star))

-- The channels of the topic, and the peers of its producers.
unfoldable pub do_lookup :
    (ℕ → PeerInfo) → RegistrationDb → ℕ → ℕ → ℕ → Option Query → Parsed (List (List ℕ) × List ℕ)
do_lookup peers db now inactivity_timeout tombstone_lifetime q = and_then (topic_arg q) λ topic.
    let found = find_registrations db topic_category topic [] in
    let channels = sub_keys (find_registrations db channel_category topic star) in
    let producers = find_producers peers db topic_category topic [] in
    let active = filter_by_active peers producers now inactivity_timeout tombstone_lifetime in
    if length found == 0 then rejected topic_not_found else parsed (channels, peer_infos active)

unfoldable pub do_create_topic : RegistrationDb → Option Query → Parsed RegistrationDb
do_create_topic db q = and_then (topic_arg q) λ topic.
    and_then (checked invalid_arg_topic topic)
      λ topic. parsed (add_registration db (registration topic_category topic []))

-- RemoveRegistration of each in turn.
unfoldable pub remove_all : RegistrationDb → List Registration → RegistrationDb
remove_all db [] = db
remove_all db (k ∷ ks) = remove_all (remove_registration db k) ks

unfoldable pub delete_topic : RegistrationDb → List ℕ → RegistrationDb
delete_topic db topic =
    let left = remove_all db (find_registrations db channel_category topic star) in
    remove_all left (find_registrations left topic_category topic [])

unfoldable pub do_delete_topic : RegistrationDb → Option Query → Parsed RegistrationDb
do_delete_topic db q = and_then (topic_arg q) λ topic. parsed (delete_topic db topic)

unfoldable pub do_create_channel : RegistrationDb → Option Query → Parsed RegistrationDb
do_create_channel db q = and_then (or_reject invalid_request q) λ p.
    and_then (get_topic_channel_args p) λ (topic, channel).
      let with_channel = add_registration db (registration channel_category topic channel) in
      parsed (add_registration with_channel (registration topic_category topic []))

unfoldable pub do_delete_channel : RegistrationDb → Option Query → Parsed RegistrationDb
do_delete_channel db q = and_then (or_reject invalid_request q) λ p.
    and_then (get_topic_channel_args p) λ (topic, channel).
      let found = find_registrations db channel_category topic channel in
      if length found == 0 then rejected channel_not_found else parsed (remove_all db found)
