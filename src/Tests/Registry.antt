-- ===== src/Tests/Registry.antt =====
-- nsqlookupd with one producer.
use nsq.Common.{
  ltb, ℕ, ◌+◌, ◌≡◌, ◌≢◌, bytes_beq_iff, refl, false, List, [], ◌∷◌, Option, none, some, arith,
  if◌then◌else◌, bytes_beq,
}
use nsq.Lookupd.Db.{
  Registration, registration_beq, PeerInfo, Producer, RegistrationDb, registration, star, tombstone,
  is_tombstoned, registration_eq,
}
use nsq.Lookupd.Db.Laws.{producer_at}
use nsq.Common.Map.{lookup}
use nsq.Protocol.Names.{is_valid_name}
use nsq.Lookupd.Http.Tombstone.{tombstone_producers, marked_entry, tombstone_producers_lem}
use nsq.Lookupd.Session.{
  topic_category, Lookupd, Client, Json, blank_peer, disconnect, unregister, get_topic_chan,
  response, ok_bytes,
}
use nsq.Lookupd.Session.Cleanup.{disconnect_lem}
use nsq.Lookupd.Session.Identify.{exec, unregister_name}
use nsq.Lookupd.Session.Others.{exec-others}

abbrev host : List ℕ
host = b'h' ∷ b'1' ∷ []

abbrev peers : ℕ → PeerInfo
peers x = blank_peer host

abbrev producer : Producer
producer = record { peer_info = 0; tombstoned = false; tombstoned_at = 0 }

abbrev topic : Registration
topic = registration (b't' ∷ []) (b'a' ∷ []) []

abbrev db : RegistrationDb
db = record { registration_map = (topic, (host, producer) ∷ []) ∷ [] }

abbrev fresh_db : RegistrationDb
fresh_db = record { registration_map = [] }

abbrev daemon : Lookupd
daemon = record { db = db; peers = peers; next_peer = 1 }

abbrev client : Option ℕ → Client
client peer = record { peer_info = peer; remote_address = host }

-- A decoder that refuses everything.
abbrev strict : Json
strict = record { unmarshal = λ bytes p. none; answer = [] }

disconnect_lem_example :
    ((k : Registration) (id' : List ℕ)
      → producer_at (disconnect daemon (client (some 0))).db k id'
        ≡ (if bytes_beq host id' then none else producer_at db k id'))
    × ((disconnect daemon (client (some 0))).peers ≡ peers)
disconnect_lem_example = disconnect_lem daemon (client (some 0)) 0 refl

other_host : host ≢ b'h' ∷ b'2' ∷ []
other_host e = ground (arith, (bytes_beq_iff host (b'h' ∷ b'2' ∷ [])).1 e)

abbrev unregister_all : List (List ℕ)
unregister_all = unregister_name ∷ (b'a' ∷ []) ∷ []

abbrev left : Lookupd
left = (unregister daemon (client (some 0)) ((b'a' ∷ []) ∷ [])).0

-- The client is registered as h1, and leaves the entries of h2 alone.
exec-others_example : producer_at left.db topic (b'h' ∷ b'2' ∷ []) ≡ none
unfolding exec unregister get_topic_chan is_valid_name lookup
exec-others_example =
    exec-others strict daemon (client (some 0)) [] 5 unregister_all left (client (some 0)) []
      (response ok_bytes) (b'h' ∷ b'2' ∷ []) topic refl (λ peer e same. absurd (other_host same))

abbrev this_host : List ℕ
this_host = b':' ∷ b'0' ∷ []

not_star : b'a' ∷ [] ≢ star
not_star e = ground (arith, (bytes_beq_iff (b'a' ∷ []) star).1 e)

tombstone_producers_lem_example :
    (producer_at (tombstone_producers peers this_host 5 db (b'a' ∷ [])) topic host ≡ (
      if registration_beq (registration topic_category (b'a' ∷ []) []) topic
      then marked_entry peers this_host 5 (producer_at db topic host)
      else producer_at db topic host))
    × (is_tombstoned (tombstone producer 5) 8 3 ≡ ltb 8 (5 + 3))
tombstone_producers_lem_example =
    tombstone_producers_lem peers this_host 5 db (b'a' ∷ []) topic host producer 8 3 not_star
      (omega arith)
