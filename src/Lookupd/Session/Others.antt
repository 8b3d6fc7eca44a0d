-- ===== src/Lookupd/Session/Others.antt =====
-- What a command of one client leaves of the registrations of the others.
use nsq.Common.{
  ℕ, ◌≡◌, ◌≢◌, refl, ap, List, [], ◌∷◌, Option, none, some, if◌then◌else◌, ◌==◌, nat_eq, bytes_eq,
  Option-cases, Bool-cases, inl, inr, subst,
}
use nsq.Lookupd.Db.{Registration, registration_eq, PeerInfo, RegistrationDb, registration}
use nsq.Lookupd.Db.Laws.{producer_at}
use nsq.Lookupd.Session.{
  Lookupd, Client, Json, Done, TopicChan, names, refused, client_category, producer_of,
  register_names, register_checked, register, unregister_checked, unregister, get_topic_chan,
  has_missing_fields, ping, identify_peer, identify_read, identify_body, identify_new, identify,
  blank_peer, Reply,
}
use nsq.Protocol.Reader.{read_len, read_full, negative32}
use nsq.Lookupd.Session.Identify.{exec, ping_name, identify_name, register_name, unregister_name}
use nsq.Lookupd.Session.Entries.{
  SameFor, add_producer-others, register_names-others, unregister_names-others,
}

-- The id under which the client is registered, after a command, is not `id'`.
abbrev pub IsOther : List ℕ → Lookupd → Client → Type 0
IsOther id' d client = (peer : ℕ) → client.peer_info ≡ some peer → (d.peers peer).id ≢ id'

-- The registrations under `id'` are the same in `d'`, if it is not the id of the client then.
abbrev pub Keeps : List ℕ → Lookupd → Lookupd → Client → Type 0
Keeps id' d d' client' = IsOther id' d' client' → SameFor id' d.db d'.db

register_checked-Keeps :
    (d : Lookupd) (client : Client) (peer : ℕ) (t : TopicChan) (id' : List ℕ)
    → client.peer_info ≡ some peer
    → Keeps id' d (register_checked d peer t).0 client
unfolding register_names
register_checked-Keeps d client peer (refused e) id' h = λ other k. refl
register_checked-Keeps d client peer (names topic channel) id' h =
    λ other k. register_names-others d peer topic channel id' (other peer h) k

register-new :
    (d : Lookupd) (client : Client) (params : List (List ℕ))
    → client.peer_info ≡ none
    → (register d client params).0 ≡ d
unfolding register
register-new d client params e = rw (e) refl

register-known :
    (d : Lookupd) (client : Client) (params : List (List ℕ)) (peer : ℕ)
    → client.peer_info ≡ some peer
    → (register d client params).0 ≡ (register_checked d peer (get_topic_chan params)).0
unfolding register
register-known d client params peer e = rw (e) refl

register-Keeps :
    (d : Lookupd) (client : Client) (params : List (List ℕ)) (id' : List ℕ)
    → Keeps id' d (register d client params).0 client
register-Keeps d client params id' = elim (Option-cases client.peer_info) [
  | inl none_yet ↦ rw (register-new d client params none_yet) (λ other k. refl)
  | inr (peer, h) ↦
      rw (register-known d client params peer h)
        (register_checked-Keeps d client peer (get_topic_chan params) id' h)
]

unregister_checked-Keeps :
    (d : Lookupd) (client : Client) (peer : ℕ) (t : TopicChan) (id' : List ℕ)
    → client.peer_info ≡ some peer
    → Keeps id' d (unregister_checked d peer t).0 client
unregister_checked-Keeps d client peer (refused e) id' h = λ other k. refl
unregister_checked-Keeps d client peer (names topic channel) id' h =
    λ other k. unregister_names-others d.db (d.peers peer).id topic channel id' (other peer h) k

unregister-new :
    (d : Lookupd) (client : Client) (params : List (List ℕ))
    → client.peer_info ≡ none
    → (unregister d client params).0 ≡ d
unfolding unregister
unregister-new d client params e = rw (e) refl

unregister-known :
    (d : Lookupd) (client : Client) (params : List (List ℕ)) (peer : ℕ)
    → client.peer_info ≡ some peer
    → (unregister d client params).0 ≡ (unregister_checked d peer (get_topic_chan params)).0
unfolding unregister
unregister-known d client params peer e = rw (e) refl

unregister-Keeps :
    (d : Lookupd) (client : Client) (params : List (List ℕ)) (id' : List ℕ)
    → Keeps id' d (unregister d client params).0 client
unregister-Keeps d client params id' = elim (Option-cases client.peer_info) [
  | inl none_yet ↦ rw (unregister-new d client params none_yet) (λ other k. refl)
  | inr (peer, h) ↦
      rw (unregister-known d client params peer h)
        (unregister_checked-Keeps d client peer (get_topic_chan params) id' h)
]

ping-db : (d : Lookupd) (client : Client) (now : ℕ) → (ping d client now).0.db ≡ d.db
unfolding ping
ping-db d client now = elim (Option-cases client.peer_info) [
  | inl none_yet ↦ rw (none_yet) refl
  | inr (peer, h) ↦ rw (h) refl
]

ping-Keeps :
    (d : Lookupd) (client : Client) (now : ℕ) (id' : List ℕ)
    → Keeps id' d (ping d client now).0 client
ping-Keeps d client now id' other k =
    ap (λ (db : RegistrationDb). producer_at db k id') (ping-db d client now)

abbrev DoneKeeps : List ℕ → Lookupd → Done → Type 0
DoneKeeps id' d (d', client', rest, reply) = Keeps id' d d' client'

identify_peer-Keeps :
    (json : Json) (d : Lookupd) (client : Client) (rest : List ℕ) (now : ℕ) (o : Option PeerInfo)
    (id' : List ℕ)
    → DoneKeeps id' d (identify_peer json d client rest now o)
unfolding identify_peer
identify_peer-Keeps json d client rest now none id' = λ other k. refl
identify_peer-Keeps json d client rest now (some decoded) id' =
    let info = record decoded { remote_address = client.remote_address; last_update = now } in
    let grown = λ (x : ℕ). if d.next_peer == x then info else d.peers x in
    elim (Bool-cases (has_missing_fields info)) [
      | inl missing ↦ rw missing (λ other k. refl)
      | inr complete ↦ rw complete (λ other k.
          add_producer-others grown d.db (registration client_category [] [])
            (producer_of d.next_peer) id' (other d.next_peer refl) k)
    ]

-- What a command that does not panic leaves.
abbrev OptionKeeps : List ℕ → Lookupd → Option Done → Type 0
OptionKeeps id' d none = Unit
OptionKeeps id' d (some done) = DoneKeeps id' d done

identify_read-Keeps :
    (json : Json) (d : Lookupd) (client : Client) (now : ℕ) (o : Option (List ℕ × List ℕ))
    (id' : List ℕ)
    → DoneKeeps id' d (identify_read json d client now o)
identify_read-Keeps json d client now none id' = λ other k. refl
identify_read-Keeps json d client now (some (bytes, rest)) id' =
    identify_peer-Keeps json d client rest now
      (json.unmarshal bytes (blank_peer client.remote_address)) id'

identify_body-Keeps :
    (json : Json) (d : Lookupd) (client : Client) (now : ℕ) (o : Option (ℕ × List ℕ)) (id' : List ℕ)
    → OptionKeeps id' d (identify_body json d client now o)
unfolding identify_body
identify_body-Keeps json d client now none id' = λ other k. refl
identify_body-Keeps json d client now (some (body_len, input)) id' =
    elim (Bool-cases (negative32 body_len)) [
      | inl negative ↦ rw negative tt
      | inr length_ok ↦
          rw length_ok (identify_read-Keeps json d client now (read_full body_len input) id')
    ]

identify_new-Keeps :
    (json : Json) (d : Lookupd) (client : Client) (input : List ℕ) (now : ℕ) (o : Option ℕ)
    (id' : List ℕ)
    → OptionKeeps id' d (identify_new json d client input now o)
identify_new-Keeps json d client input now none id' =
    identify_body-Keeps json d client now (read_len input) id'
identify_new-Keeps json d client input now (some peer) id' = λ other k. refl

exec-Keeps :
    (json : Json) (d : Lookupd) (client : Client) (input : List ℕ) (now : ℕ)
    (params : List (List ℕ)) (id' : List ℕ)
    → OptionKeeps id' d (exec json d client input now params)
unfolding exec identify
exec-Keeps json d client input now [] id' = tt
exec-Keeps json d client input now (command ∷ params) id' =
    elim (Bool-cases (command == ping_name)) [
      | inl is_ping ↦ rw is_ping (ping-Keeps d client now id')
      | inr no_ping ↦ rw no_ping (elim (Bool-cases (command == identify_name)) [
        | inl is_identify ↦
            rw is_identify (identify_new-Keeps json d client input now client.peer_info id')
        | inr no_identify ↦ rw no_identify (elim (Bool-cases (command == register_name)) [
          | inl is_register ↦ rw is_register (register-Keeps d client params id')
          | inr no_register ↦ rw no_register (elim (Bool-cases (command == unregister_name)) [
            | inl is_unregister ↦ rw is_unregister (unregister-Keeps d client params id')
            | inr unknown ↦ rw unknown (λ other k. refl)
          ])
        ])
      ])
    ]

-- A command that does not panic leaves every entry of the registrations as it is, except the
-- entries under the id that its client has after the command.
pub exec-others :
    (json : Json) (d : Lookupd) (client : Client) (input : List ℕ) (now : ℕ)
    (params : List (List ℕ)) (d' : Lookupd) (client' : Client) (rest : List ℕ) (reply : Reply)
    (id' : List ℕ) (k : Registration)
    → exec json d client input now params ≡ some (d', client', rest, reply)
    → IsOther id' d' client'
    → producer_at d'.db k id' ≡ producer_at d.db k id'
exec-others json d client input now params d' client' rest reply id' k e other =
    subst (OptionKeeps id' d) e (exec-Keeps json d client input now params id') other k
