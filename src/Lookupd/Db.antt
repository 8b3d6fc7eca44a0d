-- ===== src/Lookupd/Db.antt =====
-- nsqlookupd/registration_db.go. A string is its bytes, a Go map an association list: the order of
-- its entries is one of those in which Go may go through the map. A PeerInfo is shared by its
-- client and its producers, so a producer holds a pointer, a number, and `peers` is the heap. The
-- mutex makes each method one step.
pub mod Laws
use nsq.Common.{
  ℕ, ◌+◌, ◌-◌, ◌<◌, ◌≡◌, ◌↔◌, refl, ap, Bool, true, false, not, ◌&&◌, ◌||◌, List, [], ◌∷◌, ◌++◌,
  map, Option, none, some, ltb, if◌then◌else◌, Eq, ◌==◌, nat_eq, bytes_eq, bytes_beq, bytes_beq_iff,
  length, arith,
}
use nsq.Common.Map.{lookup, insert, delete}
use nsq.Stringy.{contains}

pub record Registration : Type 0 where
  pub category : List ℕ
  pub key : List ℕ
  pub sub_key : List ℕ

abbrev pub registration_beq : Registration → Registration → Bool
registration_beq a b =
    bytes_beq a.category b.category && (bytes_beq a.key b.key && bytes_beq a.sub_key b.sub_key)

pub registration_beq_iff : (a b : Registration) → (registration_beq a b ≡ true) ↔ (a ≡ b)
registration_beq_iff a b = (
  λ h. ground (
    arith,
    bytes_beq_iff a.category b.category,
    bytes_beq_iff a.key b.key,
    bytes_beq_iff a.sub_key b.sub_key,
  ),
  λ e. ground (
    arith,
    bytes_beq_iff a.category b.category,
    bytes_beq_iff a.key b.key,
    bytes_beq_iff a.sub_key b.sub_key,
  ),
)

instance abbrev pub registration_eq : Eq Registration
registration_eq = record { test = registration_beq; test_iff = registration_beq_iff }

pub record PeerInfo : Type 0 where
  pub last_update : ℕ
  pub id : List ℕ
  pub remote_address : List ℕ
  pub hostname : List ℕ
  pub broadcast_address : List ℕ
  pub tcp_port : ℕ
  pub http_port : ℕ
  pub version : List ℕ

pub record Producer : Type 0 where
  pub peer_info : ℕ
  pub tombstoned : Bool
  pub tombstoned_at : ℕ

abbrev pub ProducerMap : Type 0
ProducerMap = List (List ℕ × Producer)

pub record RegistrationDb : Type 0 where
  pub registration_map : List (Registration × ProducerMap)

unfoldable pub new_registration_db : RegistrationDb
new_registration_db = record { registration_map = [] }

unfoldable pub tombstone : Producer → ℕ → Producer
tombstone p now = record p { tombstoned = true; tombstoned_at = now }

unfoldable pub is_tombstoned : Producer → ℕ → ℕ → Bool
is_tombstoned p now lifetime = p.tombstoned && ltb (now - p.tombstoned_at) lifetime

unfoldable pub add_registration : RegistrationDb → Registration → RegistrationDb
add_registration db k = elim (lookup k db.registration_map) [
  | some _ ↦ db
  | none ↦ record { registration_map = insert k [] db.registration_map }
]

-- The producers of a key; a missing key has none.
abbrev pub or_empty : Option ProducerMap → ProducerMap
or_empty none = []
or_empty (some producers) = producers

-- Whether the producer was new, which the method returns, is `fresh`.
unfoldable pub add_producer :
    (ℕ → PeerInfo) → RegistrationDb → Registration → Producer → RegistrationDb × Bool
add_producer peers db k p =
    let producers = or_empty (lookup k db.registration_map) in
    let id = (peers p.peer_info).id in
    elim (lookup id producers) [
      | some _ ↦ (record { registration_map = insert k producers db.registration_map }, false)
      | none ↦
          (record { registration_map = insert k (insert id p producers) db.registration_map }, true)
    ]

-- The key stays, even with no producer left.
unfoldable pub remove_producer : RegistrationDb → Registration → List ℕ → RegistrationDb × Bool × ℕ
remove_producer db k id = elim (lookup k db.registration_map) [
  | none ↦ (db, false, 0)
  | some producers ↦
      let left = delete id producers in
      let removed : Bool = elim (lookup id producers) [ none ↦ false | some _ ↦ true ] in
      (record { registration_map = insert k left db.registration_map }, removed, length left)
]

unfoldable pub remove_registration : RegistrationDb → Registration → RegistrationDb
remove_registration db k = record { registration_map = delete k db.registration_map }

abbrev pub star : List ℕ
star = b'*' ∷ []

unfoldable pub need_filter : List ℕ → List ℕ → Bool
need_filter key subkey = (key == star) || (subkey == star)

unfoldable pub is_match : Registration → List ℕ → List ℕ → List ℕ → Bool
is_match k category key subkey =
    (category == k.category)
    && (((key == star) || (k.key == key)) && ((subkey == star) || (k.sub_key == subkey)))

-- The method Filter of Registrations, and the loop of FindRegistrations.
unfoldable pub filter_registrations :
    List Registration → List ℕ → List ℕ → List ℕ → List Registration
filter_registrations [] category key subkey = []
filter_registrations (k ∷ ks) category key subkey =
    let rest = filter_registrations ks category key subkey in
    if is_match k category key subkey then k ∷ rest else rest

abbrev pub registration : List ℕ → List ℕ → List ℕ → Registration
registration category key sub_key = record { category = category; key = key; sub_key = sub_key }

abbrev pub keys_of {ℓ} : {V : Type ℓ} → List (Registration × V) → List Registration
keys_of [] = []
keys_of ((k, v) ∷ m) = k ∷ keys_of m

unfoldable pub find_registrations : RegistrationDb → List ℕ → List ℕ → List ℕ → List Registration
unfolding need_filter
find_registrations db category key subkey =
    let k = registration category key subkey in
    let exact : List Registration = elim (lookup k db.registration_map) [
      | none ↦ []
      | some _ ↦ k ∷ []
    ] in
    if not (need_filter key subkey)
    then exact
    else filter_registrations (keys_of db.registration_map) category key subkey

unfoldable pub producer_map_to_slice : ProducerMap → List Producer
producer_map_to_slice [] = []
producer_map_to_slice ((id, p) ∷ m) = p ∷ producer_map_to_slice m

-- The inner loop of FindProducers: the ids found so far, and the producers.
unfoldable pub collect_producers :
    (ℕ → PeerInfo) → List (List ℕ) × List Producer → List Producer → List (List ℕ) × List Producer
collect_producers peers found [] = found
collect_producers peers (ids, ps) (p ∷ rest) =
    let id = (peers p.peer_info).id in
    collect_producers peers (if contains ids id then (ids, ps) else (ids ++ id ∷ [], ps ++ p ∷ []))
      rest

unfoldable pub collect_matching :
    (ℕ → PeerInfo)
    → List (List ℕ) × List Producer
    → List (Registration × ProducerMap)
    → List ℕ
    → List ℕ
    → List ℕ
    → List (List ℕ) × List Producer
collect_matching peers found [] category key subkey = found
collect_matching peers found ((k, producers) ∷ m) category key subkey =
    collect_matching peers
      (if is_match k category key subkey
        then collect_producers peers found (producer_map_to_slice producers)
        else found)
      m category key subkey

unfoldable pub find_producers :
    (ℕ → PeerInfo) → RegistrationDb → List ℕ → List ℕ → List ℕ → List Producer
unfolding need_filter
find_producers peers db category key subkey =
    let k = registration category key subkey in
    if not (need_filter key subkey)
    then producer_map_to_slice (or_empty (lookup k db.registration_map))
    else (collect_matching peers ([], []) db.registration_map category key subkey).1

-- The loop of LookupRegistrations.
unfoldable pub registrations_with : List ℕ → List (Registration × ProducerMap) → List Registration
registrations_with id [] = []
registrations_with id ((k, producers) ∷ m) =
    let rest = registrations_with id m in
    elim (lookup id producers) [ none ↦ rest | some _ ↦ k ∷ rest ]

unfoldable pub lookup_registrations : RegistrationDb → List ℕ → List Registration
unfolding registrations_with
lookup_registrations db id = registrations_with id db.registration_map

-- FilterByActive; a difference of times below zero is not above a timeout, as here.
unfoldable pub filter_by_active : (ℕ → PeerInfo) → List Producer → ℕ → ℕ → ℕ → List Producer
unfolding is_tombstoned
filter_by_active peers [] now inactivity_timeout tombstone_lifetime = []
filter_by_active peers (p ∷ ps) now inactivity_timeout tombstone_lifetime =
    let rest = filter_by_active peers ps now inactivity_timeout tombstone_lifetime in
    if ltb inactivity_timeout (now - (peers p.peer_info).last_update)
      || is_tombstoned p now tombstone_lifetime
    then rest
    else p ∷ rest
