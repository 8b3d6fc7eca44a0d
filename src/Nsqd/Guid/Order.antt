-- ===== src/Nsqd/Guid/Order.antt =====
-- The ids of a factory: their layout and their order.
use nsq.Common.{ℕ, ◌+◌, ◌-◌, ◌*◌, ◌/◌, ◌%◌, ◌^◌, ◌≤◌, ◌<◌, ◌≡◌, ◌⊎◌, arith, nat_eq}
use nsq.Common.Bytes.{bit_or_disjoint}
use nsq.Nsqd.Guid.{
  GuidFactory, ok, err, id_backwards, word_mod, twepoch, compose_id, issue, new_guid,
}

-- The clock is past the epoch and in the 41 bits that an id has for it.
abbrev pub InRange : ℕ → Type 0
InRange ts = (twepoch < ts) × (ts < twepoch + 2 ^ 41)

abbrev pub layout : ℕ → ℕ → ℕ → ℕ
layout ts node_id sequence = (ts - twepoch) * 2 ^ 22 + node_id * 2 ^ 12 + sequence

pub compose_id_lem :
    (ts node_id sequence : ℕ)
    → InRange ts
    → node_id < 1024
    → sequence < 4096
    → compose_id ts node_id sequence ≡ layout ts node_id sequence
unfolding compose_id
compose_id_lem ts node_id sequence r n s =
    let stamp : (ts + word_mod - twepoch) % word_mod * 2 ^ 22 % word_mod ≡ (ts - twepoch) * 2 ^ 22 =
      omega arith in
    let node : node_id * 2 ^ 12 % word_mod ≡ node_id * 2 ^ 12 = omega arith in
    let high = bit_or_disjoint 22 (ts - twepoch) (node_id * 2 ^ 12) (omega arith) in
    let joined : (ts - twepoch) * 2 ^ 22 + node_id * 2 ^ 12
        ≡ ((ts - twepoch) * 1024 + node_id) * 2 ^ 12 =
      omega arith in
    rw (stamp, node, high, joined, bit_or_disjoint 12 ((ts - twepoch) * 1024 + node_id) sequence s)
      (omega arith)

-- An id holds the time, the node and the sequence number that it was made from: the fields of two
-- ids can be told apart.
pub layout_fields :
    (ts node_id sequence : ℕ)
    → node_id < 1024
    → sequence < 4096
    → (layout ts node_id sequence / 2 ^ 22 ≡ ts - twepoch)
      × (layout ts node_id sequence / 2 ^ 12 % 1024 ≡ node_id)
      × (layout ts node_id sequence % 4096 ≡ sequence)
layout_fields ts node_id sequence n s = omega arith

-- What holds between two calls: the last id is not of a later unit of time than the last timestamp.
pub record IsValid (f : GuidFactory) : Type 0 where
  pub node : f.node_id < 1024
  pub sequence : f.sequence < 4096
  pub last :
      (f.last_id ≡ 0)
      ⊎ (InRange f.last_timestamp × (f.last_id < layout f.last_timestamp 0 0 + 2 ^ 22))

pub issue-IsValid :
    (f : GuidFactory) (ts : ℕ)
    → IsValid f
    → InRange ts
    → f.last_timestamp ≤ ts
    → IsValid (issue f ts).0
unfolding issue
issue-IsValid f ts v r h =
    ground (arith, compose_id_lem ts f.node_id f.sequence r v.node v.sequence)

-- Whatever a call returns, the factory stays valid while the clock is in range.
pub new_guid-IsValid :
    (f : GuidFactory) (now : ℕ) → IsValid f → InRange (now / 2 ^ 20) → IsValid (new_guid f now).0
unfolding new_guid
new_guid-IsValid f now v r = ground (
  arith,
  issue-IsValid (record f { sequence = 0 }) (now / 2 ^ 20),
  issue-IsValid (record f { sequence = (f.sequence + 1) % 2 ^ 12 }) (now / 2 ^ 20),
)

-- An id goes out exactly when it is above the last one.
issue-above :
    (f : GuidFactory) (ts : ℕ)
    → IsValid f
    → InRange ts
    → f.last_timestamp ≤ ts
    → f.last_id < layout ts f.node_id f.sequence
    → issue f ts ≡ (
      record f { last_timestamp = ts; last_id = layout ts f.node_id f.sequence },
      ok (layout ts f.node_id f.sequence),
    )
unfolding issue
issue-above f ts v r p h =
    rw (compose_id_lem ts f.node_id f.sequence r v.node v.sequence) (ground arith)

pub issue-below :
    (f : GuidFactory) (ts : ℕ)
    → IsValid f
    → InRange ts
    → f.last_timestamp ≤ ts
    → layout ts f.node_id f.sequence ≤ f.last_id
    → issue f ts ≡ (record f { last_timestamp = ts }, err id_backwards)
unfolding issue
issue-below f ts v r p h =
    rw (compose_id_lem ts f.node_id f.sequence r v.node v.sequence) (ground arith)

-- On a valid factory and with the clock in range, a call in a later unit of time than the last one
-- succeeds, with sequence number 0.
pub new_guid-ok :
    (f : GuidFactory) (now : ℕ)
    → IsValid f
    → InRange (now / 2 ^ 20)
    → f.last_timestamp < now / 2 ^ 20
    → (new_guid f now).1 ≡ ok (layout (now / 2 ^ 20) f.node_id 0)
unfolding new_guid
new_guid-ok f now v r h =
    let fresh = record f { sequence = 0 } in ground (arith, issue-above fresh (now / 2 ^ 20))
