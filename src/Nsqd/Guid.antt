-- ===== src/Nsqd/Guid.antt =====
-- nsqd/guid.go: the message ids of one nsqd. An int64 is its 64-bit pattern, a number below 2 ^ 64;
-- the clock, which the code reads, is an argument: nanoseconds since 1970.
pub mod Order
pub mod Hex
pub mod Run
use Prim.Native.Nat.{bit_or}
use nsq.Common.{ℕ, ◌+◌, ◌-◌, ◌*◌, ◌/◌, ◌%◌, ◌^◌, Bool, List, ltb, leb, if◌then◌else◌, ◌==◌, nat_eq}

abbrev pub word_mod : ℕ
word_mod = 2 ^ 64

-- 2012-10-28 16:23:42 UTC, in units of 2 ^ 20 nanoseconds
abbrev pub twepoch : ℕ
twepoch = 1288834974288

pub data GuidError : Type 0 where
  time_backwards sequence_expired id_backwards : GuidError

pub data GuidResult : Type 0 where
  ok : ℕ → GuidResult
  err : GuidError → GuidResult

pub record GuidFactory : Type 0 where
  pub node_id : ℕ
  pub sequence : ℕ
  pub last_timestamp : ℕ
  pub last_id : ℕ

unfoldable pub new_guid_factory : ℕ → GuidFactory
new_guid_factory node_id = record {
  node_id = node_id;
  sequence = 0;
  last_timestamp = 0;
  last_id = 0;
}

-- a <= b of two int64
abbrev pub signed_le : ℕ → ℕ → Bool
signed_le a b = leb ((a + 2 ^ 63) % word_mod) ((b + 2 ^ 63) % word_mod)

-- ((ts - twepoch) << timestampShift) | (nodeID << nodeIDShift) | sequence
pub compose_id : ℕ → ℕ → ℕ → ℕ
compose_id ts node_id sequence =
    let stamp = (ts + word_mod - twepoch) % word_mod * 2 ^ 22 % word_mod in
    let node = node_id * 2 ^ 12 % word_mod in bit_or (bit_or stamp node) sequence

-- From `f.lastTimestamp = ts` on.
pub issue : GuidFactory → ℕ → GuidFactory × GuidResult
issue f ts =
    let id = compose_id ts f.node_id f.sequence in
    if signed_le id f.last_id
    then (record f { last_timestamp = ts }, err id_backwards)
    else (record f { last_timestamp = ts; last_id = id }, ok id)

pub new_guid : GuidFactory → ℕ → GuidFactory × GuidResult
new_guid f now =
    let ts = now / 2 ^ 20 in
    let next = (f.sequence + 1) % 2 ^ 12 in
    if ltb ts f.last_timestamp
    then (f, err time_backwards)
    else if f.last_timestamp == ts
    then (if next == 0
        then (record f { sequence = next }, err sequence_expired)
        else issue (record f { sequence = next }) ts)
    else issue (record f { sequence = 0 }) ts
