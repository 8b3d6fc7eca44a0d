-- ===== src/Tests/Guid.antt =====
-- nsqd/guid.go on factories of two nsqds.
use nsq.Common.{ℕ, ◌*◌, ◌/◌, ◌^◌, ◌<◌, ◌≢◌, inl, inr, refl, [], ◌∷◌, arith}
use nsq.Nsqd.Guid.{GuidFactory}
use nsq.Nsqd.Guid.Order.{IsValid, layout, new_guid-ok}
use nsq.Nsqd.Guid.Run.{ids, Ascending, ids-Ascending, hex-nodes_differ}
use nsq.Nsqd.Guid.Hex.{hex}

abbrev factory : ℕ → GuidFactory
factory node_id = record { node_id = node_id; sequence = 0; last_timestamp = 0; last_id = 0 }

factory-IsValid : (node_id : ℕ) → node_id < 1024 → IsValid (factory node_id)
factory-IsValid node_id h = record { node = h; sequence = omega arith; last = inl refl }

-- The first unit of time after the epoch, and the next.
abbrev first : ℕ
first = 1288834974289 * 2 ^ 20

abbrev second : ℕ
second = 1288834974290 * 2 ^ 20

ids-Ascending_example : Ascending 0 (ids (factory 7) (first ∷ first ∷ second ∷ []))
ids-Ascending_example =
    ids-Ascending (factory 7) (first ∷ first ∷ second ∷ []) (factory-IsValid 7 (omega arith))
      (ground arith)

hex-nodes_differ_example : hex (layout (first / 2 ^ 20) 7 0) ≢ hex (layout (second / 2 ^ 20) 8 0)
hex-nodes_differ_example =
    hex-nodes_differ (factory 7) (factory 8) first second (layout (first / 2 ^ 20) 7 0)
      (layout (second / 2 ^ 20) 8 0) (factory-IsValid 7 (omega arith))
      (factory-IsValid 8 (omega arith)) (ground arith) (ground arith) (λ e. omega (arith, e))
      (new_guid-ok (factory 7) first (factory-IsValid 7 (omega arith)) (ground arith) (omega arith))
      (new_guid-ok (factory 8) second (factory-IsValid 8 (omega arith)) (ground arith)
        (omega arith))

-- A factory that has returned the last id of a unit of time.
abbrev used_up : GuidFactory
used_up = record {
  node_id = 7;
  sequence = 4095;
  last_timestamp = first / 2 ^ 20;
  last_id = layout (first / 2 ^ 20) 7 4095;
}

used_up-IsValid : IsValid used_up
used_up-IsValid = record {
  node = omega arith;
  sequence = omega arith;
  last = inr (ground arith, omega arith);
}
