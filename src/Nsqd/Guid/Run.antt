-- ===== src/Nsqd/Guid/Run.antt =====
-- What a factory returns over many calls, and what two factories return.
use nsq.Common.{
  ℕ, ◌+◌, ◌/◌, ◌%◌, ◌^◌, ◌≤◌, ◌<◌, ◌≡◌, ◌≢◌, ◌⊎◌, ◌-◌, sym, ap, ◌∙◌, List, [], ◌∷◌, arith,
}
use nsq.Nsqd.Guid.{
  GuidFactory, GuidResult, ok, err, sequence_expired, id_backwards, twepoch, issue, new_guid,
}
use nsq.Nsqd.Guid.Order.{InRange, layout, compose_id_lem, IsValid, new_guid-IsValid, issue-below}
use nsq.Nsqd.Guid.Hex.{hex, hex_injective}

-- What one call does to the last id: an id is above the last one, and an error leaves it.
abbrev After : GuidFactory → ℕ → GuidFactory × GuidResult → Type 0
After f ts (g, ok id) =
    (f.last_id < id)
    × (g.last_id ≡ id)
    × (id < 2 ^ 63)
    × (id / 2 ^ 22 ≡ ts - twepoch)
    × (id / 2 ^ 12 % 1024 ≡ f.node_id)
    × (g.node_id ≡ f.node_id)
    × (g.last_timestamp ≡ ts)
After f ts (g, err e) = (g.last_id ≡ f.last_id) × (g.node_id ≡ f.node_id)

issue-After :
    (f : GuidFactory) (ts : ℕ)
    → IsValid f
    → InRange ts
    → f.last_timestamp ≤ ts
    → After f ts (issue f ts)
unfolding issue
issue-After f ts v r h = ground (arith, compose_id_lem ts f.node_id f.sequence r v.node v.sequence)

new_guid-After :
    (f : GuidFactory) (now : ℕ)
    → IsValid f
    → InRange (now / 2 ^ 20)
    → After f (now / 2 ^ 20) (new_guid f now)
unfolding new_guid
new_guid-After f now v r =
    let ts = now / 2 ^ 20 in
    ground (
      arith,
      issue-After (record f { sequence = 0 }) ts,
      issue-After (record f { sequence = (f.sequence + 1) % 2 ^ 12 }) ts,
    )

abbrev pub collect : GuidResult → List ℕ → List ℕ
collect (ok id) later = id ∷ later
collect (err e) later = later

-- The ids that a factory returns at the given readings of the clock.
pub ids : GuidFactory → List ℕ → List ℕ
ids f [] = []
ids f (now ∷ rest) = collect (new_guid f now).1 (ids (new_guid f now).0 rest)

abbrev pub AllInRange : List ℕ → Type 0
AllInRange [] = Unit
AllInRange (now ∷ rest) = InRange (now / 2 ^ 20) × AllInRange rest

-- Strictly ascending from a bound on.
abbrev pub Ascending : ℕ → List ℕ → Type 0
Ascending b [] = Unit
Ascending b (x ∷ xs) = (b < x) × Ascending x xs

collect-Ascending :
    (f g : GuidFactory) (ts : ℕ) (r : GuidResult) (later : List ℕ)
    → After f ts (g, r)
    → Ascending g.last_id later
    → Ascending f.last_id (collect r later)
collect-Ascending f g ts (ok id) later a h = (a.0, rw (a.1) at h)
collect-Ascending f g ts (err x) later a h = rw (a.0) at h

-- The ids that one valid factory returns ascend strictly, from above its last id, when all readings
-- of the clock are in its range; also where the clock goes backwards within it.
pub ids-Ascending :
    (f : GuidFactory) (readings : List ℕ)
    → IsValid f
    → AllInRange readings
    → Ascending f.last_id (ids f readings)
unfolding ids
ids-Ascending f [] v r = tt
ids-Ascending f (now ∷ rest) v r =
    collect-Ascending f (new_guid f now).0 (now / 2 ^ 20) (new_guid f now).1
      (ids (new_guid f now).0 rest) (new_guid-After f now v r.0)
      (ids-Ascending (new_guid f now).0 rest (new_guid-IsValid f now v r.0) r.1)

returned_fields :
    (f g : GuidFactory) (ts id : ℕ) (r : GuidResult)
    → After f ts (g, r)
    → r ≡ ok id
    → (id < 2 ^ 63) × (id / 2 ^ 12 % 1024 ≡ f.node_id)
returned_fields f g ts id (ok x) a e = ground arith
returned_fields f g ts id (err x) a e = cc

-- Two nsqds with valid factories, whose node ids are below 1024 and different, give two messages ids
-- with different hexadecimal forms, at any two readings of their clocks within the range.
pub hex-nodes_differ :
    (f g : GuidFactory) (now later a b : ℕ)
    → IsValid f
    → IsValid g
    → InRange (now / 2 ^ 20)
    → InRange (later / 2 ^ 20)
    → f.node_id ≢ g.node_id
    → (new_guid f now).1 ≡ ok a
    → (new_guid g later).1 ≡ ok b
    → hex a ≢ hex b
hex-nodes_differ f g now later a b vf vg rf rg ne ea eb e =
    let (la, na) =
      returned_fields f (new_guid f now).0 (now / 2 ^ 20) a (new_guid f now).1
        (new_guid-After f now vf rf) ea in
    let (lb, nb) =
      returned_fields g (new_guid g later).0 (later / 2 ^ 20) b (new_guid g later).1
        (new_guid-After g later vg rg) eb in
    let same = hex_injective a b (omega (arith, la)) (omega (arith, lb)) e in
    ne (sym na ∙ ap (λ (t : ℕ). t / 2 ^ 12 % 1024) same ∙ nb)

-- The last id has the last sequence number of its unit of time.
abbrev pub Exhausted : GuidFactory → Type 0
Exhausted f = f.last_id ≡ layout f.last_timestamp f.node_id 4095

-- Once the last of the 4096 ids of a unit of time in the range is used up, calls in that unit fail
-- and leave the last id, until the clock moves on.
new_guid-Exhausted :
    (f : GuidFactory) (now : ℕ)
    → IsValid f
    → InRange f.last_timestamp
    → Exhausted f
    → now / 2 ^ 20 ≡ f.last_timestamp
    → Exhausted (new_guid f now).0
      × (((new_guid f now).1 ≡ err sequence_expired) ⊎ ((new_guid f now).1 ≡ err id_backwards))
unfolding new_guid
new_guid-Exhausted f now v r x e =
    let next = record f { sequence = (f.sequence + 1) % 2 ^ 12 } in
    rw e (ground (arith, issue-below next f.last_timestamp))
