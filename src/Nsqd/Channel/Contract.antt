-- ===== src/Nsqd/Channel/Contract.antt =====
-- What a channel relies on in its queue of deferred messages: a bag of items that gives out one of
-- the lowest priority when that is due.
use nsq.Common.{
  ℕ, ◌+◌, ◌≤◌, ◌<◌, ◌≡◌, Option, none, some, if◌then◌else◌, nat_beq, nat_eq, ◌&&◌, arith,
}
use nsq.Nsqd.Channel.{Item, DeferredQueue}

-- 1 for an item and itself, and 0 for two others.
abbrev pub same_item : Item → Item → ℕ
same_item (r, p) (s, q) = if nat_beq r s && nat_beq p q then 1 else 0

pub same_item-eq : (i j : Item) → 0 < same_item i j → i ≡ j
same_item-eq (r, p) (s, q) h = ground arith

pub same_item_refl : (i : Item) → same_item i i ≡ 1
same_item_refl (r, p) = ground arith

pub same_item-le_one : (i j : Item) → same_item i j ≤ 1
same_item-le_one (r, p) (s, q) = ground arith

module _ {Q : Type 0} (holds : Q → Item → ℕ) where
  -- What a look for an item that is due at `max` leaves and returns.
  pub data Shifted (q : Q) (max : ℕ) : Option Item → Q → Type 0 where
    nothing_due :
        {q' : Q}
        → ((i : Item) → holds q' i ≡ holds q i)
        → ((i : Item) → 0 < holds q i → max < i.1)
        → Shifted q max none q'
    gives :
        {q' : Q} (i : Item)
        → i.1 ≤ max
        → ((j : Item) → holds q j ≡ holds q' j + same_item i j)
        → ((j : Item) → 0 < holds q j → i.1 ≤ j.1)
        → Shifted q max (some i) q'

  -- The queue holds `holds q i` copies of an item, when it is good.
  pub record IsPriorityQueue (d : DeferredQueue Q) (IsGood : Q → Type 0) : Type 0 where
    pub new_is_empty :
        (capacity : ℕ)
        → 0 < capacity
        → IsGood (d.new capacity) × ((i : Item) → holds (d.new capacity) i ≡ 0)
    pub push_adds :
        (q : Q) (i : Item)
        → IsGood q
        → (q' : Q) × (d.push q i ≡ some q')
          × IsGood q'
          × ((j : Item) → holds q' j ≡ holds q j + same_item i j)
    pub peek_shifts :
        (q : Q) (max : ℕ)
        → IsGood q
        → (o : Option Item) × (q' : Q) × (d.peek_and_shift q max ≡ some (o, q'))
          × IsGood q'
          × Shifted q max o q'
