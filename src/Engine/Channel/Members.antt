-- ===== src/Engine/Channel/Members.antt =====
-- The subscribers of a channel are a set, in the order in which they came.
use gentis.Prelude.{
  ℕ, ◌≡◌, [], ◌∷◌, not, ◌&&◌, ◌||◌, nat_eq, nat_Eq, contains, contains-append, append-Distinct,
  contains-delete_first, delete_first-Distinct, contains-nothing, Distinct, arith,
}
use gentis.Engine.Channel.{Channel, subscribe, unsubscribe, subscribers}

-- Where no subscriber is listed twice, `Subscribe` reports whether the subscriber was not there, and afterwards exactly that one is there
-- besides those that were; no subscriber is listed twice.
pub subscribe_lem :
    (c : Channel) (id j : ℕ)
    → Distinct (subscribers c)
    → Distinct (subscribers (subscribe c id).0)
      × ((subscribe c id).1 ≡ not (contains (subscribers c) id))
      × (contains (subscribers (subscribe c id).0) j ≡ (contains (subscribers c) j || nat_eq id j))
unfolding subscribe subscribers
subscribe_lem c id j d =
    let xs = subscribers c in ground (arith, append-Distinct xs id, contains-append xs (id ∷ []) j)

-- Where no subscriber is listed twice, `Unsubscribe` reports whether the subscriber was there, and afterwards those that were are there but
-- for that one; no subscriber is listed twice.
pub unsubscribe_lem :
    (c : Channel) (id j : ℕ)
    → Distinct (subscribers c)
    → Distinct (subscribers (unsubscribe c id).0)
      × ((unsubscribe c id).1 ≡ contains (subscribers c) id)
      × (contains (subscribers (unsubscribe c id).0) j
          ≡ (contains (subscribers c) j && not (nat_eq id j)))
unfolding unsubscribe subscribers
unsubscribe_lem c id j d =
    let xs = subscribers c in
    ground (
      arith,
      contains-delete_first xs id j d,
      delete_first-Distinct xs id d,
      contains-nothing xs id,
    )
