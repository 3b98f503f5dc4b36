-- ===== src/Levels/Members.antt =====
-- Which orders stand in the levels of Orderbook Server/orderbook.cpp after one is put in or taken out.
use simple_orderbook_v.Common.{◌≡◌, ◌≢◌, ◌⊎◌, inl, inr, true, false, arith}
use simple_orderbook_v.Order.{Price}
use simple_orderbook_v.Levels.{OrderPointer, Levels, Compare, update, mem, push_back}
use simple_orderbook_v.Levels.Laws.{
  StrictOrder, queue_at, IsSorted, price_cases, queue_at-update_self, queue_at-update_ne,
}
use simple_orderbook_v.Levels.Queue.{
  Distinct, removed, mem-push_back, push_back-Distinct, mem-erase_node, erase_node-Distinct,
  queue_at-removed_self, queue_at-removed_ne,
}

module _ {before : Compare} (o : StrictOrder before) where
  pub eq_or_ne : (p q : Price) → (p ≡ q) ⊎ (p ≢ q)
  eq_or_ne p q = elim (price_cases o p q) [
    | inl (a, _) ↦ inr (λ e. ground (arith, o.irrefl p))
    | inr (inl (_, a)) ↦ inr (λ e. ground (arith, o.irrefl p))
    | inr (inr e) ↦ inl e
  ]

  module _ (x : OrderPointer) (p : Price) (levels : Levels) where
    -- The member that is put in, and those that were there.
    pub mem-update :
        (a : OrderPointer) (r : Price)
        → mem a (queue_at before r (update before p (push_back x) levels)) ≡ true
        → ((a ≡ x) × (r ≡ p)) ⊎ (mem a (queue_at before r levels) ≡ true)
    mem-update a r h = elim (eq_or_ne r p) [
      | inl e ↦ ground (
        arith,
        queue_at-update_self o p (push_back x) levels,
        mem-push_back a x (queue_at before p levels),
      )
      | inr ne ↦ ground (arith, queue_at-update_ne o r p (push_back x) levels ne)
    ]

    pub mem-update_new : mem x (queue_at before p (update before p (push_back x) levels)) ≡ true
    mem-update_new = ground (
      arith,
      queue_at-update_self o p (push_back x) levels,
      mem-push_back x x (queue_at before p levels),
    )

    pub mem-update_old :
        (a : OrderPointer) (r : Price)
        → mem a (queue_at before r levels) ≡ true
        → mem a (queue_at before r (update before p (push_back x) levels)) ≡ true
    mem-update_old a r h = elim (eq_or_ne r p) [
      | inl e ↦ ground (
        arith,
        queue_at-update_self o p (push_back x) levels,
        mem-push_back a x (queue_at before p levels),
      )
      | inr ne ↦ ground (arith, queue_at-update_ne o r p (push_back x) levels ne)
    ]

    pub update-Distinct :
        (r : Price)
        → mem x (queue_at before p levels) ≡ false
        → Distinct (queue_at before p levels)
        → Distinct (queue_at before r levels)
        → Distinct (queue_at before r (update before p (push_back x) levels))
    update-Distinct r h d d' = elim (eq_or_ne r p) [
      | inl e ↦ rw (e, queue_at-update_self o p (push_back x) levels) (push_back-Distinct x _ h d)
      | inr ne ↦ rw (queue_at-update_ne o r p (push_back x) levels ne) d'
    ]

  module _ (x : OrderPointer) (p : Price) (levels : Levels) (s : IsSorted before levels)
      (d : Distinct (queue_at before p levels)) where
    -- What is left when a member is taken out, and what was there before.
    pub mem-removed :
        (a : OrderPointer) (r : Price)
        → mem a (queue_at before r (removed before p x levels)) ≡ true
        → (mem a (queue_at before r levels) ≡ true) × ((a ≡ x) → r ≢ p)
    mem-removed a r h = elim (eq_or_ne r p) [
      | inl e ↦ ground (
        arith,
        queue_at-removed_self o p x levels s,
        mem-erase_node a x (queue_at before p levels) d,
      )
      | inr ne ↦ (rw (queue_at-removed_ne o p x levels s r ne) at h, λ _. ne)
    ]

    pub mem-removed_old :
        (a : OrderPointer) (r : Price)
        → mem a (queue_at before r levels) ≡ true
        → a ≢ x
        → mem a (queue_at before r (removed before p x levels)) ≡ true
    mem-removed_old a r h k = elim (eq_or_ne r p) [
      | inl e ↦ ground (
        arith,
        queue_at-removed_self o p x levels s,
        mem-erase_node a x (queue_at before p levels) d,
      )
      | inr ne ↦ rw (queue_at-removed_ne o p x levels s r ne) h
    ]

    pub removed-Distinct :
        (r : Price)
        → Distinct (queue_at before r levels)
        → Distinct (queue_at before r (removed before p x levels))
    removed-Distinct r d' = elim (eq_or_ne r p) [
      | inl e ↦ rw (e, queue_at-removed_self o p x levels s) (erase_node-Distinct x _ d)
      | inr ne ↦ rw (queue_at-removed_ne o p x levels s r ne) d'
    ]
