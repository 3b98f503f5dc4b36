-- ===== src/Adapter/Lock.antt =====
-- `class ThreadSafeOrderbook` of Orderbook Server/orderbook_adapter.h: threads that call the book under a
-- `std::shared_mutex`, in any interleaving. Threads are numbers.
use simple_orderbook_v.Common.{
  ℕ, ◌≡◌, ◌∙◌, ◌⊎◌, inl, inr, refl, true, false, Bool, Option, none, some, List, [], ◌∷◌, ◌==◌,
  if◌then◌else◌, ◌||◌, arith,
}
use simple_orderbook_v.Order.{OrderbookLevelInfos}
use simple_orderbook_v.Index.{Heap}
use simple_orderbook_v.Matching.{Trades}
use simple_orderbook_v.Orderbook.{Orderbook, empty_orderbook, get_order_infos, size}
use simple_orderbook_v.Orderbook.Invariant.{IsValid}
use simple_orderbook_v.Orderbook.Session.{Call, Call-IsValid, empty_orderbook-IsValid}

-- The book, the thread that holds the lock uniquely, and those that share it.
pub record ThreadSafeOrderbook : Type 0 where
  pub orderbook : Orderbook
  pub writer : Option ℕ
  pub readers : List ℕ

unfoldable pub new_orderbook : Heap → ThreadSafeOrderbook
new_orderbook heap = record { orderbook = empty_orderbook heap; writer = none; readers = [] }

abbrev pub reads : ℕ → List ℕ → Bool
reads i [] = false
reads i (j ∷ rest) = (j == i) || reads i rest

abbrev pub leave : ℕ → List ℕ → List ℕ
leave i [] = []
leave i (j ∷ rest) = let later = leave i rest in if j == i then rest else j ∷ later

-- A step of a thread: `AddOrder`, `CancelOrder` and `MatchOrder` lock, call the book and unlock by a
-- `unique_lock`, `GetOrderInfos` and `Size` by a `shared_lock`.
pub data Step (s : ThreadSafeOrderbook) : ThreadSafeOrderbook → Type 0 where
  lock : (i : ℕ) → s.writer ≡ none → s.readers ≡ [] → Step s (record s { writer = some i })
  writes :
      (i : ℕ) (trades : Trades) (next : Orderbook)
      → s.writer ≡ some i
      → Call s.orderbook trades next
      → Step s (record s { orderbook = next })
  unlock : (i : ℕ) → s.writer ≡ some i → Step s (record s { writer = none })
  lock_shared : (i : ℕ) → s.writer ≡ none → Step s (record s { readers = i ∷ s.readers })
  gets_order_infos :
      (i : ℕ) (infos : OrderbookLevelInfos)
      → reads i s.readers ≡ true
      → infos ≡ get_order_infos s.orderbook
      → Step s s
  gets_size : (i n : ℕ) → reads i s.readers ≡ true → n ≡ size s.orderbook → Step s s
  unlock_shared :
      (i : ℕ) → reads i s.readers ≡ true → Step s (record s { readers = leave i s.readers })

-- States that steps of any threads lead to.
pub data Reached (heap : Heap) : ThreadSafeOrderbook → Type 0 where
  new : Reached heap (new_orderbook heap)
  step : {s t : ThreadSafeOrderbook} → Reached heap s → Step s t → Reached heap t

-- Nobody reads while a thread writes, and the book is valid.
pub record IsGuarded (s : ThreadSafeOrderbook) : Type 0 where
  pub valid : IsValid s.orderbook
  pub exclusive : (s.writer ≡ none) ⊎ (s.readers ≡ [])

Step-IsGuarded : {s t : ThreadSafeOrderbook} → IsGuarded s → Step s t → IsGuarded t
Step-IsGuarded g (lock i w r) = record { valid = g.valid; exclusive = inr r }
Step-IsGuarded g (writes i trades next w c) = record {
  valid = (Call-IsValid c g.valid).0;
  exclusive = g.exclusive;
}
Step-IsGuarded g (unlock i w) = record { valid = g.valid; exclusive = inl refl }
Step-IsGuarded g (lock_shared i w) = record { valid = g.valid; exclusive = inl w }
Step-IsGuarded g (gets_order_infos i infos r e) = g
Step-IsGuarded g (gets_size i n r e) = g
Step-IsGuarded {s} g (unlock_shared i r) = record {
  valid = g.valid;
  exclusive = elim g.exclusive [ inl w ↦ inl w | inr e ↦ inr (rw e refl) ];
}

-- In every interleaving the lock keeps writers from readers and from each other, and each call finds a
-- valid book and leaves one.
Reached-IsGuarded : {heap : Heap} {s : ThreadSafeOrderbook} → Reached heap s → IsGuarded s
unfolding new_orderbook
Reached-IsGuarded {heap} new = record { valid = empty_orderbook-IsValid heap; exclusive = inl refl }
Reached-IsGuarded (step r s) = Step-IsGuarded (Reached-IsGuarded r) s

-- Steps through which a thread holds the lock that it shares.
pub data Holds (i : ℕ) (s : ThreadSafeOrderbook) : ThreadSafeOrderbook → Type 0 where
  holds : reads i s.readers ≡ true → Holds i s s
  still :
      {t u : ThreadSafeOrderbook} → Holds i s t → Step t u → reads i u.readers ≡ true → Holds i s u

Step-same :
    {s t : ThreadSafeOrderbook} (i : ℕ)
    → IsGuarded s
    → reads i s.readers ≡ true
    → Step s t
    → t.orderbook ≡ s.orderbook
Step-same i g r (writes j trades next w c) =
    absurd (elim g.exclusive [ inl n ↦ ground (arith, n, w) | inr e ↦ ground (arith, e, r) ])
Step-same i g r (lock j w e) = refl
Step-same i g r (unlock j w) = refl
Step-same i g r (lock_shared j w) = refl
Step-same i g r (gets_order_infos j infos q e) = refl
Step-same i g r (gets_size j n q e) = refl
Step-same i g r (unlock_shared j q) = refl

Holds-reads : {i : ℕ} {s t : ThreadSafeOrderbook} → Holds i s t → reads i t.readers ≡ true
Holds-reads (holds r) = r
Holds-reads (still h s r) = r

Holds-Reached :
    {heap : Heap} {i : ℕ} {s t : ThreadSafeOrderbook}
    → Reached heap s
    → Holds i s t
    → Reached heap t
Holds-Reached r (holds q) = r
Holds-Reached r (still h s q) = step (Holds-Reached r h) s

same_book :
    {heap : Heap} {i : ℕ} {s t : ThreadSafeOrderbook}
    → Reached heap s
    → Holds i s t
    → t.orderbook ≡ s.orderbook
same_book r (holds q) = refl
same_book {i = i} r (still h s q) =
    Step-same i (Reached-IsGuarded (Holds-Reached r h)) (Holds-reads h) s ∙ same_book r h

-- While a thread holds the shared lock, from a state that threads have reached on, the book does not
-- change, whatever steps the threads take; it stays valid and nobody writes it.
pub Holds-IsGuarded :
    {heap : Heap} {i : ℕ} {s t : ThreadSafeOrderbook}
    → Reached heap s
    → Holds i s t
    → IsGuarded t × (t.orderbook ≡ s.orderbook) × (t.writer ≡ none)
Holds-IsGuarded {t = t} r h =
    let g = Reached-IsGuarded (Holds-Reached r h) in
    (
      g,
      same_book r h,
      elim g.exclusive [ inl w ↦ w | inr e ↦ absurd (ground (arith, e, Holds-reads h)) ],
    )
