-- ===== src/Server/Workers/Log.antt =====
-- The requests that the book of Orderbook Server/server.cpp has got, as commands of its specification
-- and by the client they are from.
use simple_orderbook_v.Common.{
  ℕ, ◌≡◌, ◌∙◌, refl, sym, ap, inl, inr, Option-cases, none, some, List, [], ◌∷◌, ◌++◌, ◌==◌,
  if◌then◌else◌, arith,
}
use simple_orderbook_v.Orderbook.Spec.{Resting, place, replace}
use simple_orderbook_v.Orderbook.Spec.Depth.{level_infos}
use simple_orderbook_v.Orderbook.Replay.{Command, add, cancel, modify, and_then, replay}
use simple_orderbook_v.Server.{Socket}
use simple_orderbook_v.Server.Handlers.{Machine, side_of, status_reply}
use simple_orderbook_v.Server.Handlers.Clients.Stream.{
  Request, add as add_request, cancel as cancel_request, modify as modify_request, reply_of,
}
use simple_orderbook_v.Server.Handlers.Outcomes.{modify_of}
use simple_orderbook_v.Server.Workers.{Work, order, status, added}
use mathlib.Core.List.{append_assoc, append-nil}

-- The call of the book that a request stands for; none where its side byte names no side.
abbrev pub commands_of : Request → List Command
commands_of (add_request m) = elim (side_of m.side) [
  | none ↦ []
  | some side ↦ add (added m side) ∷ []
]
commands_of (cancel_request m) = cancel m.order_id ∷ []
commands_of (modify_request m) = elim (side_of m.side) [
  | none ↦ []
  | some side ↦ modify (modify_of m side) ∷ []
]

abbrev pub work_commands : Work → List Command
work_commands (order request) = commands_of request
work_commands status = []

-- The work in the order in which the book got it, with each client's socket.
abbrev pub Log : Type 0
Log = List (Socket × Work)

abbrev pub all_commands : Log → List Command
all_commands [] = []
all_commands ((k, work) ∷ log) = work_commands work ++ all_commands log

-- The reply to a piece of work, by the orders that rest when the book gets it.
abbrev pub reply_to : Machine → Work → Resting → List ℕ
reply_to machine (order request) resting = reply_of machine request
reply_to machine status resting = status_reply machine (level_infos resting)

-- The replies to a log that begins with the resting orders.
abbrev pub replies : Machine → Log → Resting → List (Socket × List ℕ)
replies machine [] resting = []
replies machine ((k, work) ∷ log) resting =
    (k, reply_to machine work resting) ∷ elim (replay (work_commands work) resting) [
      | none ↦ []
      | some next ↦ replies machine log next
    ]

-- What concerns one socket.

abbrev pub requests_from : Socket → Log → List Work
requests_from j [] = []
requests_from j ((k, request) ∷ log) =
    let later = requests_from j log in if k == j then request ∷ later else later

abbrev pub sent_to : Socket → List (Socket × List ℕ) → List (List ℕ)
sent_to j [] = []
sent_to j ((k, bytes) ∷ rest) =
    let later = sent_to j rest in if k == j then bytes ∷ later else later

pub requests_from-append :
    (j k : Socket) (request : Work) (log : Log)
    → requests_from j (log ++ ((k, request) ∷ []))
      ≡ requests_from j log ++ (if k == j then request ∷ [] else [])
requests_from-append j k request [] = ground arith
requests_from-append j k request ((i, first) ∷ log) =
    ground (arith, requests_from-append j k request log)

pub sent_to-append :
    (j k : Socket) (bytes : List ℕ) (sent : List (Socket × List ℕ))
    → sent_to j (sent ++ ((k, bytes) ∷ [])) ≡ sent_to j sent ++ (if k == j then bytes ∷ [] else [])
sent_to-append j k bytes [] = ground arith
sent_to-append j k bytes ((i, first) ∷ sent) = ground (arith, sent_to-append j k bytes sent)

pub replay-append :
    (xs ys : List Command) (resting : Resting)
    → replay (xs ++ ys) resting ≡ and_then (replay xs resting) (replay ys)
replay-append [] ys resting = refl
replay-append (add o ∷ xs) ys resting = elim (Option-cases (place o resting)) [
  | inl e ↦ rw e refl
  | inr (next, e) ↦ rw e (replay-append xs ys next)
]
replay-append (cancel id ∷ xs) ys resting = replay-append xs ys _
replay-append (modify change ∷ xs) ys resting = elim (Option-cases (replace change resting)) [
  | inl e ↦ rw e refl
  | inr (next, e) ↦ rw e (replay-append xs ys next)
]

pub all_commands-append :
    (log : Log) (k : Socket) (request : Work)
    → all_commands (log ++ ((k, request) ∷ [])) ≡ all_commands log ++ work_commands request
all_commands-append [] k request = append-nil _
all_commands-append ((i, first) ∷ log) k request =
    ap (λ l. work_commands first ++ l) (all_commands-append log k request)
    ∙ sym (append_assoc (work_commands first) (all_commands log) (work_commands request))

-- The last reply is by the orders that the log before it leads to.
pub replies-append :
    (machine : Machine) (log : Log) (k : Socket) (work : Work) (resting shown : Resting)
    → replay (all_commands log) resting ≡ some shown
    → replies machine (log ++ ((k, work) ∷ [])) resting
      ≡ replies machine log resting ++ ((k, reply_to machine work shown) ∷ [])
replies-append machine [] k work resting shown e =
    let same : resting ≡ shown = ground (arith, e) in
    elim (Option-cases (replay (work_commands work) resting)) [
      | inl n ↦ rw (n, same) refl
      | inr (next, n) ↦ rw (n, same) refl
    ]
replies-append machine ((i, first) ∷ log) k work resting shown e =
    let split = sym (replay-append (work_commands first) (all_commands log) resting) ∙ e in
    elim (Option-cases (replay (work_commands first) resting)) [
      | inl n ↦ absurd (ground (arith, rw n at split))
      | inr (next, n) ↦ rw (n, replies-append machine log k work next shown (rw n at split)) refl
    ]
