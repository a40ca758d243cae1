-- ===== src/Reports.antt =====
-- internal/relay/handler.go: `newControlReportSender`. One producer and one sender goroutine share a
-- channel with one place; their interleavings are the sequences of `Step`.
use sesori_relay_server.Prelude.{◌≡◌, refl, sym, subst, Option, none, some}
use sesori_relay_server.Notifications.{BridgeStatusPayload}

-- Where the producer is inside the call `report(r)`: outside of it, before the first `select`,
-- after it fell through, or at the last send.
pub data Producer : Type 0 where
  idle : Producer
  offering draining sending : BridgeStatusPayload → Producer

pub record Sender : Type 0 where
  pub producer : Producer
  pub queue : Option BridgeStatusPayload  -- the channel of capacity 1
  pub in_flight : Option BridgeStatusPayload  -- the report of the HTTP request, if one runs
  pub last : Option BridgeStatusPayload  -- the argument of the last call that returned

pub data Step (s t : Sender) : Type 0 where
  -- The read loop calls the returned function.
  calls :
      (r : BridgeStatusPayload)
      → s.producer ≡ idle
      → t ≡ record s { producer = offering r }
      → Step s t
  -- `case reports <- report`.
  offers :
      (r : BridgeStatusPayload)
      → s.producer ≡ offering r
      → s.queue ≡ none
      → t ≡ record s { producer = idle; queue = some r; last = some r }
      → Step s t
  -- `default`, which is taken only while the channel is full.
  finds_full :
      (r q : BridgeStatusPayload)
      → s.producer ≡ offering r
      → s.queue ≡ some q
      → t ≡ record s { producer = draining r }
      → Step s t
  -- The inner `select`: the queued value is dropped, or the sender took it in the meantime.
  drains :
      (r : BridgeStatusPayload)
      → s.producer ≡ draining r
      → t ≡ record s { producer = sending r; queue = none }
      → Step s t
  -- `reports <- report`, which waits for room.
  sends :
      (r : BridgeStatusPayload)
      → s.producer ≡ sending r
      → s.queue ≡ none
      → t ≡ record s { producer = idle; queue = some r; last = some r }
      → Step s t
  -- The goroutine receives a report and starts the request.
  receives :
      (q : BridgeStatusPayload)
      → s.in_flight ≡ none
      → s.queue ≡ some q
      → t ≡ record s { queue = none; in_flight = some q }
      → Step s t
  -- The request ends.
  finishes : t ≡ record s { in_flight = none } → Step s t

abbrev pub start : Sender
start = record { producer = idle; queue = none; in_flight = none; last = none }

pub data Reach : Sender → Type 0 where
  here : Reach start
  next : {s t : Sender} → Reach s → Step s t → Reach t

-- At the last send the channel has room; a queued report is the last one that was given.
abbrev HasRoom : Producer → Option BridgeStatusPayload → Type 0
HasRoom (sending r) q = q ≡ none
HasRoom idle q = Unit {0}
HasRoom (offering r) q = Unit {0}
HasRoom (draining r) q = Unit {0}

abbrev IsLast : Option BridgeStatusPayload → Option BridgeStatusPayload → Type 0
IsLast none last = Unit {0}
IsLast (some q) last = last ≡ some q

pub record Inv (s : Sender) : Type 0 where
  pub room : HasRoom s.producer s.queue
  pub latest : IsLast s.queue s.last

Step-Inv : {s t : Sender} → Step s t → Inv s → Inv t
Step-Inv {s} (calls r p e) v = subst Inv (sym e) (record { room = tt; latest = v.latest })
Step-Inv {s} (offers r p q e) v = subst Inv (sym e) (record { room = tt; latest = refl })
Step-Inv {s} (finds_full r q p f e) v = subst Inv (sym e) (record { room = tt; latest = v.latest })
Step-Inv {s} (drains r p e) v = subst Inv (sym e) (record { room = refl; latest = tt })
Step-Inv {s} (sends r p q e) v = subst Inv (sym e) (record { room = tt; latest = refl })
Step-Inv {s} (receives q f h e) v =
    subst Inv (sym e) (record { room = stays_empty s.producer; latest = tt })
  where
    stays_empty : (p : Producer) → HasRoom p none
    stays_empty (sending r) = refl
    stays_empty idle = tt
    stays_empty (offering r) = tt
    stays_empty (draining r) = tt
Step-Inv {s} (finishes e) v = subst Inv (sym e) (record { room = v.room; latest = v.latest })

start-Inv : Inv start
start-Inv = record { room = tt; latest = tt }

Reach-Inv : {s : Sender} → Reach s → Inv s
Reach-Inv here = start-Inv
Reach-Inv (next r st) = Step-Inv st (Reach-Inv r)

HasRoom-sending :
    (p : Producer) (q : Option BridgeStatusPayload) (r : BridgeStatusPayload)
    → p ≡ sending r
    → HasRoom p q
    → q ≡ none
HasRoom-sending p q r e h = subst (λ p. HasRoom p q) e h

-- In every reachable interleaving of the producer and the sender of control reports, when the
-- producer is at its last send, that send can be taken at once: the read loop is never blocked by
-- the sender, and the report is then the one that waits.
pub sending_never_blocks :
    {s : Sender} (r : BridgeStatusPayload)
    → Reach s
    → s.producer ≡ sending r
    → (t : Sender) × Step s t × (t.producer ≡ idle) × (t.queue ≡ some r)
sending_never_blocks {s} r reach e =
    let empty = HasRoom-sending s.producer s.queue r e (Reach-Inv reach).room in
    (record s { producer = idle; queue = some r; last = some r }, sends r e empty refl, refl, refl)

-- In every reachable interleaving of the producer and the sender of control reports, a report that
-- waits in the channel is the last one whose call returned: older ones were dropped or are being
-- sent.
pub queue_latest :
    {s : Sender} (q : BridgeStatusPayload) → Reach s → s.queue ≡ some q → s.last ≡ some q
queue_latest {s} q reach e = subst (λ o. IsLast o s.last) e (Reach-Inv reach).latest
