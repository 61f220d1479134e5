-- ===== src/Ops/Events/Stream.antt =====
-- Which events a client that comes back is sent.
use catnap.Common.{
  ℕ, zero, suc, ◌≤◌, String, Bool, false, not, ◌&&◌, ltb, ◌≡◌, refl, sym, ap, ◌∙◌, List, [], ◌∷◌,
  ◌++◌, append_assoc, append-nil, Option, none, some, map, map_some, keep, take, any, length, arith,
  pos,
}
use catnap.Ops.Events.{
  StoredOpsEvent, Published, Publication, inserted, sent, EventLog, stored, insert_event,
  send_event, publish_event_with_ts, publish_all, subscribe, is_recent, min_replay_id_since,
  replay_since, Frame, hello, metrics, reset, replayed, number, from_id, resume_of, resumed,
  cursor_id, get_ops_stream,
}

-- The rows that publications add.
abbrev row_of : EventLog → Publication → Option StoredOpsEvent → List StoredOpsEvent
row_of s sent unsent = []
row_of s (inserted p) (some e) = []
row_of s (inserted p) none = stored s.last_id p ∷ []

unfoldable pub added : EventLog → List Publication → List StoredOpsEvent
added s [] = []
added s (p ∷ ps) = row_of s p s.unsent ++ added (publish_event_with_ts s p) ps

abbrev pub waiting : Option StoredOpsEvent → List StoredOpsEvent
waiting none = []
waiting (some e) = e ∷ []

-- What one publication does to the rows and the ids, and to what was received or waits for it.
abbrev Grows : EventLog → List StoredOpsEvent → EventLog → Type 0
Grows s new t =
    (t.rows ≡ s.rows ++ new)
    × (s.last_id ≤ t.last_id)
    × ((id : ℕ) → id ≤ s.last_id → keep (λ e. ltb id e.id) new ≡ new)
    × ((q : List StoredOpsEvent)
        → s.received ≡ some q
        → (r : List StoredOpsEvent) × (t.received ≡ some r)
          × (r ++ waiting t.unsent ≡ (q ++ waiting s.unsent) ++ new))

keep-append :
    {A : Type 0} (p : A → Bool) (xs ys : List A) → keep p (xs ++ ys) ≡ keep p xs ++ keep p ys
keep-append p [] ys = refl
keep-append p (x ∷ xs) ys = ground (arith, keep-append p xs ys)

Grows-nothing : (s : EventLog) → Grows s [] s
Grows-nothing s = (
  sym (append-nil s.rows),
  omega arith,
  λ id l. refl,
  λ q h. (q, h, sym (append-nil (q ++ waiting s.unsent))),
)

Grows-insert :
    (s : EventLog) (p : Published) (unsent : Option StoredOpsEvent)
    → s.unsent ≡ unsent
    → Grows s (row_of s (inserted p) unsent) (insert_event s p unsent)
Grows-insert s p (some e) u = Grows-nothing s
Grows-insert s p none u =
    let e = stored s.last_id p in
    (
      refl,
      omega arith,
      λ id l. ground (arith, l),
      λ q h. (
        q,
        h,
        sym (ap (λ w. (q ++ waiting w) ++ e ∷ []) u ∙ ap (λ xs. xs ++ e ∷ []) (append-nil q)),
      ),
    )

Grows-send :
    (s : EventLog) (unsent : Option StoredOpsEvent)
    → s.unsent ≡ unsent
    → Grows s [] (send_event s unsent)
Grows-send s none u = Grows-nothing s
Grows-send s (some e) u = (
  sym (append-nil s.rows),
  omega arith,
  λ id l. refl,
  λ q h.
      (q ++ e ∷ [], ap (map_some (λ es. es ++ e ∷ [])) h, sym (ap (λ w. (q ++ waiting w) ++ []) u)),
)

Grows-publish :
    (s : EventLog) (p : Publication) → Grows s (row_of s p s.unsent) (publish_event_with_ts s p)
unfolding publish_event_with_ts
Grows-publish s (inserted p) = Grows-insert s p s.unsent refl
Grows-publish s sent = Grows-send s s.unsent refl

Grows-then :
    (s t u : EventLog) (xs ys : List StoredOpsEvent)
    → Grows s xs t
    → Grows t ys u
    → Grows s (xs ++ ys) u
Grows-then s t u xs ys (rows, ids, new, got) (rows', ids', new', got') = (
  rows' ∙ ap (λ r. r ++ ys) rows ∙ append_assoc s.rows xs ys,
  omega (arith, ids, ids'),
  λ id l.
      keep-append (λ e. ltb id e.id) xs ys
      ∙ ap (λ es. es ++ keep (λ e. ltb id e.id) ys) (new id l)
      ∙ ap (λ es. xs ++ es) (new' id (omega (arith, l, ids))),
  λ q h.
      let (r, a, b) = got q h in
      let (r', a', b') = got' r a in
      (r', a', b' ∙ ap (λ es. es ++ ys) b ∙ append_assoc (q ++ waiting s.unsent) xs ys),
)

Grows-all : (s : EventLog) (ps : List Publication) → Grows s (added s ps) (publish_all s ps)
unfolding added
Grows-all s [] = Grows-nothing s
Grows-all s (p ∷ ps) =
    let t = publish_event_with_ts s p in
    Grows-then s t (publish_all t ps) (row_of s p s.unsent) (added t ps) (Grows-publish s p)
      (Grows-all t ps)

take-all : {A : Type 0} (n : ℕ) (xs : List A) → length xs ≤ n → take n xs ≡ xs
take-all zero [] h = refl
take-all zero (x ∷ xs) h = ground (arith, h)
take-all (suc n) [] h = refl
take-all (suc n) (x ∷ xs) h = ap (λ ys. x ∷ ys) (take-all n xs (omega (arith, h)))

keep-recent :
    (id : ℕ) (cutoff : String) (rows : List StoredOpsEvent)
    → any (λ e. ltb id e.id && not (is_recent cutoff e)) rows ≡ false
    → keep (λ e. ltb id e.id && is_recent cutoff e) rows ≡ keep (λ e. ltb id e.id) rows
keep-recent id cutoff [] h = refl
keep-recent id cutoff (e ∷ rows) h = ground (arith, h, keep-recent id cutoff rows)

-- The events among the frames that are sent first.
abbrev pub sent_events : List Frame → List StoredOpsEvent
sent_events [] = []
sent_events (replayed e ∷ frames) = e ∷ sent_events frames
sent_events (hello id ∷ frames) = sent_events frames
sent_events (metrics id ∷ frames) = sent_events frames
sent_events (reset id reason ∷ frames) = sent_events frames

sent_events-replayed : (es : List StoredOpsEvent) → sent_events (map replayed es) ≡ es
sent_events-replayed [] = refl
sent_events-replayed (e ∷ es) = ap (λ rest. e ∷ rest) (sent_events-replayed es)

-- The state when the events are read.
abbrev pub at_replay : EventLog → List Publication → List Publication → EventLog
at_replay s before_min before_replay = publish_all (publish_all s before_min) before_replay

-- A client that comes back with an id that is still kept, where the events after it are recent and at
-- most 2000, is sent those of them whose rows were there when they were read. Of the later rows, its
-- receiver gets those that are sent after it was subscribed: the event whose row was there by then and
-- that was not yet sent, also if it was among those read, and those inserted afterwards, less the one
-- that is not yet sent. Events after its id are these, and those inserted between the read and the
-- subscription.
pub stream_exact :
    (s : EventLog) (cutoff : String) (id : ℕ) (before_min before_replay gap live : List Publication)
    → resume_of (number (pos id)) (min_replay_id_since cutoff (publish_all s before_min).rows)
      ≡ from_id id
    → id ≤ (at_replay s before_min before_replay).last_id
    → any (λ e. ltb id e.id && not (is_recent cutoff e)) (at_replay s before_min before_replay).rows
      ≡ false
    → length (keep (λ e. ltb id e.id) (at_replay s before_min before_replay).rows) ≤ 2000
    → let opened = get_ops_stream s cutoff (number (pos id)) before_min before_replay gap in
      let done = publish_all opened.1 live in
      let between = added (at_replay s before_min before_replay) gap in
      let later = added opened.1 live in
      (received : List StoredOpsEvent) × (done.received ≡ some received)
      × (received ++ waiting done.unsent ≡ waiting opened.1.unsent ++ later)
      × (keep (λ e. ltb id e.id) done.rows ≡ sent_events opened.0 ++ (between ++ later))
unfolding get_ops_stream replay_since
stream_exact s cutoff id before_min before_replay gap live fresh known recent few =
    let r = at_replay s before_min before_replay in
    let after_gap = publish_all r gap in
    let start = subscribe after_gap in
    let newer : List StoredOpsEvent → List StoredOpsEvent = λ es. keep (λ e. ltb id e.id) es in
    let between = added r gap in
    let later = added start live in
    let (rows, ids, new, got) = Grows-all r gap in
    let (rows', ids', new', got') = Grows-all start live in
    let (received, is_received, balance) = got' [] refl in
    let sent_first =
      ap (λ from. sent_events (resumed (cursor_id s.rows) cutoff r.rows from)) fresh
      ∙ sent_events-replayed (replay_since id cutoff r.rows)
      ∙ ap (take 2000) (keep-recent id cutoff r.rows recent)
      ∙ take-all 2000 (newer r.rows) few in
    (
      received,
      is_received,
      balance,
      ap newer rows'
          ∙ keep-append (λ e. ltb id e.id) after_gap.rows later
          ∙ ap (λ es. newer es ++ newer later) rows
          ∙ ap (λ es. es ++ newer later) (keep-append (λ e. ltb id e.id) r.rows between)
          ∙ append_assoc (newer r.rows) (newer between) (newer later)
          ∙ ap (λ es. newer r.rows ++ (es ++ newer later)) (new id known)
          ∙ ap (λ es. newer r.rows ++ (between ++ es)) (new' id (omega (arith, known, ids)))
          ∙ ap (λ es. es ++ (between ++ later)) (sym sent_first),
    )
