-- ===== src/Wallets/Attribution.antt =====
-- Whom src/services/walletEventAggregator.ts stores an event for.
use nayft_backend.Common.{
  ℕ, zero, suc, ◌≤◌, ◌≡◌, refl, sym, Bool, true, List, [], ◌∷◌, ◌++◌, All, length, arith, inl, inr,
  Bool-cases, by_branches,
}
use nayft_backend.Wallets.Summaries.{WalletRawEvent}
use nayft_backend.Wallets.Transactions.{build_event_summaries-count}
use nayft_backend.Wallets.Aggregator.{
  Key, same_key, has_key, remove_key, Buffer, get_events, set_events, delete_events, Flush, batch,
  WalletEvent, Answers, Aggregator, Event, ingest, fire, finish, key_of, schedule_flush,
  ingest_wallet_event, begin_flush, fire_timer, saved_event, end_flush, end_nth, step, run,
}
use nayft_backend.Wallets.Scheduling.{same_key_eq}

module _ {A : Type 0} (P : A → Type 0) where
  All-append : (xs ys : List A) → All P xs → All P ys → All P (xs ++ ys)
  All-append [] ys h k = k
  All-append (x ∷ xs) ys (p, h) k = (p, All-append xs ys h k)

Key_eq : (k l : Key) → same_key k l ≡ true → k ≡ l
Key_eq (a, c) (b, d) e = let (x, y) = same_key_eq (a, c) (b, d) e in rw x (rw y refl)

module _ (P : Key → WalletRawEvent → Type 0) where
  abbrev Entry : Key × List WalletRawEvent → Type 0
  Entry entry = All (P entry.0) entry.1

  get_events-All : (k : Key) (b : Buffer) → All Entry b → All (P k) (get_events k b)
  get_events-All k [] h = tt
  get_events-All k ((l, events) ∷ b) (p, h) = elim (Bool-cases (same_key k l)) [
    | inl same ↦ rw same (rw (Key_eq k l same) p)
    | inr other ↦ rw other (get_events-All k b h)
  ]

  set_events-All :
      (k : Key) (new : List WalletRawEvent) (b : Buffer)
      → All (P k) new
      → All Entry b
      → All Entry (set_events k new b)
  set_events-All k new [] n h = (n, tt)
  set_events-All k new ((l, events) ∷ b) n (p, h) = elim (Bool-cases (same_key k l)) [
    | inl same ↦ rw same (rw (sym (Key_eq k l same)) n, h)
    | inr other ↦ rw other (p, set_events-All k new b n h)
  ]

  delete_events-All : (k : Key) (b : Buffer) → All Entry b → All Entry (delete_events k b)
  delete_events-All k [] h = tt
  delete_events-All k ((l, events) ∷ b) (p, h) =
      by_branches (All Entry) (same_key k l) h (p, delete_events-All k b h)

module _ (is_matic : ℕ → Bool) (pol : ℕ) (format_value : ℕ → ℕ) (owner : ℕ → ℕ) where
  -- A raw event of a key is for the owner of its address.
  abbrev pub IsFor : Key → WalletRawEvent → Type 0
  IsFor k e = (e.address ≡ k.0) × (e.chain ≡ k.1) × (e.user ≡ owner k.0)

  -- A stored event is for the owner of its address and counts its transactions and events right.
  abbrev pub IsRight : {E : Type 0} → WalletEvent E → Type 0
  IsRight d =
      (d.user ≡ owner d.address)
      × (1 ≤ d.raw_event_count)
      × (d.transaction_count ≤ length d.event_summaries)
      × (length d.event_summaries ≤ d.raw_event_count)

  module _ {E : Type 0} where
    -- Everything that waits or is being flushed has its key, and what is stored is right.
    pub record IsOwners (s : Aggregator E) : Type 0 where
      pub waiting :
          All (λ (entry : Key × List WalletRawEvent). All (IsFor entry.0) entry.1) s.buffer
      pub flushing : All (λ f. All (IsFor f.key) (batch f)) s.in_flight
      pub right : All IsRight s.saved

    ingest-IsOwners :
        (e : WalletRawEvent) (s : Aggregator E)
        → e.user ≡ owner e.address
        → IsOwners s
        → IsOwners (ingest_wallet_event e s)
    unfolding ingest_wallet_event schedule_flush
    ingest-IsOwners e s own h =
        let old = get_events-All IsFor (key_of e) s.buffer h.waiting in
        let new =
          set_events-All IsFor (key_of e) (get_events (key_of e) s.buffer ++ e ∷ []) s.buffer
            (All-append (IsFor (key_of e)) (get_events (key_of e) s.buffer) (e ∷ []) old
              ((refl, refl, own), tt))
            h.waiting in
        by_branches IsOwners (has_key (key_of e) s.flush_timers)
          (record { waiting = new; flushing = h.flushing; right = h.right })
          (record { waiting = new; flushing = h.flushing; right = h.right })

    begin-IsOwners :
        (k : Key) (events : List WalletRawEvent) (s : Aggregator E)
        → All (IsFor k) events
        → IsOwners s
        → IsOwners (begin_flush k events s)
    begin-IsOwners k [] s p h = record {
      waiting = delete_events-All IsFor k s.buffer h.waiting;
      flushing = h.flushing;
      right = h.right;
    }
    begin-IsOwners k (e ∷ events) s p h = record {
      waiting = delete_events-All IsFor k s.buffer h.waiting;
      flushing =
          All-append (λ f. All (IsFor f.key) (batch f)) s.in_flight (_ ∷ []) h.flushing (p, tt);
      right = h.right;
    }

    fire-IsOwners : (k : Key) (s : Aggregator E) → IsOwners s → IsOwners (fire_timer k s)
    unfolding fire_timer
    fire-IsOwners k s h =
        by_branches IsOwners (has_key k s.flush_timers)
          (begin-IsOwners k (get_events k s.buffer)
            (record s { flush_timers = remove_key k s.flush_timers })
            (get_events-All IsFor k s.buffer h.waiting)
            (record { waiting = h.waiting; flushing = h.flushing; right = h.right }))
          h

    saved-IsRight :
        (f : Flush) (a : Answers E)
        → All (IsFor f.key) (batch f)
        → IsRight (saved_event is_matic pol format_value f a)
    saved-IsRight f a ((address, chain, user), h) =
        let (low, high) = build_event_summaries-count is_matic pol format_value (batch f) f.key.0 in
        (user, omega arith, low, high)

    end-IsOwners :
        (f : Flush) (a : Answers E) (s : Aggregator E)
        → All (IsFor f.key) (batch f)
        → IsOwners s
        → IsOwners (end_flush is_matic pol format_value f a s)
    unfolding end_flush
    end-IsOwners f a s p h =
        by_branches IsOwners a.is_written
          (record {
            waiting = h.waiting;
            flushing = h.flushing;
            right =
                All-append IsRight s.saved (saved_event is_matic pol format_value f a ∷ []) h.right
                  (saved-IsRight f a p, tt);
          })
          (record { waiting = h.waiting; flushing = h.flushing; right = h.right })

    end_nth-IsOwners :
        (n : ℕ) (others flushes : List Flush) (a : Answers E) (s : Aggregator E)
        → All (λ f. All (IsFor f.key) (batch f)) others
        → All (λ f. All (IsFor f.key) (batch f)) flushes
        → IsOwners s
        → IsOwners (end_nth is_matic pol format_value n others flushes a s)
    end_nth-IsOwners n others [] a s o k h = h
    end_nth-IsOwners zero others (f ∷ flushes) a s o (p, k) h =
        end-IsOwners f a (record s { in_flight = others ++ flushes }) p
          (record {
            waiting = h.waiting;
            flushing = All-append (λ f. All (IsFor f.key) (batch f)) others flushes o k;
            right = h.right;
          })
    end_nth-IsOwners (suc n) others (f ∷ flushes) a s o (p, k) h =
        end_nth-IsOwners n (others ++ f ∷ []) flushes a s
          (All-append (λ f. All (IsFor f.key) (batch f)) others (f ∷ []) o (p, tt)) k h

    -- Every raw event that comes is for the owner of its address.
    abbrev pub AreForOwners : List (Event E) → Type 0
    AreForOwners [] = Unit
    AreForOwners (ingest e ∷ events) = (e.user ≡ owner e.address) × AreForOwners events
    AreForOwners (_ ∷ events) = AreForOwners events

    -- If each raw event that comes is for the one owner of its address, then after any events,
    -- whatever the services answer, each stored event is for the owner of its address, counts at least
    -- one raw event, and has at least as many summaries as it counts transactions and at most as many
    -- as it counts raw events, as long as the ones before are so.
    pub run-IsOwners :
        (events : List (Event E)) (s : Aggregator E)
        → AreForOwners events
        → IsOwners s
        → IsOwners (run is_matic pol format_value events s)
    unfolding run step
    run-IsOwners [] s own h = h
    run-IsOwners (ingest e ∷ events) s (o, own) h =
        run-IsOwners events (ingest_wallet_event e s) own (ingest-IsOwners e s o h)
    run-IsOwners (fire k ∷ events) s own h =
        run-IsOwners events (fire_timer k s) own (fire-IsOwners k s h)
    run-IsOwners (finish n a ∷ events) s own h =
        run-IsOwners events (end_nth is_matic pol format_value n [] s.in_flight a s) own
          (end_nth-IsOwners n [] s.in_flight a s tt h.flushing h)
