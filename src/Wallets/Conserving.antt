-- ===== src/Wallets/Conserving.antt =====
-- How many raw events src/services/walletEventAggregator.ts holds, and where.
use nayft_backend.Common.{
  ℕ, zero, suc, ◌+◌, ◌≡◌, refl, ap, ◌∙◌, Bool, List, [], ◌∷◌, ◌++◌, length, length-append, sum_by,
  sum_by-append, arith, by_branches,
}
use nayft_backend.Wallets.Summaries.{WalletRawEvent}
use nayft_backend.Wallets.Aggregator.{
  Key, has_key, remove_key, Buffer, get_events, set_events, delete_events, Flush, batch, Answers,
  Aggregator, Event, ingest, fire, finish, key_of, schedule_flush, ingest_wallet_event, begin_flush,
  fire_timer, saved_event, end_flush, end_nth, step, run,
}

abbrev size : Buffer → ℕ
size b = sum_by (λ entry. length entry.1) b

abbrev flushes_size : List Flush → ℕ
flushes_size fs = sum_by (λ f. length (batch f)) fs

set_events-size :
    (k : Key) (new : List WalletRawEvent) (b : Buffer)
    → size (set_events k new b) + length (get_events k b) ≡ size b + length new
set_events-size k new [] = omega arith
set_events-size k new ((l, events) ∷ b) = ground (arith, set_events-size k new b)

push-size :
    (k : Key) (e : WalletRawEvent) (b : Buffer)
    → size (set_events k (get_events k b ++ e ∷ []) b) ≡ size b + 1
push-size k e b =
    omega (
      arith,
      set_events-size k (get_events k b ++ e ∷ []) b,
      length-append (get_events k b) (e ∷ []),
    )

delete_events-size :
    (k : Key) (b : Buffer) → size (delete_events k b) + length (get_events k b) ≡ size b
delete_events-size k [] = refl
delete_events-size k ((l, events) ∷ b) = ground (arith, delete_events-size k b)

module _ {E : Type 0} where
  -- The raw events that wait, are being flushed, are stored, or were in a flush that failed.
  abbrev pub raw_events : Aggregator E → ℕ
  raw_events s =
      size s.buffer
      + flushes_size s.in_flight
      + sum_by (λ d. d.raw_event_count) s.saved
      + flushes_size s.failed_writes

  ingest-raw_events :
      (e : WalletRawEvent) (s : Aggregator E)
      → raw_events (ingest_wallet_event e s) ≡ raw_events s + 1
  unfolding ingest_wallet_event schedule_flush
  ingest-raw_events e s =
      by_branches (λ (t : Aggregator E). raw_events t ≡ raw_events s + 1)
        (has_key (key_of e) s.flush_timers) (omega (arith, push-size (key_of e) e s.buffer))
        (omega (arith, push-size (key_of e) e s.buffer))

  begin-raw_events :
      (k : Key) (events : List WalletRawEvent) (s : Aggregator E)
      → get_events k s.buffer ≡ events
      → raw_events (begin_flush k events s) ≡ raw_events s
  begin-raw_events k [] s e = omega (arith, delete_events-size k s.buffer, ap length e)
  begin-raw_events k (d ∷ events) s e = omega (
    arith,
    delete_events-size k s.buffer,
    ap length e,
    sum_by-append (λ f. length (batch f)) s.in_flight _,
  )

  fire-raw_events : (k : Key) (s : Aggregator E) → raw_events (fire_timer k s) ≡ raw_events s
  unfolding fire_timer
  fire-raw_events k s =
      by_branches (λ (t : Aggregator E). raw_events t ≡ raw_events s) (has_key k s.flush_timers)
        (begin-raw_events k (get_events k s.buffer)
          (record s { flush_timers = remove_key k s.flush_timers }) refl)
        refl

  module _ (is_matic : ℕ → Bool) (pol : ℕ) (format_value : ℕ → ℕ) where
    end-raw_events :
        (f : Flush) (a : Answers E) (s : Aggregator E)
        → raw_events (end_flush is_matic pol format_value f a s) ≡ raw_events s + length (batch f)
    unfolding end_flush
    end-raw_events f a s =
        by_branches (λ (t : Aggregator E). raw_events t ≡ raw_events s + length (batch f))
          a.is_written
          (omega (
            arith,
            sum_by-append (λ d. d.raw_event_count) s.saved
                (saved_event is_matic pol format_value f a ∷ []),
          ))
          (omega (arith, sum_by-append (λ g. length (batch g)) s.failed_writes (f ∷ [])))

    end_nth-raw_events :
        (n : ℕ) (others flushes : List Flush) (a : Answers E) (s : Aggregator E)
        → flushes_size s.in_flight ≡ flushes_size others + flushes_size flushes
        → raw_events (end_nth is_matic pol format_value n others flushes a s) ≡ raw_events s
    end_nth-raw_events n others [] a s e = refl
    end_nth-raw_events zero others (f ∷ flushes) a s e =
        end-raw_events f a (record s { in_flight = others ++ flushes })
        ∙ omega (arith, e, sum_by-append (λ g. length (batch g)) others flushes)
    end_nth-raw_events (suc n) others (f ∷ flushes) a s e =
        end_nth-raw_events n (others ++ f ∷ []) flushes a s
          (omega (arith, e, sum_by-append (λ g. length (batch g)) others (f ∷ [])))

    abbrev pub ingested : List (Event E) → ℕ
    ingested [] = 0
    ingested (ingest e ∷ events) = suc (ingested events)
    ingested (_ ∷ events) = ingested events

    step-raw_events :
        (e : Event E) (s : Aggregator E)
        → raw_events (step is_matic pol format_value e s) ≡ raw_events s + ingested (e ∷ [])
    unfolding step
    step-raw_events (ingest e) s = ingest-raw_events e s
    step-raw_events (fire k) s = omega (arith, fire-raw_events k s)
    step-raw_events (finish n a) s =
        omega (arith, end_nth-raw_events n [] s.in_flight a s (omega arith))

    pub run-raw_events :
        (events : List (Event E)) (s : Aggregator E)
        → raw_events (run is_matic pol format_value events s) ≡ raw_events s + ingested events
    unfolding run
    run-raw_events [] s = omega arith
    run-raw_events (ingest e ∷ events) s = omega (
      arith,
      run-raw_events events (step is_matic pol format_value (ingest e) s),
      step-raw_events (ingest e) s,
    )
    run-raw_events (fire k ∷ events) s = omega (
      arith,
      run-raw_events events (step is_matic pol format_value (fire k) s),
      step-raw_events (fire k) s,
    )
    run-raw_events (finish n a ∷ events) s = omega (
      arith,
      run-raw_events events (step is_matic pol format_value (finish n a) s),
      step-raw_events (finish n a) s,
    )
