-- ===== src/Wallets/Draining.antt =====
-- What src/services/walletEventAggregator.ts does when its timers fire and its flushes end.
use nayft_backend.Common.{
  ℕ, zero, suc, ◌+◌, ◌≡◌, ◌||◌, refl, sym, ap, ◌∙◌, Bool, true, if◌then◌else◌, List, [], ◌∷◌, map,
  length, sum_by, arith, by_branches, ==_refl,
}
use nayft_backend.Wallets.Summaries.{WalletRawEvent}
use nayft_backend.Wallets.Aggregator.{
  Key, same_key, has_key, remove_key, get_events, Flush, batch, Answers, Aggregator, Event, fire,
  finish, begin_flush, fire_timer, end_flush, end_nth, step, run,
}
use nayft_backend.Wallets.Conserving.{raw_events, ingested, run-raw_events}
use nayft_backend.Wallets.Scheduling.{IsScheduled, run-IsScheduled, key_count, no_key}

back : {A : Type 0} (P : A → Type 0) (x y : A) → y ≡ x → P x → P y
back P x y e p = rw e p

same_key_refl : (k : Key) → same_key k k ≡ true
same_key_refl (a, c) = rw (==_refl a) (==_refl c)

module _ {E : Type 0} where
  -- The timers of some keys fire in turn, and then so many flushes end with the same answers.
  abbrev pub fires : List Key → List (Event E)
  fires ks = map (λ k. fire k) ks

  abbrev pub finishes : ℕ → Answers E → List (Event E)
  finishes zero a = []
  finishes (suc n) a = finish 0 a ∷ finishes n a

  begin-timers :
      (k : Key) (events : List WalletRawEvent) (s : Aggregator E)
      → (begin_flush k events s).flush_timers ≡ s.flush_timers
  begin-timers k [] s = refl
  begin-timers k (e ∷ events) s = refl

  begin-failed :
      (k : Key) (events : List WalletRawEvent) (s : Aggregator E)
      → (begin_flush k events s).failed_writes ≡ s.failed_writes
  begin-failed k [] s = refl
  begin-failed k (e ∷ events) s = refl

  fire-failed : (k : Key) (s : Aggregator E) → (fire_timer k s).failed_writes ≡ s.failed_writes
  unfolding fire_timer
  fire-failed k s =
      by_branches (λ (t : Aggregator E). t.failed_writes ≡ s.failed_writes)
        (has_key k s.flush_timers)
        (begin-failed k (get_events k s.buffer)
          (record s { flush_timers = remove_key k s.flush_timers }))
        refl

  fire_first :
      (k : Key) (ks : List Key) (s : Aggregator E)
      → s.flush_timers ≡ k ∷ ks
      → (fire_timer k s).flush_timers ≡ ks
  unfolding fire_timer
  fire_first k ks s e =
      ap
        (λ (b : Bool).
          (if b
            then begin_flush k (get_events k s.buffer)
                (record s { flush_timers = remove_key k s.flush_timers })
            else s).flush_timers)
        (ap (has_key k) e ∙ ap (λ b. b || has_key k ks) (same_key_refl k))
      ∙ begin-timers k (get_events k s.buffer)
          (record s { flush_timers = remove_key k s.flush_timers })
      ∙ ap (remove_key k) e
      ∙ ap (λ (b : Bool). if b then ks else k ∷ remove_key k ks) (same_key_refl k)

  module _ (is_matic : ℕ → Bool) (pol : ℕ) (format_value : ℕ → ℕ) where
    fires-timers :
        (ks : List Key) (s : Aggregator E)
        → s.flush_timers ≡ ks
        → ((run is_matic pol format_value (fires ks) s).flush_timers ≡ [])
          × ((run is_matic pol format_value (fires ks) s).failed_writes ≡ s.failed_writes)
    unfolding run step
    fires-timers [] s e = (e, refl)
    fires-timers (k ∷ ks) s e =
        let (timers, failed) = fires-timers ks (fire_timer k s) (fire_first k ks s e) in
        (timers, failed ∙ fire-failed k s)

    -- What a flush that is written leaves as it is.
    record IsWritten (fs : List Flush) (s t : Aggregator E) : Type 0 where
      flights : t.in_flight ≡ fs
      timers : t.flush_timers ≡ s.flush_timers
      failures : t.failed_writes ≡ s.failed_writes

    finish-IsWritten :
        (a : Answers E) (f : Flush) (fs : List Flush) (s : Aggregator E)
        → a.is_written ≡ true
        → IsWritten fs s (end_flush is_matic pol format_value f a (record s { in_flight = fs }))
    unfolding end_flush
    finish-IsWritten a f fs s e = rw e (record { flights = refl; timers = refl; failures = refl })

    finishes-IsWritten :
        (a : Answers E) (fs : List Flush) (s : Aggregator E)
        → a.is_written ≡ true
        → s.in_flight ≡ fs
        → IsWritten [] s (run is_matic pol format_value (finishes (length fs) a) s)
    unfolding run step
    finishes-IsWritten a [] s e none_left = record {
      flights = none_left;
      timers = refl;
      failures = refl;
    }
    finishes-IsWritten a (f ∷ fs) s e left =
        let t = end_flush is_matic pol format_value f a (record s { in_flight = fs }) in
        let first = finish-IsWritten a f fs s e in
        let rest = finishes-IsWritten a fs t e first.flights in
        back (λ x. IsWritten [] s (run is_matic pol format_value (finishes (length fs) a) x)) t
          (end_nth is_matic pol format_value 0 [] s.in_flight a s)
          (ap (λ l. end_nth is_matic pol format_value 0 [] l a s) left)
          (record {
            flights = rest.flights;
            timers = rest.timers ∙ first.timers;
            failures = rest.failures ∙ first.failures;
          })

    fires_none :
        (s : Aggregator E) (ks : List Key)
        → raw_events s + ingested is_matic pol format_value (fires ks) ≡ raw_events s
    fires_none s [] = omega arith
    fires_none s (k ∷ ks) = fires_none s ks

    finishes_none : (n : ℕ) (a : Answers E) → ingested is_matic pol format_value (finishes n a) ≡ 0
    finishes_none zero a = refl
    finishes_none (suc n) a = finishes_none n a

    -- All timers that are set fire, and then all flushes that are under way end.
    unfoldable pub drain : Answers E → Aggregator E → Aggregator E
    drain a s =
        let s' = run is_matic pol format_value (fires s.flush_timers) s in
        run is_matic pol format_value (finishes (length s'.in_flight) a) s'

    -- There is one timer for each buffer. If all timers fire, no more raw events come, and all flushes
    -- end with the same answers, in which the event is written, then nothing waits or is being flushed,
    -- no more flushes have failed, and the raw events counted in the stored events with those of the
    -- flushes that failed before are all there were.
    pub drain_all :
        (a : Answers E) (s : Aggregator E)
        → a.is_written ≡ true
        → IsScheduled s
        → let s' = drain a s in
          (s'.buffer ≡ [])
          × (s'.in_flight ≡ [])
          × (s'.failed_writes ≡ s.failed_writes)
          × (sum_by (λ d. d.raw_event_count) s'.saved
                + sum_by (λ f. length (batch f)) s.failed_writes
              ≡ raw_events s)
    unfolding drain
    drain_all a s written h =
        let s1 = run is_matic pol format_value (fires s.flush_timers) s in
        let n = length s1.in_flight in
        let s2 = run is_matic pol format_value (finishes n a) s1 in
        let (timers, failed) = fires-timers s.flush_timers s refl in
        let w = finishes-IsWritten a s1.in_flight s1 written refl in
        let scheduled =
          run-IsScheduled is_matic pol format_value (finishes n a) s1
            (run-IsScheduled is_matic pol format_value (fires s.flush_timers) s h) in
        let empty =
          no_key s2.buffer (λ k. sym (scheduled k) ∙ ap (key_count k) (w.timers ∙ timers)) in
        let failures = w.failures ∙ failed in
        (
          empty,
          w.flights,
          failures,
          omega (
            arith,
            run-raw_events is_matic pol format_value (finishes n a) s1,
            run-raw_events is_matic pol format_value (fires s.flush_timers) s,
            fires_none s s.flush_timers,
            finishes_none n a,
            ap (sum_by (λ (entry : Key × List WalletRawEvent). length entry.1)) empty,
            ap (sum_by (λ f. length (batch f))) w.flights,
            ap (sum_by (λ f. length (batch f))) failures,
          ),
        )
