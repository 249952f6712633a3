-- ===== src/Wallets/Scheduling.antt =====
-- The buffers of src/services/walletEventAggregator.ts and their timers.
use nayft_backend.Common.{
  ℕ, zero, suc, ◌+◌, ◌≡◌, ◌==◌, ◌&&◌, refl, sym, ap, ◌∙◌, ltb, Bool, true, if◌then◌else◌, List, [],
  ◌∷◌, ◌++◌, map, length, sum_by, sum_by-append, arith, inl, inr, Bool-cases, by_branches,
}
use nayft_backend.Wallets.Summaries.{WalletRawEvent}
use nayft_backend.Wallets.Aggregator.{
  Key, same_key, has_key, remove_key, Buffer, get_events, set_events, delete_events, Flush, batch,
  Answers, Aggregator, Event, ingest, fire, finish, key_of, schedule_flush, ingest_wallet_event,
  begin_flush, fire_timer, end_flush, end_nth, step, run,
}
use nayft_backend.Wallets.Conserving.{raw_events, ingested, run-raw_events}

abbrev pub one_if : Bool → ℕ
one_if b = if b then 1 else 0

abbrev pub key_count : Key → List Key → ℕ
key_count k ls = sum_by (λ l. one_if (same_key k l)) ls

abbrev pub keys : Buffer → List Key
keys b = map (λ entry. entry.0) b

-- There are as many timers for a key as entries in the buffer.
abbrev pub IsScheduled : {E : Type 0} → Aggregator E → Type 0
IsScheduled s = (k : Key) → key_count k s.flush_timers ≡ key_count k (keys s.buffer)

pub same_key_eq : (k l : Key) → same_key k l ≡ true → (k.0 ≡ l.0) × (k.1 ≡ l.1)
same_key_eq k l e = (ground (arith, e), ground (arith, e))

same_key_trans : (j k l : Key) → same_key k l ≡ true → same_key j l ≡ same_key j k
same_key_trans j k l e =
    ap (λ x. (j.0 == x) && (j.1 == l.1)) (sym ((same_key_eq k l e).0))
    ∙ ap (λ x. (j.0 == k.0) && (j.1 == x)) (sym ((same_key_eq k l e).1))

has_key_iff : (k : Key) (ls : List Key) → has_key k ls ≡ ltb 0 (key_count k ls)
has_key_iff k [] = refl
has_key_iff k (l ∷ ls) = ground (arith, has_key_iff k ls)

keys-set_events :
    (j k : Key) (new : List WalletRawEvent) (b : Buffer)
    → key_count j (keys (set_events k new b))
      ≡ key_count j (keys b) + (if has_key k (keys b) then 0 else one_if (same_key j k))
keys-set_events j k new [] = omega arith
keys-set_events j k new ((l, events) ∷ b) = ground (arith, keys-set_events j k new b)

keys-delete_events :
    (j k : Key) (b : Buffer)
    → key_count j (keys (delete_events k b))
        + (if has_key k (keys b) then one_if (same_key j k) else 0)
      ≡ key_count j (keys b)
keys-delete_events j k [] = refl
keys-delete_events j k ((l, events) ∷ b) = elim (Bool-cases (same_key k l)) [
  | inl same ↦ rw same (omega (arith, ap one_if (same_key_trans j k l same)))
  | inr other ↦ rw other (omega (arith, keys-delete_events j k b))
]

key_count-remove_key :
    (j k : Key) (ls : List Key)
    → key_count j (remove_key k ls) + (if has_key k ls then one_if (same_key j k) else 0)
      ≡ key_count j ls
key_count-remove_key j k [] = refl
key_count-remove_key j k (l ∷ ls) = elim (Bool-cases (same_key k l)) [
  | inl same ↦ rw same (omega (arith, ap one_if (same_key_trans j k l same)))
  | inr other ↦ rw other (omega (arith, key_count-remove_key j k ls))
]

has_same :
    (k : Key) (ls ms : List Key) → key_count k ls ≡ key_count k ms → has_key k ls ≡ has_key k ms
has_same k ls ms e = has_key_iff k ls ∙ ap (ltb 0) e ∙ sym (has_key_iff k ms)

pub no_key : (b : Buffer) → ((k : Key) → key_count k (keys b) ≡ 0) → b ≡ []
no_key [] h = refl
no_key ((l, events) ∷ b) h = ground (arith, h l)

module _ {E : Type 0} where
  ingest-IsScheduled :
      (e : WalletRawEvent) (s : Aggregator E)
      → IsScheduled s
      → IsScheduled (ingest_wallet_event e s)
  unfolding ingest_wallet_event schedule_flush
  ingest-IsScheduled e s h = elim (Bool-cases (has_key (key_of e) s.flush_timers)) [
    | inl waits ↦
        let there =
          sym (has_same (key_of e) s.flush_timers (keys s.buffer) (h (key_of e))) ∙ waits in
        rw waits (λ j. omega (
          arith,
          h j,
          keys-set_events j (key_of e) (get_events (key_of e) s.buffer ++ e ∷ []) s.buffer,
          ap (λ (b : Bool). if b then 0 else one_if (same_key j (key_of e))) there,
        ))
    | inr idle ↦
        let gone = sym (has_same (key_of e) s.flush_timers (keys s.buffer) (h (key_of e))) ∙ idle in
        rw idle (λ j. omega (
          arith,
          h j,
          sum_by-append (λ l. one_if (same_key j l)) s.flush_timers (key_of e ∷ []),
          keys-set_events j (key_of e) (get_events (key_of e) s.buffer ++ e ∷ []) s.buffer,
          ap (λ (b : Bool). if b then 0 else one_if (same_key j (key_of e))) gone,
        ))
  ]

  begin-IsScheduled :
      (k : Key) (events : List WalletRawEvent) (s : Aggregator E)
      → IsScheduled (record s { buffer = delete_events k s.buffer })
      → IsScheduled (begin_flush k events s)
  begin-IsScheduled k [] s h = h
  begin-IsScheduled k (e ∷ events) s h = h

  fire-IsScheduled : (k : Key) (s : Aggregator E) → IsScheduled s → IsScheduled (fire_timer k s)
  unfolding fire_timer
  fire-IsScheduled k s h =
      by_branches IsScheduled (has_key k s.flush_timers)
        (begin-IsScheduled k (get_events k s.buffer)
          (record s { flush_timers = remove_key k s.flush_timers })
          (λ j. omega (
            arith,
            h j,
            key_count-remove_key j k s.flush_timers,
            keys-delete_events j k s.buffer,
            ap (λ (b : Bool). if b then one_if (same_key j k) else 0)
                (has_same k s.flush_timers (keys s.buffer) (h k)),
          )))
        h

  module _ (is_matic : ℕ → Bool) (pol : ℕ) (format_value : ℕ → ℕ) where
    end-IsScheduled :
        (f : Flush) (a : Answers E) (s : Aggregator E)
        → IsScheduled s
        → IsScheduled (end_flush is_matic pol format_value f a s)
    unfolding end_flush
    end-IsScheduled f a s h = by_branches IsScheduled a.is_written h h

    end_nth-IsScheduled :
        (n : ℕ) (others flushes : List Flush) (a : Answers E) (s : Aggregator E)
        → IsScheduled s
        → IsScheduled (end_nth is_matic pol format_value n others flushes a s)
    end_nth-IsScheduled n others [] a s h = h
    end_nth-IsScheduled zero others (f ∷ flushes) a s h =
        end-IsScheduled f a (record s { in_flight = others ++ flushes }) h
    end_nth-IsScheduled (suc n) others (f ∷ flushes) a s h =
        end_nth-IsScheduled n (others ++ f ∷ []) flushes a s h

    pub run-IsScheduled :
        (events : List (Event E)) (s : Aggregator E)
        → IsScheduled s
        → IsScheduled (run is_matic pol format_value events s)
    unfolding run step
    run-IsScheduled [] s h = h
    run-IsScheduled (ingest e ∷ events) s h =
        run-IsScheduled events (ingest_wallet_event e s) (ingest-IsScheduled e s h)
    run-IsScheduled (fire k ∷ events) s h =
        run-IsScheduled events (fire_timer k s) (fire-IsScheduled k s h)
    run-IsScheduled (finish n a ∷ events) s h =
        run-IsScheduled events (end_nth is_matic pol format_value n [] s.in_flight a s)
          (end_nth-IsScheduled n [] s.in_flight a s h)

    -- Some raw events wait, are being flushed, are stored or were in a flush that failed, and there is
    -- one timer for each buffer. After any events, whatever the services answer, if no timer is set
    -- and no flush is under way, then nothing waits, and the raw events counted in the stored events
    -- with those of the flushes that failed are those of before and those that have come.
    pub run-raw_event_count :
        (events : List (Event E)) (s : Aggregator E)
        → IsScheduled s
        → (run is_matic pol format_value events s).flush_timers ≡ []
        → (run is_matic pol format_value events s).in_flight ≡ []
        → let s' = run is_matic pol format_value events s in
          (s'.buffer ≡ [])
          × (sum_by (λ d. d.raw_event_count) s'.saved
                + sum_by (λ f. length (batch f)) s'.failed_writes
              ≡ raw_events s + ingested is_matic pol format_value events)
    run-raw_event_count events s h timers flushes =
        let s' = run is_matic pol format_value events s in
        let empty =
          no_key s'.buffer (λ k. sym (run-IsScheduled events s h k) ∙ ap (key_count k) timers) in
        (
          empty,
          omega (
            arith,
            run-raw_events is_matic pol format_value events s,
            ap (sum_by (λ (entry : Key × List WalletRawEvent). length entry.1)) empty,
            ap (sum_by (λ f. length (batch f))) flushes,
          ),
        )
