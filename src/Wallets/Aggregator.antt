-- ===== src/Wallets/Aggregator.antt =====
-- src/services/walletEventAggregator.ts: raw events wait in a buffer for each address and chain until a
-- timer takes them all out, and are then stored as one event. Between the two other events may come.
use nayft_backend.Common.{
  ℕ, zero, suc, ◌==◌, ◌&&◌, ◌||◌, Bool, true, false, if◌then◌else◌, List, [], ◌∷◌, ◌++◌, length,
  Option, none, some, add,
}
use nayft_backend.Wallets.Summaries.{
  WalletEventType, multi_chain_activity, TxStatus, success, failed, pending, WalletRawEvent,
  Summary, is_text, get_transaction_count, build_event_summaries,
}

-- An address with a chain.
abbrev pub Key : Type 0
Key = ℕ × ℕ

abbrev pub same_key : Key → Key → Bool
same_key (a, c) (b, d) = (a == b) && (c == d)

abbrev pub has_key : Key → List Key → Bool
has_key k [] = false
has_key k (l ∷ ls) = same_key k l || has_key k ls

abbrev pub remove_key : Key → List Key → List Key
remove_key k [] = []
remove_key k (l ∷ ls) = let rest = remove_key k ls in if same_key k l then ls else l ∷ rest

-- `eventBuffer`, in insertion order.
abbrev pub Buffer : Type 0
Buffer = List (Key × List WalletRawEvent)

abbrev pub get_events : Key → Buffer → List WalletRawEvent
get_events k [] = []
get_events k ((l, events) ∷ buffer) =
    let rest = get_events k buffer in if same_key k l then events else rest

abbrev pub set_events : Key → List WalletRawEvent → Buffer → Buffer
set_events k events [] = (k, events) ∷ []
set_events k events ((l, old) ∷ buffer) =
    let rest = set_events k events buffer in
    if same_key k l then (l, events) ∷ buffer else (l, old) ∷ rest

abbrev pub delete_events : Key → Buffer → Buffer
delete_events k [] = []
delete_events k ((l, events) ∷ buffer) =
    let rest = delete_events k buffer in if same_key k l then buffer else (l, events) ∷ rest

-- The chains of the events that wait for one address (`chainsWithActivity`).
unfoldable pub chains_with_activity : ℕ → Buffer → List ℕ → List ℕ
chains_with_activity address [] chains = chains
chains_with_activity address (((a, chain), events) ∷ buffer) chains =
    chains_with_activity address buffer (if a == address then add chain chains else chains)

-- A flush that has taken its events, the first of them apart, and waits for answers.
pub record Flush : Type 0 where
  pub key : Key
  pub first : WalletRawEvent
  pub others : List WalletRawEvent
  pub chains : List ℕ

abbrev pub batch : Flush → List WalletRawEvent
batch f = f.first ∷ f.others

-- What `createEvent` stores; `E` is what the services answer.
pub record WalletEvent (E : Type 0) : Type 0 where
  pub user : ℕ
  pub address : ℕ
  pub chain : ℕ
  pub type : WalletEventType
  pub raw_event_count : ℕ
  pub transaction_count : ℕ
  pub event_summaries : List Summary
  pub enriched_data : Option E
  pub tx_status : Option TxStatus

pub data RealtimeMessage (E : Type 0) : Type 0 where
  wallet_event : WalletEvent E → RealtimeMessage E
  wallet_status : ℕ → ℕ → TxStatus → RealtimeMessage E
  holdings_delta : E → RealtimeMessage E

pub data Receipt : Type 0 where
  no_receipt status_1 status_0 status_null : Receipt

-- The switches and the answers of the services in one flush: what Zerion and Alchemy answer, where
-- `none` is an error, the holdings that are stored, the receipt, and whether the event is written.
pub record Answers (E : Type 0) : Type 0 where
  pub zerion_enabled : Bool
  pub alchemy_enabled : Bool
  pub positions : Option E
  pub holdings : Option E
  pub transfers : Option E
  pub receipt : Receipt
  pub is_written : Bool

-- `failed_writes` are the flushes of which the log says that they failed; `emitted` is what the
-- subscribers get.
pub record Aggregator (E : Type 0) : Type 0 where
  pub buffer : Buffer
  pub flush_timers : List Key
  pub in_flight : List Flush
  pub saved : List (WalletEvent E)
  pub failed_writes : List Flush
  pub emitted : List (RealtimeMessage E)

pub data Event (E : Type 0) : Type 0 where
  ingest : WalletRawEvent → Event E
  fire : Key → Event E
  finish : ℕ → Answers E → Event E

abbrev pub key_of : WalletRawEvent → Key
key_of e = (e.address, e.chain)

abbrev pub is_several : List ℕ → Bool
is_several [] = false
is_several (x ∷ []) = false
is_several (x ∷ y ∷ xs) = true

abbrev pub receipt_status : Receipt → TxStatus
receipt_status no_receipt = pending
receipt_status status_1 = success
receipt_status status_0 = failed
receipt_status status_null = pending

module _ {E : Type 0} where
  -- `scheduleFlush`.
  unfoldable pub schedule_flush : Key → Aggregator E → Aggregator E
  schedule_flush k s =
      if has_key k s.flush_timers then s else record s { flush_timers = s.flush_timers ++ k ∷ [] }

  -- `ingestWalletEvent`; a cooldown is only logged.
  unfoldable pub ingest_wallet_event : WalletRawEvent → Aggregator E → Aggregator E
  unfolding schedule_flush
  ingest_wallet_event e s = schedule_flush (key_of e) (record s {
    buffer = set_events (key_of e) (get_events (key_of e) s.buffer ++ e ∷ []) s.buffer;
  })

  -- `flushBuffer` up to its first `await`.
  abbrev pub begin_flush : Key → List WalletRawEvent → Aggregator E → Aggregator E
  begin_flush k [] s = record s { buffer = delete_events k s.buffer }
  begin_flush k (e ∷ events) s =
      let rest = delete_events k s.buffer in
      record s {
        buffer = rest;
        in_flight =
            s.in_flight
            ++ record {
              key = k;
              first = e;
              others = events;
              chains = chains_with_activity k.0 rest (k.1 ∷ []);
            }
              ∷ [];
      }

  -- The timer of a key, if it is set.
  unfoldable pub fire_timer : Key → Aggregator E → Aggregator E
  unfolding chains_with_activity
  fire_timer k s =
      if has_key k s.flush_timers
      then begin_flush k (get_events k s.buffer)
          (record s { flush_timers = remove_key k s.flush_timers })
      else s

  abbrev pub is_zerion : Flush → Answers E → Bool
  is_zerion f a = is_several f.chains && a.zerion_enabled

  abbrev pub event_type : Flush → Answers E → WalletEventType
  event_type f a = if is_zerion f a then multi_chain_activity else f.first.type

  abbrev pub enriched : Flush → Answers E → Option E
  enriched f a =
      if is_zerion f a then a.positions else (if a.alchemy_enabled then a.transfers else none)

  abbrev pub delta_after : Option E → Option E → List (RealtimeMessage E)
  delta_after (some positions) (some holdings) = holdings_delta holdings ∷ []
  delta_after _ _ = []

  -- The holdings that are told, which Zerion's answer must have come for.
  abbrev pub told_holdings : Flush → Answers E → List (RealtimeMessage E)
  told_holdings f a = if is_zerion f a then delta_after a.positions a.holdings else []

  abbrev pub final_status : Flush → Answers E → Option TxStatus
  final_status f a =
      if is_text f.first.activity_tx_hash && a.alchemy_enabled
      then some (receipt_status a.receipt)
      else f.first.tx_status

  abbrev pub told_status : Flush → Option TxStatus → List (RealtimeMessage E)
  told_status f none = []
  told_status f (some status) =
      if is_text f.first.activity_tx_hash
      then wallet_status f.key.0 f.first.activity_tx_hash status ∷ []
      else []

  module _ (is_matic : ℕ → Bool) (pol : ℕ) (format_value : ℕ → ℕ) where
    abbrev pub saved_event : Flush → Answers E → WalletEvent E
    saved_event f a = record {
      user = f.first.user;
      address = f.key.0;
      chain = f.key.1;
      type = event_type f a;
      raw_event_count = length (batch f);
      transaction_count = get_transaction_count (batch f);
      event_summaries = build_event_summaries is_matic pol format_value (batch f) f.key.0;
      enriched_data = enriched f a;
      tx_status = final_status f a;
    }

    -- `flushBuffer` after its answers.
    unfoldable pub end_flush : Flush → Answers E → Aggregator E → Aggregator E
    end_flush f a s =
        if a.is_written
        then record s {
          saved = s.saved ++ saved_event f a ∷ [];
          emitted =
              s.emitted
              ++ wallet_event (saved_event f a) ∷ told_status f (final_status f a)
              ++ told_holdings f a;
        }
        else record s { failed_writes = s.failed_writes ++ f ∷ [] }

    -- One of the flushes that wait ends; `others` are those before it.
    abbrev pub end_nth : ℕ → List Flush → List Flush → Answers E → Aggregator E → Aggregator E
    end_nth n others [] a s = s
    end_nth zero others (f ∷ flushes) a s =
        end_flush f a (record s { in_flight = others ++ flushes })
    end_nth (suc n) others (f ∷ flushes) a s = end_nth n (others ++ f ∷ []) flushes a s

    unfoldable pub step : Event E → Aggregator E → Aggregator E
    unfolding ingest_wallet_event fire_timer end_flush
    step (ingest e) s = ingest_wallet_event e s
    step (fire k) s = fire_timer k s
    step (finish n a) s = end_nth n [] s.in_flight a s

    unfoldable pub run : List (Event E) → Aggregator E → Aggregator E
    unfolding step
    run [] s = s
    run (e ∷ events) s = run events (step e s)
