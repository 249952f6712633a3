-- ===== src/Events/Persisting.antt =====
-- What a turn of the worker can add to what is stored, and what the attempts to store an event add
-- (src/core/event-system/eventWorker.ts).
use Prim.Native.String.{String}
use mathlib.Core.Path.{subst}
use nayft_backend.Common.{
  ℕ, zero, suc, ◌+◌, ◌≤◌, ◌≡◌, refl, sym, ◌∙◌, Bool, true, false, if◌then◌else◌, ◌∷◌, arith, inl,
  inr,
}
use nayft_backend.Events.Payloads.{
  Payload, SystemEvent, DlqEntry, raw_entry, invalid_schema, whole, Parsed, parsed, EventIo,
  IsEventIo, Stored,
}
use nayft_backend.Events.Worker.{
  event_of, bridge_event, after_create, store_event, persist_event, persist_with_retry,
}

-- Two payloads of one event; validation may change the metadata.
pub record IsSameEvent {M : Type 0} (p q : Payload M) : Type 0 where
  pub same_key : p.feature_key ≡ q.feature_key
  pub same_type : p.event_type ≡ q.event_type
  pub same_user : p.user_id ≡ q.user_id

-- The entry of the failed list is about the text of the message.
pub data IsAbout {M : Type 0} (parse : String → Parsed M) (raw : String) : DlqEntry M → Type 0 where
  about_text : IsAbout parse raw (raw_entry raw)
  about_schema : IsAbout parse raw (invalid_schema raw)
  about_payload :
      (p q : Payload M) → parse raw ≡ parsed p → IsSameEvent p q → IsAbout parse raw (whole q)

-- The event that is stored at a time for a payload.
abbrev pub event_at : {M : Type 0} → ℕ → Payload M → Bool → SystemEvent M
event_at t p invalid_feature = record {
  feature_key = p.feature_key;
  event_type = p.event_type;
  user_id = p.user_id;
  metadata = p.metadata;
  timestamp = t;
  invalid_feature = invalid_feature;
}

abbrev pub with_event : {M : Type 0} → SystemEvent M → Stored M → Stored M
with_event e v = record v { events = e ∷ v.events }

abbrev pub with_entry : {M : Type 0} → DlqEntry M → Stored M → Stored M
with_entry e v = record v { dlq = e ∷ v.dlq }

-- `Adds parse raw v v' m n`: `v'` is `v` with `m` more failed entries and `n` more events, all of them
-- about the message `raw`.
pub data Adds {M : Type 0} (parse : String → Parsed M) (raw : String) (v : Stored M)
    : Stored M → ℕ → ℕ → Type 0 where
  nothing : Adds parse raw v v 0 0
  entry :
      (w : Stored M) (m n : ℕ) (e : DlqEntry M)
      → IsAbout parse raw e
      → Adds parse raw v w m n
      → Adds parse raw v (with_entry e w) (suc m) n
  event :
      (w : Stored M) (m n t : ℕ) (p q : Payload M) (invalid_feature : Bool)
      → parse raw ≡ parsed p
      → IsSameEvent p q
      → Adds parse raw v w m n
      → Adds parse raw v (with_event (event_at t q invalid_feature) w) m (suc n)

-- Whether a write may be missing.
abbrev pub missing : Bool → ℕ
missing true = 0
missing false = 1

module _ {M S : Type 0} (io : EventIo M S) (raw : String) (v : Stored M) where
  -- The message has added `m` entries and `n` events by the state `s`.
  abbrev pub Added : S → ℕ → ℕ → Type 0
  Added s m n = Adds io.parse raw v (io.stored s) m n

  pub unchanged-Added :
      (s s' : S) (m n : ℕ) → io.stored s' ≡ io.stored s → Added s m n → Added s' m n
  unchanged-Added s s' m n e a = subst (λ w. Adds io.parse raw v w m n) (sym e) a

module _ {M S : Type 0} (io : EventIo M S) (laws : IsEventIo io) (raw : String) (v : Stored M) where
  stored-bridge_event :
      (s : S) (e : SystemEvent M) (enabled : Bool)
      → io.stored (bridge_event io s e enabled) ≡ io.stored s
  stored-bridge_event s e false = refl
  stored-bridge_event s e true = ground (arith, laws.stored-bridge s e)

  -- At most one more event, and one at least if the call returned.
  abbrev Attempted : S × Bool → ℕ → ℕ → ℕ → Type 0
  Attempted r attempts m n =
      (n' : ℕ) × Added io raw v r.0 m n'
      × (n ≤ n')
      × (n' ≤ n + attempts)
      × (suc n ≤ n' + missing r.1)

  module _ (p q : Payload M) (parses : io.parse raw ≡ parsed p) (same : IsSameEvent p q) where
    stored_event :
        (s s' : S) (invalid_feature : Bool) (m n : ℕ)
        → io.stored s' ≡ with_event (event_of io s q invalid_feature) (io.stored s)
        → Added io raw v s m n
        → Added io raw v s' m (suc n)
    stored_event s s' invalid_feature m n e a =
        subst (λ w. Adds io.parse raw v w m (suc n)) (sym e)
          (event (io.stored s) m n (io.now s) p q invalid_feature parses same a)

    after_create-Attempted :
        (s : S) (invalid_feature enabled ok : Bool) (m n : ℕ)
        → let e : SystemEvent M = event_of io s q invalid_feature in
          (io.create s e).1 ≡ ok
          → Added io raw v s m n
          → Attempted (after_create io e enabled (io.create s e).0 ok) 1 m n
    after_create-Attempted s invalid_feature enabled true m n h a =
        let e : SystemEvent M = event_of io s q invalid_feature in
        let s' = (io.create s e).0 in
        (
          suc n,
          stored_event s (bridge_event io s' e enabled) invalid_feature m n
              (stored-bridge_event s' e enabled ∙ laws.create-true s e h) a,
          omega arith,
          omega arith,
          omega arith,
        )
    after_create-Attempted s invalid_feature enabled false m n h a =
        let e : SystemEvent M = event_of io s q invalid_feature in
        let s' = (io.create s e).0 in
        elim (laws.create-false s e h) [
          | inl unchanged ↦ (
            n,
            unchanged-Added io raw v s s' m n unchanged a,
            omega arith,
            omega arith,
            omega arith,
          )
          | inr stored ↦ (
            suc n,
            stored_event s s' invalid_feature m n stored a,
            omega arith,
            omega arith,
            omega arith,
          )
        ]

    persist_event-Attempted :
        (s : S) (invalid_feature : Bool) (m n : ℕ)
        → q.pre_validated ≡ true
        → Added io raw v s m n
        → Attempted (persist_event io s q invalid_feature) 1 m n
    unfolding persist_event store_event
    persist_event-Attempted s invalid_feature m n pre a =
        let e : SystemEvent M = event_of io s q invalid_feature in
        simp pre (
          after_create-Attempted s invalid_feature (io.bridge_enabled s) (io.create s e).1 m n refl
            a)

    -- The rest of the attempts is made if the first one fails.
    choose-Attempted :
        (s' : S) (ok : Bool) (rest : S × Bool) (attempts m n : ℕ)
        → Attempted (s', ok) 1 m n
        → ((n' : ℕ) → Added io raw v s' m n' → Attempted rest attempts m n')
        → Attempted (if ok then (s', true) else rest) (suc attempts) m n
    choose-Attempted s' true rest attempts m n (n', a, more, le, one) next =
        (n', a, more, omega arith, one)
    choose-Attempted s' false rest attempts m n (n', a, more, le, one) next =
        let (n'', b, more', le', one') = next n' a in
        (n'', b, omega arith, omega arith, omega arith)

    pub persist_with_retry-Attempted :
        (attempts : ℕ) (s : S) (invalid_feature : Bool) (m n : ℕ)
        → q.pre_validated ≡ true
        → Added io raw v s m n
        → Attempted (persist_with_retry io attempts s q invalid_feature) attempts m n
    unfolding persist_with_retry
    persist_with_retry-Attempted zero s invalid_feature m n pre a =
        (n, a, omega arith, omega arith, omega arith)
    persist_with_retry-Attempted (suc attempts) s invalid_feature m n pre a =
        let (s', ok) = persist_event io s q invalid_feature in
        choose-Attempted s' ok (persist_with_retry io attempts s' q invalid_feature) attempts m n
          (persist_event-Attempted s invalid_feature m n pre a)
          (λ n' b. persist_with_retry-Attempted attempts s' invalid_feature m n' pre b)
