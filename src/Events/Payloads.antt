-- ===== src/Events/Payloads.antt =====
-- The payloads of src/core/event-system, their validation (eventValidation.service.ts), and the calls
-- of Redis and MongoDB that the worker makes.
use Prim.Native.String.{String}
use nayft_backend.Common.{ℕ, ◌≡◌, Bool, true, false, List, ◌∷◌, Option, ◌⊎◌}

-- `EmitEventPayload`; the metadata are of a type `M`.
pub record Payload (M : Type 0) : Type 0 where
  pub feature_key : String
  pub event_type : String
  pub user_id : Option String
  pub metadata : M
  pub pre_validated : Bool

-- What `SystemEvent.create` is given.
pub record SystemEvent (M : Type 0) : Type 0 where
  pub feature_key : String
  pub event_type : String
  pub user_id : Option String
  pub metadata : M
  pub timestamp : ℕ
  pub invalid_feature : Bool

-- An entry of the list `events:failed`.
pub data DlqEntry (M : Type 0) : Type 0 where
  raw_entry : String → DlqEntry M
  invalid_schema : String → DlqEntry M
  whole : Payload M → DlqEntry M

-- `SchemaEnforcementMode`.
pub data Mode : Type 0 where
  mode_off mode_log mode_enforce : Mode

-- The answer of the registry of event types, whose schemas zod checks.
pub data Checked (M : Type 0) : Type 0 where
  fits : M → Checked M
  misfit : Checked M

-- `JSON.parse` and then `emitEventSchema.safeParse`.
pub data Parsed (M : Type 0) : Type 0 where
  not_json bad_schema : Parsed M
  parsed : Payload M → Parsed M

-- `brpop`: nothing for five seconds, the oldest message, or an error, where `true` is the one of a
-- closed connection (`isConnectionClosedError`).
pub data Popped : Type 0 where
  timed_out : Popped
  broken : Bool → Popped
  popped : String → Popped

-- A push onto the list of failed entries returns or throws, again with the kind of the error.
pub data Pushed : Type 0 where
  written : Pushed
  threw : Bool → Pushed

-- `featureExists`, which can throw as well.
pub data Looked : Type 0 where
  exists : Bool → Looked
  look_up_threw : Bool → Looked

pub data Counter : Type 0 where
  invalid_json_queue rejected_events accepted_events dlq_pushed schema_violation : Counter

pub record Validated (M : Type 0) : Type 0 where
  pub accept : Bool
  pub payload : Payload M

-- `validateIncomingClientEvent`, without the reason.
unfoldable pub validate_incoming_client_event :
    {M : Type 0} → Payload M → Mode → Checked M → Validated M
validate_incoming_client_event p mode_off c = record { accept = true; payload = p }
validate_incoming_client_event p mode_log (fits m) = record {
  accept = true;
  payload = record p { metadata = m };
}
validate_incoming_client_event p mode_log misfit = record { accept = true; payload = p }
validate_incoming_client_event p mode_enforce (fits m) = record {
  accept = true;
  payload = record p { metadata = m };
}
validate_incoming_client_event p mode_enforce misfit = record { accept = false; payload = p }

-- `validateServerEvent`, which decides in the same way on the registry's answer for the server.
abbrev pub validate_server_event : {M : Type 0} → Payload M → Mode → Checked M → Validated M
validate_server_event p mode c = validate_incoming_client_event p mode c

-- What Redis and MongoDB hold: the queue with the oldest message first, the failed entries and the
-- events with the newest first.
pub record Stored (M : Type 0) : Type 0 where
  pub queue : List String
  pub dlq : List (DlqEntry M)
  pub events : List (SystemEvent M)

-- The calls of the worker. A `false` of a creation stands for an error that the call throws.
pub record EventIo (M S : Type 0) : Type 0 where
  pub stored : S → Stored M
  pub brpop : S → S × Popped
  pub push_to_dlq : S → DlqEntry M → S × Pushed
  pub create : S → SystemEvent M → S × Bool
  pub feature_exists : S → String → Looked
  pub bridge : S → SystemEvent M → S
  pub enqueue_recompute : S → String → S
  pub increment : S → Counter → S
  pub now : S → ℕ
  pub mode : S → Mode
  pub bridge_enabled : S → Bool
  pub is_shutdown_requested : S → Bool
  pub parse : String → Parsed M
  pub check_client : String → String → M → Checked M
  pub check_server : Mode → String → String → M → Checked M

-- What Redis and MongoDB document of these calls: a message that is taken leaves the queue, and an
-- entry or an event is there after a write that returns. A call that throws may have been carried out
-- on the server before the error, or not: the model lets it be done by the time of the error or never.
pub record IsEventIo {M S : Type 0} (io : EventIo M S) : Type 0 where
  pub brpop-none : (s : S) → (io.brpop s).1 ≡ timed_out → io.stored (io.brpop s).0 ≡ io.stored s
  pub brpop-broken :
      (s : S) (is_closed : Bool)
      → (io.brpop s).1 ≡ broken is_closed
      → (io.stored (io.brpop s).0 ≡ io.stored s)
        ⊎ ((raw : String) × (io.stored s ≡ record (io.stored (io.brpop s).0) {
          queue = raw ∷ (io.stored (io.brpop s).0).queue;
        }))
  pub brpop-some :
      (s : S) (raw : String)
      → (io.brpop s).1 ≡ popped raw
      → io.stored s
        ≡ record (io.stored (io.brpop s).0) { queue = raw ∷ (io.stored (io.brpop s).0).queue }
  pub push_to_dlq-written :
      (s : S) (e : DlqEntry M)
      → (io.push_to_dlq s e).1 ≡ written
      → io.stored (io.push_to_dlq s e).0 ≡ record (io.stored s) { dlq = e ∷ (io.stored s).dlq }
  pub push_to_dlq-threw :
      (s : S) (e : DlqEntry M) (is_closed : Bool)
      → (io.push_to_dlq s e).1 ≡ threw is_closed
      → (io.stored (io.push_to_dlq s e).0 ≡ io.stored s)
        ⊎ (io.stored (io.push_to_dlq s e).0 ≡ record (io.stored s) { dlq = e ∷ (io.stored s).dlq })
  pub create-true :
      (s : S) (e : SystemEvent M)
      → (io.create s e).1 ≡ true
      → io.stored (io.create s e).0 ≡ record (io.stored s) { events = e ∷ (io.stored s).events }
  pub create-false :
      (s : S) (e : SystemEvent M)
      → (io.create s e).1 ≡ false
      → (io.stored (io.create s e).0 ≡ io.stored s)
        ⊎ (io.stored (io.create s e).0 ≡ record (io.stored s) { events = e ∷ (io.stored s).events })
  pub stored-bridge : (s : S) (e : SystemEvent M) → io.stored (io.bridge s e) ≡ io.stored s
  pub stored-enqueue_recompute :
      (s : S) (u : String) → io.stored (io.enqueue_recompute s u) ≡ io.stored s
  pub stored-increment : (s : S) (c : Counter) → io.stored (io.increment s c) ≡ io.stored s
