-- ===== src/Events/Tests.antt =====
-- Queues as lists, and instances of the theorems on src/core/event-system/eventWorker.ts.
use Prim.Native.String.{String}
use nayft_backend.Common.{
  ℕ, ◌≡◌, refl, Bool, true, false, if◌then◌else◌, List, [], ◌∷◌, some, length,
}
use nayft_backend.Events.Payloads.{
  Payload, SystemEvent, mode_enforce, fits, Parsed, not_json, parsed, Popped, timed_out, popped,
  written, exists, look_up_threw, broken, validate_incoming_client_event, EventIo, Stored,
}
use nayft_backend.Events.Worker.{
  starts_with, store_event, persist_event, persist_with_retry, after_persist, process_feature,
  process_valid, process_payload, process_parsed, process_popped, process_one, run_event_worker,
}

-- The metadata are numbers, `ups` says for each of the next creations whether it returns. One that
-- throws has stored its event too, as after the loss of a connection.
record World : Type 0 where
  held : Stored ℕ
  ups : List Bool

abbrev pop_from : World → List String → World × Popped
pop_from w [] = (w, timed_out)
pop_from w (raw ∷ q) = (record w { held = record w.held { queue = q } }, popped raw)

abbrev create_in : World → SystemEvent ℕ → List Bool → World × Bool
create_in w e (false ∷ ups) =
    (record { held = record w.held { events = e ∷ w.held.events }; ups = ups }, false)
create_in w e (true ∷ ups) =
    (record { held = record w.held { events = e ∷ w.held.events }; ups = ups }, true)
create_in w e [] = (record w { held = record w.held { events = e ∷ w.held.events } }, true)

abbrev opened : Payload ℕ
opened = record {
  feature_key = "news_feed";
  event_type = "news_feed:article_opened";
  user_id = some "u1";
  metadata = 4;
  pre_validated = false;
}

abbrev parse_text : String → Parsed ℕ
parse_text String.[] = not_json
parse_text (String.◌∷◌ c t) = parsed opened

-- `known` says whether the features can be looked up.
abbrev world : Bool → EventIo ℕ World
world known = record {
  stored = λ w. w.held;
  brpop = λ w. pop_from w w.held.queue;
  push_to_dlq = λ w e. (record w { held = record w.held { dlq = e ∷ w.held.dlq } }, written);
  create = λ w e. create_in w e w.ups;
  feature_exists = λ w k. if known then exists true else look_up_threw false;
  bridge = λ w e. w;
  enqueue_recompute = λ w u. w;
  increment = λ w c. w;
  now = λ w. 0;
  mode = λ w. mode_enforce;
  bridge_enabled = λ w. true;
  is_shutdown_requested = λ w. false;
  parse = parse_text;
  check_client = λ k t m. fits m;
  check_server = λ mode k t m. fits m;
}

abbrev text_of : Popped → String
text_of timed_out = ""
text_of (broken is_closed) = ""
text_of (popped raw) = raw

-- Two messages; the first attempt to store throws.
abbrev two_messages : World
two_messages = record {
  held = record { queue = "{a}" ∷ "" ∷ []; dlq = []; events = [] };
  ups = false ∷ [];
}

-- The event is stored twice.
run_test : length (run_event_worker (world true) 3 two_messages).0.held.events ≡ 2
unfolding run_event_worker process_one process_popped process_parsed process_payload process_valid
    process_feature persist_with_retry persist_event store_event after_persist
    validate_incoming_client_event starts_with
run_test = refl

-- The look-up of the feature throws, and the first message is lost.
lost_test : (run_event_worker (world false) 3 two_messages).1 ≡ 1
unfolding run_event_worker process_one process_popped process_parsed process_payload process_valid
    process_feature validate_incoming_client_event starts_with
lost_test = refl

-- Every attempt to store the event throws.
abbrev no_answers : World
no_answers = record two_messages { ups = false ∷ false ∷ false ∷ [] }
