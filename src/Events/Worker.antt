-- ===== src/Events/Worker.antt =====
-- src/core/event-system/eventWorker.ts, and `persistEvent` of event.service.ts.
use Prim.Native.String.{String}
use Prim.Native.Char.{code}
use text.Mathlib.Text.{◌==◌ as str_eq}
use nayft_backend.Common.{
  ℕ, ◌+◌, zero, suc, ◌==◌, ◌&&◌, ◌||◌, not, Bool, true, false, if◌then◌else◌, Option, none, some,
}
use nayft_backend.Events.Payloads.{
  Payload, SystemEvent, raw_entry, invalid_schema, whole, Mode, mode_off, mode_log, mode_enforce,
  Checked, fits, misfit, Parsed, not_json, bad_schema, parsed, Popped, timed_out, broken, popped,
  Pushed, written, threw, Looked, exists, look_up_threw, invalid_json_queue, rejected_events,
  accepted_events, dlq_pushed, schema_violation, Validated, validate_incoming_client_event,
  validate_server_event, EventIo,
}

-- `text.startsWith(start)`, the text first.
unfoldable pub starts_with : String → String → Bool
starts_with t String.[] = true
starts_with String.[] (String.◌∷◌ c start) = false
starts_with (String.◌∷◌ d t) (String.◌∷◌ c start) = (code d == code c) && starts_with t start

-- `INTEREST_PROFILE_EVENTS`.
abbrev pub is_interest_profile_event : String → Bool
is_interest_profile_event t =
    str_eq t "news_feed:article_opened"
    || str_eq t "news_feed:source_clicked"
    || str_eq t "news_feed:source_viewed"

-- How one turn of the worker ends: nothing was there, a message was dealt with, or an error, with
-- whether it is the one of a closed connection.
pub data Turn : Type 0 where
  idle done : Turn
  failed : Bool → Turn

abbrev pub is_misfit : {M : Type 0} → Mode → Checked M → Bool
is_misfit mode_off c = false
is_misfit mode_log misfit = true
is_misfit mode_log (fits m) = false
is_misfit mode_enforce misfit = true
is_misfit mode_enforce (fits m) = false

-- `MAX_RETRIES`.
abbrev pub max_retries : ℕ
max_retries = 3

abbrev pub ended : {S : Type 0} → S → Pushed → S × Turn
ended s written = (s, done)
ended s (threw is_closed) = (s, failed is_closed)

abbrev pub goes_on : Turn → Bool
goes_on idle = true
goes_on done = true
goes_on (failed is_closed) = not is_closed

abbrev pub failures : Turn → ℕ
failures idle = 0
failures done = 0
failures (failed is_closed) = 1

module _ {M S : Type 0} (io : EventIo M S) where
  -- The validation of a client's payload and its counter.
  abbrev pub count_violation : S → Mode → Checked M → S
  count_violation s mode c = if is_misfit mode c then io.increment s schema_violation else s

  -- The event that is stored for a payload.
  abbrev pub event_of : S → Payload M → Bool → SystemEvent M
  event_of s p invalid_feature = record {
    feature_key = p.feature_key;
    event_type = p.event_type;
    user_id = p.user_id;
    metadata = p.metadata;
    timestamp = io.now s;
    invalid_feature = invalid_feature;
  }

  abbrev pub bridge_event : S → SystemEvent M → Bool → S
  bridge_event s e false = s
  bridge_event s e true = if e.invalid_feature then s else io.bridge s e

  abbrev pub after_create : SystemEvent M → Bool → S → Bool → S × Bool
  after_create e enabled s false = (s, false)
  after_create e enabled s true = (bridge_event s e enabled, true)

  -- The creation and the bridge to the notifications of `persistEvent`; `false` is a thrown error.
  unfoldable pub store_event : S → Payload M → Bool → Bool → S × Bool
  store_event s p invalid_feature enabled =
      let e = event_of s p invalid_feature in
      let (s', ok) = io.create s e in after_create e enabled s' ok

  -- `persistEvent`: an event that the worker did not validate is validated as the server's own, and
  -- dropped if that refuses it.
  unfoldable pub persist_event : S → Payload M → Bool → S × Bool
  unfolding store_event
  persist_event s p invalid_feature =
      let checked = io.check_server (io.mode s) p.feature_key p.event_type p.metadata in
      let counted = count_violation s (io.mode s) checked in
      let v = validate_server_event p (io.mode s) checked in
      if p.pre_validated
      then store_event s p invalid_feature (io.bridge_enabled s)
      else (if v.accept
          then store_event counted v.payload invalid_feature (io.bridge_enabled s)
          else (counted, true))

  -- The loop of `persistWithRetry` with `n` attempts left; `false` is the error that is thrown after
  -- the last one. The waiting between the attempts is not in the model.
  unfoldable pub persist_with_retry : ℕ → S → Payload M → Bool → S × Bool
  persist_with_retry zero s p invalid_feature = (s, false)
  persist_with_retry (suc n) s p invalid_feature =
      let (s', ok) = persist_event s p invalid_feature in
      let rest = persist_with_retry n s' p invalid_feature in if ok then (s', true) else rest

  -- `maybeEnqueueInterestProfile`.
  abbrev pub maybe_enqueue_interest_profile : S → Payload M → Option String → S
  maybe_enqueue_interest_profile s p none = s
  maybe_enqueue_interest_profile s p (some u) =
      if not (str_eq u "") && is_interest_profile_event p.event_type
      then io.enqueue_recompute s u
      else s

  abbrev pub count_dlq : S → Pushed → S × Turn
  count_dlq s written = (io.increment s dlq_pushed, done)
  count_dlq s (threw is_closed) = (s, failed is_closed)

  -- The end of `processOne`, after the attempts to store the payload.
  unfoldable pub after_persist : Payload M → S → Bool → S × Turn
  after_persist p s true =
      (maybe_enqueue_interest_profile (io.increment s accepted_events) p p.user_id, done)
  after_persist p s false = let (s', ok) = io.push_to_dlq s (whole p) in count_dlq s' ok

  -- `processOne` from its second `try` on.
  unfoldable pub process_feature : S → Payload M → Looked → S × Turn
  unfolding after_persist
  process_feature s p (look_up_threw is_closed) = (s, failed is_closed)
  process_feature s p (exists found) =
      let (s', ok) =
        persist_with_retry max_retries s (record p { pre_validated = true }) (not found) in
      after_persist p s' ok

  -- `processOne` after the validation of the payload `p`.
  unfoldable pub process_valid : S → Payload M → Validated M → S × Turn
  unfolding process_feature
  process_valid s p v =
      if v.accept
      then (process_feature s v.payload (
          if starts_with v.payload.feature_key "system"
          then exists true
          else io.feature_exists s v.payload.feature_key))
      else (let (s', ok) = io.push_to_dlq (io.increment s rejected_events) (whole p) in ended s' ok)

  -- `processOne` from the validation on.
  unfoldable pub process_payload : Mode → S → Payload M → S × Turn
  unfolding process_valid
  process_payload mode s p =
      let checked = io.check_client p.feature_key p.event_type p.metadata in
      process_valid (count_violation s mode checked) p
        (validate_incoming_client_event (record p { pre_validated = false }) mode checked)

  abbrev pub drop_text : S → String → S × Turn
  drop_text s raw =
      let (s', ok) = io.push_to_dlq (io.increment s invalid_json_queue) (raw_entry raw) in
      ended s' ok

  -- A failure of the push of a text of a bad schema is caught like a failure to parse the text.
  abbrev pub after_schema : String → S → Pushed → S × Turn
  after_schema raw s written = (s, done)
  after_schema raw s (threw is_closed) = drop_text s raw

  unfoldable pub process_parsed : Mode → S → String → Parsed M → S × Turn
  unfolding process_payload
  process_parsed mode s raw not_json = drop_text s raw
  process_parsed mode s raw bad_schema =
      let (s', ok) = io.push_to_dlq (io.increment s invalid_json_queue) (invalid_schema raw) in
      after_schema raw s' ok
  process_parsed mode s raw (parsed p) = process_payload mode s p

  unfoldable pub process_popped : Mode → S → Popped → S × Turn
  unfolding process_parsed
  process_popped mode s timed_out = (s, idle)
  process_popped mode s (broken is_closed) = (s, failed is_closed)
  process_popped mode s (popped raw) = process_parsed mode s raw (io.parse raw)

  -- `processOne`, with the mode that it is given.
  unfoldable pub process_one : Mode → S → S × Turn
  unfolding process_popped
  process_one mode s = let (s', p) = io.brpop s in process_popped mode s' p

  -- The first `n` turns of `runEventWorker`, and the number of them that end in an error. The error of
  -- a closed connection, whichever call throws it, ends the loop.
  unfoldable pub run_event_worker : ℕ → S → S × ℕ
  run_event_worker zero s = (s, 0)
  run_event_worker (suc n) s =
      let (s', turn) = process_one (io.mode s) s in
      let (s'', lost) = run_event_worker n s' in
      if io.is_shutdown_requested s
      then (s, 0)
      else (if goes_on turn then (s'', failures turn + lost) else (s', failures turn))
