-- ===== src/Notifications/Unread.antt =====
-- The writes of src/modules/notifications/service.ts and of NotificationProcessor.ts in
-- src/services/notificationEngine, with the number of unread notifications that Redis keeps.
use nayft_backend.Common.{
  ℕ, ◌≡◌, ◌==◌, ◌&&◌, leb, Bool, true, false, if◌then◌else◌, List, [], ◌∷◌, map, any, sum_by,
  Option, none, some,
}
use nayft_backend.Common.Int.{ℤ, pos, negsuc, ◌+ℤ◌}
use nayft_backend.Notifications.Listing.{
  Status, unread, read, deleted, same_status, Notification, has_category,
}

-- The keys of redisKeys.ts.
pub data Key : Type 0 where
  seq_key unread_key : ℕ → Key
  dedupe_key throttle_key : ℕ → ℕ → Key

abbrev pub same_key : Key → Key → Bool
same_key (seq_key u) (seq_key v) = u == v
same_key (unread_key u) (unread_key v) = u == v
same_key (dedupe_key u h) (dedupe_key v g) = (u == v) && (h == g)
same_key (throttle_key u p) (throttle_key v q) = (u == v) && (p == q)
same_key _ _ = false

pub data Insertion : Type 0 where
  inserted duplicate failed : Insertion

-- Redis and the collection, with their state; `number` is the number under a key, which is 0 without
-- one, and `update` gives the documents that match another status.
pub record NotifDb (S : Type 0) : Type 0 where
  pub docs : S → List Notification
  pub number : S → Key → ℤ
  pub add_to : Key → ℤ → S → S
  pub set_number : Key → ℤ → S → S
  pub set_nx : Key → S → S × Bool
  pub insert : Notification → S → S × Insertion
  pub update : (Notification → Bool) → Status → S → S

abbrev pub with_status : (Notification → Bool) → Status → Notification → Notification
with_status p status n = if p n then record n { status = status } else n

abbrev pub id_count : ℕ → List Notification → ℕ
id_count i ns = sum_by (λ n. if n.id == i then 1 else 0) ns

abbrev pub after_insert : Notification → List Notification → Insertion → List Notification
after_insert n ns inserted = n ∷ ns
after_insert n ns duplicate = ns
after_insert n ns failed = ns

-- What their documentation says; a document is inserted only if no other has its identity.
pub record IsNotifDb {S : Type 0} (db : NotifDb S) : Type 0 where
  pub add_to_docs : (k : Key) (d : ℤ) (s : S) → db.docs (db.add_to k d s) ≡ db.docs s
  pub add_to_number :
      (k : Key) (d : ℤ) (s : S) (j : Key)
      → db.number (db.add_to k d s) j ≡ (if same_key j k then db.number s j +ℤ d else db.number s j)
  pub set_number_docs : (k : Key) (d : ℤ) (s : S) → db.docs (db.set_number k d s) ≡ db.docs s
  pub set_number_number :
      (k : Key) (d : ℤ) (s : S) (j : Key)
      → db.number (db.set_number k d s) j ≡ (if same_key j k then d else db.number s j)
  pub set_nx_docs : (k : Key) (s : S) → db.docs (db.set_nx k s).0 ≡ db.docs s
  pub set_nx_number :
      (k : Key) (s : S) (j : Key)
      → same_key j k ≡ false
      → db.number (db.set_nx k s).0 j ≡ db.number s j
  pub insert_docs :
      (n : Notification) (s : S)
      → db.docs (db.insert n s).0 ≡ after_insert n (db.docs s) (db.insert n s).1
  pub insert_fresh :
      (n : Notification) (s : S) → (db.insert n s).1 ≡ inserted → id_count n.id (db.docs s) ≡ 0
  pub insert_number :
      (n : Notification) (s : S) (j : Key) → db.number (db.insert n s).0 j ≡ db.number s j
  pub update_docs :
      (p : Notification → Bool) (status : Status) (s : S)
      → db.docs (db.update p status s) ≡ map (with_status p status) (db.docs s)
  pub update_number :
      (p : Notification → Bool) (status : Status) (s : S) (j : Key)
      → db.number (db.update p status s) j ≡ db.number s j

-- `countDocuments({ userId, status: 'unread' })`.
abbrev pub is_unread_of : ℕ → Notification → Bool
is_unread_of user n = (n.user == user) && same_status n.status unread

abbrev pub count_unread : ℕ → List Notification → ℕ
count_unread user ns = sum_by (λ n. if is_unread_of user n then 1 else 0) ns

-- The parts of a draft that decide about it; `throttle` is its policy with its limit.
pub record Draft : Type 0 where
  pub user : ℕ
  pub category : ℕ
  pub dedupe_hash : ℕ
  pub throttle : Option (ℕ × ℕ)

-- One write, with what is drawn for it.
pub data Write : Type 0 where
  materialize : Draft → ℕ → ℕ → Write
  one_read one_deleted : ℕ → ℕ → Write
  all_read : ℕ → Option ℕ → Write

abbrev pub is_negative : ℤ → Bool
is_negative (pos n) = false
is_negative (negsuc n) = true

abbrev pub is_within : ℤ → ℕ → Bool
is_within (pos n) limit = leb n limit
is_within (negsuc n) limit = true

module _ {S : Type 0} (db : NotifDb S) where
  -- `redis.decr`, and 0 where it falls below.
  unfoldable pub decrement_unread : ℕ → S → S
  decrement_unread user s =
      let s' = db.add_to (unread_key user) (negsuc 0) s in
      if is_negative (db.number s' (unread_key user))
      then db.set_number (unread_key user) (pos 0) s'
      else s'

  abbrev pub is_own_unread : ℕ → ℕ → Notification → Bool
  is_own_unread user id n = (n.id == id) && is_unread_of user n

  -- `markRead`.
  unfoldable pub mark_read : ℕ → ℕ → S → S
  unfolding decrement_unread
  mark_read user id s =
      if any (is_own_unread user id) (db.docs s)
      then decrement_unread user (db.update (is_own_unread user id) read s)
      else s

  -- `markAllRead`, of one category or of all.
  unfoldable pub mark_all_read : ℕ → Option ℕ → S → S
  mark_all_read user category s =
      let s' = db.update (λ n. is_unread_of user n && has_category category n) read s in
      db.set_number (unread_key user) (pos (count_unread user (db.docs s'))) s'

  -- `softDelete`, whose document is found by its identity and its user.
  unfoldable pub soft_delete : ℕ → ℕ → S → S
  unfolding decrement_unread
  soft_delete user id s =
      let s' = db.update (λ n. n.id == id) deleted s in
      if any (λ n. (n.id == id) && (n.user == user)) (db.docs s)
      then (if any (is_own_unread user id) (db.docs s) then decrement_unread user s' else s')
      else s

  -- `throttleAllow`.
  abbrev pub throttle_allow : ℕ → Option (ℕ × ℕ) → S → S × Bool
  throttle_allow user none s = (s, true)
  throttle_allow user (some (policy, limit)) s =
      let s' = db.add_to (throttle_key user policy) (pos 1) s in
      (s', is_within (db.number s' (throttle_key user policy)) limit)

  abbrev pub seq_of : ℤ → ℕ
  seq_of (pos n) = n
  seq_of (negsuc n) = 0

  abbrev pub count_inserted : ℕ → S × Insertion → S
  count_inserted user (s, inserted) = db.add_to (unread_key user) (pos 1) s
  count_inserted user (s, duplicate) = s
  count_inserted user (s, failed) = s

  -- The document of a draft, whose identity and time are drawn when it is made.
  abbrev pub store_draft : Draft → ℕ → ℕ → S → S
  store_draft d id now s =
      let s' = db.add_to (seq_key d.user) (pos 1) s in
      count_inserted d.user (
        db.insert
          (record {
            id = id;
            user = d.user;
            category = d.category;
            status = unread;
            user_seq = seq_of (db.number s' (seq_key d.user));
            created_at = now;
          })
          s')

  abbrev pub deduped : Draft → ℕ → ℕ → S × Bool → S
  deduped d id now (s, true) = store_draft d id now s
  deduped d id now (s, false) = s

  abbrev pub throttled : Draft → ℕ → ℕ → S × Bool → S
  throttled d id now (s, true) = deduped d id now (db.set_nx (dedupe_key d.user d.dedupe_hash) s)
  throttled d id now (s, false) = s

  -- `materializeDraft`, of a draft whose category the user allows.
  unfoldable pub materialize_draft : Draft → ℕ → ℕ → S → S
  materialize_draft d id now s = throttled d id now (throttle_allow d.user d.throttle s)

  unfoldable pub write : Write → S → S
  unfolding materialize_draft mark_read soft_delete mark_all_read
  write (materialize d id now) s = materialize_draft d id now s
  write (one_read user id) s = mark_read user id s
  write (one_deleted user id) s = soft_delete user id s
  write (all_read user category) s = mark_all_read user category s

  unfoldable pub write_all : List Write → S → S
  unfolding write
  write_all [] s = s
  write_all (w ∷ ws) s = write_all ws (write w s)
