-- ===== src/Notifications/Tests.antt =====
-- Concrete notifications for src/modules/notifications/service.ts.
use nayft_backend.Common.{
  ℕ, ◌≡◌, refl, Bool, true, false, List, [], ◌∷◌, map, take, none, some, filter_by, arith,
}
use nayft_backend.Notifications.Listing.{
  Notification, Status, unread, read, deleted, Cursor, Options, everything, Backend, IsBackend,
  matches, list_for_user, list_pages,
}
use nayft_backend.Common.{any, ◌==◌, if◌then◌else◌, inl, inr}
use nayft_backend.Common.Int.{ℤ, pos, ◌+ℤ◌}
use nayft_backend.Notifications.Unread.{
  Key, same_key, Insertion, inserted, duplicate, NotifDb, with_status, id_count, Draft, Write,
  materialize, one_read, one_deleted, all_read, write, write_all, materialize_draft, mark_read,
  soft_delete, mark_all_read, decrement_unread,
}
use nayft_backend.Notifications.Paging.{list_pages_all}

abbrev told : ℕ → ℕ → Status → Notification
told n at status = record {
  id = n;
  user = 7;
  category = 1;
  status = status;
  user_seq = n;
  created_at = at;
}

abbrev stored : List Notification
stored = told 5 300 unread ∷ told 4 200 read ∷ told 3 200 deleted ∷ told 1 100 unread ∷ []

-- Cursors as they are, and a collection that is searched in its order.
abbrev backend : Backend Cursor
backend = record {
  find = λ query n. take n (filter_by query stored);
  encode_text = λ c. c;
  decode_text = λ c. some c;
}

backend-IsBackend : IsBackend backend stored
backend-IsBackend = record {
  ordered = (
    (inl (omega arith), (inl (omega arith), (inl (omega arith), tt))),
    ((inr (refl, omega arith), (inl (omega arith), tt)), ((inl (omega arith), tt), (tt, tt))),
  );
  find_matching = λ query n. refl;
  decode_encode = λ c. refl;
}

abbrev asked : Options Cursor
asked = record {
  limit = some 1;
  cursor = none;
  status = some everything;
  category = none;
  since_seq = none;
}

list_pages_all_example : list_pages backend 5 7 asked ≡ filter_by (matches 7 asked) stored
unfolding matches
list_pages_all_example = list_pages_all backend stored backend-IsBackend 5 7 asked (omega arith)

-- A notification that its user has deleted is still listed.
deleted_is_listed : map (λ n. n.id) (list_pages backend 5 7 asked) ≡ 5 ∷ 4 ∷ 3 ∷ 1 ∷ []
unfolding list_pages list_for_user matches
deleted_is_listed = refl

record Store : Type 0 where
  documents : List Notification
  numbers : Key → ℤ
  held : List Key

abbrev insert_into : Notification → Store → Store × Insertion
insert_into n s =
    if id_count n.id s.documents == 0
    then (record s { documents = n ∷ s.documents }, inserted)
    else (s, duplicate)

abbrev store : NotifDb Store
store = record {
  docs = λ s. s.documents;
  number = λ s k. s.numbers k;
  add_to =
      λ k d s. record s { numbers = λ j. if same_key j k then s.numbers j +ℤ d else s.numbers j };
  set_number = λ k d s. record s { numbers = λ j. if same_key j k then d else s.numbers j };
  set_nx =
      λ k s. if any (same_key k) s.held then (s, false) else (record s { held = k ∷ s.held }, true);
  insert = insert_into;
  update = λ p status s. record s { documents = map (with_status p status) s.documents };
}

abbrev is_inserted : Insertion → Bool
is_inserted inserted = true
is_inserted _ = false

abbrev empty_store : Store
empty_store = record { documents = []; numbers = λ k. pos 0; held = [] }

abbrev draft : ℕ → Draft
draft hash = record { user = 7; category = 1; dedupe_hash = hash; throttle = some (2, 9) }

-- Two drafts and a repeated one; one document is read twice and the other deleted.
abbrev writes : List Write
writes =
    materialize (draft 100) 1 50
    ∷ materialize (draft 101) 2 60
    ∷ materialize (draft 101) 3 70
    ∷ one_read 7 1
    ∷ one_read 7 1
    ∷ one_deleted 7 2
    ∷ all_read 7 none
    ∷ []

last_statuses :
    map (λ n. n.status) (write_all store writes empty_store).documents ≡ deleted ∷ read ∷ []
unfolding write_all write materialize_draft mark_read soft_delete mark_all_read decrement_unread
    ◌+ℤ◌
last_statuses = refl
