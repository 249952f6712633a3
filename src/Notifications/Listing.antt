-- ===== src/Notifications/Listing.antt =====
-- `listForUser` of src/modules/notifications/service.ts, with its cursors. Users, categories and the
-- identities of documents are numbers, the last in their order; times are in milliseconds.
use nayft_backend.Common.{
  ℕ, zero, suc, ◌+◌, ◌≡◌, ◌==◌, ◌&&◌, ◌||◌, ltb, min, max, Bool, true, false, if◌then◌else◌, List,
  [], ◌∷◌, ◌++◌, length, take, Option, none, some, filter_by, All,
}
use nayft_backend.Common.{◌<◌, ◌⊎◌}

pub data Status : Type 0 where
  unread read archived deleted : Status

abbrev pub same_status : Status → Status → Bool
same_status unread unread = true
same_status read read = true
same_status archived archived = true
same_status deleted deleted = true
same_status _ _ = false

-- The fields of a document that the list goes by.
pub record Notification : Type 0 where
  pub id : ℕ
  pub user : ℕ
  pub category : ℕ
  pub status : Status
  pub user_seq : ℕ
  pub created_at : ℕ

-- `NotificationCursorPayload`.
pub record Cursor : Type 0 where
  pub created_at : ℕ
  pub id : ℕ

-- The option `status`.
pub data StatusFilter : Type 0 where
  only_unread only_read everything : StatusFilter

-- What `listForUser` is asked for; `T` is the text of a cursor.
pub record Options (T : Type 0) : Type 0 where
  pub limit : Option ℕ
  pub cursor : Option T
  pub status : Option StatusFilter
  pub category : Option ℕ
  pub since_seq : Option ℕ

-- A page and the text of the next cursor; `page_docs` is `data`.
pub record Page (T : Type 0) : Type 0 where
  pub page_docs : List Notification
  pub next_cursor : Option T
  pub has_more : Bool

abbrev pub default_limit : ℕ
default_limit = 20

abbrev pub max_limit : ℕ
max_limit = 50

abbrev pub or_default : Option ℕ → ℕ
or_default none = 20
or_default (some n) = n

abbrev pub page_limit : Option ℕ → ℕ
page_limit limit = min (max (or_default limit) 1) 50

-- What comes after a time and an identity in the list.
abbrev pub is_before : ℕ → ℕ → Notification → Bool
is_before created_at id n =
    ltb n.created_at created_at || ((n.created_at == created_at) && ltb n.id id)

abbrev pub has_status : Option StatusFilter → Notification → Bool
has_status (some only_unread) n = same_status n.status unread
has_status (some only_read) n = same_status n.status read
has_status _ n = true

abbrev pub has_category : Option ℕ → Notification → Bool
has_category none n = true
has_category (some category) n = n.category == category

abbrev pub has_seq_after : Option ℕ → Notification → Bool
has_seq_after none n = true
has_seq_after (some seq) n = ltb seq n.user_seq

-- The query without the cursor.
unfoldable pub matches : {T : Type 0} → ℕ → Options T → Notification → Bool
matches user opts n =
    (n.user == user)
    && (has_status opts.status n
        && (has_category opts.category n && has_seq_after opts.since_seq n))

-- The part of the query for the cursor (`$and`).
abbrev pub is_after : Option Cursor → Notification → Bool
is_after none n = true
is_after (some c) n = is_before c.created_at c.id n

-- `find(query).sort({ createdAt: -1, _id: -1 }).limit(n)`, and the text of a cursor, which is the JSON
-- in Base64.
pub record Backend (T : Type 0) : Type 0 where
  pub find : (Notification → Bool) → ℕ → List Notification
  pub encode_text : Cursor → T
  pub decode_text : T → Option Cursor

-- The order that `sort` is given: later first, and then the higher identity.
abbrev pub Precedes : Notification → Notification → Type 0
Precedes n m = (m.created_at < n.created_at) ⊎ ((m.created_at ≡ n.created_at) × (m.id < n.id))

-- The collection in the order of the list, in which no two documents have the same place.
abbrev pub IsOrdered : List Notification → Type 0
IsOrdered [] = Unit
IsOrdered (n ∷ ns) = All (Precedes n) ns × IsOrdered ns

pub record IsBackend {T : Type 0} (b : Backend T) (all : List Notification) : Type 0 where
  pub ordered : IsOrdered all
  pub find_matching :
      (query : Notification → Bool) (n : ℕ) → b.find query n ≡ take n (filter_by query all)
  pub decode_encode : (c : Cursor) → b.decode_text (b.encode_text c) ≡ some c

module _ {T : Type 0} (b : Backend T) where
  -- `decodeCursor`.
  abbrev pub decode_cursor : Option T → Option Cursor
  decode_cursor none = none
  decode_cursor (some raw) = b.decode_text raw

  -- `encodeCursor` of the last document of a page.
  abbrev pub cursor_of_last : List Notification → Option T
  cursor_of_last [] = none
  cursor_of_last (n ∷ []) = some (b.encode_text (record { created_at = n.created_at; id = n.id }))
  cursor_of_last (n ∷ m ∷ ns) = cursor_of_last (m ∷ ns)

  abbrev pub page_of : ℕ → List Notification → Page T
  page_of limit docs =
      let page_docs = take limit docs in
      let has_more = ltb limit (length docs) in
      record {
        page_docs = page_docs;
        next_cursor = if has_more then cursor_of_last page_docs else none;
        has_more = has_more;
      }

  -- `listForUser`, without the count of the unread ones.
  unfoldable pub list_for_user : ℕ → Options T → Page T
  unfolding matches
  list_for_user user opts =
      let limit = page_limit opts.limit in
      let cursor = decode_cursor opts.cursor in
      page_of limit (b.find (λ n. matches user opts n && is_after cursor n) (limit + 1))

  abbrev pub with_cursor : Option T → Options T → Options T
  with_cursor cursor opts = record opts { cursor = cursor }

  -- A client that asks for page after page, at most as many as the first number says.
  unfoldable pub list_pages : ℕ → ℕ → Options T → List Notification
  unfolding list_for_user
  list_pages zero user opts = []
  list_pages (suc pages) user opts =
      let page = list_for_user user opts in
      let rest = list_pages pages user (with_cursor page.next_cursor opts) in
      page.page_docs ++ (if page.has_more then rest else [])
