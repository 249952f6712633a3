-- ===== src/Notifications/Paging.antt =====
-- A client that follows the cursors of src/modules/notifications/service.ts.
use nayft_backend.Common.{
  ℕ, zero, suc, ◌+◌, ◌≤◌, ◌≡◌, ◌&&◌, ltb, refl, sym, ap, ◌∙◌, if◌then◌else◌, List, [], ◌∷◌, ◌++◌,
  length, length-append, take, drop, Option, none, some, filter_by, arith, inl, inr, Bool-cases,
}
use nayft_backend.Notifications.Listing.{
  Notification, Options, Cursor, Backend, IsBackend, is_before, is_after, matches, page_limit,
  decode_cursor, cursor_of_last, page_of, list_for_user, with_cursor, list_pages,
}
use nayft_backend.Notifications.Ordered.{
  filter_by-and, filter_by-IsOrdered, take-take, more-take, take_all, take-drop, IsCut, split_page,
  append_assoc, after_element,
}

page_limit_positive : (limit : Option ℕ) → 1 ≤ page_limit limit
page_limit_positive none = omega arith
page_limit_positive (some n) = omega arith

add_one : (n : ℕ) → n + 1 ≡ suc n
add_one n = omega arith

append_none : {A : Type 0} (xs : List A) → xs ++ [] ≡ xs
append_none [] = refl
append_none (x ∷ xs) = ap (λ ys. x ∷ ys) (append_none xs)

module _ {T : Type 0} (b : Backend T) where
  abbrev cursor_of : Notification → Cursor
  cursor_of d = record { created_at = d.created_at; id = d.id }

  cursor_of_last-append :
      (init : List Notification) (d : Notification)
      → cursor_of_last b (init ++ d ∷ []) ≡ some (b.encode_text (cursor_of d))
  cursor_of_last-append [] d = refl
  cursor_of_last-append (x ∷ []) d = refl
  cursor_of_last-append (x ∷ y ∷ init) d = cursor_of_last-append (y ∷ init) d

  -- A page of some documents, with what follows its cursor.
  abbrev continued : ℕ → (Option T → List Notification) → List Notification → List Notification
  continued limit rest docs =
      let page = page_of b limit docs in
      page.page_docs ++ (if page.has_more then rest page.next_cursor else [])

  continued_whole :
      (limit : ℕ) (rest : Option T → List Notification) (r : List Notification)
      → 1 ≤ limit
      → ((init : List Notification) (d : Notification)
          → IsCut limit r init d
          → rest (some (b.encode_text (cursor_of d))) ≡ drop limit r)
      → continued limit rest (take (suc limit) r) ≡ r
  continued_whole limit rest r one h = elim (Bool-cases (ltb limit (length r))) [
    | inl longer ↦
        let (init, d, s) = split_page limit r one (ground (arith, longer)) in
        let next =
          ap (cursor_of_last b) (take-take limit r ∙ s.page) ∙ cursor_of_last-append init d in
        rw (more-take limit r ∙ longer)
          (rw next (rw (h init d s) (rw (take-take limit r) (take-drop limit r))))
    | inr last ↦ rw (more-take limit r ∙ last) (
        append_none (take limit (take (suc limit) r))
        ∙ take-take limit r
        ∙ take_all limit r (ground (arith, last)))
  ]

  module _ (all : List Notification) (laws : IsBackend b all) where
    find_rest :
        (user n : ℕ) (opts : Options T) (r : List Notification)
        → filter_by (is_after (decode_cursor b opts.cursor)) (filter_by (matches user opts) all) ≡ r
        → b.find (λ m. matches user opts m && is_after (decode_cursor b opts.cursor) m) n ≡ take n r
    find_rest user n opts r e =
        laws.find_matching (λ m. matches user opts m && is_after (decode_cursor b opts.cursor) m) n
        ∙ ap (take n)
            (filter_by-and (matches user opts) (is_after (decode_cursor b opts.cursor)) all ∙ e)

    collected :
        (pages user : ℕ) (opts : Options T) (front r : List Notification)
        → filter_by (matches user opts) all ≡ front ++ r
        → filter_by (is_after (decode_cursor b opts.cursor)) (filter_by (matches user opts) all) ≡ r
        → suc (length r) ≤ pages
        → list_pages b pages user opts ≡ r
    unfolding list_pages list_for_user matches
    collected zero user opts front r whole rest enough = ground arith
    collected (suc pages) user opts front r whole rest enough =
        let limit = page_limit opts.limit in
        ap (continued limit (λ c. list_pages b pages user (with_cursor b c opts)))
          (find_rest user (limit + 1) opts r rest ∙ ap (λ (k : ℕ). take k r) (add_one limit))
        ∙ continued_whole limit (λ c. list_pages b pages user (with_cursor b c opts)) r
            (page_limit_positive opts.limit)
            (λ init d s.
              let here =
                whole
                ∙ ap (λ l. front ++ l) s.whole
                ∙ sym (append_assoc front init (d ∷ drop limit r)) in
              collected pages user (with_cursor b (some (b.encode_text (cursor_of d))) opts)
                ((front ++ init) ++ d ∷ []) (drop limit r)
                (here ∙ sym (append_assoc (front ++ init) (d ∷ []) (drop limit r)))
                (ap (λ c. filter_by (is_after c) (filter_by (matches user opts) all))
                    (laws.decode_encode (cursor_of d))
                  ∙ ap (filter_by (is_before d.created_at d.id)) here
                  ∙ after_element (front ++ init) d (drop limit r)
                      (rw here at (filter_by-IsOrdered (matches user opts) all laws.ordered)))
                (omega (arith, enough, ap length s.whole, length-append init (d ∷ drop limit r))))

    all_after_none : (xs : List Notification) → filter_by (is_after none) xs ≡ xs
    all_after_none [] = refl
    all_after_none (x ∷ xs) = ap (λ ys. x ∷ ys) (all_after_none xs)

    -- The documents have an order in which no two are equal, and a cursor is read back as it was
    -- written. Then, whatever limit is asked for, a client that starts without a cursor and follows the
    -- cursors through more pages than there are documents gets all documents that match the query, each
    -- once and in their order.
    pub list_pages_all :
        (pages user : ℕ) (opts : Options T)
        → suc (length (filter_by (matches user opts) all)) ≤ pages
        → list_pages b pages user (with_cursor b none opts) ≡ filter_by (matches user opts) all
    unfolding matches
    list_pages_all pages user opts enough =
        collected pages user (with_cursor b none opts) [] (filter_by (matches user opts) all) refl
          (all_after_none (filter_by (matches user opts) all)) enough
