-- ===== src/Notifications/Counting.antt =====
-- What a change of the number in Redis means for the unread notifications of
-- src/modules/notifications/service.ts.
use nayft_backend.Common.{
  ℕ, ◌+◌, ◌≤◌, ◌≡◌, ◌==◌, ◌&&◌, refl, sym, ap, ◌∙◌, Bool, true, false, if◌then◌else◌, arith, ==_iff,
}
use nayft_backend.Common.Int.{ℤ, pos, negsuc, ◌+ℤ◌}
use nayft_backend.Notifications.Listing.{Status, unread, same_status, Notification}
use nayft_backend.Notifications.Unread.{
  unread_key, NotifDb, IsNotifDb, id_count, count_unread, is_negative, decrement_unread,
}
use nayft_backend.Notifications.Taking.{id_count-map, taken_by, count_unread-map}

down : (m : ℕ) → pos (m + 1) +ℤ negsuc 0 ≡ pos m
unfolding ◌+ℤ◌
down m = ground arith

pub up : (m : ℕ) → pos m +ℤ pos 1 ≡ pos (m + 1)
unfolding ◌+ℤ◌
up m = ground arith

one_fewer :
    (b : Bool) (m : ℕ)
    → (let x = pos (m + (if b then 1 else 0)) in if b then x +ℤ negsuc 0 else x) ≡ pos m
one_fewer true m = down m
one_fewer false m = ap pos (omega arith)

pub and_true : (b : Bool) → ◌≡◌ {A = ℕ} (if b && true then 1 else 0) (if b then 1 else 0)
and_true true = refl
and_true false = refl

pub and_false : (b : Bool) → ◌≡◌ {A = ℕ} (if b && false then 1 else 0) 0
and_false true = refl
and_false false = refl

chosen :
    (b : Bool) (x y z : ℤ) → (b ≡ true → x ≡ z) → (b ≡ false → y ≡ z) → (if b then x else y) ≡ z
chosen true x y z f g = f refl
chosen false x y z f g = g refl

module _ {S : Type 0} (db : NotifDb S) where
  -- Redis has the number of unread documents of each user, and identities are unique.
  pub record IsConsistent (s : S) : Type 0 where
    pub counts : (u : ℕ) → db.number s (unread_key u) ≡ pos (count_unread u (db.docs s))
    pub unique : (i : ℕ) → id_count i (db.docs s) ≤ 1

  module _ (laws : IsNotifDb db) where
    pub add_to_is :
        (u user : ℕ) (d x y : ℤ) (s : S)
        → db.number s (unread_key u) ≡ x
        → (if u == user then x +ℤ d else x) ≡ y
        → db.number (db.add_to (unread_key user) d s) (unread_key u) ≡ y
    add_to_is u user d x y s e f =
        laws.add_to_number (unread_key user) d s (unread_key u)
        ∙ ap (λ z. if u == user then z +ℤ d else z) e
        ∙ f

    -- One too many is counted for a user, before the decrement.
    pub decrement_unread-IsConsistent :
        (user : ℕ) (s : S)
        → ((u : ℕ)
            → db.number s (unread_key u)
              ≡ pos (count_unread u (db.docs s) + (if u == user then 1 else 0)))
        → ((i : ℕ) → id_count i (db.docs s) ≤ 1)
        → IsConsistent (decrement_unread db user s)
    unfolding decrement_unread
    decrement_unread-IsConsistent user s h unique =
        let s' = db.add_to (unread_key user) (negsuc 0) s in
        let right = λ (u : ℕ).
          add_to_is u user (negsuc 0)
            (pos (count_unread u (db.docs s) + (if u == user then 1 else 0)))
            (pos (count_unread u (db.docs s))) s (h u)
            (one_fewer (u == user) (count_unread u (db.docs s))) in
        let docs = laws.add_to_docs (unread_key user) (negsuc 0) s in
        rw (ap is_negative (right user)) (record {
          counts = λ u. right u ∙ ap (λ ns. pos (count_unread u ns)) (sym docs);
          unique = λ i. rw docs (unique i);
        })

    pub updated :
        (p : Notification → Bool) (status : Status) (s : S)
        → IsConsistent s
        → (i : ℕ) → id_count i (db.docs (db.update p status s)) ≤ 1
    updated p status s h i = omega (
      arith,
      ap (id_count i) (laws.update_docs p status s),
      id_count-map i p status (db.docs s),
      h.unique i,
    )

    -- After an update the number is still that of before.
    pub update_number_is :
        (u : ℕ) (p : Notification → Bool) (status : Status) (s : S) (k : ℕ)
        → IsConsistent s
        → same_status status unread ≡ false
        → taken_by u p (db.docs s) ≡ k
        → db.number (db.update p status s) (unread_key u)
          ≡ pos (count_unread u (db.docs (db.update p status s)) + k)
    update_number_is u p status s k h e taken =
        laws.update_number p status s (unread_key u)
        ∙ h.counts u
        ∙ ap pos (
            omega (
              arith,
              taken,
              ap (count_unread u) (laws.update_docs p status s),
              count_unread-map u p status (db.docs s) e,
            ))

    pub set-IsConsistent :
        (user : ℕ) (s : S)
        → ((u : ℕ)
            → (u == user) ≡ false
            → db.number s (unread_key u) ≡ pos (count_unread u (db.docs s)))
        → ((i : ℕ) → id_count i (db.docs s) ≤ 1)
        → IsConsistent (db.set_number (unread_key user) (pos (count_unread user (db.docs s))) s)
    set-IsConsistent user s h unique =
        let k = pos (count_unread user (db.docs s)) in
        let docs = laws.set_number_docs (unread_key user) k s in
        record {
          counts = λ u.
              laws.set_number_number (unread_key user) k s (unread_key u)
              ∙ chosen (u == user) k (db.number s (unread_key u)) (pos (count_unread u (db.docs s)))
                  (λ e. ap (λ x. pos (count_unread x (db.docs s))) (sym ((==_iff u user).0 e)))
                  (h u)
              ∙ ap (λ ns. pos (count_unread u ns)) (sym docs);
          unique = λ i. rw docs (unique i);
        }
