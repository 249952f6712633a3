-- ===== src/Auth/Backend.antt =====
-- What src/modules/auth/verification asks of Redis and of the database. Users, audit records and
-- addresses are numbers, since they are only compared; a time is in milliseconds.
use Prim.Native.String.{String}
use nayft_backend.Common.{
  ℕ, ◌+◌, ◌*◌, ◌≡◌, ◌==◌, ◌&&◌, leb, Bool, true, false, if◌then◌else◌, Option, none, some,
}

-- `VerificationPurpose`.
pub data Purpose : Type 0 where
  email_signup email_change password_reset mfa_setup : Purpose

abbrev pub purpose_code : Purpose → ℕ
purpose_code email_signup = 0
purpose_code email_change = 1
purpose_code password_reset = 2
purpose_code mfa_setup = 3

-- The keys `verify:otp:<user>:<purpose>`, `verify:resend:cooldown:<user>` and so on.
pub data Key : Type 0 where
  otp_key : ℕ → Purpose → Key
  cooldown_key hour_key day_key ip_key attempts_key locked_key : ℕ → Key

abbrev pub family : Key → ℕ
family (otp_key u p) = purpose_code p
family (cooldown_key u) = 4
family (hour_key u) = 5
family (day_key u) = 6
family (ip_key i) = 7
family (attempts_key u) = 8
family (locked_key u) = 9

abbrev pub owner : Key → ℕ
owner (otp_key u p) = u
owner (cooldown_key u) = u
owner (hour_key u) = u
owner (day_key u) = u
owner (ip_key i) = i
owner (attempts_key u) = u
owner (locked_key u) = u

abbrev pub same_key : Key → Key → Bool
same_key j k = (family j == family k) && (owner j == owner k)

-- `StoredOtpPayload`.
pub record StoredOtpPayload : Type 0 where
  pub code_hash : String
  pub issued_at : ℕ
  pub expires_at : ℕ
  pub correlation_id : ℕ
  pub audit_id : ℕ

-- A value in Redis: the JSON of a payload, or a number.
pub data Value : Type 0 where
  payload : StoredOtpPayload → Value
  number : ℕ → Value

pub record Entry : Type 0 where
  pub value : Value
  pub expires : Option ℕ

-- What can be read at a moment: the live keys, the clock, and the users, each with `emailVerified`.
pub record View : Type 0 where
  pub entry : Key → Option Entry
  pub now : ℕ
  pub user : ℕ → Option Bool

-- The writes of verification.repository.ts to the audit records that are there.
pub data AuditWrite : Type 0 where
  supersede_pending : ℕ → Purpose → AuditWrite
  mark_consumed mark_locked : ℕ → ℕ → AuditWrite
  mark_expired : ℕ → AuditWrite

pub record AuditRecord : Type 0 where
  pub user_id : ℕ
  pub purpose : Purpose
  pub code_hash : String
  pub issued_at : ℕ
  pub expires_at : ℕ
  pub locale : String
  pub correlation_id : ℕ
  pub ip_hash : Option ℕ

pub record Backend (S : Type 0) : Type 0 where
  pub view : S → View
  pub set_ex : S → Key → Value → ℕ → S
  pub del : S → Key → S
  pub incr : S → Key → S × ℕ
  pub expire : S → Key → ℕ → S
  pub elapse : S → ℕ → S
  pub write_audit : S → AuditWrite → S
  pub create_audit_record : S → AuditRecord → S × ℕ
  pub update_verification_sent : S → ℕ → S
  pub mark_email_verified : S → ℕ → S

-- What Redis documents of `SET … EX`, `DEL`, `INCR` and `EXPIRE`, on the live keys.
abbrev pub put : View → Key → Option Entry → View
put v k x = record v { entry = λ j. if same_key j k then x else v.entry j }

abbrev pub number_in : Value → ℕ
number_in (payload p) = 0
number_in (number n) = n

abbrev pub number_of : Option Entry → ℕ
number_of none = 0
number_of (some x) = number_in x.value

abbrev pub expires_of : Option Entry → Option ℕ
expires_of none = none
expires_of (some x) = x.expires

abbrev pub until : Option ℕ → Option Entry → Option Entry
until t none = none
until t (some x) = some (record x { expires = t })

abbrev pub is_over : ℕ → Option ℕ → Bool
is_over t none = false
is_over t (some x) = leb x t

abbrev pub still : ℕ → Option Entry → Option Entry
still t none = none
still t (some x) = if is_over t x.expires then none else some x

abbrev pub after : ℕ → View → View
after d v = record v { entry = λ j. still (v.now + d) (v.entry j); now = v.now + d }

abbrev pub as_verified : Option Bool → Option Bool
as_verified none = none
as_verified (some old) = some true

abbrev pub verified : ℕ → View → View
verified u v = record v { user = λ w. if w == u then as_verified (v.user w) else v.user w }

pub record IsBackend {S : Type 0} (b : Backend S) : Type 0 where
  pub view-set_ex :
      (s : S) (k : Key) (x : Value) (ttl : ℕ)
      → b.view (b.set_ex s k x ttl)
        ≡ put
            (b.view s)
            k
            (some (record { value = x; expires = some ((b.view s).now + ttl * 1000) }))
  pub view-del : (s : S) (k : Key) → b.view (b.del s k) ≡ put (b.view s) k none
  pub incr-number : (s : S) (k : Key) → (b.incr s k).1 ≡ number_of ((b.view s).entry k) + 1
  pub view-incr :
      (s : S) (k : Key)
      → b.view (b.incr s k).0
        ≡ put (b.view s) k (
            some (record {
              value = number (number_of ((b.view s).entry k) + 1);
              expires = expires_of ((b.view s).entry k);
            }))
  pub view-expire :
      (s : S) (k : Key) (ttl : ℕ)
      → b.view (b.expire s k ttl)
        ≡ put (b.view s) k (until (some ((b.view s).now + ttl * 1000)) ((b.view s).entry k))
  pub view-elapse : (s : S) (d : ℕ) → b.view (b.elapse s d) ≡ after d (b.view s)
  pub view-write_audit : (s : S) (w : AuditWrite) → b.view (b.write_audit s w) ≡ b.view s
  pub view-create_audit_record :
      (s : S) (r : AuditRecord) → b.view (b.create_audit_record s r).0 ≡ b.view s
  pub view-update_verification_sent :
      (s : S) (u : ℕ) → b.view (b.update_verification_sent s u) ≡ b.view s
  pub view-mark_email_verified :
      (s : S) (u : ℕ) → b.view (b.mark_email_verified s u) ≡ verified u (b.view s)
