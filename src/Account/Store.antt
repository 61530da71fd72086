-- ===== src/Account/Store.antt =====
-- internal/account/store.go: the tables of the account store and the statements on one row. Accounts are
-- keyed by id; a table without a key that a statement reads alone is the list of its rows. What the
-- engine and the file system answer to one call is an argument, `Io`.
use capd.Prelude.{
  ℕ, ◌+◌, String, append, Option, none, some, List, [], ◌∷◌, Result, ok, err, ◌>>=◌, ◌>>◌, lookup,
  insert, str_eq, if◌then◌else◌, ◌==◌,
}
use capd.Session.Store.{Io, Chmod, denied}

pub data AccountError : Type 0 where
  required : String → AccountError
  unknown_account : AccountError
  other_provider : String → String → String → AccountError
  failed : String → AccountError

pub record Account : Type 0 where
  pub id : String
  pub provider : String
  pub auth_mode : String
  pub email : String
  pub account_id : String
  pub plan : String
  pub secret_ref : String
  pub created_at : ℕ
  pub updated_at : ℕ

pub record Profile : Type 0 where
  pub provider : String
  pub name : String
  pub description : String
  pub created_at : ℕ
  pub updated_at : ℕ

pub record Membership : Type 0 where
  pub provider : String
  pub name : String
  pub account_id : String

pub record AccountHealth : Type 0 where
  pub account_id : String
  pub recent_failures : ℕ
  pub last_failure_at : ℕ

-- `F` is float64.
pub record QuotaSnapshot (F : Type 0) : Type 0 where
  pub account_id : String
  pub plan : String
  pub primary_used_percent : F
  pub primary_reset_at : String
  pub secondary_used_percent : F
  pub secondary_reset_at : String
  pub code_review_used_percent : F
  pub checked_at : ℕ
  pub raw_json : String

-- The tables, and the file they stand in.
pub record Store (F : Type 0) : Type 0 where
  pub path : String
  pub accounts : List (String × Account)
  pub account_state : List (String × String)
  pub quotas : List (String × QuotaSnapshot F)
  pub session_accounts : List (String × String)
  pub profiles : List Profile
  pub members : List Membership
  pub profile_state : List (String × String)
  pub health : List (String × AccountHealth)

unfoldable pub tighten_all : (String → Chmod) → List String → Result AccountError (Unit {0})
tighten_all chmod [] = ok tt
tighten_all chmod (path ∷ paths) =
    let rest = tighten_all chmod paths in
    elim (chmod path) [
      | denied ↦ err (failed (append "account: chmod store file " path))
      | _ ↦ rest
    ]

unfoldable pub tighten_file_permissions : Io → String → Result AccountError (Unit {0})
unfolding tighten_all
tighten_file_permissions io path =
    if str_eq path ""
    then ok tt
    else tighten_all io.chmod (path ∷ append path "-wal" ∷ append path "-shm" ∷ [])

abbrev pub answered : {A : Type 0} → Result AccountError A → Option String → Result AccountError A
answered answer none = answer
answered answer (some e) = err (failed e)

-- One read: the engine's answer, or its error.
abbrev pub query : {A : Type 0} → Io → Result AccountError A → Result AccountError A
query io answer = answered answer io.fault

-- if x == "" { return fmt.Errorf("… is required") }
abbrev pub require : String → String → Result AccountError (Unit {0})
require what x = if str_eq x "" then err (required what) else ok tt

abbrev pub found_or : {A : Type 0} → Option A → Result AccountError A
found_or none = err unknown_account
found_or (some a) = ok a

-- What a write returns, and the tables it leaves.
abbrev pub Answer : Type 0 → Type 0
Answer F = Result AccountError (Unit {0}) × Store F

-- The row that UpsertAccount writes: a new account gets the time, an old one keeps `created_at`.
abbrev pub upserted : Io → Account → Option Account → Account
upserted io acc none = record acc { created_at = io.now; updated_at = io.now }
upserted io acc (some old) = record acc { created_at = old.created_at; updated_at = io.now }

abbrev pub failure_row : String → ℕ → Option AccountHealth → AccountHealth
failure_row id at none = record { account_id = id; recent_failures = 1; last_failure_at = at }
failure_row id at (some h) = record {
  account_id = id;
  recent_failures = h.recent_failures + 1;
  last_failure_at = at;
}

abbrev pub no_health : String → AccountHealth
no_health id = record { account_id = id; recent_failures = 0; last_failure_at = 0 }

abbrev pub health_or : String → Option AccountHealth → AccountHealth
health_or id none = no_health id
health_or id (some h) = h

abbrev pub text_or : Option String → String
text_or none = ""
text_or (some s) = s

abbrev pub same_provider : String → Account → Result AccountError (Unit {0})
same_provider provider acc =
    if str_eq acc.provider provider
    then ok tt
    else err (other_provider acc.id acc.provider provider)

-- if q.CheckedAt == 0 { q.CheckedAt = time.Now().Unix() }
abbrev pub checked : {F : Type 0} → Io → QuotaSnapshot F → QuotaSnapshot F
checked io q = record q { checked_at = if q.checked_at == 0 then io.now else q.checked_at }

module _ {F : Type 0} where
  -- `Exec` and afterWrite: a refused `chmod` is an error that leaves the row written.
  abbrev pub executed : Io → (Store F → Store F) → Store F → Option String → Answer F
  executed io change st none = (tighten_file_permissions io st.path, change st)
  executed io change st (some e) = (err (failed e), st)

  unfoldable pub exec : Io → (Store F → Store F) → Store F → Answer F
  exec io change st = executed io change st io.fault

  -- The checks in front of a write: the first that fails is the answer, and nothing is written.
  abbrev pub after_checks :
      Result AccountError (Unit {0}) → (Store F → Answer F) → Store F → Answer F
  after_checks (ok _) write st = write st
  after_checks (err e) write st = (err e, st)

  unfoldable pub upsert_account : Io → Account → Store F → Answer F
  unfolding exec
  upsert_account io acc st =
      after_checks (require "account id" acc.id >> require "provider" acc.provider)
        (exec io λ t. record t {
          accounts = insert acc.id (upserted io acc (lookup acc.id t.accounts)) t.accounts;
        })
        st

  unfoldable pub load_account : Io → String → Store F → Result AccountError Account
  load_account io id st = query io (found_or (lookup id st.accounts))

  -- RecordAccountFailure; a time of 0 stands for the time of the call.
  unfoldable pub record_account_failure : Io → String → ℕ → Store F → Answer F
  unfolding exec
  record_account_failure io id at st =
      let when = if at == 0 then io.now else at in
      after_checks (require "account id" id)
        (exec io
          λ t. record t { health = insert id (failure_row id when (lookup id t.health)) t.health })
        st

  unfoldable pub clear_account_failures : Io → String → Store F → Answer F
  unfolding exec
  clear_account_failures io id st =
      after_checks (require "account id" id)
        (exec io λ t. record t {
          health =
              insert id (record { account_id = id; recent_failures = 0; last_failure_at = 0 })
                t.health;
        })
        st

  unfoldable pub load_account_health : Io → String → Store F → Result AccountError AccountHealth
  load_account_health io id st = query io (ok (health_or id (lookup id st.health)))

  unfoldable pub current_account : Io → String → Store F → Result AccountError String
  current_account io provider st = query io (ok (text_or (lookup provider st.account_state)))

  -- `read` answers the lookup of the account, `io` the write.
  unfoldable pub set_current_account : Io → Io → String → String → Store F → Answer F
  unfolding exec load_account
  set_current_account read io provider account_id st =
      after_checks
        (require "provider" provider
          >> (require "account id" account_id
              >> (load_account read account_id st >>= λ acc. same_provider provider acc)))
        (exec io λ t. record t { account_state = insert provider account_id t.account_state }) st

  unfoldable pub save_quota : Io → Io → QuotaSnapshot F → Store F → Answer F
  unfolding exec load_account
  save_quota read io q st =
      after_checks
        (require "account id" q.account_id >> (load_account read q.account_id st >>= λ acc. ok tt))
        (exec io λ t. record t { quotas = insert q.account_id (checked io q) t.quotas }) st

  unfoldable pub load_quota : Io → String → Store F → Result AccountError (QuotaSnapshot F)
  load_quota io account_id st = query io (found_or (lookup account_id st.quotas))

  unfoldable pub bind_session_account : Io → Io → String → String → Store F → Answer F
  unfolding exec load_account
  bind_session_account read io session_id account_id st =
      after_checks
        ((if str_eq session_id ""
            then err (required "session id and account id")
            else require "session id and account id" account_id)
          >> (load_account read account_id st >>= λ acc. ok tt))
        (exec io
          λ t. record t { session_accounts = insert session_id account_id t.session_accounts })
        st

  unfoldable pub session_account : Io → String → Store F → Result AccountError String
  session_account io session_id st = query io (ok (text_or (lookup session_id st.session_accounts)))
