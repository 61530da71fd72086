-- ===== src/Account/Deleting.antt =====
-- internal/account/store.go: what DeleteAccount leaves, and that it keeps what the rows refer to.
use capd.Prelude.{
  ℕ, String, Bool, true, false, not, Option, none, some, List, [], ◌∷◌, Result, ok, err, ◌>>◌, ◌&&◌,
  sym, lookup, insert, remove, keep, str_eq, if◌then◌else◌, ◌≡◌, subst, refl, All, All-keep,
  lookup-insert, lookup-remove, arith, eq_iff, eq_refl, Bool-cases, inl, inr, ap, ◌∙◌,
}
use capd.Session.Store.{Io}
use capd.Account.Store.{
  AccountError, required, unknown_account, tighten_file_permissions, Account, Store, Answer, query,
  answered, found_or, require, load_account, text_or,
}
use capd.Account.Profiles.{committed, run_statements}
use capd.Account.Calls.{ran, deletion_ran, Runs, Runs-transaction}
use capd.Account.Delete.{
  values, first_id, next_provider_account, without_quota, without_sessions, without_members,
  without_health, without_account, move_account, delete_account_rows, delete_loaded, delete_account,
}
use capd.Account.Answers.{committed-keeps, ok-transaction}
use capd.Account.Rows.{All-sort_by, All-values, All-keep_if, All-remove, known-remove}
use capd.Account.References.{References}

abbrev pub deleted_account : {F : Type 0} → String → Store F → Store F
deleted_account id st =
    without_account id
      (without_health id (without_members id (without_sessions id (without_quota id st))))

All-passing : {A : Type 0} (p : A → Bool) (xs : List A) → All (λ x. p x ≡ true) (keep p xs)
All-passing p [] = tt
All-passing p (x ∷ xs) = elim (Bool-cases (p x)) [
  | inl e ↦ ground (arith, e, All-passing p xs)
  | inr e ↦ ground (arith, e, All-passing p xs)
]

lookup-inserted :
    {V : Type 0} (key : String) (v : V) (rows : List (String × V))
    → lookup key (insert key v rows) ≡ some v
lookup-inserted key v rows = ground (arith, lookup-insert key key v rows, eq_refl key)

named_id : (id : String) → not (str_eq id "") ≡ true → str_eq "" id ≡ false
named_id id h = ground (arith, h, eq_iff id "", eq_iff "" id)

Runs-loading :
    (id : String) (loading : Io) (acc : Account)
    → Runs
        (require "account id" id >> query loading (ok acc))
        acc
        (not (str_eq id "") && ran loading.fault)
Runs-loading id loading acc = go (str_eq id "") loading.fault
  where
    go :
        (blank : Bool) (fault : Option String)
        → Runs
            ((if blank then err (required "account id") else ok tt) >> answered (ok acc) fault)
            acc
            (not blank && ran fault)
    go true fault = (_, refl)
    go false none = refl
    go false (some e) = (_, refl)

first_id-All :
    (id : String) (accs : List Account)
    → str_eq "" id ≡ false
    → All (λ acc. str_eq acc.id id ≡ false) accs
    → str_eq (first_id accs) id ≡ false
first_id-All id [] blank h = blank
first_id-All id (acc ∷ accs) blank h = h.0

module _ {F : Type 0} where
  -- Nothing of the account is left, every other row is, and the provider has another current account.
  pub record Deleted (provider id : String) (st t : Store F) : Type 0 where
    pub accounts :
        (j : String) → lookup j t.accounts ≡ (if str_eq id j then none else lookup j st.accounts)
    pub quotas :
        (j : String) → lookup j t.quotas ≡ (if str_eq id j then none else lookup j st.quotas)
    pub health :
        (j : String) → lookup j t.health ≡ (if str_eq id j then none else lookup j st.health)
    pub sessions : All (λ row. not (str_eq row.1 id) ≡ true) t.session_accounts
    pub members : All (λ m. not (str_eq m.account_id id) ≡ true) t.members
    pub current : str_eq (text_or (lookup provider t.account_state)) id ≡ false

  deleted-References :
      (id : String) (st : Store F) → References st → References (deleted_account id st)
  deleted-References id st h = record {
    accounts_keyed = All-remove _ _ id st.accounts h.accounts_keyed λ row k n. k;
    quotas_known =
        All-remove _ _ id st.quotas h.quotas_known λ row k n. known-remove id row.0 st.accounts k n;
    sessions_known =
        All-keep_if _ _ _ st.session_accounts h.sessions_known
          λ row k n. known-remove id row.1 st.accounts k n;
    members_known =
        All-keep_if _ _ _ st.members h.members_known
          λ m k n. known-remove id m.account_id st.accounts k n;
    profiles_known = All-keep _ _ st.members h.profiles_known;
  }

  moved_account-References :
      (provider : String) (st : Store F) (b : Bool)
      → References st
      → References (if b then move_account provider st else st)
  unfolding move_account
  moved_account-References provider st true h = record {
    accounts_keyed = h.accounts_keyed;
    quotas_known = h.quotas_known;
    sessions_known = h.sessions_known;
    members_known = h.members_known;
    profiles_known = h.profiles_known;
  }
  moved_account-References provider st false h = h

  delete_account_rows-deleted :
      (tx : ℕ → Option String) (id provider : String) (st t : Store F)
      → delete_account_rows tx id provider st ≡ ok t
      → (if str_eq (text_or (lookup provider st.account_state)) id
          then move_account provider (deleted_account id st)
          else deleted_account id st)
        ≡ t
  unfolding delete_account_rows
  delete_account_rows-deleted tx id provider st t e =
      ok-transaction tx
        (without_quota id
          ∷ without_sessions id
          ∷ without_members id
          ∷ without_health id
          ∷ without_account id
          ∷ [])
        6 (λ u. text_or (lookup provider u.account_state)) id (move_account provider) st t e

  delete_account_rows-Runs :
      (tx : ℕ → Option String) (id provider : String) (st : Store F)
      → let current = str_eq (text_or (lookup provider st.account_state)) id in
        Runs
          (delete_account_rows tx id provider st)
          (if current then move_account provider (deleted_account id st) else deleted_account id st)
          (deletion_ran tx current)
  unfolding delete_account_rows run_statements
  delete_account_rows-Runs tx id provider st =
      Runs-transaction tx (without_quota id) (without_sessions id) (without_members id)
        (without_health id) (without_account id) (λ u. text_or (lookup provider u.account_state)) id
        (move_account provider) st

  pub delete_account-References :
      (loading : Io) (tx : ℕ → Option String) (io : Io) (id : String) (st : Store F)
      → References st
      → References (delete_account loading tx io id st).1
  unfolding delete_account
  delete_account-References loading tx io id st h =
      go (require "account id" id >> load_account loading id st)
    where
      go : (r : Result AccountError Account) → References (delete_loaded io tx id st r).1
      go (err e) = h
      go (ok acc) = committed-keeps References io st _ h λ t e.
          subst References (delete_account_rows-deleted tx id acc.provider st t e)
            (moved_account-References acc.provider _ _ (deleted-References id st h))

  others :
      (id : String) (st : Store F)
      → References st
      → All (λ acc. str_eq acc.id id ≡ false) (values (remove id st.accounts))
  others id st h = All-values _ _ (
      All-remove _ _ id st.accounts h.accounts_keyed
        λ row k n. ap (λ x. str_eq x id) k ∙ ground (arith, n))

  next_provider_account-other :
      (provider id : String) (st : Store F)
      → References st
      → str_eq "" id ≡ false
      → str_eq (next_provider_account provider (deleted_account id st)) id ≡ false
  unfolding next_provider_account
  next_provider_account-other provider id st h blank =
      first_id-All id _ blank (All-sort_by _ _ _ (All-keep _ _ _ (others id st h)))

  deleted_account-Deleted :
      (provider id : String) (st : Store F)
      → References st
      → str_eq "" id ≡ false
      → Deleted provider id st (
          if str_eq (text_or (lookup provider st.account_state)) id
          then move_account provider (deleted_account id st)
          else deleted_account id st)
  unfolding move_account
  deleted_account-Deleted provider id st h blank =
      go (str_eq (text_or (lookup provider st.account_state)) id) refl
    where
      go :
          (b : Bool)
          → str_eq (text_or (lookup provider st.account_state)) id ≡ b
          → Deleted provider id st
              (if b then move_account provider (deleted_account id st) else deleted_account id st)
      go true e = record {
        accounts = λ j. lookup-remove id j st.accounts;
        quotas = λ j. lookup-remove id j st.quotas;
        health = λ j. lookup-remove id j st.health;
        sessions = All-passing _ st.session_accounts;
        members = All-passing _ st.members;
        current =
            ap (λ o. str_eq (text_or o) id)
              (lookup-inserted provider (next_provider_account provider (deleted_account id st))
                st.account_state)
            ∙ next_provider_account-other provider id st h blank;
      }
      go false e = record {
        accounts = λ j. lookup-remove id j st.accounts;
        quotas = λ j. lookup-remove id j st.quotas;
        health = λ j. lookup-remove id j st.health;
        sessions = All-passing _ st.session_accounts;
        members = All-passing _ st.members;
        current = e;
      }

  -- An error that leaves every table as it was.
  abbrev pub Failed : Store F → Answer F → Type 0
  Failed st r = (e : AccountError) × (r ≡ (err e, st))

  -- The call that answers the load of the account, and those of the transaction.
  abbrev pub calls_ran : Io → (ℕ → Option String) → String → Account → Store F → Bool
  calls_ran loading tx id acc st =
      ran loading.fault
      && deletion_ran tx (str_eq (text_or (lookup acc.provider st.account_state)) id)

  abbrev pub DeleteOutcome :
      Io → (ℕ → Option String) → Io → String → Option Account → Store F → Answer F → Type 0
  DeleteOutcome loading tx io id none st r = Failed st r
  DeleteOutcome loading tx io id (some acc) st r =
      if not (str_eq id "") && calls_ran loading tx id acc st
      then (r.0 ≡ tighten_file_permissions io st.path) × Deleted acc.provider id st r.1
      else Failed st r

  -- What was loaded, and what the transaction answered.
  outcome :
      (tx : ℕ → Option String) (io : Io) (id : String) (acc : Account) (st t : Store F)
      (named loaded rows : Bool) (r : Result AccountError Account)
      → Runs r acc (named && loaded)
      → Runs (delete_account_rows tx id acc.provider st) t rows
      → (named ≡ true → Deleted acc.provider id st t)
      → let answer = delete_loaded io tx id st r in
        if named && (loaded && rows)
        then (answer.0 ≡ tighten_file_permissions io st.path) × Deleted acc.provider id st answer.1
        else Failed st answer
  outcome tx io id acc st t false loaded rows r (e, h) k f = (e, ap (delete_loaded io tx id st) h)
  outcome tx io id acc st t true false rows r (e, h) k f = (e, ap (delete_loaded io tx id st) h)
  outcome tx io id acc st t true true false r h (e, k) f =
      (e, ap (delete_loaded io tx id st) h ∙ ap (committed io st) k)
  outcome tx io id acc st t true true true r h k f =
      subst
        (λ answer.
          (answer.0 ≡ tighten_file_permissions io st.path) × Deleted acc.provider id st answer.1)
        (sym (ap (delete_loaded io tx id st) h ∙ ap (committed io st) k)) (refl, f refl)

  -- DeleteAccount is all or nothing on tables whose references hold. Where the id is empty or unknown, or
  -- one of the calls of the engine that it makes fails (the load, Begin, a statement, a read or Commit),
  -- the answer is an error and every table is as before. Otherwise the answer is that of `chmod`, the
  -- account, its quota, its health, its sessions and its memberships are gone, every other account,
  -- quota and health row is as before, and the current account of the provider is not the deleted one.
  pub delete_account-DeleteOutcome :
      (loading : Io) (tx : ℕ → Option String) (io : Io) (id : String) (st : Store F)
      → References st
      → DeleteOutcome loading tx io id
          (lookup id st.accounts)
          st
          (delete_account loading tx io id st)
  unfolding delete_account load_account
  delete_account-DeleteOutcome loading tx io id st h = go (lookup id st.accounts)
    where
      absent :
          (blank : Bool) (fault : Option String)
          → Failed st (
              delete_loaded io tx id st (
                (if blank then err (required "account id") else ok tt)
                >> answered (err unknown_account) fault))
      absent true fault = (_, refl)
      absent false none = (_, refl)
      absent false (some e) = (_, refl)

      answer : Option Account → Answer F
      answer found =
          delete_loaded io tx id st (require "account id" id >> query loading (found_or found))

      go : (found : Option Account) → DeleteOutcome loading tx io id found st (answer found)
      go none = absent (str_eq id "") loading.fault
      go (some acc) =
          outcome tx io id acc st
            (if str_eq (text_or (lookup acc.provider st.account_state)) id
              then move_account acc.provider (deleted_account id st)
              else deleted_account id st)
            (not (str_eq id "")) (ran loading.fault)
            (deletion_ran tx (str_eq (text_or (lookup acc.provider st.account_state)) id))
            (require "account id" id >> query loading (ok acc)) (Runs-loading id loading acc)
            (delete_account_rows-Runs tx id acc.provider st)
            (λ named. deleted_account-Deleted acc.provider id st h (named_id id named))
