-- ===== src/Account/Profiles.antt =====
-- internal/account/store.go: the profiles, named sets of accounts of one provider, and their current one.
use Prim.Native.String.{compare}
use text.Mathlib.Text.{is_lt}
use capd.Prelude.{
  ℕ, suc, ◌+◌, String, Bool, true, false, not, ◌&&◌, Option, none, some, List, [], ◌∷◌, ◌++◌,
  Result, ok, err, ◌>>=◌, ◌>>◌, lookup, insert, first, any, keep, str_eq, if◌then◌else◌, ltb,
  sort_by,
}
use capd.Session.Store.{Io}
use capd.Account.Store.{
  AccountError, failed, Account, Profile, Membership, Store, Answer, exec, query, require, found_or,
  after_checks, load_account, same_provider, text_or, tighten_file_permissions,
}

abbrev pub is_profile : String → String → Profile → Bool
is_profile provider name p = str_eq p.provider provider && str_eq p.name name

abbrev pub is_member : String → String → String → Membership → Bool
is_member provider name account_id m =
    str_eq m.provider provider && (str_eq m.name name && str_eq m.account_id account_id)

-- INSERT … ON CONFLICT(provider, name) DO UPDATE: a known row changes in place.
unfoldable pub upsert_row : ℕ → Profile → List Profile → List Profile
upsert_row now profile [] = record profile { created_at = now; updated_at = now } ∷ []
upsert_row now profile (p ∷ ps) =
    let rest = upsert_row now profile ps in
    if is_profile profile.provider profile.name p
    then record p { description = profile.description; updated_at = now } ∷ ps
    else p ∷ rest

-- ORDER BY provider, name
abbrev pub by_name : Profile → Profile → Bool
by_name a b =
    if str_eq a.provider b.provider
    then not (is_lt (compare b.name a.name))
    else is_lt (compare a.provider b.provider)

-- ORDER BY updated_at DESC, name, of the profiles of one provider.
abbrev pub newest_profile : Profile → Profile → Bool
newest_profile a b =
    if ltb b.updated_at a.updated_at
    then true
    else if ltb a.updated_at b.updated_at
    then false
    else not (is_lt (compare b.name a.name))

-- ORDER BY a.provider, a.id
abbrev pub by_account_id : Account → Account → Bool
by_account_id a b =
    if str_eq a.provider b.provider
    then not (is_lt (compare b.id a.id))
    else is_lt (compare a.provider b.provider)

abbrev pub first_name : List Profile → String
first_name [] = ""
first_name (p ∷ ps) = p.name

abbrev pub account_rows : Option Account → List Account
account_rows none = []
account_rows (some acc) = acc ∷ []

-- One statement of a transaction: it runs, or its error ends the transaction.
abbrev pub statement : {S : Type 0} → Option String → (S → S) → S → Result AccountError S
statement none change st = ok (change st)
statement (some e) change st = err (failed e)

-- The read of a transaction, which its error ends.
abbrev pub read : {A : Type 0} → Option String → A → Result AccountError A
read none a = ok a
read (some e) a = err (failed e)

-- Statements in order, the first of them the call number `n` of the transaction.
unfoldable pub run_statements :
    {S : Type 0} → (ℕ → Option String) → ℕ → List (S → S) → S → Result AccountError S
run_statements tx n [] st = ok st
run_statements tx n (change ∷ changes) st =
    statement (tx n) change st >>= λ t. run_statements tx (suc n) changes t

-- What follows where the deleted row was the current one: its successor is read and written.
abbrev pub succeed :
    {S : Type 0} → (ℕ → Option String) → ℕ → (S → S) → S → Bool → Result AccountError S
succeed tx n move st true = read (tx n) st >>= λ t. statement (tx (n + 1)) move t
succeed tx n move st false = ok st

-- The end of both transactions: the current row is read, moved on if it is `deleted`, and Commit.
abbrev pub conclude :
    {S : Type 0} → (ℕ → Option String) → ℕ → String → String → (S → S) → S → Result AccountError S
conclude tx n current deleted move st =
    read (tx n) current >>= (λ c. succeed tx (n + 1) move st (str_eq c deleted)) >>= λ t.
    read (tx (n + 3)) t

-- tx.Commit and afterWrite. On an error the deferred tx.Rollback leaves the tables as they were.
abbrev pub committed : {F : Type 0} → Io → Store F → Result AccountError (Store F) → Answer F
committed io st (ok t) = (tighten_file_permissions io st.path, t)
committed io st (err e) = (err e, st)

-- accounts JOIN account_profile_members ON m.account_id = a.id
unfoldable pub joined : List (String × Account) → List Membership → List Account
joined accounts [] = []
joined accounts (m ∷ ms) = account_rows (lookup m.account_id accounts) ++ joined accounts ms

module _ {F : Type 0} where
  unfoldable pub upsert_profile : Io → Profile → Store F → Answer F
  unfolding exec
  upsert_profile io profile st =
      after_checks (require "provider" profile.provider >> require "profile name" profile.name)
        (exec io λ t. record t { profiles = upsert_row io.now profile t.profiles }) st

  unfoldable pub list_profiles : Io → String → Store F → Result AccountError (List Profile)
  list_profiles io provider st = query io (
      ok (
        sort_by by_name (
          if str_eq provider ""
          then st.profiles
          else keep (λ p. str_eq p.provider provider) st.profiles)))

  unfoldable pub load_profile : Io → String → String → Store F → Result AccountError Profile
  load_profile io provider name st =
      query io (found_or (first (is_profile provider name) st.profiles))

  unfoldable pub current_profile : Io → String → Store F → Result AccountError String
  current_profile io provider st = query io (ok (text_or (lookup provider st.profile_state)))

  -- nextProviderProfileTx
  unfoldable pub next_provider_profile : String → Store F → String
  next_provider_profile provider st =
      first_name (sort_by newest_profile (keep (λ p. str_eq p.provider provider) st.profiles))

  unfoldable pub move_profile : String → Store F → Store F
  unfolding next_provider_profile
  move_profile provider st = record st {
    profile_state = insert provider (next_provider_profile provider st) st.profile_state;
  }

  abbrev pub without_profile_members : String → String → Store F → Store F
  without_profile_members provider name st = record st {
    members = keep (λ m. not (str_eq m.provider provider && str_eq m.name name)) st.members;
  }

  abbrev pub without_profile : String → String → Store F → Store F
  without_profile provider name st = record st {
    profiles = keep (λ p. not (is_profile provider name p)) st.profiles;
  }

  -- The transaction of DeleteProfile; `tx` answers its calls, counted from 0, which is `Begin`.
  unfoldable pub delete_profile_rows :
      (ℕ → Option String) → String → String → Store F → Result AccountError (Store F)
  delete_profile_rows tx provider name st =
      read (tx 0) st
      >>= (λ t.
          run_statements tx 1
            (without_profile_members provider name ∷ without_profile provider name ∷ []) t)
      >>= λ t.
          conclude tx 3 (text_or (lookup provider t.profile_state)) name (move_profile provider) t

  unfoldable pub delete_profile : (ℕ → Option String) → Io → String → String → Store F → Answer F
  delete_profile tx io provider name st =
      after_checks (require "provider" provider >> require "profile name" name)
        (λ t. committed io t (delete_profile_rows tx provider name t)) st

  -- `profile` and `account` answer the two reads, `io` the write.
  unfoldable pub add_profile_account : Io → Io → Io → String → String → String → Store F → Answer F
  unfolding exec load_account load_profile
  add_profile_account profile account io provider name account_id st =
      after_checks
        (load_profile profile provider name st >>= λ p.
          load_account account account_id st >>= λ acc. same_provider provider acc)
        (exec io λ t. record t {
          members =
              if any (is_member provider name account_id) t.members
              then t.members
              else t.members
                ++ (record { provider = provider; name = name; account_id = account_id } ∷ []);
        })
        st

  unfoldable pub remove_profile_account : Io → String → String → String → Store F → Answer F
  unfolding exec
  remove_profile_account io provider name account_id st =
      after_checks
        (require "provider" provider
          >> (require "profile name" name >> require "account id" account_id))
        (exec io λ t. record t {
          members = keep (λ m. not (is_member provider name account_id m)) t.members;
        })
        st

  unfoldable pub profile_accounts :
      Io → Io → String → String → Store F → Result AccountError (List Account)
  unfolding joined load_profile
  profile_accounts profile io provider name st = load_profile profile provider name st >>= λ p.
      query io (
        ok (
          sort_by by_account_id (
            joined st.accounts
              (keep (λ m. str_eq m.provider provider && str_eq m.name name) st.members))))

  unfoldable pub set_current_profile : Io → Io → String → String → Store F → Answer F
  unfolding exec load_profile
  set_current_profile profile io provider name st =
      after_checks
        (require "provider" provider
          >> (require "profile name" name
              >> (load_profile profile provider name st >>= λ p. ok tt)))
        (exec io λ t. record t { profile_state = insert provider name t.profile_state }) st
