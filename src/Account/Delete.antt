-- ===== src/Account/Delete.antt =====
-- internal/account/store.go: the list of the accounts, and the transaction that deletes one.
use Prim.Native.String.{compare}
use text.Mathlib.Text.{is_lt}
use capd.Prelude.{
  ℕ, String, Bool, true, false, not, Option, List, [], ◌∷◌, Result, ok, err, ◌>>=◌, ◌>>◌, lookup,
  insert, remove, keep, map, str_eq, if◌then◌else◌, ltb, sort_by,
}
use capd.Session.Store.{Io}
use capd.Account.Store.{AccountError, Account, Store, Answer, query, require, load_account, text_or}
use capd.Account.Profiles.{read, run_statements, conclude, committed}

-- ORDER BY updated_at DESC, id, of the accounts of one provider.
abbrev pub newest_account : Account → Account → Bool
newest_account a b =
    if ltb b.updated_at a.updated_at
    then true
    else if ltb a.updated_at b.updated_at
    then false
    else not (is_lt (compare b.id a.id))

-- ORDER BY provider, updated_at DESC, id
abbrev pub by_provider : Account → Account → Bool
by_provider a b =
    if str_eq a.provider b.provider
    then newest_account a b
    else is_lt (compare a.provider b.provider)

abbrev pub first_id : List Account → String
first_id [] = ""
first_id (acc ∷ accs) = acc.id

abbrev pub values : {V : Type 0} → List (String × V) → List V
values rows = map (λ row. row.1) rows

module _ {F : Type 0} where
  unfoldable pub list_accounts : Io → String → Store F → Result AccountError (List Account)
  list_accounts io provider st = query io (
      ok (
        sort_by by_provider (
          if str_eq provider ""
          then values st.accounts
          else keep (λ acc. str_eq acc.provider provider) (values st.accounts))))

  -- nextProviderAccountTx
  unfoldable pub next_provider_account : String → Store F → String
  next_provider_account provider st =
      first_id
        (sort_by newest_account (keep (λ acc. str_eq acc.provider provider) (values st.accounts)))

  unfoldable pub move_account : String → Store F → Store F
  unfolding next_provider_account
  move_account provider st = record st {
    account_state = insert provider (next_provider_account provider st) st.account_state;
  }

  abbrev pub without_quota : String → Store F → Store F
  without_quota id st = record st { quotas = remove id st.quotas }

  abbrev pub without_sessions : String → Store F → Store F
  without_sessions id st = record st {
    session_accounts = keep (λ row. not (str_eq row.1 id)) st.session_accounts;
  }

  abbrev pub without_members : String → Store F → Store F
  without_members id st = record st {
    members = keep (λ m. not (str_eq m.account_id id)) st.members;
  }

  abbrev pub without_health : String → Store F → Store F
  without_health id st = record st { health = remove id st.health }

  abbrev pub without_account : String → Store F → Store F
  without_account id st = record st { accounts = remove id st.accounts }

  -- The transaction of DeleteAccount; `tx` answers its calls, counted from 0, which is `Begin`.
  unfoldable pub delete_account_rows :
      (ℕ → Option String) → String → String → Store F → Result AccountError (Store F)
  delete_account_rows tx id provider st =
      read (tx 0) st
      >>= (λ t.
          run_statements tx 1
            (without_quota id
              ∷ without_sessions id
              ∷ without_members id
              ∷ without_health id
              ∷ without_account id
              ∷ [])
            t)
      >>= λ t.
          conclude tx 6 (text_or (lookup provider t.account_state)) id (move_account provider) t

  abbrev pub delete_loaded :
      Io → (ℕ → Option String) → String → Store F → Result AccountError Account → Answer F
  delete_loaded io tx id st (ok acc) = committed io st (delete_account_rows tx id acc.provider st)
  delete_loaded io tx id st (err e) = (err e, st)

  -- `loading` answers LoadAccount.
  unfoldable pub delete_account : Io → (ℕ → Option String) → Io → String → Store F → Answer F
  unfolding load_account
  delete_account loading tx io id st =
      delete_loaded io tx id st (require "account id" id >> load_account loading id st)
