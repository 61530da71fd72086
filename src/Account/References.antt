-- ===== src/Account/References.antt =====
-- internal/account/store.go: the rows that name an account or a profile name one that the store has.
use capd.Prelude.{
  ℕ, String, true, Option, none, some, ok, ◌>>=◌, lookup, insert, ◌≡◌, refl, All, All-keep, All-map,
  ap,
}
use capd.Session.Store.{Io}
use capd.Account.Store.{
  Account, QuotaSnapshot, Store, require, upsert_account, upserted, load_account,
  record_account_failure, clear_account_failures, set_current_account, save_quota,
  bind_session_account,
}
use capd.Account.Profiles.{read, remove_profile_account, set_current_profile}
use capd.Account.Answers.{ok->>=, ok->>, exec-keeps, load_account-known}
use capd.Account.Rows.{known, is_some, has_profile, All-remove, known-insert}

upserted-id : (io : Io) (acc : Account) (old : Option Account) → (upserted io acc old).id ≡ acc.id
upserted-id io acc none = refl
upserted-id io acc (some o) = refl

module _ {F : Type 0} where
  pub record References (st : Store F) : Type 0 where
    pub accounts_keyed : All (λ row. row.1.id ≡ row.0) st.accounts
    pub quotas_known : All (λ row. known st.accounts row.0 ≡ true) st.quotas
    pub sessions_known : All (λ row. known st.accounts row.1 ≡ true) st.session_accounts
    pub members_known : All (λ m. known st.accounts m.account_id ≡ true) st.members
    pub profiles_known : All (λ m. has_profile st.profiles m ≡ true) st.members

  pub upsert_account-References :
      (io : Io) (acc : Account) (st : Store F)
      → References st
      → References (upsert_account io acc st).1
  unfolding upsert_account insert
  upsert_account-References io acc st h = exec-keeps References _ io _ st h λ e. record {
    accounts_keyed = (
      upserted-id io acc (lookup acc.id st.accounts),
      All-remove _ _ acc.id st.accounts h.accounts_keyed λ row k n. k,
    );
    quotas_known =
        All-map (λ row. known-insert acc.id row.0 _ st.accounts) st.quotas h.quotas_known;
    sessions_known =
        All-map (λ row. known-insert acc.id row.1 _ st.accounts) st.session_accounts
          h.sessions_known;
    members_known =
        All-map (λ m. known-insert acc.id m.account_id _ st.accounts) st.members h.members_known;
    profiles_known = h.profiles_known;
  }

  pub record_account_failure-References :
      (io : Io) (id : String) (at : ℕ) (st : Store F)
      → References st
      → References (record_account_failure io id at st).1
  unfolding record_account_failure
  record_account_failure-References io id at st h = exec-keeps References _ io _ st h λ e. record {
    accounts_keyed = h.accounts_keyed;
    quotas_known = h.quotas_known;
    sessions_known = h.sessions_known;
    members_known = h.members_known;
    profiles_known = h.profiles_known;
  }

  pub clear_account_failures-References :
      (io : Io) (id : String) (st : Store F)
      → References st
      → References (clear_account_failures io id st).1
  unfolding clear_account_failures
  clear_account_failures-References io id st h = exec-keeps References _ io _ st h λ e. record {
    accounts_keyed = h.accounts_keyed;
    quotas_known = h.quotas_known;
    sessions_known = h.sessions_known;
    members_known = h.members_known;
    profiles_known = h.profiles_known;
  }

  pub set_current_account-References :
      (read io : Io) (provider id : String) (st : Store F)
      → References st
      → References (set_current_account read io provider id st).1
  unfolding set_current_account
  set_current_account-References read io provider id st h = exec-keeps References _ io _ st h λ e.
      record {
        accounts_keyed = h.accounts_keyed;
        quotas_known = h.quotas_known;
        sessions_known = h.sessions_known;
        members_known = h.members_known;
        profiles_known = h.profiles_known;
      }

  pub set_current_profile-References :
      (read io : Io) (provider name : String) (st : Store F)
      → References st
      → References (set_current_profile read io provider name st).1
  unfolding set_current_profile
  set_current_profile-References read io provider name st h = exec-keeps References _ io _ st h λ e.
      record {
        accounts_keyed = h.accounts_keyed;
        quotas_known = h.quotas_known;
        sessions_known = h.sessions_known;
        members_known = h.members_known;
        profiles_known = h.profiles_known;
      }

  pub remove_profile_account-References :
      (io : Io) (provider name id : String) (st : Store F)
      → References st
      → References (remove_profile_account io provider name id st).1
  unfolding remove_profile_account
  remove_profile_account-References io provider name id st h =
      exec-keeps References _ io _ st h λ e. record {
        accounts_keyed = h.accounts_keyed;
        quotas_known = h.quotas_known;
        sessions_known = h.sessions_known;
        members_known = All-keep _ _ st.members h.members_known;
        profiles_known = All-keep _ _ st.members h.profiles_known;
      }

  known-loaded :
      (read : Io) (id : String) (st : Store F)
      → (load_account read id st >>= λ acc. ok tt) ≡ ok tt
      → known st.accounts id ≡ true
  known-loaded read id st e =
      let step = ok->>= (load_account read id st) (λ acc. ok tt) tt e in
      ap is_some (load_account-known read id st step.0 step.1)

  pub save_quota-References :
      (read io : Io) (q : QuotaSnapshot F) (st : Store F)
      → References st
      → References (save_quota read io q st).1
  unfolding save_quota insert
  save_quota-References read io q st h = exec-keeps References _ io _ st h λ e. record {
    accounts_keyed = h.accounts_keyed;
    quotas_known = (
      known-loaded read q.account_id st (ok->> (require "account id" q.account_id) _ tt e),
      All-remove _ _ q.account_id st.quotas h.quotas_known λ row k n. k,
    );
    sessions_known = h.sessions_known;
    members_known = h.members_known;
    profiles_known = h.profiles_known;
  }

  pub bind_session_account-References :
      (read io : Io) (session_id id : String) (st : Store F)
      → References st
      → References (bind_session_account read io session_id id st).1
  unfolding bind_session_account insert
  bind_session_account-References read io session_id id st h =
      exec-keeps References _ io _ st h λ e. record {
        accounts_keyed = h.accounts_keyed;
        quotas_known = h.quotas_known;
        sessions_known = (
          known-loaded read id st (ok->> _ _ tt e),
          All-remove _ _ session_id st.session_accounts h.sessions_known λ row k n. k,
        );
        members_known = h.members_known;
        profiles_known = h.profiles_known;
      }
