-- ===== src/Account/Writes.antt =====
-- internal/account/store.go: any sequence of writes to the account store.
use capd.Prelude.{ℕ, String, Option, List, [], ◌∷◌}
use capd.Session.Store.{Io}
use capd.Account.Store.{
  Account, Profile, QuotaSnapshot, Store, upsert_account, record_account_failure,
  clear_account_failures, set_current_account, save_quota, bind_session_account,
}
use capd.Account.Profiles.{
  upsert_profile, delete_profile, add_profile_account, remove_profile_account, set_current_profile,
}
use capd.Account.Delete.{delete_account}
use capd.Account.References.{
  References, upsert_account-References, record_account_failure-References,
  clear_account_failures-References, set_current_account-References, set_current_profile-References,
  remove_profile_account-References, save_quota-References, bind_session_account-References,
}
use capd.Account.Memberships.{
  upsert_profile-References, add_profile_account-References, delete_profile-References,
}
use capd.Account.Deleting.{delete_account-References}

-- A call of a method of the store that writes, with the answers that its calls get.
pub data Write (F : Type 0) : Type 0 where
  upserting_account : Io → Account → Write F
  deleting_account : Io → (ℕ → Option String) → Io → String → Write F
  recording_failure : Io → String → ℕ → Write F
  clearing_failures : Io → String → Write F
  upserting_profile : Io → Profile → Write F
  deleting_profile : (ℕ → Option String) → Io → String → String → Write F
  adding_account : Io → Io → Io → String → String → String → Write F
  removing_account : Io → String → String → String → Write F
  choosing_profile : Io → Io → String → String → Write F
  choosing_account : Io → Io → String → String → Write F
  saving_quota : Io → Io → QuotaSnapshot F → Write F
  binding_session : Io → Io → String → String → Write F

module _ {F : Type 0} where
  abbrev pub perform : Write F → Store F → Store F
  perform (upserting_account io acc) st = (upsert_account io acc st).1
  perform (deleting_account loading tx io id) st = (delete_account loading tx io id st).1
  perform (recording_failure io id at) st = (record_account_failure io id at st).1
  perform (clearing_failures io id) st = (clear_account_failures io id st).1
  perform (upserting_profile io profile) st = (upsert_profile io profile st).1
  perform (deleting_profile tx io provider name) st = (delete_profile tx io provider name st).1
  perform (adding_account profile account io provider name id) st =
      (add_profile_account profile account io provider name id st).1
  perform (removing_account io provider name id) st =
      (remove_profile_account io provider name id st).1
  perform (choosing_profile read io provider name) st =
      (set_current_profile read io provider name st).1
  perform (choosing_account read io provider id) st = (set_current_account read io provider id st).1
  perform (saving_quota read io q) st = (save_quota read io q st).1
  perform (binding_session read io session_id id) st =
      (bind_session_account read io session_id id st).1

  abbrev pub perform_all : List (Write F) → Store F → Store F
  perform_all [] st = st
  perform_all (write ∷ writes) st = perform_all writes (perform write st)

  perform-References :
      (write : Write F) (st : Store F) → References st → References (perform write st)
  perform-References (upserting_account io acc) st h = upsert_account-References io acc st h
  perform-References (deleting_account loading tx io id) st h =
      delete_account-References loading tx io id st h
  perform-References (recording_failure io id at) st h =
      record_account_failure-References io id at st h
  perform-References (clearing_failures io id) st h = clear_account_failures-References io id st h
  perform-References (upserting_profile io profile) st h = upsert_profile-References io profile st h
  perform-References (deleting_profile tx io provider name) st h =
      delete_profile-References tx io provider name st h
  perform-References (adding_account profile account io provider name id) st h =
      add_profile_account-References profile account io provider name id st h
  perform-References (removing_account io provider name id) st h =
      remove_profile_account-References io provider name id st h
  perform-References (choosing_profile read io provider name) st h =
      set_current_profile-References read io provider name st h
  perform-References (choosing_account read io provider id) st h =
      set_current_account-References read io provider id st h
  perform-References (saving_quota read io q) st h = save_quota-References read io q st h
  perform-References (binding_session read io session_id id) st h =
      bind_session_account-References read io session_id id st h

  -- Whatever sequence of writes runs, and whichever of their calls fail, where the references of the
  -- tables hold they still hold behind it: every account stands under its id, each quota, each session
  -- and each member names an account of the store, and each member a profile of the store.
  pub writes_keep-References :
      (writes : List (Write F)) (st : Store F) → References st → References (perform_all writes st)
  writes_keep-References [] st h = h
  writes_keep-References (write ∷ writes) st h =
      writes_keep-References writes (perform write st) (perform-References write st h)
