-- ===== src/Account/Memberships.antt =====
-- internal/account/store.go: the writes of profiles and members keep what the rows refer to.
use capd.Prelude.{
  ℕ, String, Bool, true, false, Option, [], ◌∷◌, Result, ok, err, ◌>>=◌, ◌>>◌, lookup, any,
  if◌then◌else◌, ◌≡◌, subst, All-keep, All-map, ap,
}
use capd.Session.Store.{Io}
use capd.Account.Store.{
  AccountError, Profile, Store, require, after_checks, load_account, same_provider, text_or,
}
use capd.Account.Profiles.{
  is_profile, read, committed, upsert_profile, load_profile, move_profile, delete_profile_rows,
  without_profile, without_profile_members, delete_profile, add_profile_account,
}
use capd.Account.Answers.{
  ok->>=, exec-keeps, load_account-known, committed-keeps, ok-found_or, ok-query, ok-transaction,
}
use capd.Account.Rows.{is_some, All-keep_if, any-first, any-upsert_row, any-keep, All-added}
use capd.Account.References.{References}

module _ {F : Type 0} where
  pub upsert_profile-References :
      (io : Io) (profile : Profile) (st : Store F)
      → References st
      → References (upsert_profile io profile st).1
  unfolding upsert_profile
  upsert_profile-References io profile st h = exec-keeps References _ io _ st h λ e. record {
    accounts_keyed = h.accounts_keyed;
    quotas_known = h.quotas_known;
    sessions_known = h.sessions_known;
    members_known = h.members_known;
    profiles_known =
        All-map (λ m. any-upsert_row m.provider m.name io.now profile st.profiles) st.members
          h.profiles_known;
  }

  loaded-Profile :
      (read : Io) (provider name : String) (st : Store F) (p : Profile)
      → load_profile read provider name st ≡ ok p
      → any (is_profile provider name) st.profiles ≡ true
  unfolding load_profile
  loaded-Profile read provider name st p e =
      any-first (is_profile provider name) st.profiles p (ok-found_or _ p (ok-query read _ p e))

  pub add_profile_account-References :
      (profile account io : Io) (provider name id : String) (st : Store F)
      → References st
      → References (add_profile_account profile account io provider name id st).1
  unfolding add_profile_account
  add_profile_account-References profile account io provider name id st h =
      exec-keeps References _ io _ st h λ e.
        let outer =
          ok->>= (load_profile profile provider name st)
            (λ p. load_account account id st >>= same_provider provider) tt e in
        let inner = ok->>= (load_account account id st) (same_provider provider) tt outer.2 in
        record {
          accounts_keyed = h.accounts_keyed;
          quotas_known = h.quotas_known;
          sessions_known = h.sessions_known;
          members_known =
              All-added _ _ st.members _ h.members_known
                (ap is_some (load_account-known account id st inner.0 inner.1));
          profiles_known =
              All-added _ _ st.members _ h.profiles_known
                (loaded-Profile profile provider name st outer.0 outer.1);
        }

  dropped-References :
      (provider name : String) (st : Store F)
      → References st
      → References (without_profile provider name (without_profile_members provider name st))
  dropped-References provider name st h = record {
    accounts_keyed = h.accounts_keyed;
    quotas_known = h.quotas_known;
    sessions_known = h.sessions_known;
    members_known = All-keep _ _ st.members h.members_known;
    profiles_known =
        All-keep_if _ _ _ st.members h.profiles_known
          λ m. any-keep m.provider m.name provider name st.profiles;
  }

  moved-References :
      (provider : String) (st : Store F) (b : Bool)
      → References st
      → References (if b then move_profile provider st else st)
  unfolding move_profile
  moved-References provider st true h = record {
    accounts_keyed = h.accounts_keyed;
    quotas_known = h.quotas_known;
    sessions_known = h.sessions_known;
    members_known = h.members_known;
    profiles_known = h.profiles_known;
  }
  moved-References provider st false h = h

  delete_profile_rows-References :
      (tx : ℕ → Option String) (provider name : String) (st t : Store F)
      → References st
      → delete_profile_rows tx provider name st ≡ ok t
      → References t
  unfolding delete_profile_rows
  delete_profile_rows-References tx provider name st t h e =
      subst References
        (ok-transaction tx
          (without_profile_members provider name ∷ without_profile provider name ∷ []) 3
          (λ u. text_or (lookup provider u.profile_state)) name (move_profile provider) st t e)
        (moved-References provider _ _ (dropped-References provider name st h))

  pub delete_profile-References :
      (tx : ℕ → Option String) (io : Io) (provider name : String) (st : Store F)
      → References st
      → References (delete_profile tx io provider name st).1
  unfolding delete_profile
  delete_profile-References tx io provider name st h =
      go (require "provider" provider >> require "profile name" name)
    where
      go :
          (c : Result AccountError (Unit {0}))
          → References
              (after_checks c (λ t. committed io t (delete_profile_rows tx provider name t)) st).1
      go (err e) = h
      go (ok u) =
          committed-keeps References io st _ h
            λ t. delete_profile_rows-References tx provider name st t h
