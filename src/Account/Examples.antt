-- ===== src/Account/Examples.antt =====
-- The account store at work: two accounts of one provider, a session, a profile, and failures.
use capd.Prelude.{
  true, str_eq, ◌⊎◌, some, lookup, refl, ok, ◌≡◌, ◌+◌, ◌-◌, ◌*◌, false, ltb, ◌==◌, arith, sort_by,
  place, insert, remove, ℕ, String, Option, none, List, [], ◌∷◌,
}
use capd.Protocol.{Members, no_members, member, object, number, text}
use capd.Account.Quota.{UsageText, quota_from_usage, marshaled}
use capd.Account.Percents.{FloatPercents, quota_usable-quota_from_usage}
use capd.Account.Redaction.{MembersClean, quota_from_usage_redacted}
use capd.Session.Store.{Io, changed}
use capd.Account.Store.{
  current_account, upsert_account, bind_session_account, set_current_account, load_account,
  save_quota, record_account_failure, exec, Account, Profile, QuotaSnapshot, Store,
}
use capd.Account.Delete.{list_accounts, delete_account}
use capd.Account.Routing.{
  quota_usable, Floats, Reads, text_of, normalized, default_policy, quota_route_score_at,
  select_quota_route_account_with_policy,
}
use capd.Account.Choice.{
  FloatOrder, RouteChoice, select_quota_route_account_with_policy-RouteChoice,
}
use capd.Account.References.{References}
use capd.Account.Profiles.{upsert_profile, add_profile_account, load_profile, upsert_row}
use capd.Account.Deleting.{DeleteOutcome, delete_account-DeleteOutcome}
use capd.Account.Writes.{
  Write, upserting_account, choosing_account, upserting_profile, adding_account, saving_quota,
  binding_session, recording_failure, perform_all, writes_keep-References,
}

abbrev fine : Io
fine = record { fault = none; chmod = λ path. changed; now = 1700000000 }

abbrev all_run : ℕ → Option String
all_run n = none

abbrev account_of : String → Account
account_of id = record {
  id = id;
  provider = "codex";
  auth_mode = "oauth";
  email = "a@b.c";
  account_id = "acct";
  plan = "pro";
  secret_ref = "keychain:x";
  created_at = 0;
  updated_at = 0;
}

abbrev empty_store : Store ℕ
empty_store = record {
  path = "/var/accounts.db";
  accounts = [];
  account_state = [];
  quotas = [];
  session_accounts = [];
  profiles = [];
  members = [];
  profile_state = [];
  health = [];
}

abbrev work : Profile
work = record {
  provider = "codex";
  name = "work";
  description = "";
  created_at = 0;
  updated_at = 0;
}

abbrev quota_of : String → QuotaSnapshot ℕ
quota_of id = record {
  account_id = id;
  plan = "pro";
  primary_used_percent = 10;
  primary_reset_at = "";
  secondary_used_percent = 20;
  secondary_reset_at = "";
  code_review_used_percent = 0;
  checked_at = 0;
  raw_json = "";
}

abbrev history : List (Write ℕ)
history =
    upserting_account fine (account_of "one")
    ∷ upserting_account fine (account_of "two")
    ∷ choosing_account fine fine "codex" "one"
    ∷ upserting_profile fine work
    ∷ adding_account fine fine fine "codex" "work" "one"
    ∷ saving_quota fine fine (quota_of "one")
    ∷ binding_session fine fine "s_1" "one"
    ∷ recording_failure fine "one" 0
    ∷ []

empty-References : References empty_store
empty-References = record {
  accounts_keyed = tt;
  quotas_known = tt;
  sessions_known = tt;
  members_known = tt;
  profiles_known = tt;
}

abbrev used : Store ℕ
used = perform_all history empty_store

writes_keep-References_example : References used
writes_keep-References_example = writes_keep-References history empty_store empty-References

delete_account-DeleteOutcome_example :
    DeleteOutcome fine all_run fine "one"
      (lookup "one" used.accounts)
      used
      (delete_account fine all_run fine "one" used)
delete_account-DeleteOutcome_example =
    delete_account-DeleteOutcome fine all_run fine "one" used
      (writes_keep-References history empty_store empty-References)

-- Whole percentages: the naturals have no NaN and no infinity.
abbrev whole : Floats ℕ
whole = record {
  lt = ltb;
  eq = λ x y. x == y;
  add = λ x y. x + y;
  subtract = λ x y. x - y;
  multiply = λ x y. x * y;
  from_nat = λ n. n;
  hundredth = 0;
  is_nan = λ n. false;
  is_inf = λ n. false;
}

abbrev same : String → String
same s = s

whole-FloatOrder : FloatOrder whole
whole-FloatOrder = record {
  lt_irrefl = λ x. ground arith;
  lt_trans = λ x y z h k. ground (arith, h, k);
  lt_eq = λ x y z h k. ground (arith, h, k);
  eq_lt = λ x y z h k. ground (arith, h, k);
  eq_trans = λ x y z h k. ground (arith, h, k);
}

abbrev reads : Reads
reads = record {
  accounts = fine;
  current = fine;
  quota = λ id. fine;
  health = λ id. fine;
  now = 1700000060;
}

abbrev listed : List Account
listed =
    record (account_of "one") { created_at = 1700000000; updated_at = 1700000000 }
    ∷ record (account_of "two") { created_at = 1700000000; updated_at = 1700000000 }
    ∷ []

list_used : list_accounts reads.accounts "codex" used ≡ ok listed
unfolding list_accounts upsert_account set_current_account load_account upsert_profile
    add_profile_account load_profile save_quota bind_session_account record_account_failure exec
    upsert_row sort_by place insert remove lookup
list_used = refl

select_quota_route_account_with_policy-RouteChoice_example :
    RouteChoice whole same
      (quota_route_score_at whole same
        (normalized whole same (default_policy whole same))
        reads
        used
        (text_of (current_account reads.current "codex" used)))
      (text_of (current_account reads.current "codex" used))
      listed
      (select_quota_route_account_with_policy whole same
        (default_policy whole same)
        reads
        "codex"
        (some used))
select_quota_route_account_with_policy-RouteChoice_example =
    select_quota_route_account_with_policy-RouteChoice whole same (default_policy whole same) reads
      "codex" used listed whole-FloatOrder list_used

whole-FloatPercents : FloatPercents whole
whole-FloatPercents = record {
  total = λ x y h k. ground arith;
  eq_refl = λ x h. ground arith;
  zero_number = refl;
  zero_finite = refl;
  hundred_number = refl;
  hundred_finite = refl;
  zero_lt_hundred = refl;
}

-- Every literal reads as 250, and a text contains itself alone.
abbrev plain : UsageText ℕ
plain = record {
  marshal = λ fields. some "{}";
  size = λ raw. 2;
  float_of = λ literal. 250;
  contains = λ key marker. str_eq key marker;
  fold_key = λ key. key;
}

abbrev usage : Members
usage =
    member "rateLimits"
      (object
        (member "primary" (object (member "usedPercent" (number "250") no_members)) no_members))
      (member "token" (text "t") no_members)

quota_usable-quota_from_usage_example :
    quota_usable whole same (quota_from_usage whole plain "one" usage 1700000000) ≡ true
quota_usable-quota_from_usage_example =
    quota_usable-quota_from_usage whole same plain "one" usage 1700000000 whole-FloatPercents

quota_from_usage_redacted_example :
    ((quota_from_usage whole plain "one" usage 1700000000).raw_json ≡ "")
    ⊎ ((clean : Members) × MembersClean whole plain clean
        × ((quota_from_usage whole plain "one" usage 1700000000).raw_json
            ≡ marshaled (plain.marshal clean)))
quota_from_usage_redacted_example = quota_from_usage_redacted whole plain "one" usage 1700000000
