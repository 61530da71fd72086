-- ===== src/Account/Redaction.antt =====
-- internal/account/quota.go: no secret of a usage report reaches the text that is stored.
use capd.Prelude.{
  ℕ, String, Bool, true, false, ◌≡◌, refl, ap, ◌⊎◌, inl, inr, Bool-cases, if◌then◌else◌, ltb,
}
use capd.Protocol.{
  Members, no_members, member, Values, no_values, value, Value, text, bool, number, null, object,
  list,
}
use capd.Account.Routing.{Floats}
use capd.Account.Quota.{
  UsageText, quota_raw_key_sensitive, redact_members, redact_values, redact_quota_raw_value,
  marshaled, raw_of, quota_from_usage,
}

module _ {F : Type 0} (fl : Floats F) (go : UsageText F) where
  -- At every depth a member whose key is sensitive holds the mark of the redaction.
  mutual
    pub MembersClean : Members → Type 0
    MembersClean no_members = Unit
    MembersClean (member key v fields) =
        ((quota_raw_key_sensitive fl go key ≡ false) ⊎ (v ≡ text "<redacted>"))
        × ValueClean v
        × MembersClean fields

    pub ValuesClean : Values → Type 0
    ValuesClean no_values = Unit
    ValuesClean (value v vs) = ValueClean v × ValuesClean vs

    pub ValueClean : Value → Type 0
    ValueClean (object fields) = MembersClean fields
    ValueClean (list vs) = ValuesClean vs
    ValueClean (text s) = Unit
    ValueClean (bool b) = Unit
    ValueClean (number s) = Unit
    ValueClean null = Unit

  redacted_member :
      (b : Bool) (v : Value)
      → ValueClean v
      → ((b ≡ false) ⊎ ((if b then text "<redacted>" else v) ≡ text "<redacted>"))
        × ValueClean (if b then text "<redacted>" else v)
  unfolding ValueClean
  redacted_member true v h = (inr refl, tt)
  redacted_member false v h = (inl refl, h)

  mutual
    unfolding redact_members MembersClean

    redact_members-MembersClean : (fields : Members) → MembersClean (redact_members fl go fields)
    redact_members-MembersClean no_members = tt
    redact_members-MembersClean (member key v fields) =
        let here =
          redacted_member (quota_raw_key_sensitive fl go key) (redact_quota_raw_value fl go v)
            (redact_quota_raw_value-ValueClean v) in
        (here.0, here.1, redact_members-MembersClean fields)

    redact_values-ValuesClean : (vs : Values) → ValuesClean (redact_values fl go vs)
    redact_values-ValuesClean no_values = tt
    redact_values-ValuesClean (value v vs) =
        (redact_quota_raw_value-ValueClean v, redact_values-ValuesClean vs)

    redact_quota_raw_value-ValueClean : (v : Value) → ValueClean (redact_quota_raw_value fl go v)
    redact_quota_raw_value-ValueClean (object fields) = redact_members-MembersClean fields
    redact_quota_raw_value-ValueClean (list vs) = redact_values-ValuesClean vs
    redact_quota_raw_value-ValueClean (text s) = tt
    redact_quota_raw_value-ValueClean (bool b) = tt
    redact_quota_raw_value-ValueClean (number s) = tt
    redact_quota_raw_value-ValueClean null = tt

  -- The stored text of a report is empty or the JSON of an object in which, at every depth, a member
  -- with a sensitive key holds only the mark of the redaction.
  pub quota_from_usage_redacted :
      (account_id : String) (usage : Members) (now : ℕ)
      → ((quota_from_usage fl go account_id usage now).raw_json ≡ "")
        ⊎ ((clean : Members) × MembersClean clean
            × ((quota_from_usage fl go account_id usage now).raw_json
                ≡ marshaled (go.marshal clean)))
  unfolding quota_from_usage raw_of
  quota_from_usage_redacted account_id usage now =
      elim (Bool-cases
        (ltb 1048576 (go.size (marshaled (go.marshal (redact_members fl go usage)))))) [
          | inl e ↦
              inl
                (ap (λ b. if b then "" else marshaled (go.marshal (redact_members fl go usage))) e)
          | inr e ↦ inr (
            redact_members fl go usage,
            redact_members-MembersClean usage,
            ap (λ b. if b then "" else marshaled (go.marshal (redact_members fl go usage))) e,
          )
        ]
