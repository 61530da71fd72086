-- ===== src/Server/Refusals.antt =====
-- internal/server/policy.go: what a request that passes is like, and that every such request passes.
use capd.Prelude.{
  ℕ, suc, String, Bool, true, false, ◌&&◌, Option, none, some, List, [], ◌∷◌, ok, err, ◌>>◌, guard,
  length, str_eq, leb, leb→le, le→leb, if◌then◌else◌, ◌≤◌, ◌≡◌, ◌≢◌, refl, eq_iff, arith, ◌↔◌, ◌⊎◌,
  inl, inr, All,
}
use capd.Protocol.{Attachment}
use capd.Server.Scopes.{one_of}
use capd.Server.Policy.{
  Platform, TaskSendParams, PolicyError, Verdict, unless, not_exactly_one, path_relative,
  session_required, prompt_required, too_many, url_relative, url_scheme, wrong_type, validate_url,
  validate_attachment, validate_attachments, is_empty, validate_task_send,
}

-- An image by an absolute path or by an absolute web address, and not by both.
abbrev pub FineUrl : Option (String × String) → Type 0
FineUrl none = ⊥
FineUrl (some (scheme, host)) =
    (str_eq host "" ≡ false) × (one_of scheme ("http" ∷ "https" ∷ []) ≡ true)

abbrev pub FineAttachment : Platform → Attachment → Type 0
FineAttachment os att =
    (str_eq att.type "image" ≡ true)
    × (((str_eq att.url "" ≡ true) × ((str_eq att.path "" ≡ false) × (os.is_abs att.path ≡ true)))
        ⊎ ((str_eq att.path "" ≡ true)
            × ((str_eq att.url "" ≡ false) × FineUrl (os.parse_url att.url))))

abbrev pub FineTask : Platform → TaskSendParams → Type 0
FineTask os params =
    (params.session_id ≢ "")
    × (((os.trim params.prompt ≢ "") ⊎ (params.attachments ≢ []))
        × ((length params.attachments ≤ 16) × All (FineAttachment os) params.attachments))

-- A chain of checks passes when its first check does and the rest of it does.
guard_passes :
    (b : Bool) (e : PolicyError) (rest : Verdict)
    → ((guard b e >> rest) ≡ ok tt) ↔ ((b ≡ true) × (rest ≡ ok tt))
guard_passes true e rest = (λ h. (refl, h), λ h. h.1)
guard_passes false e rest = (λ h. absurd (ground (arith, h)), λ h. absurd (ground (arith, h)))

guard_ok : (b : Bool) (e : PolicyError) → (guard b e ≡ ok tt) ↔ (b ≡ true)
guard_ok true e = (λ h. refl, λ h. refl)
guard_ok false e = (λ h. absurd (ground (arith, h)), λ h. absurd (ground (arith, h)))

unless_ok : (b : Bool) (e : PolicyError) → (unless b e ≡ ok tt) ↔ (b ≡ false)
unless_ok true e = (λ h. absurd (ground (arith, h)), λ h. absurd (ground (arith, h)))
unless_ok false e = (λ h. refl, λ h. refl)

-- Two checks in a row, of which the first refuses what holds.
two_pass :
    (blank web : Bool) (e f : PolicyError)
    → ((unless blank e >> guard web f) ≡ ok tt) ↔ ((blank ≡ false) × (web ≡ true))
two_pass true web e f = (λ h. absurd (ground (arith, h)), λ h. absurd (ground (arith, h.0)))
two_pass false true e f = (λ h. (refl, refl), λ h. refl)
two_pass false false e f = (λ h. absurd (ground (arith, h)), λ h. absurd (ground (arith, h.1)))

validate_url-FineUrl :
    (os : Platform) (i : ℕ) (url : Option (String × String))
    → (validate_url os i url ≡ ok tt) ↔ FineUrl url
validate_url-FineUrl os i none = (λ h. absurd (ground (arith, h)), λ h. absurd h)
validate_url-FineUrl os i (some (scheme, host)) =
    two_pass (str_eq host "") (one_of scheme ("http" ∷ "https" ∷ [])) (url_relative i)
      (url_scheme i)

-- A path alone that is absolute, or an address alone that is fine.
abbrev OneSource : Bool → Bool → Bool → Type 0 → Type 0
OneSource no_path no_url absolute Fine =
    ((no_url ≡ true) × ((no_path ≡ false) × (absolute ≡ true)))
    ⊎ ((no_path ≡ true) × ((no_url ≡ false) × Fine))

abbrev source_check : Bool → Bool → Bool → ℕ → Verdict → Verdict
source_check no_path no_url absolute i url =
    if no_path
    then (if no_url then err (not_exactly_one i) else url)
    else (if no_url then guard absolute (path_relative i) else err (not_exactly_one i))

source_passes :
    (no_path no_url absolute : Bool) (i : ℕ) (url : Verdict) (Fine : Type 0)
    → (url ≡ ok tt) ↔ Fine
    → (source_check no_path no_url absolute i url ≡ ok tt) ↔ OneSource no_path no_url absolute Fine
source_passes true true absolute i url Fine both = (
  λ h. absurd (ground (arith, h)),
  elim [ inl h ↦ absurd (ground (arith, h.1.0)) | inr h ↦ absurd (ground (arith, h.1.0)) ],
)
source_passes true false absolute i url Fine both = (
  λ h. inr (refl, (refl, both.0 h)),
  elim [ inl h ↦ absurd (ground (arith, h.0)) | inr h ↦ both.1 h.1.1 ],
)
source_passes false true true i url Fine both = (λ h. inl (refl, (refl, refl)), λ h. refl)
source_passes false true false i url Fine both = (
  λ h. absurd (ground (arith, h)),
  elim [ inl h ↦ absurd (ground (arith, h.1.1)) | inr h ↦ absurd (ground (arith, h.0)) ],
)
source_passes false false absolute i url Fine both = (
  λ h. absurd (ground (arith, h)),
  elim [ inl h ↦ absurd (ground (arith, h.0)) | inr h ↦ absurd (ground (arith, h.0)) ],
)

validate_attachment-FineAttachment :
    (os : Platform) (i : ℕ) (att : Attachment)
    → (validate_attachment os i att ≡ ok tt) ↔ FineAttachment os att
unfolding validate_attachment
validate_attachment-FineAttachment os i att =
    let source =
      source_passes (str_eq att.path "") (str_eq att.url "") (os.is_abs att.path) i
        (validate_url os i (os.parse_url att.url)) (FineUrl (os.parse_url att.url))
        (validate_url-FineUrl os i (os.parse_url att.url)) in
    let first = guard_passes (str_eq att.type "image") (wrong_type i) (
      source_check (str_eq att.path "") (str_eq att.url "") (os.is_abs att.path) i
        (validate_url os i (os.parse_url att.url))) in
    (λ h. ((first.0 h).0, source.0 (first.0 h).1), λ h. first.1 (h.0, source.1 h.1))

-- A chain of two verdicts passes when both do.
both_pass : (v rest : Verdict) → ((v >> rest) ≡ ok tt) ↔ ((v ≡ ok tt) × (rest ≡ ok tt))
both_pass (ok u) rest = (λ h. (refl, h), λ h. h.1)
both_pass (err e) rest = (λ h. absurd (ground (arith, h)), λ h. absurd (ground (arith, h.0)))

validate_attachments-FineAttachment :
    (os : Platform) (i : ℕ) (atts : List Attachment)
    → (validate_attachments os i atts ≡ ok tt) ↔ All (FineAttachment os) atts
unfolding validate_attachments
validate_attachments-FineAttachment os i [] = (λ h. tt, λ h. refl)
validate_attachments-FineAttachment os i (att ∷ atts) =
    let chain = both_pass (validate_attachment os i att) (validate_attachments os (suc i) atts) in
    let one = validate_attachment-FineAttachment os i att in
    let rest = validate_attachments-FineAttachment os (suc i) atts in
    (λ h. (one.0 (chain.0 h).0, rest.0 (chain.0 h).1), λ h. chain.1 (one.1 h.0, rest.1 h.1))

either_false : (a b : Bool) → ((a && b) ≡ false) ↔ ((a ≡ false) ⊎ (b ≡ false))
either_false true true = (λ h. absurd (ground (arith, h)), elim [ inl h ↦ h | inr h ↦ h ])
either_false true false = (λ h. inr refl, λ h. refl)
either_false false b = (λ h. inl refl, λ h. refl)

is_not : (a b : String) → (str_eq a b ≡ false) ↔ (a ≢ b)
is_not a b = (λ h e. ground (arith, h, (eq_iff a b).1 e), λ h. differs (str_eq a b) refl h)
  where
    differs : (found : Bool) → str_eq a b ≡ found → a ≢ b → str_eq a b ≡ false
    differs true e h = absurd (h ((eq_iff a b).0 e))
    differs false e h = e

has_some : (os : Platform) (atts : List Attachment) → (is_empty os atts ≡ false) ↔ (atts ≢ [])
has_some os [] = (λ h. absurd (ground (arith, h)), λ h. absurd (h refl))
has_some os (att ∷ atts) = (λ h e. ground (arith, e), λ h. refl)

-- What the second check of a task lets through.
has_content :
    (os : Platform) (params : TaskSendParams)
    → ((str_eq (os.trim params.prompt) "" && is_empty os params.attachments) ≡ false)
      ↔ ((os.trim params.prompt ≢ "") ⊎ (params.attachments ≢ []))
has_content os params =
    let blank = str_eq (os.trim params.prompt) "" in
    let bare = is_empty os params.attachments in
    (
      λ h. elim ((either_false blank bare).0 h) [
        | inl e ↦ inl ((is_not (os.trim params.prompt) "").0 e)
        | inr e ↦ inr ((has_some os params.attachments).0 e)
      ],
      elim [
        | inl h ↦ (either_false blank bare).1 (inl ((is_not (os.trim params.prompt) "").1 h))
        | inr h ↦ (either_false blank bare).1 (inr ((has_some os params.attachments).1 h))
      ],
    )

-- A task passes the policy exactly when it names a session, has a prompt that is not blank or an
-- attachment, and at most sixteen attachments, each an image given by an absolute path alone or by an
-- absolute web address alone.
pub validate_task_send-FineTask :
    (os : Platform) (params : TaskSendParams)
    → (validate_task_send os params ≡ ok tt) ↔ FineTask os params
unfolding validate_task_send
validate_task_send-FineTask os params =
    let named = unless (str_eq params.session_id "") session_required in
    let filled =
      unless (str_eq (os.trim params.prompt) "" && is_empty os params.attachments)
        prompt_required in
    let few = guard (leb (length params.attachments) 16) too_many in
    let atts = validate_attachments os 0 params.attachments in
    let last = both_pass (named >> filled >> few) atts in
    let third = both_pass (named >> filled) few in
    let second = both_pass named filled in
    let each = validate_attachments-FineAttachment os 0 params.attachments in
    (
      λ h.
          let (checks, fine) = last.0 h in
          let (first_two, short) = third.0 checks in
          let (has_name, has_task) = second.0 first_two in
          (
            (is_not params.session_id "").0 ((unless_ok _ session_required).0 has_name),
            (
              (has_content os params).0 ((unless_ok _ prompt_required).0 has_task),
              (leb→le _ _ ((guard_ok _ too_many).0 short), each.0 fine),
            ),
          ),
      λ h. last.1 (
        third.1 (
          second.1 (
            (unless_ok _ session_required).1 ((is_not params.session_id "").1 h.0),
            (unless_ok _ prompt_required).1 ((has_content os params).1 h.1.0),
          ),
          (guard_ok _ too_many).1 (le→leb _ _ h.1.1.0),
        ),
        each.1 h.1.1.1,
      ),
    )
