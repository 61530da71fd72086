-- ===== src/Server/Policy.antt =====
-- internal/server/policy.go: requests that are refused before an adapter sees them.
use capd.Prelude.{
  ℕ, suc, String, Bool, true, false, not, ◌&&◌, Option, none, some, List, [], ◌∷◌, Result, ok, err,
  ◌>>◌, guard, length, str_eq, if◌then◌else◌, leb,
}
use capd.Protocol.{Attachment}
use capd.Server.Scopes.{one_of}

-- What the code calls of filepath, net/url, runtime and strings: `parse_url` is the scheme and the
-- host, `windows` is GOOS.
pub record Platform : Type 0 where
  pub trim : String → String
  pub is_abs : String → Bool
  pub abs : String → Option String
  pub clean : String → String
  pub windows : Bool
  pub volume_root : String → String
  pub parse_url : String → Option (String × String)

pub record SessionCreateParams : Type 0 where
  pub agent_id : String
  pub account_id : String
  pub permission_mode : String
  pub require_fresh_quota : Bool
  pub profile : String
  pub cwd : String
  pub resume : String
  pub model : String
  pub effort : String
  pub task_class : String

pub record TaskSendParams : Type 0 where
  pub session_id : String
  pub prompt : String
  pub attachments : List Attachment

pub record ApprovalReplyParams : Type 0 where
  pub session_id : String
  pub approval_id : String
  pub decision : String

-- The errors, all of code CodeInvalidParams, by their messages.
pub data PolicyError : Type 0 where
  agent_required fresh_quota_unsupported profile_unsupported account_reserved full_at_root :
      PolicyError
  unknown_mode : String → PolicyError
  session_required prompt_required too_many approval_required : PolicyError
  unknown_decision : String → PolicyError
  wrong_type not_exactly_one path_relative url_relative url_scheme : ℕ → PolicyError

abbrev pub Verdict : Type 0
Verdict = Result PolicyError (Unit {0})

abbrev pub unless : Bool → PolicyError → Verdict
unless bad e = guard (not bad) e

unfoldable pub valid_permission_mode : String → Bool
valid_permission_mode mode = one_of mode ("" ∷ "acceptEdits" ∷ "full" ∷ [])

module _ (os : Platform) where
  abbrev pub is_root : Option String → Bool
  is_root none = false
  is_root (some absolute) =
      str_eq (os.clean absolute) (os.clean (if os.windows then os.volume_root absolute else "/"))

  unfoldable pub is_filesystem_root : String → Bool
  is_filesystem_root path = if str_eq path "" then false else is_root (os.abs path)

  abbrev pub reject_reserved_account_id : String → Verdict
  reject_reserved_account_id account_id =
      unless (str_eq (os.trim account_id) "all") account_reserved

  unfoldable pub validate_session_create : SessionCreateParams → Verdict
  validate_session_create params =
      let account_id = os.trim params.account_id in
      unless (str_eq (os.trim params.agent_id) "") agent_required
      >> guard (valid_permission_mode params.permission_mode) (unknown_mode params.permission_mode)
      >> unless (params.require_fresh_quota && not (str_eq account_id "auto"))
          fresh_quota_unsupported
      >> unless (not (str_eq (os.trim params.profile) "") && not (str_eq account_id "auto"))
          profile_unsupported
      >> reject_reserved_account_id account_id
      >> unless (str_eq params.permission_mode "full" && is_filesystem_root params.cwd) full_at_root

  abbrev pub validate_url : ℕ → Option (String × String) → Verdict
  validate_url i none = err (url_relative i)
  validate_url i (some (scheme, host)) =
      unless (str_eq host "") (url_relative i)
      >> guard (one_of scheme ("http" ∷ "https" ∷ [])) (url_scheme i)

  unfoldable pub validate_attachment : ℕ → Attachment → Verdict
  validate_attachment i att =
      guard (str_eq att.type "image") (wrong_type i)
      >> (if str_eq att.path ""
          then (if str_eq att.url ""
              then err (not_exactly_one i)
              else validate_url i (os.parse_url att.url))
          else (if str_eq att.url ""
              then guard (os.is_abs att.path) (path_relative i)
              else err (not_exactly_one i)))

  unfoldable pub validate_attachments : ℕ → List Attachment → Verdict
  validate_attachments i [] = ok tt
  validate_attachments i (att ∷ atts) =
      validate_attachment i att >> validate_attachments (suc i) atts

  abbrev pub is_empty : List Attachment → Bool
  is_empty [] = true
  is_empty (att ∷ atts) = false

  unfoldable pub validate_task_send : TaskSendParams → Verdict
  validate_task_send params =
      unless (str_eq params.session_id "") session_required
      >> unless (str_eq (os.trim params.prompt) "" && is_empty params.attachments) prompt_required
      >> guard (leb (length params.attachments) 16) too_many
      >> validate_attachments 0 params.attachments

unfoldable pub validate_approval_reply : ApprovalReplyParams → Verdict
validate_approval_reply params =
    unless (str_eq params.session_id "") session_required
    >> unless (str_eq params.approval_id "") approval_required
    >> guard (one_of params.decision ("approve" ∷ "approveAlways" ∷ "deny" ∷ []))
        (unknown_decision params.decision)
