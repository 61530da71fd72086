-- ===== src/Codex/Approvals.antt =====
-- internal/adapter/codex/appserver.go: each approval is answered once, to the request that asked for it.
use capd.Prelude.{
  String, append, false, none, some, List, lookup, insert, remove, str_eq, if◌then◌else◌, ◌≡◌, refl,
  ap, ◌∙◌, sym, subst, lookup-insert, lookup-remove, eq_refl, arith,
}
use capd.Protocol.{EventType, Members}
use capd.Codex.AppSession.{
  AppSession, Params, fields, emit, approve, approve_found, translate_decision, request_kind,
  requested, handle_server_request,
}

approvals-emit :
    (s : AppSession) (t : EventType) (obj : Members) → (emit t obj s).approvals ≡ s.approvals
unfolding emit
approvals-emit s t obj = ground arith

lookup_removed : (id : String) (rows : List (String × String)) → lookup id (remove id rows) ≡ none
lookup_removed id rows = ground (arith, lookup-remove id id rows, eq_refl id)

approve_known :
    (key decision rpc_id : String) (s : AppSession)
    → lookup key s.approvals ≡ some rpc_id
    → ((approve key decision s).0 ≡ some (rpc_id, translate_decision decision))
      × ((approve key decision s).1.approvals ≡ remove key s.approvals)
unfolding approve
approve_known key decision rpc_id s h =
    subst
      (λ o.
        ((approve_found decision (record s { approvals = remove key s.approvals }) o).0
          ≡ some (rpc_id, translate_decision decision))
        × ((approve_found decision (record s { approvals = remove key s.approvals }) o).1.approvals
            ≡ remove key s.approvals))
      (sym h) (refl, refl)

approve_unknown :
    (key decision : String) (s : AppSession)
    → lookup key s.approvals ≡ none
    → ((approve key decision s).0 ≡ none)
      × ((approve key decision s).1.approvals ≡ remove key s.approvals)
unfolding approve
approve_unknown key decision s h =
    subst
      (λ o.
        ((approve_found decision (record s { approvals = remove key s.approvals }) o).0 ≡ none)
        × ((approve_found decision (record s { approvals = remove key s.approvals }) o).1.approvals
            ≡ remove key s.approvals))
      (sym h) (refl, refl)

-- The approval is noted under its id; nothing is sent to codex yet.
asked_lem :
    (id method kind : String) (params : Params) (s : AppSession)
    → request_kind method ≡ some kind
    → ((handle_server_request id method params s).0 ≡ none)
      × ((handle_server_request id method params s).1.approvals
          ≡ insert (append "a_" id) id s.approvals)
unfolding handle_server_request
asked_lem id method kind params s h =
    subst
      (λ o.
        ((requested id (fields params) s o).0 ≡ none)
        × ((requested id (fields params) s o).1.approvals ≡ insert (append "a_" id) id s.approvals))
      (sym h)
      (refl, approvals-emit (record s { approvals = insert (append "a_" id) id s.approvals }) _ _)

-- A request that codex understands to need approval is not answered at once. The first approval of its id
-- answers that request with the decision in codex's words, and the next one is an error and sends nothing.
-- Under any other id there is, after the first and after the second, exactly what there was before the
-- request; and after either there is nothing under its own.
pub approve_once :
    (id method decision again kind : String) (params : Params) (s : AppSession) (other : String)
    → request_kind method ≡ some kind
    → str_eq (append "a_" id) other ≡ false
    → let key = append "a_" id in
      let asked = handle_server_request id method params s in
      let first = approve key decision asked.1 in
      let second = approve key again first.1 in
      ((asked.0 ≡ none) × (first.0 ≡ some (id, translate_decision decision)) × (second.0 ≡ none))
      × ((lookup key first.1.approvals ≡ none) × (lookup key second.1.approvals ≡ none))
      × ((lookup other first.1.approvals ≡ lookup other s.approvals)
          × (lookup other second.1.approvals ≡ lookup other s.approvals))
approve_once id method decision again kind params s other k apart =
    let key = append "a_" id in
    let asked = handle_server_request id method params s in
    let noted = asked_lem id method kind params s k in
    let first = approve_known key decision id asked.1 (
      ap (lookup key) noted.1
      ∙ ground (arith, lookup-insert key key id s.approvals, eq_refl key)) in
    let once = (approve key decision asked.1).1 in
    let gone = ap (lookup key) first.1 ∙ lookup_removed key asked.1.approvals in
    let second = approve_unknown key again once gone in
    let kept : lookup other once.approvals ≡ lookup other s.approvals =
      ap (lookup other) first.1
      ∙ lookup-remove key other asked.1.approvals
      ∙ ap (λ rows. if str_eq key other then none else lookup other rows) noted.1
      ∙ ground (arith, apart, lookup-insert key other id s.approvals) in
    (
      (noted.0, first.0, second.0),
      (gone, ap (lookup key) second.1 ∙ lookup_removed key once.approvals),
      (
        kept,
        ap (lookup other) second.1
            ∙ lookup-remove key other once.approvals
            ∙ ap (λ b. if b then none else lookup other once.approvals) apart
            ∙ kept,
      ),
    )
