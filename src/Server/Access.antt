-- ===== src/Server/Access.antt =====
-- internal/server/router.go: what a connection reaches, and how the scopes are ordered.
use capd.Prelude.{
  String, Bool, true, false, List, [], ◌∷◌, str_eq, if◌then◌else◌, ◌≡◌, refl, sym, subst, arith,
  not, ◌&&◌, Bool-cases, ◌⊎◌, inl, inr, All,
}
use capd.Security.Minting.{str_eq-≡}
use capd.Server.Scopes.{
  one_of, probe_methods, console_read_methods, console_methods, client_scope_allows, is_known,
  WsClient, Request, Refusal, not_first, out_of_scope, undecodable, version_unsupported, Routed,
  refused, greeted, runs, initialize, handle, handle_all,
}

-- What one answer promises under a scope: only an allowed method runs.
abbrev pub Allowed : String → Routed → Type 0
Allowed scope (runs method) = client_scope_allows scope method ≡ true
Allowed scope (refused refusal) = Unit
Allowed scope greeted = Unit

-- What a request says that the greeting answers.
abbrev pub Greets : Request → Type 0
Greets req = (req.method ≡ "initialize") × (req.decodes ≡ true) × (req.version ≡ "0.1")

-- Of the requests and their answers: up to the first greeting everything is refused, and the greeting
-- answers an "initialize" with the daemon's version.
abbrev pub GreetsFirst : List Request → List Routed → Type 0
GreetsFirst (req ∷ reqs) (refused refusal ∷ answers) = GreetsFirst reqs answers
GreetsFirst (req ∷ reqs) (greeted ∷ answers) = Greets req
GreetsFirst (req ∷ reqs) (runs method ∷ answers) = ⊥
GreetsFirst (req ∷ reqs) [] = ⊥
GreetsFirst [] answers = answers ≡ []

greeting-Allowed :
    (client : WsClient) (req : Request)
    → Allowed client.scope (initialize client req).0
      × ((initialize client req).1.scope ≡ client.scope)
unfolding initialize
greeting-Allowed client req = elim (Bool-cases req.decodes) [
  | inr torn ↦ rw torn (tt, refl)
  | inl read ↦ elim (Bool-cases (str_eq req.version "0.1")) [
    | inl same ↦ rw (read, same) (tt, refl)
    | inr stale ↦ rw (read, stale) (tt, refl)
  ]
]

handle-Allowed :
    (client : WsClient) (req : Request)
    → Allowed client.scope (handle client req).0 × ((handle client req).1.scope ≡ client.scope)
unfolding handle
handle-Allowed client req =
    elim (Bool-cases (not client.initialized && not (str_eq req.method "initialize"))) [
      | inl early ↦ rw early (tt, refl)
      | inr due ↦ elim (Bool-cases (client_scope_allows client.scope req.method)) [
        | inr denied ↦ rw (due, denied) (tt, refl)
        | inl allowed ↦ elim (Bool-cases (str_eq req.method "initialize")) [
          | inl first ↦ rw (due, allowed, first) (greeting-Allowed client req)
          | inr other ↦ elim (Bool-cases (is_known req.method)) [
            | inl known ↦ rw (due, allowed, other, known) (allowed, refl)
            | inr unknown ↦ rw (due, allowed, other, unknown) (tt, refl)
          ]
        ]
      ]
    ]

-- Before the greeting, a request is refused and changes nothing, or it is the greeting.
handle_before :
    (client : WsClient) (req : Request)
    → client.initialized ≡ false
    → (((refusal : Refusal) × (handle client req ≡ (refused refusal, client))))
      ⊎ (((handle client req).0 ≡ greeted) × Greets req)
unfolding handle initialize
handle_before client req h = elim (Bool-cases (str_eq req.method "initialize")) [
  | inr other ↦ inl (not_first, rw (h, other) refl)
  | inl first ↦ elim (Bool-cases (client_scope_allows client.scope req.method)) [
    | inr denied ↦ inl (out_of_scope client.scope req.method, rw (h, first, denied) refl)
    | inl allowed ↦ elim (Bool-cases req.decodes) [
      | inr torn ↦ inl (undecodable, rw (h, first, allowed, torn) refl)
      | inl read ↦ elim (Bool-cases (str_eq req.version "0.1")) [
        | inl same ↦
            inr (
              rw (h, first, allowed, read, same) refl,
              (str_eq-≡ _ _ first, read, str_eq-≡ _ _ same),
            )
        | inr stale ↦
            inl (version_unsupported req.version, rw (h, first, allowed, read, stale) refl)
      ]
    ]
  ]
]

handle_all-Allowed :
    (client : WsClient) (reqs : List Request) → All (Allowed client.scope) (handle_all client reqs)
unfolding handle_all
handle_all-Allowed client [] = tt
handle_all-Allowed client (req ∷ reqs) =
    let (allowed, same) = handle-Allowed client req in
    (
      allowed,
      subst (λ scope. All (Allowed scope) (handle_all (handle client req).1 reqs)) same
          (handle_all-Allowed (handle client req).1 reqs),
    )

handle_all-GreetsFirst :
    (client : WsClient) (reqs : List Request)
    → client.initialized ≡ false
    → GreetsFirst reqs (handle_all client reqs)
unfolding handle_all
handle_all-GreetsFirst client [] h = refl
handle_all-GreetsFirst client (req ∷ reqs) h = elim (handle_before client req h) [
  | inl (refusal, e) ↦ rw e (handle_all-GreetsFirst client reqs h)
  | inr (e, greets) ↦ rw e greets
]

-- Whatever requests a new connection sends, only methods that its token's scope allows run; and up to
-- the first that is answered with the greeting, an "initialize" whose parameters decode and name
-- version "0.1" of the protocol, every request is refused.
pub handle_all-GreetsFirst-Allowed :
    (client : WsClient) (reqs : List Request)
    → client.initialized ≡ false
    → GreetsFirst reqs (handle_all client reqs)
      × All (Allowed client.scope) (handle_all client reqs)
handle_all-GreetsFirst-Allowed client reqs h =
    (handle_all-GreetsFirst client reqs h, handle_all-Allowed client reqs)

abbrev every : (String → Bool) → List String → Bool
every p [] = true
every p (word ∷ words) = p word && every p words

one_of-every :
    (p : String → Bool) (word : String) (words : List String)
    → every p words ≡ true
    → one_of word words ≡ true
    → p word ≡ true
one_of-every p word [] all h = absurd (ground (arith, h))
one_of-every p word (w ∷ words) all h = elim (Bool-cases (str_eq word w)) [
  | inl same ↦ subst (λ v. p v ≡ true) (sym (str_eq-≡ word w same)) (ground (arith, all))
  | inr other ↦ one_of-every p word words (ground (arith, all)) (ground (arith, other, h))
]

abbrev pub control_methods : List String
control_methods =
    "session/create" ∷ "session/fork" ∷ "session/rollback" ∷ "session/close" ∷ "repair/run"
    ∷ "task/send" ∷ "task/steer" ∷ "task/cancel" ∷ "task/review" ∷ "task/reviewMulti"
    ∷ "approval/reply" ∷ []

not-true : (b : Bool) → not b ≡ true → b ≡ false
not-true true h = absurd (ground (arith, h))
not-true false h = refl

abbrev pub implies : Bool → Bool → Bool
implies a b = if a then b else true

abbrev pub Ordered : String → Type 0
Ordered method =
    (implies (client_scope_allows "probe:read" method) (client_scope_allows "console:read" method)
      ≡ true)
    × ((implies (client_scope_allows "console:read" method) (client_scope_allows "console" method)
          ≡ true)
        × ((implies (client_scope_allows "console" method) (client_scope_allows "full" method)
              ≡ true)
            × ((one_of method control_methods && client_scope_allows "probe:read" method) ≡ false)
            × ((one_of method control_methods && client_scope_allows "console:read" method)
                ≡ false)))

implies_intro : (a b : Bool) → (a ≡ true → b ≡ true) → implies a b ≡ true
implies_intro true b h = h refl
implies_intro false b h = refl

excludes : (a b : Bool) → (a ≡ true → not b ≡ true) → (a && b) ≡ false
excludes true b h = not-true b (h refl)
excludes false b h = refl

-- Whether a method of the first list is one of the second, or outside it.
listed :
    (p : String → Bool) (method : String) (words : List String)
    → every p words ≡ true
    → implies (one_of method words) (p method) ≡ true
listed p method words h = implies_intro _ _ (one_of-every p method words h)

outside :
    (p : String → Bool) (method : String) (words : List String)
    → every (λ w. not (p w)) words ≡ true
    → (one_of method words && p method) ≡ false
outside p method words h = excludes _ _ (one_of-every (λ w. not (p w)) method words h)

-- The scopes are ordered: what "probe:read" allows "console:read" allows, what that allows "console"
-- allows, and what that allows "full" allows; neither read scope allows a method that controls
-- sessions, tasks, approvals or repairs.
pub client_scope_allows-Ordered : (method : String) → Ordered method
unfolding client_scope_allows
client_scope_allows-Ordered method = (
  listed (λ w. one_of w console_read_methods) method probe_methods refl,
  (
    listed (λ w. one_of w console_methods) method console_read_methods refl,
    (
      implies_intro _ true (λ h. refl),
      outside (λ w. one_of w probe_methods) method control_methods refl,
      outside (λ w. one_of w console_read_methods) method control_methods refl,
    ),
  ),
)
