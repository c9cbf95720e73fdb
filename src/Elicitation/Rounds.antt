-- ===== src/Elicitation/Rounds.antt =====
-- The two rounds of src/utils/destructive-elicitation.ts: a prompt, and the call that comes back with
-- its state.
use Prim.Native.String
use b2_mcp.Base.{String, [], inl, inr, refl, some, true, ℕ, ◌+◌, ◌∙◌, ◌∷◌, ◌≡◌, ◌≤◌}
use b2_mcp.Json.{Json, str, undefined}
use b2_mcp.DestructiveGate.Check.{
  DestructivePolicy, allow, block, confirm, elicit, get_destructive_policy,
}
use b2_mcp.Elicitation.State.{
  DestructiveElicitationState, RequestStateCodec, max_age_ms, parse-payload, payload, prefixed,
  prefixed-verify, request_state_prefix,
}
use b2_mcp.Elicitation.Client.{McpRequestExtra, mcp_request_state, missing}
use b2_mcp.Elicitation.Decide.{
  Call, Services, answer_of, ask, by_policy, codec_of, digest_of, goes_ahead, input_required,
  maybe_require_destructive_elicitation, mint_destructive_elicitation_state, presented, requested,
  resume,
}
use b2_mcp.Elicitation.Approval.{IsApproved, IsElicited, IsYes}
use b2_mcp.Elicitation.Authority.{Authorises, can_ask, goes_ahead_iff, reaches}
use b2_mcp.DestructiveGate.Detectors.{destructive_effect}

module _ (sv : Services) where
  -- What is signed for a call.
  abbrev pub state_for : Call → String → DestructiveElicitationState
  state_for k effect = record {
    tool_name = k.tool_name;
    effect = effect;
    args_digest = digest_of sv k;
    issued_at = k.now;
  }

  -- The call as it is made again.
  abbrev pub again : Call → McpRequestExtra → ℕ → Call
  again k extra now = record k { extra = extra; now = now }

  mints :
      (k : Call) (effect s : String) (codec : RequestStateCodec)
      → codec_of sv k ≡ prefixed codec
      → codec.mint (payload (state_for k effect)) ≡ some s
      → mint_destructive_elicitation_state sv k effect ≡ some (String.◌++◌ request_state_prefix s)
  unfolding prefixed
  mints k effect s codec coded minted = rw (mint_destructive_elicitation_state, coded, minted) refl

  asks :
      (k : Call) (effect s : String) (codec : RequestStateCodec)
      → codec_of sv k ≡ prefixed codec
      → mcp_request_state k.extra ≡ undefined
      → codec.mint (payload (state_for k effect)) ≡ some s
      → ask sv k effect ≡ (
        input_required (sv.message k.tool_name effect k.args) (String.◌++◌ request_state_prefix s),
        requested ∷ [],
      )
  unfolding prefixed
  asks k effect s codec coded fresh minted = rw (fresh, mints k effect s codec coded minted) refl

  by_policy-asks :
      (k : Call) (effect : String) (p : DestructivePolicy)
      → IsElicited p
      → can_ask sv k ≡ true
      → by_policy sv p k effect ≡ resume sv k effect (answer_of sv k)
  by_policy-asks k effect elicit h able = reaches sv k effect elicit able
  by_policy-asks k effect confirm h able = reaches sv k effect confirm able
  by_policy-asks k effect allow h able = absurd h
  by_policy-asks k effect block h able = absurd h

  presented_text :
      (codec : RequestStateCodec) (v : Json) (s : String) (st : DestructiveElicitationState)
      → v ≡ str s
      → codec.verify s ≡ some (payload st)
      → presented codec v ≡ some st
  presented_text codec v s st e minted = rw (e, minted) (parse-payload st)

  again-IsApproved :
      (k : Call) (effect s : String) (codec : RequestStateCodec) (extra : McpRequestExtra) (now : ℕ)
      → codec_of sv k ≡ prefixed codec
      → codec.mint (payload (state_for k effect)) ≡ some s
      → codec.verify s ≡ some (payload (state_for k effect))
      → now ≤ k.now + max_age_ms
      → mcp_request_state extra ≡ str (String.◌++◌ request_state_prefix s)
      → IsYes (answer_of sv (again k extra now))
      → IsApproved sv (again k extra now) effect
  again-IsApproved k effect s codec extra now coded minted read soon state agreed = (
    (
      state_for k effect,
      presented_text (codec_of sv k) (mcp_request_state extra) (String.◌++◌ request_state_prefix s)
          (state_for k effect) state
          (rw coded (prefixed-verify codec (payload (state_for k effect)) s minted ∙ read)),
      record { fresh = soon; same_tool = refl; same_effect = refl; same_args = refl },
    ),
    agreed,
  )

  authorises :
      (k : Call) (effect : String) (p : DestructivePolicy)
      → IsElicited p
      → can_ask sv k ≡ true
      → IsApproved sv k effect
      → Authorises sv p k effect
  authorises k effect elicit h able given = (able, given)
  authorises k effect confirm h able given = inl (able, given)
  authorises k effect allow h able given = absurd h
  authorises k effect block h able given = absurd h

  -- An approval gets through: if a human can be asked and the policy is `elicit` or `confirm`, a
  -- call without an answer gives a prompt and a state, and the same call with that state and an
  -- accepted and confirmed answer goes ahead for ten minutes, if the SDK's codec verifies what it
  -- has minted.
  pub goes_ahead-again :
      (k : Call) (effect s : String) (codec : RequestStateCodec) (extra : McpRequestExtra) (now : ℕ)
      → destructive_effect k.tool_name k.args ≡ some effect
      → IsElicited (get_destructive_policy k.config)
      → codec_of sv k ≡ prefixed codec
      → codec.mint (payload (state_for k effect)) ≡ some s
      → codec.verify s ≡ some (payload (state_for k effect))
      → can_ask sv k ≡ true
      → answer_of sv k ≡ missing
      → mcp_request_state k.extra ≡ undefined
      → can_ask sv (again k extra now) ≡ true
      → now ≤ k.now + max_age_ms
      → mcp_request_state extra ≡ str (String.◌++◌ request_state_prefix s)
      → IsYes (answer_of sv (again k extra now))
      → (maybe_require_destructive_elicitation sv k ≡ (
        input_required (sv.message k.tool_name effect k.args) (String.◌++◌ request_state_prefix s),
        requested ∷ [],
      ))
        × (goes_ahead sv (again k extra now) ≡ true)
  unfolding maybe_require_destructive_elicitation
  goes_ahead-again k effect s codec extra now found p coded minted read able none_yet fresh
        able_again soon state agreed =
      (
        rw (found, by_policy-asks k effect (get_destructive_policy k.config) p able, none_yet)
            (asks k effect s codec coded fresh minted),
        (goes_ahead_iff sv (again k extra now)).1 (
            inr (
              effect,
              found,
              authorises (again k extra now) effect (get_destructive_policy k.config) p able_again
                  (again-IsApproved k effect s codec extra now coded minted read soon state agreed),
            )),
      )
