-- ===== src/DestructiveGate/Confirm.antt =====
-- What the calling model's own `confirm` argument can change at the gate of
-- src/utils/destructive-gate.ts.
use b2_mcp.Base.{
  All, Bool-cases, List, Option, String, [], false, inl, inr, lookup, none, refl, some, str_eq, ◌∙◌,
  ◌∷◌, ◌≡◌, ◌≢◌,
}
use b2_mcp.Json.{Fields, Json, delete_field-set_field, get, get-set_field, set_field}
use b2_mcp.DestructiveGate.Detectors.{
  Detector, always, apply, destructive_effect, detectors, put_bucket_lifecycle, update_bucket,
  update_file_retention,
}
use b2_mcp.DestructiveGate.Digest.{B2Config, destructive_target_digest}
use b2_mcp.DestructiveGate.Check.{
  DestructiveConsent, DestructivePolicy, allow, block, check_destructive, check_effect, confirm,
  elicit, get_destructive_policy,
}

abbrev pub with_confirm : Json → Fields → Fields
with_confirm v args = set_field "confirm" v args

-- A detector that gives the same whatever `confirm` says.
abbrev Ignores : Detector → Type 0
Ignores d = (v : Json) (args : Fields) → d (with_confirm v args) ≡ d args

get-with_confirm :
    (k : String) (v : Json) (args : Fields)
    → str_eq "confirm" k ≡ false
    → get k (with_confirm v args) ≡ get k args
get-with_confirm k v args other = get-set_field k "confirm" v args ∙ rw other

always-Ignores : (effect : String) → Ignores (always effect)
always-Ignores effect v args = refl

update_file_retention-Ignores : Ignores update_file_retention
update_file_retention-Ignores v args =
    rw (
      get-with_confirm "fileRetention" v args refl,
      get-with_confirm "bypassGovernance" v args refl,
    )

put_bucket_lifecycle-Ignores : Ignores put_bucket_lifecycle
put_bucket_lifecycle-Ignores v args = rw (get-with_confirm "rules" v args refl)

update_bucket-Ignores : Ignores update_bucket
update_bucket-Ignores v args = rw (
  get-with_confirm "bucketType" v args refl,
  get-with_confirm "fileLockEnabled" v args refl,
  get-with_confirm "defaultRetention" v args refl,
  get-with_confirm "lifecycleRules" v args refl,
  get-with_confirm "replicationConfiguration" v args refl,
)

-- The detectors stand in the order of the source.
All-ignore : All (λ d. Ignores d.1) detectors
All-ignore = (
  always-Ignores _,
  (
    always-Ignores _,
    (
      λ v args. rw (get-with_confirm "bypassGovernance" v args refl),
      (
        λ v args. rw (get-with_confirm "operation" v args refl),
        (
          always-Ignores _,
          (
            always-Ignores _,
            (
              always-Ignores _,
              (
                always-Ignores _,
                (
                  always-Ignores _,
                  (
                    always-Ignores _,
                    (
                      update_file_retention-Ignores,
                      (
                        λ v args. rw (get-with_confirm "legalHold" v args refl),
                        (
                          put_bucket_lifecycle-Ignores,
                          (update_bucket-Ignores, (always-Ignores _, tt)),
                        ),
                      ),
                    ),
                  ),
                ),
              ),
            ),
          ),
        ),
      ),
    ),
  ),
)

lookup-All :
    (tool : String) (ds : List (String × Detector)) (v : Json) (args : Fields)
    → All (λ d. Ignores d.1) ds
    → apply (lookup tool ds) (with_confirm v args) ≡ apply (lookup tool ds) args
lookup-All tool [] v args h = refl
lookup-All tool ((k, d) ∷ ds) v args (i, h) = elim (Bool-cases (str_eq k tool)) [
  | inl same ↦ rw same (i v args)
  | inr other ↦ rw other (lookup-All tool ds v args h)
]

pub destructive_effect-confirm :
    (tool : String) (v : Json) (args : Fields)
    → destructive_effect tool (with_confirm v args) ≡ destructive_effect tool args
unfolding destructive_effect
destructive_effect-confirm tool v args = lookup-All tool detectors v args All-ignore

module _ (stringify : Json → String) (hmac : String → String → String) (nul : String) where
  digest-confirm :
      (c : B2Config) (v : Json) (args : Fields)
      → destructive_target_digest stringify hmac nul c (with_confirm v args)
        ≡ destructive_target_digest stringify hmac nul c args
  unfolding destructive_target_digest
  digest-confirm c v args = rw (delete_field-set_field "confirm" v args)

  module _ (consent : Option DestructiveConsent) where
    -- The calling model cannot talk its way through the gate: unless the policy is `confirm`, the
    -- decision, its message included, is the same whatever the `confirm` argument says; nor does
    -- that argument move the digest that an approval is bound to.
    pub check_destructive-confirm :
        (tool : String) (args : Fields) (c : B2Config) (v : Json)
        → get_destructive_policy c ≢ confirm
        → (check_destructive
              (destructive_target_digest stringify hmac nul)
              consent
              tool
              (with_confirm v args)
              c
            ≡ check_destructive (destructive_target_digest stringify hmac nul) consent tool args c)
          × (destructive_target_digest stringify hmac nul c (with_confirm v args)
              ≡ destructive_target_digest stringify hmac nul c args)
    unfolding check_destructive
    check_destructive-confirm tool args c v other = (
      rw (destructive_effect-confirm tool v args)
          (by_effect (get_destructive_policy c) (destructive_effect tool args) refl),
      digest-confirm c v args,
    )
      where
        digest : B2Config → Fields → String
        digest = destructive_target_digest stringify hmac nul

        by_effect :
            (p : DestructivePolicy) (o : Option String)
            → get_destructive_policy c ≡ p
            → check_effect digest consent tool (with_confirm v args) c o
              ≡ check_effect digest consent tool args c o
        by_effect p none e = refl
        by_effect confirm (some effect) e = absurd (other e)
        by_effect elicit (some effect) e = rw (e, digest-confirm c v args)
        by_effect allow (some effect) e = rw e
        by_effect block (some effect) e = rw e
