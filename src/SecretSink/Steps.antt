-- ===== src/SecretSink/Steps.antt =====
-- Each step after the claim of src/utils/secret-sink.ts keeps what holds of its files.
use b2_mcp.Base.{
  Bool, String, arith, false, if◌then◌else◌, inl, inr, kept, none, refl, some, suc, true, ℕ, ◌∷◌,
  ◌≡◌, ◌≤◌,
}
use b2_mcp.Json.{Json}
use b2_mcp.SecretSink.Records.{
  DurableSecretIdempotency, SecretSinkPointer, secret_ledger_record, stored,
}
use b2_mcp.SecretSink.Phases.{
  AppendOutcome, Choice, Files, Outcome, add, append_outcome, appended, appending, appends,
  commit_ambiguous, create_error_has_known_provider_rejection, creates, creates_unusable, creating,
  drop_one, fails, finished, in_place, indexes, indexing, not_appended, ok, projection_failed,
  provider_error, recovering, recovers, recovery_cleared_provider_side_effect, releasing,
  replay_unavailable, returned, throws, unconfirmed, write_failed,
}
use b2_mcp.SecretSink.Operation.{
  append_index, append_record, appended_as, create, index_record, indexed, ledger_record, recover,
  release,
}
use b2_mcp.SecretSink.Once.{IsCovered, IsHeld, IsOwn, IsSound, IsStep, Relies, hold-IsStep}

-- What the provider is relied on for: a call that it rejects has made nothing, and what recovery
-- reports as deleted is gone.
abbrev pub IsHonest : Choice → Type 0
IsHonest (fails e made) = create_error_has_known_provider_rejection e ≡ true → made ≡ false
IsHonest (recovers status gone) = recovery_cleared_provider_side_effect status ≡ true → gone ≡ true
IsHonest _ = Unit

module _ (sink_path tool claim : String) (sanitize_output : Json → Json)
    (i : DurableSecretIdempotency) (claimed : i.claim_fingerprint ≡ claim) where
  with_minted :
      (f : Files) (n : ℕ)
      → IsSound tool claim f
      → IsHeld tool claim f
      → n ≤ 1
      → IsSound tool claim (record f { minted = n })
  with_minted f n sound held few = record {
    once = few;
    covered = λ h. cc (held, h);
    own = sound.own;
  }

  pub create-IsStep :
      (f : Files) (c : Choice)
      → IsHonest c
      → IsSound tool claim f
      → IsHeld tool claim f
      → f.minted ≡ 0
      → IsStep tool claim creating f (create sink_path tool sanitize_output f c)
  create-IsStep f (creates result projects) honest sound held none_yet =
      hold-IsStep tool claim creating _ f (record f { minted = suc f.minted }) refl
        (with_minted f (suc f.minted) sound held (omega (arith, none_yet))) (by_projection projects)
    where
      by_projection :
          (b : Bool)
          → Relies tool claim
              (if b then appending result else recovering projection_failed)
              (record f { minted = suc f.minted })
      by_projection true = held
      by_projection false = held
  create-IsStep f creates_unusable honest sound held none_yet =
      hold-IsStep tool claim creating _ f (record f { minted = suc f.minted }) refl
        (with_minted f (suc f.minted) sound held (omega (arith, none_yet))) held
  create-IsStep f (fails e made) honest sound held none_yet =
      hold-IsStep tool claim creating _ f (record f { minted = add f.minted made }) refl
        (with_minted f (add f.minted made) sound held (added made))
        (by_rejection (create_error_has_known_provider_rejection e) refl)
    where
      added : (b : Bool) → add f.minted b ≤ 1
      added true = omega (arith, none_yet)
      added false = omega (arith, none_yet)

      by_rejection :
          (b : Bool)
          → create_error_has_known_provider_rejection e ≡ b
          → Relies tool claim
              (if b then releasing (provider_error e) else finished (provider_error e))
              (record f { minted = add f.minted made })
      by_rejection true rejected = (held, inl (rw (honest rejected) none_yet))
      by_rejection false unclear = tt
  create-IsStep f _ honest sound held none_yet =
      hold-IsStep tool claim creating creating f f refl sound (held, none_yet)

  appended-IsStep :
      (result : Json) (f : Files) (id : String) (kept : Bool) (o : AppendOutcome)
      → IsSound tool claim f
      → IsHeld tool claim f
      → IsStep tool claim
          (appending result)
          f
          (appended_as sink_path tool sanitize_output i result f id kept o)
  appended-IsStep result f id kept appended sound held =
      hold-IsStep tool claim (appending result) _ f
        (record f { ledger = ledger_record sink_path tool sanitize_output i id result ∷ f.ledger })
        refl (record { once = sound.once; covered = sound.covered; own = sound.own }) held
  appended-IsStep result f id kept not_appended sound held =
      hold-IsStep tool claim (appending result) (recovering write_failed) f f refl sound held
  appended-IsStep result f id kept unconfirmed sound held =
      hold-IsStep tool claim (appending result) (finished commit_ambiguous) f
        (record f {
          ledger =
              if kept
              then ledger_record sink_path tool sanitize_output i id result ∷ f.ledger
              else f.ledger;
        })
        refl (record { once = sound.once; covered = sound.covered; own = sound.own }) tt

  pub append_record-IsStep :
      (result : Json) (f : Files) (c : Choice)
      → IsSound tool claim f
      → IsHeld tool claim f
      → IsStep tool claim
          (appending result)
          f
          (append_record sink_path tool sanitize_output i result f c)
  append_record-IsStep result f (appends id r kept) sound held =
      appended-IsStep result f id kept (append_outcome r) sound held
  append_record-IsStep result f _ sound held =
      hold-IsStep tool claim (appending result) (appending result) f f refl sound held

  index_record-IsOwn :
      (p : SecretSinkPointer) (result : Json)
      → IsOwn tool claim (some (index_record sink_path tool sanitize_output i p result))
  unfolding secret_ledger_record
  index_record-IsOwn p result = (refl, stored i, refl, rw claimed refl)

  indexed-IsStep :
      (p : SecretSinkPointer) (result : Json) (f : Files) (there done : Bool)
      → IsSound tool claim f
      → IsHeld tool claim f
      → IsStep tool claim
          (indexing p result)
          f
          (indexed sink_path tool sanitize_output i p result f there done)
  indexed-IsStep p result f true true sound held =
      hold-IsStep tool claim (indexing p result) (releasing (returned p result)) f
        (record f { committed = some (index_record sink_path tool sanitize_output i p result) })
        refl
        (record { once = sound.once; covered = λ h. inr refl; own = index_record-IsOwn p result })
        (held, inr refl)
  indexed-IsStep p result f true false sound held =
      hold-IsStep tool claim (indexing p result) (finished replay_unavailable) f
        (record f { committed = some (index_record sink_path tool sanitize_output i p result) })
        refl
        (record { once = sound.once; covered = λ h. inr refl; own = index_record-IsOwn p result })
        tt
  indexed-IsStep p result f false done sound held =
      hold-IsStep tool claim (indexing p result) (finished replay_unavailable) f f refl sound tt

  pub append_index-IsStep :
      (p : SecretSinkPointer) (result : Json) (f : Files) (c : Choice)
      → IsSound tool claim f
      → IsHeld tool claim f
      → IsStep tool claim
          (indexing p result)
          f
          (append_index sink_path tool sanitize_output i p result f c)
  append_index-IsStep p result f (indexes r) sound held =
      indexed-IsStep p result f (in_place r) r.synced sound held
  append_index-IsStep p result f _ sound held =
      hold-IsStep tool claim (indexing p result) (indexing p result) f f refl sound held

  pub recover-IsStep :
      (o : Outcome) (f : Files) (c : Choice)
      → IsHonest c
      → IsSound tool claim f
      → IsHeld tool claim f
      → IsStep tool claim (recovering o) f (recover sink_path tool sanitize_output o f c)
  recover-IsStep o f (recovers status gone) honest sound held =
      hold-IsStep tool claim (recovering o) _ f (record f { minted = drop_one f.minted gone }) refl
        (with_minted f (drop_one f.minted gone) sound held (dropped gone))
        (by_status (recovery_cleared_provider_side_effect status) refl)
    where
      dropped : (b : Bool) → drop_one f.minted b ≤ 1
      dropped true = omega (arith, sound.once)
      dropped false = sound.once

      by_status :
          (b : Bool)
          → recovery_cleared_provider_side_effect status ≡ b
          → Relies tool claim
              (if b then releasing o else finished o)
              (record f { minted = drop_one f.minted gone })
      by_status true cleared = (held, inl (rw (honest cleared) (omega (arith, sound.once))))
      by_status false unclear = tt
  recover-IsStep o f _ honest sound held =
      hold-IsStep tool claim (recovering o) (recovering o) f f refl sound held

  pub release-IsStep :
      (o : Outcome) (f : Files) (c : Choice)
      → IsSound tool claim f
      → IsHeld tool claim f
      → IsCovered f
      → IsStep tool claim (releasing o) f (release sink_path tool sanitize_output o f c)
  release-IsStep o f ok sound held covered =
      hold-IsStep tool claim (releasing o) (finished o) f (record f { pending = none }) refl
        (record { once = sound.once; covered = λ h. covered; own = sound.own }) tt
  release-IsStep o f throws sound held covered =
      hold-IsStep tool claim (releasing o) (finished o) f f refl sound tt
  release-IsStep o f _ sound held covered =
      hold-IsStep tool claim (releasing o) (releasing o) f f refl sound (held, covered)
