-- ===== src/SecretSink/Once.antt =====
-- What holds of the files of a claim in src/utils/secret-sink.ts and of a process at each phase.
use b2_mcp.Base.{
  Bool, Option, String, false, inl, inr, is_some, none, refl, some, true, ◌≡◌, ◌≤◌, ◌⊎◌,
}
use b2_mcp.SecretSink.Records.{SecretLedgerRecord, StoredIdempotency}
use b2_mcp.SecretSink.Phases.{
  Files, Phase, appending, creating, indexing, rechecking_committed, rechecking_ledger, recovering,
  releasing,
}

-- The claim is held: its file is this process's.
abbrev pub is_holder : Phase → Bool
is_holder rechecking_committed = true
is_holder rechecking_ledger = true
is_holder creating = true
is_holder (appending result) = true
is_holder (indexing p result) = true
is_holder (recovering o) = true
is_holder (releasing o) = true
is_holder _ = false

-- A credential that exists can be found by its committed record.
abbrev pub IsCovered : Files → Type 0
IsCovered f = (f.minted ≡ 0) ⊎ (is_some f.committed ≡ true)

module _ (tool claim : String) where
  -- A record that a process of this claim has committed.
  abbrev pub IsOwn : Option SecretLedgerRecord → Type 0
  IsOwn none = Unit
  IsOwn (some r) =
      (r.tool ≡ tool)
      × (s : StoredIdempotency) × (r.idempotency ≡ some s)
      × (s.claim_fingerprint ≡ some claim)

  pub record IsSound (f : Files) : Type 0 where
    pub once : f.minted ≤ 1
    pub covered : is_some f.pending ≡ false → IsCovered f
    pub own : IsOwn f.committed

  abbrev pub IsHeld : Files → Type 0
  IsHeld f = is_some f.pending ≡ true

  -- What a process relies on, phase by phase.
  abbrev pub Relies : Phase → Files → Type 0
  Relies rechecking_committed f = IsHeld f × IsCovered f
  Relies rechecking_ledger f = IsHeld f × (f.minted ≡ 0)
  Relies creating f = IsHeld f × (f.minted ≡ 0)
  Relies (appending result) f = IsHeld f
  Relies (indexing p result) f = IsHeld f
  Relies (recovering o) f = IsHeld f
  Relies (releasing o) f = IsHeld f × IsCovered f
  Relies _ f = Unit

  -- A process that does not hold the claim leaves the files alone, unless it takes the claim while
  -- nobody has it.
  abbrev pub IsPolite : Phase → Files → Files → Phase → Type 0
  IsPolite p f g q =
      (is_holder p ≡ true) ⊎ ((g ≡ f) × (is_holder q ≡ false)) ⊎ (is_some f.pending ≡ false)

  pub record IsStep (p : Phase) (f : Files) (result : Files × Phase) : Type 0 where
    pub sound : IsSound (result.0)
    pub relies : Relies (result.1) (result.0)
    pub polite : IsPolite p f (result.0) (result.1)

  -- A phase in which the claim is not held relies on nothing.
  pub free-Relies : (p : Phase) (f : Files) → is_holder p ≡ false → Relies p f
  free-Relies rechecking_committed f h = cc
  free-Relies rechecking_ledger f h = cc
  free-Relies creating f h = cc
  free-Relies (appending result) f h = cc
  free-Relies (indexing q result) f h = cc
  free-Relies (recovering o) f h = cc
  free-Relies (releasing o) f h = cc
  free-Relies _ f h = tt

  pub holder-IsHeld : (p : Phase) (f : Files) → is_holder p ≡ true → Relies p f → IsHeld f
  holder-IsHeld rechecking_committed f h r = r.0
  holder-IsHeld rechecking_ledger f h r = r.0
  holder-IsHeld creating f h r = r.0
  holder-IsHeld (appending result) f h r = r
  holder-IsHeld (indexing q result) f h r = r
  holder-IsHeld (recovering o) f h r = r
  holder-IsHeld (releasing o) f h r = r.0
  holder-IsHeld _ f h r = cc

  -- Steps that look only, before the claim.
  pub look-IsStep : (p q : Phase) (f : Files) → IsSound f → is_holder q ≡ false → IsStep p f (f, q)
  look-IsStep p q f sound free = record {
    sound = sound;
    relies = free-Relies q f free;
    polite = inr (inl (refl, free));
  }

  -- A process that holds the claim may do as it likes with the files, within their laws.
  pub hold-IsStep :
      (p q : Phase) (f g : Files) → is_holder p ≡ true → IsSound g → Relies q g → IsStep p f (g, q)
  hold-IsStep p q f g held sound relies = record {
    sound = sound;
    relies = relies;
    polite = inl held;
  }
