-- ===== src/SecretSink/Claims.antt =====
-- Taking the claim of src/utils/secret-sink.ts keeps what holds of its files.
use b2_mcp.Base.{
  Bool, Bool-cases, Option, String, arith, false, inl, inr, is_some, none, refl, some, str_eq,
  str_eq_refl, sym, ◌∙◌, ◌≡◌, ◌≢◌,
}
use b2_mcp.Json.{Json}
use b2_mcp.SecretSink.Records.{
  DurableSecretIdempotency, Search, SecretLedgerRecord, StoredIdempotency, absent, committed_match,
  conflict, existing, read_committed_idempotency_record, same_request,
}
use b2_mcp.SecretSink.Phases.{
  Choice, Files, LockFile, Phase, after_lock_check, after_pending, answer, claim_of, creating,
  finished, leave_lock, lock_fails, locking, ok, raced_committed, rechecking_ledger, releasing,
  sees, sink_error, throws, try_lock, unreadable,
}
use b2_mcp.SecretSink.Operation.{
  committed_search, lock, look, recheck_committed, recheck_ledger, search_ledger,
}
use b2_mcp.SecretSink.Once.{
  IsCovered, IsHeld, IsOwn, IsSound, IsStep, Relies, is_holder, look-IsStep,
}

pub answer_free :
    (next : Phase) (s : Search)
    → is_holder next ≡ false
    → is_holder (answer finished next s) ≡ false
answer_free next absent h = h
answer_free next conflict h = refl
answer_free next (existing r) h = refl

pub after_pending_free :
    (i : DurableSecretIdempotency) (o : Option LockFile) (next : Phase)
    → is_holder next ≡ false
    → is_holder (after_pending i o next) ≡ false
after_pending_free i none next h = h
after_pending_free i (some unreadable) next h = h
after_pending_free i (some (claim_of c)) next h = ground (arith, str_eq c.fingerprint i.fingerprint)

pub after_lock_check_free : (o : Option LockFile) → is_holder (after_lock_check o) ≡ false
after_lock_check_free none = refl
after_lock_check_free (some l) = refl

module _ (sink_path tool claim : String) (sanitize_output : Json → Json)
    (i : DurableSecretIdempotency) (claimed : i.claim_fingerprint ≡ claim) where
  pub look_free :
      (p q : Phase) (f : Files) (c : Choice)
      → is_holder p ≡ false
      → is_holder q ≡ false
      → is_holder (look sink_path tool sanitize_output p c q) ≡ false
  look_free p q f ok h k = k
  look_free p q f throws h k = refl
  look_free p q f _ h k = h

  pub search_free :
      (p q : Phase) (f : Files) (c : Choice)
      → is_holder p ≡ false
      → is_holder q ≡ false
      → is_holder (search_ledger sink_path tool sanitize_output i f p c q) ≡ false
  search_free p q f (sees n) h k = answer_free q _ k
  search_free p q f throws h k = refl
  search_free p q f _ h k = h

  take_lock :
      (f : Files) (o : Option LockFile)
      → IsSound tool claim f
      → f.pending ≡ o
      → IsStep tool claim locking f (try_lock i f o)
  take_lock f none sound e = record {
    sound = record { once = sound.once; covered = λ h. cc; own = sound.own };
    relies = (refl, sound.covered (rw e refl));
    polite = inr (inr (rw e refl));
  }
  take_lock f (some l) sound e = look-IsStep tool claim locking raced_committed f sound refl

  fail_lock :
      (f : Files) (left : Bool) (o : Option LockFile)
      → IsSound tool claim f
      → f.pending ≡ o
      → IsStep tool claim locking f (leave_lock left f o)
  fail_lock f left none sound e = record {
    sound = record { once = sound.once; covered = λ h. sound.covered (rw e refl); own = sound.own };
    relies = tt;
    polite = inr (inr (rw e refl));
  }
  fail_lock f left (some l) sound e = look-IsStep tool claim locking raced_committed f sound refl

  pub lock-IsStep :
      (f : Files) (c : Choice)
      → IsSound tool claim f
      → IsStep tool claim locking f (lock sink_path tool sanitize_output i f c)
  lock-IsStep f ok sound = take_lock f f.pending sound refl
  lock-IsStep f (lock_fails left) sound = fail_lock f left f.pending sound refl
  lock-IsStep f throws sound = look-IsStep tool claim locking (finished sink_error) f sound refl
  lock-IsStep f _ sound = look-IsStep tool claim locking locking f sound refl

  same_request_found :
      (s : StoredIdempotency) (r : SecretLedgerRecord) → same_request sink_path i s r ≢ absent
  same_request_found s r e = elim (Bool-cases (str_eq s.fingerprint i.fingerprint)) [
    | inl same ↦ ground (arith, same, e)
    | inr other ↦ ground (arith, other, e)
  ]

  -- A committed record of the claim is found.
  own_found :
      (o : Option SecretLedgerRecord)
      → IsOwn tool claim o
      → read_committed_idempotency_record sink_path tool i o ≡ absent
      → is_some o ≡ false
  unfolding read_committed_idempotency_record
  own_found none h e = refl
  own_found (some r) (same_tool, s, stored_as, same_claim) e =
      absurd (same_request_found s r (sym matched ∙ e))
    where
      matched : committed_match sink_path tool i r r.idempotency ≡ same_request sink_path i s r
      matched = rw (stored_as, same_tool, str_eq_refl tool, same_claim, claimed, str_eq_refl claim)

  none_minted : (f : Files) → IsCovered f → is_some f.committed ≡ false → f.minted ≡ 0
  none_minted f (inl none_yet) h = none_yet
  none_minted f (inr found) h = cc

  pub recheck_committed_step :
      (f : Files) (c : Choice)
      → IsSound tool claim f
      → IsHeld tool claim f
      → IsCovered f
      → Relies tool claim (recheck_committed sink_path tool sanitize_output i f c) f
  recheck_committed_step f ok sound held covered = by_search _ refl
    where
      by_search :
          (s : Search)
          → committed_search sink_path tool sanitize_output i f ≡ s
          → Relies tool claim (answer releasing rechecking_ledger s) f
      by_search absent e = (held, none_minted f covered (own_found f.committed sound.own e))
      by_search conflict e = (held, covered)
      by_search (existing r) e = (held, covered)
  recheck_committed_step f throws sound held covered = (held, covered)
  recheck_committed_step f _ sound held covered = (held, covered)

  pub recheck_ledger_step :
      (f : Files) (c : Choice)
      → IsHeld tool claim f
      → f.minted ≡ 0
      → Relies tool claim (recheck_ledger sink_path tool sanitize_output i f c) f
  recheck_ledger_step f (sees n) held none_yet = by_search _
    where
      by_search : (s : Search) → Relies tool claim (answer releasing creating s) f
      by_search absent = (held, none_yet)
      by_search conflict = (held, inl none_yet)
      by_search (existing r) = (held, inl none_yet)
  recheck_ledger_step f throws held none_yet = (held, inl none_yet)
  recheck_ledger_step f _ held none_yet = (held, none_yet)
