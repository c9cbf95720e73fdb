-- ===== src/SecretSink/Minted.antt =====
-- However the processes of src/utils/secret-sink.ts interleave, an idempotency key has one credential
-- at most.
use b2_mcp.Base.{
  ==_iff, All, Bool, Bool-cases, List, String, [], false, inl, inr, refl, subst, sym, true, ℕ, ◌==◌,
  ◌∙◌, ◌∷◌, ◌≡◌,
}
use b2_mcp.Json.{Json}
use b2_mcp.SecretSink.Records.{DurableSecretIdempotency, SecretLedgerRecord}
use b2_mcp.SecretSink.Phases.{
  Choice, Files, Phase, appending, checking_lock, creating, finished, indexing, locking,
  pending_claim, raced_committed, raced_ledger, raced_pending, reading_pending,
  rechecking_committed, rechecking_ledger, recovering, releasing, searching_committed,
  searching_ledger, starting,
}
use b2_mcp.SecretSink.Operation.{
  Event, World, acts, advance, begin, moved, others_append, run, step,
}
use b2_mcp.SecretSink.Once.{
  IsPolite, IsSound, IsStep, Relies, free-Relies, holder-IsHeld, hold-IsStep, is_holder,
  look-IsStep,
}
use b2_mcp.SecretSink.Claims.{
  after_lock_check_free, after_pending_free, answer_free, lock-IsStep, look_free,
  recheck_committed_step, recheck_ledger_step, search_free,
}
use b2_mcp.SecretSink.Steps.{
  IsHonest, append_index-IsStep, append_record-IsStep, create-IsStep, recover-IsStep,
  release-IsStep,
}

not_true : (b : Bool) → (b ≡ true → ⊥) → b ≡ false
not_true true h = absurd (h refl)
not_true false h = refl

module _ (sink_path tool claim : String) (sanitize_output : Json → Json) where
  advance-IsStep :
      (i : DurableSecretIdempotency) (f : Files) (p : Phase) (c : Choice)
      → i.claim_fingerprint ≡ claim
      → IsHonest c
      → IsSound tool claim f
      → Relies tool claim p f
      → IsStep tool claim p f (advance sink_path tool sanitize_output i f p c)
  unfolding advance
  advance-IsStep i f starting c claimed honest sound r = look-IsStep tool claim starting _ f sound (
      look_free sink_path tool claim sanitize_output i claimed starting _ f c refl
        (answer_free reading_pending _ refl))
  advance-IsStep i f reading_pending c claimed honest sound r =
      look-IsStep tool claim reading_pending _ f sound (
        look_free sink_path tool claim sanitize_output i claimed reading_pending _ f c refl
          (after_pending_free i f.pending checking_lock refl))
  advance-IsStep i f checking_lock c claimed honest sound r =
      look-IsStep tool claim checking_lock _ f sound (
        look_free sink_path tool claim sanitize_output i claimed checking_lock _ f c refl
          (after_lock_check_free f.pending))
  advance-IsStep i f searching_committed c claimed honest sound r =
      look-IsStep tool claim searching_committed _ f sound (
        look_free sink_path tool claim sanitize_output i claimed searching_committed _ f c refl
          (answer_free searching_ledger _ refl))
  advance-IsStep i f searching_ledger c claimed honest sound r =
      look-IsStep tool claim searching_ledger _ f sound (
        search_free sink_path tool claim sanitize_output i claimed searching_ledger locking f c refl
          refl)
  advance-IsStep i f locking c claimed honest sound r =
      lock-IsStep sink_path tool claim sanitize_output i claimed f c sound
  advance-IsStep i f raced_committed c claimed honest sound r =
      look-IsStep tool claim raced_committed _ f sound (
        look_free sink_path tool claim sanitize_output i claimed raced_committed _ f c refl
          (answer_free raced_ledger _ refl))
  advance-IsStep i f raced_ledger c claimed honest sound r =
      look-IsStep tool claim raced_ledger _ f sound (
        search_free sink_path tool claim sanitize_output i claimed raced_ledger raced_pending f c
          refl refl)
  advance-IsStep i f raced_pending c claimed honest sound r =
      look-IsStep tool claim raced_pending _ f sound (
        look_free sink_path tool claim sanitize_output i claimed raced_pending _ f c refl
          (after_pending_free i f.pending (finished pending_claim) refl))
  advance-IsStep i f rechecking_committed c claimed honest sound (held, covered) =
      hold-IsStep tool claim rechecking_committed _ f f refl sound (
        recheck_committed_step sink_path tool claim sanitize_output i claimed f c sound held
          covered)
  advance-IsStep i f rechecking_ledger c claimed honest sound (held, none_yet) =
      hold-IsStep tool claim rechecking_ledger _ f f refl sound
        (recheck_ledger_step sink_path tool claim sanitize_output i claimed f c held none_yet)
  advance-IsStep i f creating c claimed honest sound (held, none_yet) =
      create-IsStep sink_path tool claim sanitize_output i claimed f c honest sound held none_yet
  advance-IsStep i f (appending result) c claimed honest sound held =
      append_record-IsStep sink_path tool claim sanitize_output i claimed result f c sound held
  advance-IsStep i f (indexing q result) c claimed honest sound held =
      append_index-IsStep sink_path tool claim sanitize_output i claimed q result f c sound held
  advance-IsStep i f (recovering o) c claimed honest sound held =
      recover-IsStep sink_path tool claim sanitize_output i claimed o f c honest sound held
  advance-IsStep i f (releasing o) c claimed honest sound (held, covered) =
      release-IsStep sink_path tool claim sanitize_output i claimed o f c sound held covered
  advance-IsStep i f (finished o) c claimed honest sound r =
      look-IsStep tool claim (finished o) (finished o) f sound refl

  -- What holds between two steps.
  pub record IsWorld (w : World sink_path tool sanitize_output) : Type 0 where
    pub sound : IsSound tool claim w.files
    pub relies : (n : ℕ) → Relies tool claim ((w.processes n).phase) w.files
    pub alone :
        (n m : ℕ)
        → is_holder ((w.processes n).phase) ≡ true
        → is_holder ((w.processes m).phase) ≡ true
        → n ≡ m
    pub claimed : (n : ℕ) → (w.processes n).request.claim_fingerprint ≡ claim

  -- Another process still has what it relies on, and does not hold the claim beside the one that
  -- moved.
  others :
      (p q r : Phase) (f g : Files)
      → IsPolite tool claim p f g q
      → (is_holder p ≡ true → is_holder r ≡ true → ⊥)
      → Relies tool claim r f
      → Relies tool claim r g × (is_holder q ≡ true → is_holder r ≡ true → ⊥)
  others p q r f g (inl held) apart h =
      (free-Relies tool claim r g (not_true (is_holder r) (apart held)), λ k l. apart held l)
  others p q r f g (inr (inl (same, free))) apart h =
      (subst (Relies tool claim r) (sym same) h, λ k l. cc)
  others p q r f g (inr (inr nobody)) apart h =
      let free = not_true (is_holder r) (λ l. cc (holder-IsHeld tool claim r f l h, nobody)) in
      (free-Relies tool claim r g free, λ k l. cc)

  -- The ledger is nothing that a process relies on.
  ledger-Relies :
      (p : Phase) (f : Files) (lines : List SecretLedgerRecord)
      → Relies tool claim p f
      → Relies tool claim p (record f { ledger = lines })
  ledger-Relies rechecking_committed f lines h = h
  ledger-Relies rechecking_ledger f lines h = h
  ledger-Relies creating f lines h = h
  ledger-Relies (appending result) f lines h = h
  ledger-Relies (indexing q result) f lines h = h
  ledger-Relies (recovering o) f lines h = h
  ledger-Relies (releasing o) f lines h = h
  ledger-Relies _ f lines h = tt

  phase_of : World sink_path tool sanitize_output → ℕ → Phase
  phase_of w n = (w.processes n).phase

  acts_IsStep :
      (w : World sink_path tool sanitize_output) (n : ℕ) (c : Choice)
      → IsHonest c
      → IsWorld w
      → IsStep tool claim ((w.processes n).phase) w.files (
          advance sink_path tool sanitize_output
            ((w.processes n).request)
            w.files
            ((w.processes n).phase)
            c)
  acts_IsStep w n c honest h =
      advance-IsStep ((w.processes n).request) w.files ((w.processes n).phase) c (h.claimed n)
        honest h.sound (h.relies n)

  -- What another process has after a step of process `n`.
  bystander :
      (w : World sink_path tool sanitize_output) (n m : ℕ) (result : Files × Phase)
      → IsWorld w
      → IsStep tool claim ((w.processes n).phase) w.files result
      → (m == n) ≡ false
      → Relies tool claim ((w.processes m).phase) (result.0)
        × (is_holder (result.1) ≡ true → is_holder ((w.processes m).phase) ≡ true → ⊥)
  bystander w n m result h s other =
      others ((w.processes n).phase) (result.1) ((w.processes m).phase) w.files (result.0) s.polite
        (λ k l. cc (other, (==_iff m n).1 (sym (h.alone n m k l)))) (h.relies m)

  moved-IsWorld :
      (w : World sink_path tool sanitize_output) (n : ℕ) (result : Files × Phase)
      → IsWorld w
      → IsStep tool claim ((w.processes n).phase) w.files result
      → IsWorld (moved sink_path tool sanitize_output w n result)
  moved-IsWorld w n result h s = record {
    sound = s.sound;
    relies = λ m. elim (Bool-cases (m == n)) [
      | inl same ↦ rw same s.relies
      | inr other ↦ rw other ((bystander w n m result h s other).0)
    ];
    alone = λ m k. elim (Bool-cases (m == n)) [
      | inl a ↦ elim (Bool-cases (k == n)) [
        | inl b ↦ λ x y. (==_iff m n).0 a ∙ sym ((==_iff k n).0 b)
        | inr b ↦ rw (a, b) (λ x y. absurd ((bystander w n k result h s b).1 x y))
      ]
      | inr a ↦ elim (Bool-cases (k == n)) [
        | inl b ↦ rw (a, b) (λ x y. absurd ((bystander w n m result h s a).1 y x))
        | inr b ↦ rw (a, b) (h.alone m k)
      ]
    ];
    claimed = λ m. elim (Bool-cases (m == n)) [
      | inl same ↦ rw same (h.claimed n)
      | inr other ↦ rw other (h.claimed m)
    ];
  }

  -- The surroundings of an event are honest.
  abbrev pub IsHonestEvent : Event sink_path tool sanitize_output → Type 0
  IsHonestEvent (acts n c) = IsHonest c
  IsHonestEvent (others_append r) = Unit

  step-IsWorld :
      (w : World sink_path tool sanitize_output) (e : Event sink_path tool sanitize_output)
      → IsHonestEvent e
      → IsWorld w
      → IsWorld (step sink_path tool sanitize_output w e)
  unfolding step
  step-IsWorld w (acts n c) honest h = moved-IsWorld w n _ h (acts_IsStep w n c honest h)
  step-IsWorld w (others_append r) honest h = record {
    sound = record { once = h.sound.once; covered = h.sound.covered; own = h.sound.own };
    relies = λ m. ledger-Relies ((w.processes m).phase) w.files (r ∷ w.files.ledger) (h.relies m);
    alone = h.alone;
    claimed = h.claimed;
  }

  run-IsWorld :
      (w : World sink_path tool sanitize_output) (es : List (Event sink_path tool sanitize_output))
      → All IsHonestEvent es
      → IsWorld w
      → IsWorld (run sink_path tool sanitize_output w es)
  unfolding run
  run-IsWorld w [] honest h = h
  run-IsWorld w (e ∷ es) (first, honest) h =
      run-IsWorld (step sink_path tool sanitize_output w e) es honest (step-IsWorld w e first h)

  -- However the steps of any number of processes interleave, and wherever some of them stop, an
  -- idempotency key never has more than one credential at the provider. Whenever no claim is
  -- pending, the credential that exists has a committed record, by which it is found again. The
  -- provider makes nothing of a call that it rejects with a 4xx status other than 408, what recovery
  -- reports as deleted is gone, and nobody else removes a pending file.
  pub files-run-IsSound :
      (f : Files) (requests : ℕ → DurableSecretIdempotency)
      (es : List (Event sink_path tool sanitize_output))
      → IsSound tool claim f
      → ((n : ℕ) → (requests n).claim_fingerprint ≡ claim)
      → All IsHonestEvent es
      → IsSound tool claim (
          (run sink_path tool sanitize_output
            (begin sink_path tool sanitize_output f requests)
            es).files)
  files-run-IsSound f requests es sound claimed honest =
      (run-IsWorld (begin sink_path tool sanitize_output f requests) es honest (record {
        sound = sound;
        relies = λ n. tt;
        alone = λ n m k l. cc;
        claimed = claimed;
      })).sound
