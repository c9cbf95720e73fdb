-- ===== src/SecretSink/Replay.antt =====
-- What an operation of src/utils/secret-sink.ts leaves for the next one with its idempotency key.
use b2_mcp.Base.{
  ==_iff, Bool, List, String, [], ap, false, if◌then◌else◌, map, none, refl, some, str_eq,
  str_eq_refl, suc, take, true, ℕ, ◌==◌, ◌∙◌, ◌∷◌, ◌≡◌,
}
use b2_mcp.Json.{Json}
use b2_mcp.SecretSink.Records.{
  DurableSecretIdempotency, Search, SecretLedgerRecord, SecretSinkPointer, absent, conflict,
  existing, existing_record_from_index_record, read_committed_idempotency_record,
  read_matching_secret_sink_jsonl_record, secret_ledger_record,
}
use b2_mcp.SecretSink.Phases.{
  Choice, Files, Outcome, Phase, Process, all_appended, all_indexed, answer, append_outcome,
  appends, claim_of, conflicting, creates, creating, finished, indexes, locking, ok,
  reading_pending, releasing, replayed, returned, sees, starting,
}
use b2_mcp.SecretSink.Operation.{
  Event, World, acts, advance, begin, index_record, ledger_record, moved, put, run, step,
}

module _ (sink_path tool : String) (sanitize_output : Json → Json) where
  -- A process by itself.
  unfoldable pub solo : DurableSecretIdempotency → Files × Phase → List Choice → Files × Phase
  unfolding advance
  solo i (f, p) [] = (f, p)
  solo i (f, p) (c ∷ cs) = solo i (advance sink_path tool sanitize_output i f p c) cs

  abbrev pub as_events : ℕ → List Choice → List (Event sink_path tool sanitize_output)
  as_events n cs = map (λ c. acts n c) cs

  record IsSolo (w v : World sink_path tool sanitize_output) (n : ℕ) (result : Files × Phase)
      : Type 0 where
    pub files : v.files ≡ result.0
    pub phase : (v.processes n).phase ≡ result.1
    pub untouched : (m : ℕ) → (m == n) ≡ false → v.processes m ≡ w.processes m

  put_self :
      (n : ℕ) (p : Process) (ps : ℕ → Process) → put sink_path tool sanitize_output n p ps n ≡ p
  put_self n p ps = rw ((==_iff n n).1 refl)

  put_other :
      (n m : ℕ) (p : Process) (ps : ℕ → Process)
      → (m == n) ≡ false
      → put sink_path tool sanitize_output n p ps m ≡ ps m
  put_other n m p ps other = rw other

  moved-IsSolo :
      (w v : World sink_path tool sanitize_output) (n : ℕ) (r result : Files × Phase)
      → IsSolo (moved sink_path tool sanitize_output w n r) v n result
      → IsSolo w v n result
  moved-IsSolo w v n r result h = record {
    files = h.files;
    phase = h.phase;
    untouched = λ m other. h.untouched m other ∙ put_other n m _ w.processes other;
  }

  -- The step that process `n` is about to take.
  abbrev first_step : World sink_path tool sanitize_output → ℕ → Choice → Files × Phase
  first_step w n c =
      advance sink_path tool sanitize_output ((w.processes n).request) w.files
        ((w.processes n).phase) c

  run-IsSolo :
      (w : World sink_path tool sanitize_output) (n : ℕ) (cs : List Choice)
      → IsSolo w
          (run sink_path tool sanitize_output w (as_events n cs))
          n
          (solo ((w.processes n).request) (w.files, (w.processes n).phase) cs)
  unfolding run solo step
  run-IsSolo w n [] = record { files = refl; phase = refl; untouched = λ m h. refl }
  run-IsSolo w n (c ∷ cs) = moved-IsSolo w _ n (first_step w n c) _ (
      rw (put_self n (record (w.processes n) { phase = (first_step w n c).1 }) w.processes) at
        (run-IsSolo (moved sink_path tool sanitize_output w n (first_step w n c)) n cs))

  abbrev pub storing : ℕ → Json → String → List Choice
  storing n result id =
      ok
      ∷ ok
      ∷ ok
      ∷ ok
      ∷ sees n
      ∷ ok
      ∷ ok
      ∷ sees n
      ∷ creates result true
      ∷ appends id all_appended true
      ∷ indexes all_indexed
      ∷ ok
      ∷ []

  abbrev pub unclaimed : List SecretLedgerRecord → ℕ → Files
  unclaimed lines k = record { pending = none; committed = none; ledger = lines; minted = k }

  abbrev pub pointer_to : String → SecretSinkPointer
  pointer_to id = record { path = sink_path; record_id = id }

  solo-storing :
      (i : DurableSecretIdempotency) (lines : List SecretLedgerRecord) (k n : ℕ) (result : Json)
      (id : String)
      → read_matching_secret_sink_jsonl_record sink_path tool i (take n lines) ≡ absent
      → solo i (unclaimed lines k, starting) (storing n result id) ≡ (
        record {
          pending = none;
          committed = some (index_record sink_path tool sanitize_output i (pointer_to id) result);
          ledger = ledger_record sink_path tool sanitize_output i id result ∷ lines;
          minted = suc k;
        },
        finished (returned (pointer_to id) result),
      )
  unfolding solo advance read_committed_idempotency_record append_outcome
  solo-storing i lines k n result id nothing = ap first nothing ∙ ap second nothing
    where
      first : Search → Files × Phase
      first s =
          solo i (unclaimed lines k, answer finished locking s)
            (ok
              ∷ ok
              ∷ sees n
              ∷ creates result true
              ∷ appends id all_appended true
              ∷ indexes all_indexed
              ∷ ok
              ∷ [])

      second : Search → Files × Phase
      second s =
          solo i
            (
              record (unclaimed lines k) { pending = some (claim_of i) },
              answer releasing creating s,
            )
            (creates result true ∷ appends id all_appended true ∷ indexes all_indexed ∷ ok ∷ [])

  -- The answer to a request for what has been stored.
  abbrev pub answer_to :
      DurableSecretIdempotency → DurableSecretIdempotency → Json → String → Outcome
  answer_to i j result id =
      if str_eq i.fingerprint j.fingerprint
      then replayed (record { pointer = pointer_to id; result = sanitize_output result })
      else conflicting

  abbrev stored_files :
      DurableSecretIdempotency → List SecretLedgerRecord → ℕ → Json → String → Files
  stored_files i lines k result id = record {
    pending = none;
    committed = some (index_record sink_path tool sanitize_output i (pointer_to id) result);
    ledger = ledger_record sink_path tool sanitize_output i id result ∷ lines;
    minted = suc k;
  }

  starts :
      (w : World sink_path tool sanitize_output) (j : DurableSecretIdempotency) (f : Files)
      → w.processes 1 ≡ record { request = j; phase = starting }
      → w.files ≡ f
      → (((step sink_path tool sanitize_output w (acts 1 ok)).processes 1).phase
          ≡ answer finished reading_pending
              (read_committed_idempotency_record sink_path tool j f.committed))
        × ((step sink_path tool sanitize_output w (acts 1 ok)).files.minted ≡ f.minted)
  unfolding step advance
  starts w j f e g = (rw (e, g) refl, rw (e, g) refl)

  replays :
      (i j : DurableSecretIdempotency) (result : Json) (id : String)
      → i.claim_fingerprint ≡ j.claim_fingerprint
      → answer finished reading_pending (
          read_committed_idempotency_record sink_path tool j
            (some (index_record sink_path tool sanitize_output i (pointer_to id) result)))
        ≡ finished (answer_to i j result id)
  unfolding read_committed_idempotency_record secret_ledger_record existing_record_from_index_record
  replays i j result id same =
      rw (str_eq_refl tool, same, str_eq_refl j.claim_fingerprint)
        (by_input (str_eq i.fingerprint j.fingerprint))
    where
      by_input :
          (b : Bool)
          → answer finished reading_pending (
              if b
              then existing (record { pointer = pointer_to id; result = sanitize_output result })
              else conflict)
            ≡ finished (
                if b
                then replayed (record { pointer = pointer_to id; result = sanitize_output result })
                else conflicting)
      by_input true = refl
      by_input false = refl

  -- An operation whose key has no record and no pending claim, and in which nothing fails, returns
  -- the pointer to what it has stored. The next one with that key is answered from the committed
  -- record, with the same pointer and the sanitized result, before it takes a claim or asks the
  -- provider; it is a conflict if its input differs.
  pub run-stores :
      (lines : List SecretLedgerRecord) (k n : ℕ) (result : Json) (id : String)
      (requests : ℕ → DurableSecretIdempotency)
      → (requests 0).claim_fingerprint ≡ (requests 1).claim_fingerprint
      → read_matching_secret_sink_jsonl_record sink_path tool (requests 0) (take n lines) ≡ absent
      → let w =
          run sink_path tool sanitize_output
            (begin sink_path tool sanitize_output (unclaimed lines k) requests)
            (as_events 0 (storing n result id)) in
        ((w.processes 0).phase ≡ finished (returned (pointer_to id) result))
        × (((step sink_path tool sanitize_output w (acts 1 ok)).processes 1).phase
            ≡ finished (answer_to (requests 0) (requests 1) result id))
        × ((step sink_path tool sanitize_output w (acts 1 ok)).files.minted ≡ suc k)
  run-stores lines k n result id requests same nothing =
      let s =
        run-IsSolo (begin sink_path tool sanitize_output (unclaimed lines k) requests) 0
          (storing n result id) in
      let done = solo-storing (requests 0) lines k n result id nothing in
      let (next, count) =
        starts _ (requests 1) (stored_files (requests 0) lines k result id) (s.untouched 1 refl)
          (s.files ∙ ap (λ r. r.0) done) in
      (s.phase ∙ ap (λ r. r.1) done, next ∙ replays (requests 0) (requests 1) result id same, count)
