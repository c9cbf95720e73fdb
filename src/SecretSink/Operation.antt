-- ===== src/SecretSink/Operation.antt =====
-- executeDurableSecretOperation of src/utils/secret-sink.ts in file mode, as steps of processes on the
-- files that they share.
use b2_mcp.Base.{
  Bool, List, String, [], false, if◌then◌else◌, kept, none, some, suc, true, ℕ, ◌==◌, ◌∷◌,
}
use b2_mcp.Json.{Json}
use b2_mcp.SecretSink.Records.{
  DurableSecretIdempotency, Search, SecretLedgerRecord, SecretSinkPointer,
  read_committed_idempotency_record, read_matching_secret_sink_jsonl_record, secret_ledger_record,
}
use b2_mcp.SecretSink.Phases.{
  AppendOutcome, Choice, Files, Outcome, Phase, Process, add, after_lock_check, after_pending,
  answer, append_outcome, appended, appending, appends, checking_lock, commit_ambiguous,
  create_error_has_known_provider_rejection, creates, creates_unusable, creating, drop_one, fails,
  finished, in_place, indexes, indexing, latest, leave_lock, lock_fails, locking, not_appended, ok,
  pending_claim, projection_failed, provider_error, raced_committed, raced_ledger, raced_pending,
  reading_pending, rechecking_committed, rechecking_ledger, recovering, recovers,
  recovery_cleared_provider_side_effect, releasing, replay_unavailable, returned,
  searching_committed, searching_ledger, sees, sink_error, starting, throws, try_lock, unconfirmed,
  write_failed,
}

module _ (sink_path tool : String) (sanitize_output : Json → Json) where
  abbrev pub ledger_record : DurableSecretIdempotency → String → Json → SecretLedgerRecord
  ledger_record i record_id result = secret_ledger_record tool record_id result (some i)

  abbrev pub index_record : DurableSecretIdempotency → SecretSinkPointer → Json → SecretLedgerRecord
  index_record i p result = record (ledger_record i p.record_id (sanitize_output result)) {
    pointer = some p;
  }

  abbrev pub committed_search : DurableSecretIdempotency → Files → Search
  committed_search i f = read_committed_idempotency_record sink_path tool i f.committed

  abbrev pub ledger_search : DurableSecretIdempotency → ℕ → Files → Search
  ledger_search i n f = read_matching_secret_sink_jsonl_record sink_path tool i (latest n f.ledger)

  -- acquireSecretSinkClaim. An exception is passed on, after the release of a claim that is held.
  abbrev pub look : Phase → Choice → Phase → Phase
  look phase ok next = next
  look phase throws next = finished sink_error
  look phase choice next = phase

  abbrev pub search_ledger : DurableSecretIdempotency → Files → Phase → Choice → Phase → Phase
  search_ledger i f phase (sees n) next = answer finished next (ledger_search i n f)
  search_ledger i f phase throws next = finished sink_error
  search_ledger i f phase choice next = phase

  abbrev pub lock : DurableSecretIdempotency → Files → Choice → Files × Phase
  lock i f ok = try_lock i f f.pending
  lock i f (lock_fails left) = leave_lock left f f.pending
  lock i f throws = (f, finished sink_error)
  lock i f choice = (f, locking)

  abbrev pub recheck_committed : DurableSecretIdempotency → Files → Choice → Phase
  recheck_committed i f ok = answer releasing rechecking_ledger (committed_search i f)
  recheck_committed i f throws = releasing sink_error
  recheck_committed i f choice = rechecking_committed

  abbrev pub recheck_ledger : DurableSecretIdempotency → Files → Choice → Phase
  recheck_ledger i f (sees n) = answer releasing creating (ledger_search i n f)
  recheck_ledger i f throws = releasing sink_error
  recheck_ledger i f choice = rechecking_ledger

  -- The provider makes the credential, and what the code does with each answer.
  abbrev pub create : Files → Choice → Files × Phase
  create f (creates result projects) = (
    record f { minted = suc f.minted },
    if projects then appending result else recovering projection_failed,
  )
  create f creates_unusable = (record f { minted = suc f.minted }, recovering projection_failed)
  create f (fails e made) = (
    record f { minted = add f.minted made },
    if create_error_has_known_provider_rejection e
        then releasing (provider_error e)
        else finished (provider_error e),
  )
  create f choice = (f, creating)

  -- appendSecretSinkRecord
  abbrev pub appended_as :
      DurableSecretIdempotency → Json → Files → String → Bool → AppendOutcome → Files × Phase
  appended_as i result f id kept appended = (
    record f { ledger = ledger_record i id result ∷ f.ledger },
    indexing (record { path = sink_path; record_id = id }) result,
  )
  appended_as i result f id kept not_appended = (f, recovering write_failed)
  appended_as i result f id kept unconfirmed = (
    record f { ledger = if kept then ledger_record i id result ∷ f.ledger else f.ledger },
    finished commit_ambiguous,
  )

  abbrev pub append_record : DurableSecretIdempotency → Json → Files → Choice → Files × Phase
  append_record i result f (appends id r kept) = appended_as i result f id kept (append_outcome r)
  append_record i result f choice = (f, appending result)

  -- appendSecretSinkIdempotencyIndex; the lines of the index are an audit trail that nothing reads.
  abbrev pub indexed :
      DurableSecretIdempotency → SecretSinkPointer → Json → Files → Bool → Bool → Files × Phase
  indexed i p result f true true =
      (record f { committed = some (index_record i p result) }, releasing (returned p result))
  indexed i p result f true false =
      (record f { committed = some (index_record i p result) }, finished replay_unavailable)
  indexed i p result f false done = (f, finished replay_unavailable)

  abbrev pub append_index :
      DurableSecretIdempotency → SecretSinkPointer → Json → Files → Choice → Files × Phase
  append_index i p result f (indexes r) = indexed i p result f (in_place r) r.synced
  append_index i p result f choice = (f, indexing p result)

  -- failDurableSecretAfterCreate
  abbrev pub recover : Outcome → Files → Choice → Files × Phase
  recover o f (recovers status gone) = (
    record f { minted = drop_one f.minted gone },
    if recovery_cleared_provider_side_effect status then releasing o else finished o,
  )
  recover o f choice = (f, recovering o)

  -- releaseSecretSinkClaimBestEffort: the file may stay.
  abbrev pub release : Outcome → Files → Choice → Files × Phase
  release o f ok = (record f { pending = none }, finished o)
  release o f throws = (f, finished o)
  release o f choice = (f, releasing o)

  unfoldable pub advance : DurableSecretIdempotency → Files → Phase → Choice → Files × Phase
  advance i f starting c =
      (f, look starting c (answer finished reading_pending (committed_search i f)))
  advance i f reading_pending c =
      (f, look reading_pending c (after_pending i f.pending checking_lock))
  advance i f checking_lock c = (f, look checking_lock c (after_lock_check f.pending))
  advance i f searching_committed c =
      (f, look searching_committed c (answer finished searching_ledger (committed_search i f)))
  advance i f searching_ledger c = (f, search_ledger i f searching_ledger c locking)
  advance i f locking c = lock i f c
  advance i f raced_committed c =
      (f, look raced_committed c (answer finished raced_ledger (committed_search i f)))
  advance i f raced_ledger c = (f, search_ledger i f raced_ledger c raced_pending)
  advance i f raced_pending c =
      (f, look raced_pending c (after_pending i f.pending (finished pending_claim)))
  advance i f rechecking_committed c = (f, recheck_committed i f c)
  advance i f rechecking_ledger c = (f, recheck_ledger i f c)
  advance i f creating c = create f c
  advance i f (appending result) c = append_record i result f c
  advance i f (indexing p result) c = append_index i p result f c
  advance i f (recovering o) c = recover o f c
  advance i f (releasing o) c = release o f c
  advance i f (finished o) c = (f, finished o)

  -- The processes by number, and the files that they share.
  pub record World : Type 0 where
    pub files : Files
    pub processes : ℕ → Process

  pub data Event : Type 0 where
    acts : ℕ → Choice → Event
    -- a record of another claim, or of an older version
    others_append : SecretLedgerRecord → Event

  abbrev pub put : ℕ → Process → (ℕ → Process) → ℕ → Process
  put n p ps m = if m == n then p else ps m

  abbrev pub moved : World → ℕ → Files × Phase → World
  moved w n (f, phase) = record {
    files = f;
    processes = put n (record (w.processes n) { phase = phase }) w.processes;
  }

  unfoldable pub step : World → Event → World
  unfolding advance
  step w (acts n choice) =
      moved w n (advance ((w.processes n).request) w.files ((w.processes n).phase) choice)
  step w (others_append r) = record w { files = record w.files { ledger = r ∷ w.files.ledger } }

  unfoldable pub run : World → List Event → World
  unfolding step
  run w [] = w
  run w (e ∷ es) = run (step w e) es

  -- Processes that have just been called.
  abbrev pub begin : Files → (ℕ → DurableSecretIdempotency) → World
  begin f requests = record {
    files = f;
    processes = λ n. record { request = requests n; phase = starting };
  }
