-- ===== src/SecretSink/Phases.antt =====
-- The phases of executeDurableSecretOperation of src/utils/secret-sink.ts in file mode, and what the
-- surroundings do in a step. A phase ends where the next call of the file system or of the provider
-- begins. The files are those of one claim, that is, of one tool, caller and idempotency key: other
-- claims have files of their own and share the ledger only.
use b2_mcp.Base.{
  Bool, List, Option, String, false, if◌then◌else◌, leb, ltb, none, not, some, str_eq, suc, take,
  true, ℕ, ◌&&◌, ◌-◌, ◌==◌,
}
use b2_mcp.Json.{Json}
use b2_mcp.SecretSink.Records.{
  DurableSecretIdempotency, ExistingSecretSinkRecord, Search, SecretLedgerRecord, SecretSinkPointer,
  absent, conflict, existing,
}

-- The pending file: what it says, unless it cannot be read.
pub data LockFile : Type 0 where
  unreadable : LockFile
  claim_of : DurableSecretIdempotency → LockFile

-- An error of the provider, with the status and the code that it carries.
pub record ProviderError : Type 0 where
  pub status : Option ℕ
  pub code : Option String

pub data Outcome : Type 0 where
  replayed : ExistingSecretSinkRecord → Outcome
  returned : SecretSinkPointer → Json → Outcome
  conflicting pending_claim sink_error : Outcome
  provider_error : ProviderError → Outcome
  projection_failed write_failed commit_ambiguous replay_unavailable : Outcome

pub data Phase : Type 0 where
  -- acquireSecretSinkClaim, up to the claim
  starting reading_pending checking_lock searching_committed searching_ledger locking : Phase
  -- another process was first
  raced_committed raced_ledger raced_pending : Phase
  -- the claim is held
  rechecking_committed rechecking_ledger creating : Phase
  appending : Json → Phase
  indexing : SecretSinkPointer → Json → Phase
  recovering : Outcome → Phase
  releasing : Outcome → Phase
  finished : Outcome → Phase

-- Which operations of appendSecretSinkRecord succeed: the append lock and the repair of the last
-- line, opening the file, reading its size, writing, fsync, and the rollback.
pub record AppendResults : Type 0 where
  pub locked : Bool
  pub opened : Bool
  pub sized : Bool
  pub written : Bool
  pub synced : Bool
  pub rolled_back : Bool

pub data AppendOutcome : Type 0 where
  appended not_appended unconfirmed : AppendOutcome

-- Once the record is committed, an error of `close` is only logged.
unfoldable pub append_outcome : AppendResults → AppendOutcome
append_outcome r =
    if not (r.locked && r.opened && r.sized)
    then not_appended
    else if r.written && r.synced
    then appended
    else if r.rolled_back
    then not_appended
    else unconfirmed

-- Which operations of writeCommittedIdempotencyRecord succeed: the lock, writing the temporary file,
-- renaming it, and fsync of the directory.
pub record IndexResults : Type 0 where
  pub locked : Bool
  pub written : Bool
  pub renamed : Bool
  pub synced : Bool

-- Nothing fails.
abbrev pub all_appended : AppendResults
all_appended = record {
  locked = true;
  opened = true;
  sized = true;
  written = true;
  synced = true;
  rolled_back = true;
}

abbrev pub all_indexed : IndexResults
all_indexed = record { locked = true; written = true; renamed = true; synced = true }

abbrev pub in_place : IndexResults → Bool
in_place r = r.locked && r.written && r.renamed

-- What the surroundings do in a step.
pub data Choice : Type 0 where
  -- the file operation succeeds, or throws
  ok throws : Choice
  -- so many records of the ledger are near enough to its end to be read
  sees : ℕ → Choice
  -- the lock file cannot be written; is it left behind?
  lock_fails : Bool → Choice
  -- the provider's answer, and whether it can be projected
  creates : Json → Bool → Choice
  -- the call fails after the credential has been made
  creates_unusable : Choice
  -- the call fails; has a credential been made?
  fails : ProviderError → Bool → Choice
  -- the new record's identifier, what the file operations of the append give, and whether a record
  -- whose rollback is not confirmed is still there
  appends : String → AppendResults → Bool → Choice
  indexes : IndexResults → Choice
  -- the status that recovery reports, and whether the credential is gone
  recovers : Option String → Bool → Choice

pub record Process : Type 0 where
  pub request : DurableSecretIdempotency
  pub phase : Phase

-- The files of a claim, and how many of its credentials exist at the provider.
pub record Files : Type 0 where
  pub pending : Option LockFile
  pub committed : Option SecretLedgerRecord
  pub ledger : List SecretLedgerRecord
  pub minted : ℕ

abbrev pub operation_status_unknown_code : String
operation_status_unknown_code = "operation_status_unknown"

abbrev pub is_code : String → Option String → Bool
is_code c none = false
is_code c (some d) = str_eq d c

abbrev pub rejection_status : Option ℕ → Bool
rejection_status none = false
rejection_status (some s) = leb 400 s && ltb s 500 && not (s == 408)

unfoldable pub create_error_has_known_provider_rejection : ProviderError → Bool
create_error_has_known_provider_rejection e =
    not (is_code operation_status_unknown_code e.code) && rejection_status e.status

unfoldable pub recovery_cleared_provider_side_effect : Option String → Bool
recovery_cleared_provider_side_effect status = is_code "deleted" status

-- Where a search leads, if it finds nothing.
abbrev pub answer : (Outcome → Phase) → Phase → Search → Phase
answer stop next absent = next
answer stop next conflict = stop conflicting
answer stop next (existing r) = stop (replayed r)

abbrev pub after_pending : DurableSecretIdempotency → Option LockFile → Phase → Phase
after_pending i (some (claim_of c)) next =
    if str_eq c.fingerprint i.fingerprint then finished pending_claim else finished conflicting
after_pending i _ next = next

abbrev pub after_lock_check : Option LockFile → Phase
after_lock_check none = searching_committed
after_lock_check (some l) = finished pending_claim

-- O_CREAT with O_EXCL: only one process creates the file.
abbrev pub try_lock : DurableSecretIdempotency → Files → Option LockFile → Files × Phase
try_lock i f none = (record f { pending = some (claim_of i) }, rechecking_committed)
try_lock i f (some l) = (f, raced_committed)

abbrev pub leave_lock : Bool → Files → Option LockFile → Files × Phase
leave_lock left f none =
    (record f { pending = if left then some unreadable else none }, finished sink_error)
leave_lock left f (some l) = (f, raced_committed)

abbrev pub add : ℕ → Bool → ℕ
add n b = if b then suc n else n

abbrev pub drop_one : ℕ → Bool → ℕ
drop_one n b = if b then n - 1 else n

abbrev pub latest : ℕ → List SecretLedgerRecord → List SecretLedgerRecord
latest n lines = take n lines
