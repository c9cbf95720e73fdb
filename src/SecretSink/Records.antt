-- ===== src/SecretSink/Records.antt =====
-- The records of src/utils/secret-sink.ts and how a request finds its own. A ledger is the list of its
-- records, the last one first; time stamps are left out.
use b2_mcp.Base.{
  Bool, List, Option, String, [], false, get_or, if◌then◌else◌, none, some, str_eq, ◌&&◌, ◌∷◌,
}
use b2_mcp.Json.{Json}

pub record DurableSecretIdempotency : Type 0 where
  pub key : String
  pub claim_fingerprint : String
  pub fingerprint : String

-- As it is read from a file: older records have no claim fingerprint.
pub record StoredIdempotency : Type 0 where
  pub key : String
  pub claim_fingerprint : Option String
  pub fingerprint : String

pub record SecretSinkPointer : Type 0 where
  pub path : String
  pub record_id : String

pub record SecretLedgerRecord : Type 0 where
  pub tool : String
  pub record_id : String
  pub result : Json
  pub idempotency : Option StoredIdempotency
  pub pointer : Option SecretSinkPointer

pub record ExistingSecretSinkRecord : Type 0 where
  pub pointer : SecretSinkPointer
  pub result : Json

-- What a search ends with; a conflict is thrown by the code.
pub data Search : Type 0 where
  absent conflict : Search
  existing : ExistingSecretSinkRecord → Search

abbrev pub stored : DurableSecretIdempotency → StoredIdempotency
stored i = record {
  key = i.key;
  claim_fingerprint = some i.claim_fingerprint;
  fingerprint = i.fingerprint;
}

unfoldable pub secret_ledger_record :
    String → String → Json → Option DurableSecretIdempotency → SecretLedgerRecord
secret_ledger_record tool record_id result none = record {
  tool = tool;
  record_id = record_id;
  result = result;
  idempotency = none;
  pointer = none;
}
secret_ledger_record tool record_id result (some i) = record {
  tool = tool;
  record_id = record_id;
  result = result;
  idempotency = some (stored i);
  pointer = none;
}

-- `sink_path` is the ledger's path.
module _ (sink_path : String) where
  unfoldable pub existing_record_from_index_record : SecretLedgerRecord → ExistingSecretSinkRecord
  existing_record_from_index_record r = record {
    pointer = get_or r.pointer (record { path = sink_path; record_id = r.record_id });
    result = r.result;
  }

  abbrev pub same_request :
      DurableSecretIdempotency → StoredIdempotency → SecretLedgerRecord → Search
  same_request i s r =
      if str_eq s.fingerprint i.fingerprint
      then existing (existing_record_from_index_record r)
      else conflict

  abbrev pub claims : Option String → DurableSecretIdempotency → Bool
  claims none i = false
  claims (some c) i = str_eq c i.claim_fingerprint

  abbrev pub committed_match :
      String → DurableSecretIdempotency → SecretLedgerRecord → Option StoredIdempotency → Search
  committed_match tool i r none = absent
  committed_match tool i r (some s) =
      if str_eq r.tool tool
      then (if claims s.claim_fingerprint i then same_request i s r else absent)
      else absent

  -- The file of a claim's committed record, where there is one.
  unfoldable pub read_committed_idempotency_record :
      String → DurableSecretIdempotency → Option SecretLedgerRecord → Search
  read_committed_idempotency_record tool i none = absent
  read_committed_idempotency_record tool i (some r) = committed_match tool i r r.idempotency

  -- Without a claim fingerprint, the key decides.
  abbrev pub is_claim : DurableSecretIdempotency → StoredIdempotency → Option String → Bool
  is_claim i s none = str_eq s.key i.key
  is_claim i s (some c) = str_eq c i.claim_fingerprint

  abbrev pub ledger_match :
      String → DurableSecretIdempotency → SecretLedgerRecord → Option StoredIdempotency → Search
  ledger_match tool i r none = absent
  ledger_match tool i r (some s) =
      if str_eq r.tool tool && is_claim i s s.claim_fingerprint then same_request i s r else absent

  abbrev pub or_search : Search → Search → Search
  or_search absent s = s
  or_search found s = found

  -- `lines` are those of the ledger that are near enough to its end to be read.
  unfoldable pub read_matching_secret_sink_jsonl_record :
      String → DurableSecretIdempotency → List SecretLedgerRecord → Search
  read_matching_secret_sink_jsonl_record tool i [] = absent
  read_matching_secret_sink_jsonl_record tool i (r ∷ lines) =
      or_search (ledger_match tool i r r.idempotency)
        (read_matching_secret_sink_jsonl_record tool i lines)
