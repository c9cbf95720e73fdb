-- ===== src/Registration/Presigned.antt =====
-- The handler of s3_get_presigned_url in src/s3/presigned.ts. The provider's part is a parameter:
-- `resolve` gives the error with which the version guard rejects, or none, and `presign` the URL.
use b2_mcp.Base.{Option, String, get_or, if◌then◌else◌, inl, inr, none, some, str_eq, ℕ, ◌⊎◌}
use b2_mcp.Json.{Fields, Json, end, field, num, str}
use b2_mcp.DestructiveGate.Check.{GateResult, Refusal, allowed, blocked}
use b2_mcp.Registration.Surface.{PresignedOptions}

pub data Operation : Type 0 where
  get_object put_object : Operation

-- What the schema lets through, and the fields that the gate reads.
pub record PresignArgs : Type 0 where
  pub bucket : String
  pub key : String
  pub operation : Operation
  pub expires_in : Option ℕ
  pub version_id : Option String
  pub content_type : Option String
  pub confirm : Json

abbrev pub operation_name : Operation → String
operation_name get_object = "GetObject"
operation_name put_object = "PutObject"

abbrev pub optional : String → Option String → Fields → Fields
optional k none fs = fs
optional k (some s) fs = field k (str s) fs

abbrev pub optional_num : String → Option ℕ → Fields → Fields
optional_num k none fs = fs
optional_num k (some n) fs = field k (num n) fs

abbrev pub gate_args : PresignArgs → Fields
gate_args a = field "operation" (str (operation_name a.operation)) (
    field "confirm" a.confirm (
      field "bucket" (str a.bucket) (
        field "key" (str a.key) (
          optional_num "expiresIn" a.expires_in
            (optional "versionId" a.version_id (optional "contentType" a.content_type end))))))

pub data PresignResult (Url Error : Type 0) : Type 0 where
  url : Url → PresignResult Url Error
  refused : Refusal → PresignResult Url Error
  failed : Error → PresignResult Url Error

abbrev pub missing : String → Refusal
missing message = record { status = 403; code = "missing_capability"; message = message }

module _ {Url Error : Type 0} (resolve : String → String → String → Option Error)
    (presign : PresignArgs → ℕ → Url ⊎ Error) (check : Fields → GateResult)
    (o : PresignedOptions) where
  abbrev pub sign : PresignArgs → PresignResult Url Error
  sign a = elim (presign a (get_or a.expires_in 3600)) [ inl u ↦ url u | inr e ↦ failed e ]

  -- `if (args.operation === "GetObject" && args.versionId) { … }`
  abbrev pub bind_version : PresignArgs → Operation → Option String → PresignResult Url Error
  bind_version a get_object (some v) =
      if str_eq v ""
      then sign a
      else if o.allow_explicit_version_inspection
      then elim (resolve a.bucket a.key v) [ some e ↦ failed e | none ↦ sign a ]
      else refused (
          missing
            "Version-targeted S3 presigned URLs require the readFiles capability for native version binding.")
  bind_version a op v = sign a

  abbrev pub after_gate : PresignArgs → GateResult → PresignResult Url Error
  after_gate a (blocked r) = refused r
  after_gate a allowed = bind_version a a.operation a.version_id

  abbrev pub gated : PresignArgs → PresignResult Url Error
  gated a = after_gate a (check (gate_args a))

  abbrev pub by_operation : PresignArgs → Operation → PresignResult Url Error
  by_operation a get_object =
      if o.allow_get_object_url
      then gated a
      else refused (missing "GetObject presigned URLs require the readFiles capability.")
  by_operation a put_object =
      if o.allow_put_object_url
      then gated a
      else refused (missing "PutObject presigned URLs require the writeFiles capability.")

  unfoldable pub get_presigned_url : PresignArgs → PresignResult Url Error
  get_presigned_url a = by_operation a a.operation
