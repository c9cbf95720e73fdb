-- ===== src/Egress.antt =====
-- computeEgressLeaders of src/b2/insights.ts: the bytes downloaded, by account or by bucket. Bytes are
-- naturals: a row of a usage report has none below zero.
mod Shares
mod Tests
use b2_mcp.Base.{
  List, Option, String, [], if◌then◌else◌, leb, lookup, map, none, or_else, set, some, str_eq, ℕ,
  ◌+◌, ◌∷◌,
}

-- The fields of a ReportRow that are read here.
pub record ReportRow : Type 0 where
  pub account_id : String
  pub bucket_id : Option String
  pub bucket_name : Option String
  pub egress_bytes : ℕ

pub record EgressLeader : Type 0 where
  pub key : String
  pub account_id : String
  pub bucket_name : Option String
  pub egress : ℕ

pub data Grouping : Type 0 where
  by_account by_bucket : Grouping

-- A text that is there and not empty.
abbrev pub truthy : Option String → Option String
truthy none = none
truthy (some s) = if str_eq s "" then none else some s

-- `by === "bucket" ? r.bucketId || r.bucketName : r.accountId`, where it is not falsy.
abbrev pub group_key : Grouping → ReportRow → Option String
group_key by_account r = truthy (some r.account_id)
group_key by_bucket r = or_else (truthy r.bucket_id) (truthy r.bucket_name)

abbrev pub leader_or_new : String → ReportRow → Option EgressLeader → EgressLeader
leader_or_new k r none = record {
  key = k;
  account_id = r.account_id;
  bucket_name = r.bucket_name;
  egress = 0;
}
leader_or_new k r (some l) = l

-- A round of the loop over the rows.
unfoldable pub add_row :
    Grouping → List (String × EgressLeader) → ReportRow → List (String × EgressLeader)
add_row by g r = elim (group_key by r) [
  | none ↦ g
  | some k ↦
      let l = leader_or_new k r (lookup k g) in
      set k (record l { egress = l.egress + r.egress_bytes }) g
]

unfoldable pub add_rows :
    Grouping → List (String × EgressLeader) → List ReportRow → List (String × EgressLeader)
add_rows by g [] = g
add_rows by g (r ∷ rows) = add_rows by (add_row by g r) rows

-- `sort((a, b) => b.egress - a.egress)`, which is stable.
abbrev pub insert_leader : EgressLeader → List EgressLeader → List EgressLeader
insert_leader l [] = l ∷ []
insert_leader l (m ∷ ls) =
    let rest = insert_leader l ls in if leb m.egress l.egress then l ∷ m ∷ ls else m ∷ rest

abbrev pub sort_leaders : List EgressLeader → List EgressLeader
sort_leaders [] = []
sort_leaders (l ∷ ls) = insert_leader l (sort_leaders ls)

unfoldable pub compute_egress_leaders : List ReportRow → Grouping → List EgressLeader
compute_egress_leaders rows by = sort_leaders (map (λ e. e.1) (add_rows by [] rows))
