-- ===== src/Egress/Tests.antt =====
-- A run of computeEgressLeaders of src/b2/insights.ts, and the theorem at it.
use b2_mcp.Base.{List, Option, String, [], map, none, refl, some, ℕ, ◌∷◌, ◌≡◌}
use b2_mcp.Egress.{ReportRow, add_row, add_rows, by_account, by_bucket, compute_egress_leaders}
use b2_mcp.Egress.Shares.{bytes_of_group, bytes_of_key, compute_egress_leaders-bytes}

abbrev row : String → Option String → ℕ → ReportRow
row account bucket bytes = record {
  account_id = account;
  bucket_id = none;
  bucket_name = bucket;
  egress_bytes = bytes;
}

abbrev report : List ReportRow
report = row "a" (some "x") 1 ∷ row "b" (some "y") 5 ∷ row "a" none 2 ∷ row "a" (some "x") 3 ∷ []

by_account_leaders :
    map {B = String × ℕ} (λ l. (l.key, l.egress)) (compute_egress_leaders report by_account)
    ≡ ("a", 6) ∷ ("b", 5) ∷ []
unfolding compute_egress_leaders add_rows add_row
by_account_leaders = refl

by_bucket_leaders :
    map {B = String × ℕ} (λ l. (l.key, l.egress)) (compute_egress_leaders report by_bucket)
    ≡ ("y", 5) ∷ ("x", 4) ∷ []
unfolding compute_egress_leaders add_rows add_row
by_bucket_leaders = refl

compute_egress_leaders-bytes_example :
    bytes_of_key "x" (compute_egress_leaders report by_bucket) ≡ bytes_of_group by_bucket "x" report
compute_egress_leaders-bytes_example = compute_egress_leaders-bytes "x" by_bucket report
