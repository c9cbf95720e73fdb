-- ===== src/Egress/Shares.antt =====
-- What computeEgressLeaders of src/b2/insights.ts adds up, and in which order it is given.
use b2_mcp.Base.{
  All, All-lookup, All-set, Bool, Bool-cases, List, Option, Option-cases, String, [], ap, arith,
  false, if◌then◌else◌, inl, inr, lookup, lookup-cases, map, none, refl, set, some, str_eq,
  str_eq_iff, true, ℕ, ◌+◌, ◌∙◌, ◌∷◌, ◌≡◌,
}
use b2_mcp.Egress.{
  EgressLeader, Grouping, ReportRow, add_row, add_rows, compute_egress_leaders, group_key,
  insert_leader, sort_leaders,
}

-- The bytes of the leaders for a key, and those of the rows of its group.
abbrev pub bytes_of_key : String → List EgressLeader → ℕ
bytes_of_key k [] = 0
bytes_of_key k (l ∷ ls) =
    let rest = bytes_of_key k ls in if str_eq l.key k then l.egress + rest else rest

abbrev pub belongs : String → Option String → Bool
belongs k none = false
belongs k (some j) = str_eq j k

abbrev pub bytes_of_group : Grouping → String → List ReportRow → ℕ
bytes_of_group by k [] = 0
bytes_of_group by k (r ∷ rows) =
    let rest = bytes_of_group by k rows in
    if belongs k (group_key by r) then r.egress_bytes + rest else rest

-- Each entry is filed under its leader's key.
abbrev IsFiled : List (String × EgressLeader) → Type 0
IsFiled g = All (λ e. e.1.key ≡ e.0) g

abbrev leaders : List (String × EgressLeader) → List EgressLeader
leaders g = map (λ e. e.1) g

insert_leader-bytes :
    (k : String) (l : EgressLeader) (ls : List EgressLeader)
    → bytes_of_key k (insert_leader l ls) ≡ bytes_of_key k (l ∷ ls)
insert_leader-bytes k l [] = refl
insert_leader-bytes k l (m ∷ ls) = ground (arith, insert_leader-bytes k l ls)

sort_leaders-bytes :
    (k : String) (ls : List EgressLeader) → bytes_of_key k (sort_leaders ls) ≡ bytes_of_key k ls
sort_leaders-bytes k [] = refl
sort_leaders-bytes k (l ∷ ls) =
    ground (arith, insert_leader-bytes k l (sort_leaders ls), sort_leaders-bytes k ls)

-- Setting the leader that is filed under `j` to one with more bytes.
set-bytes_none :
    (k j : String) (v : EgressLeader) (g : List (String × EgressLeader)) (n : ℕ)
    → v.key ≡ j
    → lookup j g ≡ none
    → v.egress ≡ n
    → bytes_of_key k (leaders (set j v g))
      ≡ bytes_of_key k (leaders g) + (if str_eq j k then n else 0)
set-bytes_none k j v [] n named h e = ground (arith, named, e)
set-bytes_none k j v ((i, w) ∷ g) n named h e = elim (Bool-cases (str_eq i j)) [
  | inl same ↦ absurd (ground (arith, same, h))
  | inr other ↦
      rw other (ground (arith, set-bytes_none k j v g n named (ground (arith, other, h)) e))
]

zero_plus : (n : ℕ) → 0 + n ≡ n
zero_plus n = omega arith

old_share : (a b c n : ℕ) → a ≡ b → c ≡ b + n → c ≡ a + n
old_share a b c n e m = omega (arith, e, m)

same_share :
    (b : Bool) (rest v w n : ℕ)
    → v ≡ w + n
    → (if b then v + rest else rest) ≡ (if b then w + rest else rest) + (if b then n else 0)
same_share true rest v w n e = omega (arith, e)
same_share false rest v w n e = omega arith

set-bytes_some :
    (k j : String) (v : EgressLeader) (g : List (String × EgressLeader)) {l : EgressLeader} (n : ℕ)
    → v.key ≡ j
    → IsFiled g
    → lookup j g ≡ some l
    → v.egress ≡ l.egress + n
    → bytes_of_key k (leaders (set j v g))
      ≡ bytes_of_key k (leaders g) + (if str_eq j k then n else 0)
set-bytes_some k j v [] n named f h more = cc
set-bytes_some k j v ((i, w) ∷ g) {l} n named (fi, f) h more = elim (lookup-cases (str_eq i j) h) [
  | inl (same, found) ↦
      let filed = fi ∙ (str_eq_iff i j).0 same in
      let old = ap (λ x. x.egress) found in
      rw (same, filed, named)
        (same_share (str_eq j k) (bytes_of_key k (leaders g)) _ _ n (old_share _ _ _ n old more))
  | inr (other, behind) ↦ rw other (ground (arith, set-bytes_some k j v g n named f behind more))
]

set-IsFiled :
    (j : String) (v : EgressLeader) (g : List (String × EgressLeader))
    → v.key ≡ j
    → IsFiled g
    → IsFiled (set j v g)
set-IsFiled j v g named f = All-set _ j v g named f

-- A row adds its bytes to its group, and to no other.
record Adds (k : String) (group : Option String) (n : ℕ) (g h : List (String × EgressLeader))
    : Type 0 where
  filed : IsFiled h
  bytes :
      bytes_of_key k (leaders h) ≡ bytes_of_key k (leaders g) + (if belongs k group then n else 0)

add_row-Adds :
    (k : String) (by : Grouping) (g : List (String × EgressLeader)) (r : ReportRow)
    → IsFiled g
    → Adds k (group_key by r) r.egress_bytes g (add_row by g r)
unfolding add_row
add_row-Adds k by g r f = elim (Option-cases (group_key by r)) [
  | inl skipped ↦ rw (skipped, add_row) (record { filed = f; bytes = omega arith })
  | inr (j, grouped) ↦ elim (Option-cases (lookup j g)) [
    | inl new ↦
        rw (grouped, new, add_row)
          (record {
            filed = set-IsFiled j _ g refl f;
            bytes = set-bytes_none k j _ g r.egress_bytes refl new (zero_plus r.egress_bytes);
          })
    | inr (l, found) ↦
        let named = All-lookup _ j g found f in
        rw (grouped, found, add_row)
          (record {
            filed = set-IsFiled j _ g named f;
            bytes = set-bytes_some k j _ g r.egress_bytes named f found refl;
          })
  ]
]

shares :
    (a b rest : ℕ) (c : Bool) (n : ℕ)
    → a ≡ b + (if c then n else 0)
    → a + rest ≡ b + (if c then n + rest else rest)
shares a b rest true n h = omega (arith, h)
shares a b rest false n h = omega (arith, h)

add_rows-bytes :
    (k : String) (by : Grouping) (g : List (String × EgressLeader)) (rows : List ReportRow)
    → IsFiled g
    → bytes_of_key k (leaders (add_rows by g rows))
      ≡ bytes_of_key k (leaders g) + bytes_of_group by k rows
unfolding add_rows
add_rows-bytes k by g [] f = omega arith
add_rows-bytes k by g (r ∷ rows) f =
    let a = add_row-Adds k by g r f in
    add_rows-bytes k by (add_row by g r) rows a.filed
    ∙ shares _ _ _ (belongs k (group_key by r)) r.egress_bytes a.bytes

-- The leaders' bytes for a key are those of all rows of its group: each row is counted for its account
-- or bucket, once, and for nothing else; a row without a key counts for none.
pub compute_egress_leaders-bytes :
    (k : String) (by : Grouping) (rows : List ReportRow)
    → bytes_of_key k (compute_egress_leaders rows by) ≡ bytes_of_group by k rows
unfolding compute_egress_leaders
compute_egress_leaders-bytes k by rows =
    sort_leaders-bytes k (leaders (add_rows by [] rows))
    ∙ add_rows-bytes k by [] rows tt
    ∙ zero_plus (bytes_of_group by k rows)
