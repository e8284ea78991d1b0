-- ===== src/Harness/Report.antt =====
-- `store` and the route `/report` of determinism-harness/cmd/harness/main.go.
use l1_modular_blockchain.Common.{
  ℕ, ◌+◌, ◌-◌, ◌≡◌, refl, List, [], ◌∷◌, ◌++◌, length, drop, ltb, if◌then◌else◌, arith,
}
use l1_modular_blockchain.Harness.Check.{Check, Verdict, verified, divergent, error, skipped}

-- `maxStoredResults`
abbrev pub max_stored_results : ℕ
max_stored_results = 100

unfoldable pub store_check : List Check → Check → List Check
store_check results r =
    let grown = results ++ r ∷ [] in
    if ltb max_stored_results (length grown)
    then drop (length grown - max_stored_results) grown
    else grown

pub record Counts : Type 0 where
  pub ok_count : ℕ
  pub divergent_count : ℕ
  pub skipped_count : ℕ
  pub error_count : ℕ

abbrev count_verdict : Verdict → Counts → Counts
count_verdict verified n = record n { ok_count = n.ok_count + 1 }
count_verdict divergent n = record n { divergent_count = n.divergent_count + 1 }
count_verdict skipped n = record n { skipped_count = n.skipped_count + 1 }
count_verdict error n = record n { error_count = n.error_count + 1 }

unfoldable pub report_counts : List Check → Counts
report_counts [] = record { ok_count = 0; divergent_count = 0; skipped_count = 0; error_count = 0 }
report_counts (r ∷ rs) = count_verdict r.verdict (report_counts rs)

abbrev pub all_counts : Counts → ℕ
all_counts n = n.ok_count + n.divergent_count + n.skipped_count + n.error_count

count_verdict-all : (v : Verdict) (n : Counts) → all_counts (count_verdict v n) ≡ all_counts n + 1
count_verdict-all verified n = omega arith
count_verdict-all divergent n = omega arith
count_verdict-all skipped n = omega arith
count_verdict-all error n = omega arith

-- Each stored result is counted once.
report_counts-all : (rs : List Check) → all_counts (report_counts rs) ≡ length rs
unfolding report_counts
report_counts-all [] = refl
report_counts-all (r ∷ rs) =
    omega (arith, count_verdict-all r.verdict (report_counts rs), report_counts-all rs)
