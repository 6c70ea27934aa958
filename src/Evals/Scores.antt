-- ===== src/Evals/Scores.antt =====
-- evals/harness.py: one score, and what a list of scores says.
use airflow_dq_agent.Prelude.{
  ℕ, ◌*◌, String, Bool, true, false, List, [], ◌∷◌, Dict, leb, if◌then◌else◌, ◌≡◌, refl, ◌&&◌,
  is_empty, arith,
}
use airflow_dq_agent.Contracts.Value.{Value}
use airflow_dq_agent.Contracts.Evaluation.{EvalScore}
use Prim.Native.String.{◌++◌}

-- `score >= threshold`, of two quotients.
abbrev pub reaches : ℕ × ℕ → ℕ × ℕ → Bool
reaches (a, b) (c, d) = leb (c * b) (a * d)

abbrev pub one : ℕ × ℕ
one = (1, 1)

abbrev pub nought : ℕ × ℕ
nought = (0, 1)

-- `1.0 if test else 0.0`
abbrev pub all_or_nothing : Bool → ℕ × ℕ
all_or_nothing test = if test then one else nought

abbrev pub make_score : String → ℕ × ℕ → ℕ × ℕ → String → Dict Value → EvalScore
make_score name score threshold rationale details = record {
  name = name;
  score = score;
  passed = reaches score threshold;
  rationale = rationale;
  details = details;
}

-- `[f"{score.name}: {score.rationale}" for score in scores if not score.passed]`
unfoldable pub failed_scores : List EvalScore → List String
failed_scores [] = []
failed_scores (score ∷ scores) =
    let others = failed_scores scores in
    if score.passed then others else (score.name ++ ": " ++ score.rationale) ∷ others

abbrev pub all_passed : List EvalScore → Bool
all_passed [] = true
all_passed (score ∷ scores) = score.passed && all_passed scores

pub failed_scores-is_empty :
    (scores : List EvalScore) → is_empty (failed_scores scores) ≡ all_passed scores
unfolding failed_scores
failed_scores-is_empty [] = refl
failed_scores-is_empty (score ∷ scores) = ground (arith, failed_scores-is_empty scores)

pub reaches-all_or_nothing : (test : Bool) → reaches (all_or_nothing test) one ≡ test
reaches-all_or_nothing true = refl
reaches-all_or_nothing false = refl
