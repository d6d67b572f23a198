-- ===== src/SocFeedback.antt =====
-- The feedback of analysts of gateway/soc_feedback.py (class SOCFeedbackEngine). The journal file, the
-- identifiers and the times of records are left out: a failed write of the journal is only logged. A
-- precision is a number of thousandths, rounded once, half to even.
pub mod Counts
mod Tests
use erp_security.Prelude.{
  ℕ, suc, ◌+◌, ◌*◌, String, concat, ◌==◌, Option, none, some, Bool, true, false, ◌||◌, ltb, leb,
  round_div, if◌then◌else◌, List, [], ◌∷◌, ◌++◌, get_or, length,
}
use erp_security.Prelude.Dict.{Dict, get, put}
use erp_security.Prelude.Text.{truthy?}

pub data FeedbackTag : Type 0 where
  false_positive false_negative confirmed_attack tuning_request : FeedbackTag

pub record SocFeedbackRecord : Type 0 where
  pub analyst_id : String
  pub tag : FeedbackTag
  pub request_id : Option String
  pub alert_id : Option String
  pub rule_id : Option String
  pub notes : String
  pub target_entity : Option String
  pub recommended_action : Option String

pub record SocFeedbackEngine : Type 0 where
  pub records : List SocFeedbackRecord

unfoldable pub submit_feedback : SocFeedbackRecord → SocFeedbackEngine → SocFeedbackEngine
submit_feedback r e = record { records = e.records ++ (r ∷ []) }

-- {"TP", "FP", "FN", "total"}.
pub record Stats : Type 0 where
  pub tp : ℕ
  pub fp : ℕ
  pub fn : ℕ
  pub total : ℕ

abbrev pub no_stats : Stats
no_stats = record { tp = 0; fp = 0; fn = 0; total = 0 }

unfoldable pub add_tag : FeedbackTag → Stats → Stats
add_tag confirmed_attack s = record s { tp = s.tp + 1; total = s.total + 1 }
add_tag false_positive s = record s { fp = s.fp + 1; total = s.total + 1 }
add_tag false_negative s = record s { fn = s.fn + 1; total = s.total + 1 }
add_tag tuning_request s = record s { total = s.total + 1 }

-- The loop over the records that fills `rule_stats`.
unfoldable pub add_record : SocFeedbackRecord → Dict Stats → Dict Stats
unfolding add_tag
add_record r d = elim (truthy? r.rule_id) [
  | none ↦ d
  | some id ↦ put d id (add_tag r.tag (get_or (get d id) no_stats))
]

unfoldable pub rule_stats : List SocFeedbackRecord → Dict Stats → Dict Stats
unfolding add_record
rule_stats [] d = d
rule_stats (r ∷ rs) d = rule_stats rs (add_record r d)

-- `feedback_by_tag`.
pub record TagCounts : Type 0 where
  pub false_positives : ℕ
  pub false_negatives : ℕ
  pub confirmed_attacks : ℕ
  pub tuning_requests : ℕ

abbrev no_tags : TagCounts
no_tags = record {
  false_positives = 0;
  false_negatives = 0;
  confirmed_attacks = 0;
  tuning_requests = 0;
}

unfoldable pub count_tag : FeedbackTag → TagCounts → TagCounts
count_tag false_positive c = record c { false_positives = c.false_positives + 1 }
count_tag false_negative c = record c { false_negatives = c.false_negatives + 1 }
count_tag confirmed_attack c = record c { confirmed_attacks = c.confirmed_attacks + 1 }
count_tag tuning_request c = record c { tuning_requests = c.tuning_requests + 1 }

unfoldable pub by_tag : List SocFeedbackRecord → TagCounts → TagCounts
unfolding count_tag
by_tag [] c = c
by_tag (r ∷ rs) c = by_tag rs (count_tag r.tag c)

-- The precision of some true and some false positives.
unfoldable pub precision_of : ℕ → ℕ → ℕ
precision_of tp fp = if ltb 0 (tp + fp) then round_div (1000 * tp) (tp + fp) else 1000

-- An entry of `rule_precision`.
pub record RulePrecision : Type 0 where
  pub precision : ℕ
  pub false_positive_count : ℕ
  pub confirmed_attack_count : ℕ
  pub total_feedbacks : ℕ

abbrev pub precision_entry : Stats → RulePrecision
precision_entry s = record {
  precision = precision_of s.tp s.fp;
  false_positive_count = s.fp;
  confirmed_attack_count = s.tp;
  total_feedbacks = s.total;
}

unfoldable pub precision_by_rule : Dict Stats → Dict RulePrecision
unfolding precision_of
precision_by_rule [] = []
precision_by_rule ((id, s) ∷ d) = (id, precision_entry s) ∷ precision_by_rule d

pub record Accuracy : Type 0 where
  pub total_feedbacks : ℕ
  pub feedback_by_tag : TagCounts
  pub overall_precision : ℕ
  pub rule_precision : Dict RulePrecision

unfoldable pub get_accuracy_metrics : SocFeedbackEngine → Accuracy
unfolding rule_stats by_tag precision_by_rule precision_of
get_accuracy_metrics e =
    let tags = by_tag e.records no_tags in
    record {
      total_feedbacks = length e.records;
      feedback_by_tag = tags;
      overall_precision = precision_of tags.confirmed_attacks tags.false_positives;
      rule_precision = precision_by_rule (rule_stats e.records []);
    }

pub data Tuning : Type 0 where
  threshold_increase window_tightening rule_sensitivity_tune : Tuning

pub record Recommendation : Type 0 where
  pub rule_id : String
  pub tuning : Tuning
  pub current_precision : ℕ
  pub false_positive_count : ℕ

abbrev pub tuning_of : String → Tuning
tuning_of id =
    if id == "R006"
    then threshold_increase
    else if id == "R002"
    then window_tightening
    else rule_sensitivity_tune

unfoldable pub needs_tuning : RulePrecision → Bool
needs_tuning p = leb 2 p.false_positive_count || ltb p.precision 800

unfoldable pub recommend : Dict RulePrecision → List Recommendation
unfolding needs_tuning
recommend [] = []
recommend ((id, p) ∷ d) =
    let rest = recommend d in
    if needs_tuning p
    then record {
      rule_id = id;
      tuning = tuning_of id;
      current_precision = p.precision;
      false_positive_count = p.false_positive_count;
    }
      ∷ rest
    else rest

unfoldable pub generate_tuning_recommendations : SocFeedbackEngine → List Recommendation
unfolding recommend get_accuracy_metrics
generate_tuning_recommendations e = recommend (get_accuracy_metrics e).rule_precision

-- A label for the training of the model: whether the request was an attack.
pub record LabeledEvent : Type 0 where
  pub request_id : String
  pub ground_truth_label : Bool
  pub tag : FeedbackTag
  pub rule_id : Option String
  pub analyst_id : String

abbrev pub label_of : FeedbackTag → Option Bool
label_of confirmed_attack = some true
label_of false_positive = some false
label_of _ = none

unfoldable pub export_labeled_events : List SocFeedbackRecord → List LabeledEvent
export_labeled_events [] = []
export_labeled_events (r ∷ rs) =
    let rest = export_labeled_events rs in
    elim (truthy? r.request_id) [
      | none ↦ rest
      | some id ↦ elim (label_of r.tag) [
        | none ↦ rest
        | some label ↦
            record {
              request_id = id;
              ground_truth_label = label;
              tag = r.tag;
              rule_id = r.rule_id;
              analyst_id = r.analyst_id;
            }
            ∷ rest
      ]
    ]
