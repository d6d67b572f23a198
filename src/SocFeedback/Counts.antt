-- ===== src/SocFeedback/Counts.antt =====
-- What the statistics of gateway/soc_feedback.py count.
use erp_security.Prelude.{
  ℕ, ◌+◌, String, ◌==◌, ◌≡◌, refl, ap, ◌∙◌, inl, inr, arith, eq_iff, none, some, Bool, true, false,
  ◌&&◌, if◌then◌else◌, List, [], ◌∷◌, get_or, filter, length, Option-cases,
}
use erp_security.Prelude.Dict.{Dict, get, get-put, get-empty}
use erp_security.Prelude.Text.{truthy?}
use erp_security.SocFeedback.{
  FeedbackTag, false_positive, false_negative, confirmed_attack, tuning_request, SocFeedbackRecord,
  Stats, no_stats, add_tag, add_record, rule_stats,
}

-- Whether a record is about a rule, and has a tag.
unfoldable pub is_about : String → SocFeedbackRecord → Bool
is_about id r = elim (truthy? r.rule_id) [ none ↦ false | some rule ↦ rule == id ]

unfoldable pub same_tag : FeedbackTag → FeedbackTag → Bool
same_tag confirmed_attack confirmed_attack = true
same_tag false_positive false_positive = true
same_tag false_negative false_negative = true
same_tag tuning_request tuning_request = true
same_tag _ _ = false

-- The number of records about a rule with a tag that passes a test.
unfoldable pub counted : String → (FeedbackTag → Bool) → List SocFeedbackRecord → ℕ
unfolding is_about
counted id p rs = length (filter (λ r. is_about id r && p r.tag) rs)

-- The statistics of a rule.
abbrev pub stats_for : String → Dict Stats → Stats
stats_for id d = get_or (get d id) no_stats

add_record-stats :
    (r : SocFeedbackRecord) (id : String) (d : Dict Stats)
    → stats_for id (add_record r d)
      ≡ (if is_about id r then add_tag r.tag (stats_for id d) else stats_for id d)
unfolding add_record is_about
add_record-stats r id d = elim (Option-cases (truthy? r.rule_id)) [
  | inl unnamed ↦ rw (unnamed, add_record, is_about) refl
  | inr (rule, named) ↦
      rw (named, add_record, is_about)
        (ground (arith, get-put d rule id (add_tag r.tag (stats_for rule d)), eq_iff rule id))
]

module _ (f : Stats → ℕ) (p : FeedbackTag → Bool)
    (step : (t : FeedbackTag) (s : Stats) → f (add_tag t s) ≡ f s + (if p t then 1 else 0)) where
  -- A counter that each tag of a kind raises by one counts the records of that kind.
  count_up :
      (rs : List SocFeedbackRecord) (id : String) (d : Dict Stats)
      → f (stats_for id (rule_stats rs d)) ≡ f (stats_for id d) + counted id p rs
  unfolding rule_stats counted
  count_up [] id d = omega arith
  count_up (r ∷ rs) id d =
      ground (
        arith,
        count_up rs id (add_record r d),
        add_record-stats r id d,
        step r.tag (stats_for id d),
      )

  count_all :
      (rs : List SocFeedbackRecord) (id : String)
      → f no_stats ≡ 0
      → f (stats_for id (rule_stats rs [])) ≡ counted id p rs
  count_all rs id zero =
      let start : f (stats_for id []) ≡ 0 = ap (λ o. f (get_or o no_stats)) (get-empty id) ∙ zero in
      omega (arith, count_up rs id [], start)

-- The statistics an analyst would read off the records.
abbrev pub tally : String → List SocFeedbackRecord → Stats
tally id rs = record {
  tp = counted id (same_tag confirmed_attack) rs;
  fp = counted id (same_tag false_positive) rs;
  fn = counted id (same_tag false_negative) rs;
  total = counted id (λ _. true) rs;
}

abbrev Raised : (Stats → ℕ) → (FeedbackTag → Bool) → Type 0
Raised f p = (t : FeedbackTag) (s : Stats) → f (add_tag t s) ≡ f s + (if p t then 1 else 0)

tp_counts : Raised (λ s. s.tp) (same_tag confirmed_attack)
unfolding add_tag same_tag
tp_counts confirmed_attack s = refl
tp_counts false_positive s = omega arith
tp_counts false_negative s = omega arith
tp_counts tuning_request s = omega arith

fp_counts : Raised (λ s. s.fp) (same_tag false_positive)
unfolding add_tag same_tag
fp_counts confirmed_attack s = omega arith
fp_counts false_positive s = refl
fp_counts false_negative s = omega arith
fp_counts tuning_request s = omega arith

fn_counts : Raised (λ s. s.fn) (same_tag false_negative)
unfolding add_tag same_tag
fn_counts confirmed_attack s = omega arith
fn_counts false_positive s = omega arith
fn_counts false_negative s = refl
fn_counts tuning_request s = omega arith

total_counts : Raised (λ s. s.total) (λ _. true)
unfolding add_tag
total_counts confirmed_attack s = refl
total_counts false_positive s = refl
total_counts false_negative s = refl
total_counts tuning_request s = refl

-- The statistics that the engine keeps of a rule are, for any records and any rule identifier, the numbers of
-- the records about the rule: the confirmed attacks, the false positives, the false negatives, and all of them.
pub stats-tally :
    (rs : List SocFeedbackRecord) (id : String) → stats_for id (rule_stats rs []) ≡ tally id rs
stats-tally rs id = λ i. record {
  tp = count_all (λ s. s.tp) (same_tag confirmed_attack) tp_counts rs id refl i;
  fp = count_all (λ s. s.fp) (same_tag false_positive) fp_counts rs id refl i;
  fn = count_all (λ s. s.fn) (same_tag false_negative) fn_counts rs id refl i;
  total = count_all (λ s. s.total) (λ _. true) total_counts rs id refl i;
}
