-- ===== src/Gates/Confluence.antt =====
-- gates/confluence.py
use trading_ai_pipeline.Base.{
  ℕ, ◌≤◌, ◌≡◌, Bool, false, not, ◌&&◌, Option, none, some, List, [], ◌∷◌, ◌++◌, leb, ltb, ◌==◌, min,
  is_empty, arith, if◌then◌else◌,
}
use trading_ai_pipeline.Base.Int.{ℤ, pos, negsuc, ◌≤ℤ◌}
use trading_ai_pipeline.Base.Text.{Text, codes, upper, lower, one_of}

pub data Grade : Type 0 where
  c b_plus a a_plus : Grade

-- _ORDER.index(grade)
abbrev pub order : Grade → ℕ
order c = 0
order b_plus = 1
order a = 2
order a_plus = 3

-- max(0, layers)
abbrev pub clamp : ℤ → ℕ
clamp (pos n) = n
clamp (negsuc _) = 0

unfoldable pub base_grade : ℕ → Grade
base_grade layers =
    if leb 5 layers then a_plus else if layers == 4 then a else if layers == 3 then b_plus else c

-- `dxy_state or ""`
abbrev pub text_or_empty : Option Text → Text
text_or_empty none = []
text_or_empty (some t) = t

unfoldable pub is_dxy_cap : Text → Bool
is_dxy_cap state = one_of state (codes "NEUTRAL" ∷ codes "ADVERSE" ∷ [])

unfoldable pub cap_reasons : Bool → Option Text → List Text
cap_reasons has_anchor dxy_state =
    let state = upper (text_or_empty dxy_state) in
    (if has_anchor then [] else codes "no_5m_15m_anchor" ∷ [])
    ++ (if is_dxy_cap state then (codes "dxy_" ++ lower state) ∷ [] else [])

pub record GradeVerdict : Type 0 where
  pub grade : Grade
  pub base : Grade
  pub capped : Bool
  pub reasons : List Text

abbrev pub same_grade : Grade → Grade → Bool
same_grade g h = order g == order h

unfoldable pub grade_from_layers : ℤ → Bool → Option Text → GradeVerdict
unfolding base_grade
grade_from_layers layers has_anchor dxy_state =
    let base = base_grade (clamp layers) in
    let reasons = cap_reasons has_anchor dxy_state in
    let grade =
      if not (is_empty reasons) && ltb (order b_plus) (order base) then b_plus else base in
    record { grade = grade; base = base; capped = not (same_grade grade base); reasons = reasons }

-- The grade is the base grade, or B+ where that is lower and there is a reason for the cap; it is
-- marked as capped exactly when it is below the base grade.
pub grade-order :
    (layers : ℤ) (has_anchor : Bool) (dxy_state : Option Text)
    → let v = grade_from_layers layers has_anchor dxy_state in
      (order v.grade ≡ (if is_empty v.reasons then order v.base else min 1 (order v.base)))
      × (v.capped ≡ ltb (order v.grade) (order v.base))
unfolding grade_from_layers
grade-order layers has_anchor dxy_state = ground arith

-- With the same anchor and the same state of the dollar, more layers never give a lower grade.
pub grade_mono :
    (m n : ℤ) (has_anchor : Bool) (dxy_state : Option Text)
    → m ≤ℤ n
    → order (grade_from_layers m has_anchor dxy_state).grade
      ≤ order (grade_from_layers n has_anchor dxy_state).grade
unfolding grade_from_layers
grade_mono m n has_anchor dxy_state h = ground arith

-- Without an anchor on 5m or 15m no number of layers grades above B+.
pub no_anchor_caps :
    (layers : ℤ) (dxy_state : Option Text)
    → order (grade_from_layers layers false dxy_state).grade ≤ 1
unfolding grade_from_layers cap_reasons
no_anchor_caps layers dxy_state = ground arith
