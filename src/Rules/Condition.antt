-- ===== src/Rules/Condition.antt =====
-- Go/internal/rules/rule.go, objects.go and evaluator.go: the conditions of rules, and the fields that
-- they read. An object's times are read by no field and left out.
use share_hound.Prelude.{
  ℕ, Bool, true, false, not, ◌||◌, List, [], ◌∷◌, Option, none, some, if◌then◌else◌,
}
use share_hound.Prelude.Text.{Text, codes, eqb, elem, to_upper}
use share_hound.Rules.Value.{
  Runtime, Value, string, int, int64, bool, nothing, compare_equal, compare_less, compare_greater,
  compare_in, compare_matches,
}
pub mod Laws
pub mod Sizes

pub record RuleObjectShare : Type 0 where
  pub name : Text
  pub description : Text
  pub hidden : Bool

pub record RuleObjectFile : Type 0 where
  pub name : Text
  pub path : Text
  pub size : ℕ  -- int64
  pub extension : Text

pub record RuleObjectDirectory : Type 0 where
  pub name : Text
  pub path : Text

pub record EvaluationContext : Type 0 where
  pub share : Option RuleObjectShare
  pub file : Option RuleObjectFile
  pub directory : Option RuleObjectDirectory
  pub depth : ℕ

-- The value of a field of an object, or nil if there is no object.
abbrev field_of : {F O : Type 0} → Option O → (O → Value F) → Value F
field_of none f = nothing
field_of (some o) f = f o

-- `GetFieldValue`
unfoldable pub get_field_value : {F : Type 0} → EvaluationContext → Text → Value F
get_field_value c name =
    let field = to_upper name in
    if eqb field (codes "DEPTH")
    then int c.depth
    else if eqb field (codes "SHARE.NAME")
    then field_of c.share (λ o. string o.name)
    else if eqb field (codes "SHARE.DESCRIPTION")
    then field_of c.share (λ o. string o.description)
    else if eqb field (codes "SHARE.HIDDEN")
    then field_of c.share (λ o. bool o.hidden)
    else if eqb field (codes "FILE.NAME")
    then field_of c.file (λ o. string o.name)
    else if eqb field (codes "FILE.PATH")
    then field_of c.file (λ o. string o.path)
    else if eqb field (codes "FILE.SIZE")
    then field_of c.file (λ o. int64 o.size)
    else if eqb field (codes "FILE.EXTENSION")
    then field_of c.file (λ o. string o.extension)
    else if elem field (codes "DIR.NAME" ∷ codes "DIRECTORY.NAME" ∷ [])
    then field_of c.directory (λ o. string o.name)
    else if elem field (codes "DIR.PATH" ∷ codes "DIRECTORY.PATH" ∷ [])
    then field_of c.directory (λ o. string o.path)
    else nothing

-- The implementations of the interface `Condition`.
mutual
  pub data Condition (F : Type 0) : Type 0 where
    always_true : Condition F
    field_condition : Text → Text → Value F → Condition F
    not_condition : Condition F → Condition F
    and_condition : Conditions F → Condition F
    or_condition : Conditions F → Condition F

  pub data Conditions (F : Type 0) : Type 0 where
    none_left : Conditions F
    condition : Condition F → Conditions F → Conditions F

module _ {F : Type 0} (rt : Runtime F) where
  -- The switch over the comparator of `(*FieldCondition).Evaluate`
  unfoldable pub compare_by : Text → Value F → Value F → Bool
  compare_by comparator a b =
      if elem comparator (codes "=" ∷ codes "==" ∷ [])
      then compare_equal rt a b
      else if eqb comparator (codes "!=")
      then not (compare_equal rt a b)
      else if eqb comparator (codes "<")
      then compare_less rt a b
      else if eqb comparator (codes ">")
      then compare_greater rt a b
      else if eqb comparator (codes "<=")
      then (compare_less rt a b || compare_equal rt a b)
      else if eqb comparator (codes ">=")
      then (compare_greater rt a b || compare_equal rt a b)
      else if eqb comparator (codes "IN")
      then compare_in rt a b
      else if eqb comparator (codes "NOT IN")
      then not (compare_in rt a b)
      else if eqb comparator (codes "MATCHES")
      then compare_matches rt a b
      else false

  unfoldable mutual
    -- `Evaluate` of each implementation
    pub evaluate_condition : EvaluationContext → Condition F → Bool
    evaluate_condition ctx always_true = true
    evaluate_condition ctx (field_condition field comparator v) =
        compare_by comparator (get_field_value ctx field) v
    evaluate_condition ctx (not_condition inner) = not (evaluate_condition ctx inner)
    evaluate_condition ctx (and_condition cs) = evaluate_all ctx cs
    evaluate_condition ctx (or_condition cs) = evaluate_any ctx cs

    -- The loop of `(*AndCondition).Evaluate`
    pub evaluate_all : EvaluationContext → Conditions F → Bool
    evaluate_all ctx none_left = true
    evaluate_all ctx (condition c cs) = elim (evaluate_condition ctx c) [
      | true ↦ evaluate_all ctx cs
      | false ↦ false
    ]

    -- The loop of `(*OrCondition).Evaluate`
    pub evaluate_any : EvaluationContext → Conditions F → Bool
    evaluate_any ctx none_left = false
    evaluate_any ctx (condition c cs) = elim (evaluate_condition ctx c) [
      | true ↦ true
      | false ↦ evaluate_any ctx cs
    ]
