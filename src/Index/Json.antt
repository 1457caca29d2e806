-- ===== src/Index/Json.antt =====
-- `serde_json::Value` and `Map<String, Value>`, as meilisearch-http/src/index matches on them. A number,
-- which the code only passes on, is its text.
use transplant.Base.{
  Bool, true, false, Option, none, some, List, [], ◌∷◌, String, if◌then◌else◌, str_eq,
}

mutual
  pub data Value : Type 0 where
    null : Value
    boolean : Bool → Value
    number string : String → Value
    array : Values → Value
    object : Fields → Value

  pub data Values : Type 0 where
    nil : Values
    cons : Value → Values → Values

  pub data Fields : Type 0 where
    end : Fields
    field : String → Value → Fields → Fields

abbrev pub Document : Type 0
Document = Fields

unfoldable pub lookup : String → Fields → Option Value
lookup k end = none
lookup k (field k' v fs) = let rest = lookup k fs in if str_eq k k' then some v else rest

-- `contains` of a set of strings.
abbrev pub contains : List String → String → Bool
contains [] k = false
contains (a ∷ l) k = let rest = contains l k in if str_eq k a then true else rest
