-- ===== src/Index/Highlight.antt =====
-- `Highlighter`, meilisearch-http/src/index/search.rs.
pub mod Laws
use transplant.Base.{
  ℕ, Bool, true, false, Option, none, some, List, [], ◌∷◌, String, ◌<>◌, if◌then◌else◌,
}
use transplant.Index.Json.{
  Value, Values, Fields, Document, null, boolean, number, string, array, object, nil, cons, end,
  field, contains,
}

-- The tokenizer's crate: `reconstruct` gives each token of a text with the piece of the text that it
-- stands for.
pub record Analyzer : Type 1 where
  pub Token : Type 0
  pub reconstruct : String → List (String × Token)
  pub is_word : Token → Bool
  pub text : Token → String

module _ (analyzer : Analyzer) where
  open analyzer use {Token, reconstruct, is_word, text}

  -- The loop over the tokens; `matches` is the method of the words to highlight.
  unfoldable pub push_tokens : (String → Bool) → String → List (String × Token) → String
  push_tokens matches out [] = out
  push_tokens matches out ((word, token) ∷ l) =
      let marked =
        if matches (text token) then ((out <> "<mark>") <> word) <> "</mark>" else out <> word in
      push_tokens matches (if is_word token then marked else out <> word) l

  unfoldable mutual
    unfolding push_tokens

    pub highlight_value : (String → Bool) → Value → Value
    highlight_value matches null = null
    highlight_value matches (boolean b) = boolean b
    highlight_value matches (number n) = number n
    highlight_value matches (string old_string) =
        string (push_tokens matches "" (reconstruct old_string))
    highlight_value matches (array values) = array (highlight_values matches values)
    highlight_value matches (object fields) = object (highlight_fields matches fields)

    pub highlight_values : (String → Bool) → Values → Values
    highlight_values matches nil = nil
    highlight_values matches (cons v vs) =
        cons (highlight_value matches v) (highlight_values matches vs)

    pub highlight_fields : (String → Bool) → Fields → Fields
    highlight_fields matches end = end
    highlight_fields matches (field k v fs) =
        field k (highlight_value matches v) (highlight_fields matches fs)

  unfoldable pub highlight_record : (String → Bool) → List String → Document → Document
  highlight_record matches attributes end = end
  highlight_record matches attributes (field key value fs) =
      let rest = highlight_record matches attributes fs in
      field key (if contains attributes key then highlight_value matches value else value) rest
