-- ===== src/Index/Highlight/Laws.antt =====
-- What highlighting writes into a document, meilisearch-http/src/index/search.rs.
use transplant.Base.{
  ◌≡◌, refl, sym, ap, ◌∙◌, Bool, true, false, Bool-cases, none, some, List, [], ◌∷◌, String, ◌<>◌,
  arith, inl, inr, if◌then◌else◌, str_eq,
}
use transplant.Index.Json.{
  Value, Values, Fields, Document, null, boolean, number, string, array, object, nil, cons, end,
  field, contains, lookup,
}
use transplant.Index.Highlight.{
  Analyzer, push_tokens, highlight_value, highlight_values, highlight_fields, highlight_record,
}
use Prim.Native.String.append
use text.Mathlib.TextLemmas.{append-nil, append_assoc}
use text.Mathlib.TextEquality.{eq_iff}

-- The value with a function applied to each string in it, at any depth, the keys aside.
mutual
  pub map_strings : (String → String) → Value → Value
  map_strings f null = null
  map_strings f (boolean b) = boolean b
  map_strings f (number n) = number n
  map_strings f (string s) = string (f s)
  map_strings f (array vs) = array (map_each f vs)
  map_strings f (object fs) = object (map_fields f fs)

  map_each : (String → String) → Values → Values
  map_each f nil = nil
  map_each f (cons v vs) = cons (map_strings f v) (map_each f vs)

  map_fields : (String → String) → Fields → Fields
  map_fields f end = end
  map_fields f (field k v fs) = field k (map_strings f v) (map_fields f fs)

marked_assoc :
    (out word : String)
    → ((out <> "<mark>") <> word) <> "</mark>" ≡ out <> ("<mark>" <> (word <> "</mark>"))
marked_assoc out word =
    append_assoc (out <> "<mark>") word "</mark>" ∙ append_assoc out "<mark>" (word <> "</mark>")

module _ (analyzer : Analyzer) where
  open analyzer use {Token, reconstruct, is_word, text}

  -- The pieces of a text, put together.
  abbrev pub words : List (String × Token) → String
  words [] = ""
  words ((word, token) ∷ l) = word <> words l

  module _ (matches : String → Bool) where
    -- One piece, within marks if it is a word that matches.
    abbrev pub piece : String → Token → String
    piece word token =
        if is_word token
        then (if matches (text token) then "<mark>" <> (word <> "</mark>") else word)
        else word

    abbrev pub pieces : List (String × Token) → String
    pieces [] = ""
    pieces ((word, token) ∷ l) = piece word token <> pieces l

    -- A string of the highlighted value: the pieces of the old one, those that match within marks.
    push_tokens-pieces :
        (l : List (String × Token)) (out : String)
        → push_tokens analyzer matches out l ≡ out <> pieces l
    unfolding push_tokens
    push_tokens-pieces [] out = sym (append-nil out)
    push_tokens-pieces ((word, token) ∷ l) out =
        let next =
          if is_word token
          then (if matches (text token)
              then ((out <> "<mark>") <> word) <> "</mark>"
              else out <> word)
          else out <> word in
        let step : next ≡ out <> piece word token = ground (arith, marked_assoc out word) in
        push_tokens-pieces l next
        ∙ ap (λ x. x <> pieces l) step
        ∙ append_assoc out (piece word token) (pieces l)

    pieces-words :
        ((token : Token) → is_word token ≡ true → matches (text token) ≡ false)
        → (l : List (String × Token)) → pieces l ≡ words l
    pieces-words quiet [] = refl
    pieces-words quiet ((word, token) ∷ l) =
        let rest = pieces-words quiet l in ground (arith, rest, quiet token)

    module _ (faithful : (s : String) → words (reconstruct s) ≡ s)
        (quiet : (token : Token) → is_word token ≡ true → matches (text token) ≡ false) where
      push_tokens-same : (s : String) → push_tokens analyzer matches "" (reconstruct s) ≡ s
      push_tokens-same s =
          push_tokens-pieces (reconstruct s) ""
          ∙ append.nil (pieces (reconstruct s))
          ∙ pieces-words quiet (reconstruct s)
          ∙ faithful s

      mutual
        unfolding highlight_value highlight_values highlight_fields

        value-same : (v : Value) → highlight_value analyzer matches v ≡ v
        value-same null = refl
        value-same (boolean b) = refl
        value-same (number n) = refl
        value-same (string s) = ap string (push_tokens-same s)
        value-same (array vs) = ap array (values-same vs)
        value-same (object fs) = ap object (fields-same fs)

        values-same : (vs : Values) → highlight_values analyzer matches vs ≡ vs
        values-same nil = refl
        values-same (cons v vs) =
            ap (λ x. cons x (highlight_values analyzer matches vs)) (value-same v)
            ∙ ap (cons v) (values-same vs)

        fields-same : (fs : Fields) → highlight_fields analyzer matches fs ≡ fs
        fields-same end = refl
        fields-same (field k v fs) =
            ap (λ x. field k x (highlight_fields analyzer matches fs)) (value-same v)
            ∙ ap (field k v) (fields-same fs)

    -- The highlighted text: the pieces that the tokenizer gives of it, in their order, each word that
    -- matches within marks.
    abbrev pub marked : String → String
    marked s = pieces (reconstruct s)

    marked-push_tokens : (s : String) → push_tokens analyzer matches "" (reconstruct s) ≡ marked s
    marked-push_tokens s =
        push_tokens-pieces (reconstruct s) "" ∙ append.nil (pieces (reconstruct s))

    mutual
      unfolding highlight_value highlight_values highlight_fields map_strings map_each map_fields

      highlight_value-strings :
          (v : Value) → highlight_value analyzer matches v ≡ map_strings marked v
      highlight_value-strings null = refl
      highlight_value-strings (boolean b) = refl
      highlight_value-strings (number n) = refl
      highlight_value-strings (string s) = ap string (marked-push_tokens s)
      highlight_value-strings (array vs) = ap array (highlight_values-strings vs)
      highlight_value-strings (object fs) = ap object (highlight_fields-strings fs)

      highlight_values-strings :
          (vs : Values) → highlight_values analyzer matches vs ≡ map_each marked vs
      highlight_values-strings nil = refl
      highlight_values-strings (cons v vs) =
          ap (λ x. cons x (highlight_values analyzer matches vs)) (highlight_value-strings v)
          ∙ ap (cons (map_strings marked v)) (highlight_values-strings vs)

      highlight_fields-strings :
          (fs : Fields) → highlight_fields analyzer matches fs ≡ map_fields marked fs
      highlight_fields-strings end = refl
      highlight_fields-strings (field k v fs) =
          ap (λ x. field k x (highlight_fields analyzer matches fs)) (highlight_value-strings v)
          ∙ ap (field k (map_strings marked v)) (highlight_fields-strings fs)

    -- Highlighting changes no attribute but those that are asked for: an attribute is in the highlighted
    -- document exactly if it is in the document, and then with its own value if it is not asked for. If it is
    -- asked for, each string in its value, at any depth, is replaced by the pieces that the tokenizer gives of
    -- it, in their order, with each word that matches between `<mark>` and `</mark>`; the keys and the
    -- values of other kinds stay.
    pub highlight_record-lookup :
        (attributes : List String) (document : Document) (key : String)
        → lookup key (highlight_record analyzer matches attributes document)
          ≡ elim (lookup key document) [
            | none ↦ none
            | some value ↦
                some (if contains attributes key then map_strings marked value else value)
          ]
    unfolding highlight_record lookup
    highlight_record-lookup attributes end key = refl
    highlight_record-lookup attributes (field k v fs) key =
        let rest = highlight_record-lookup attributes fs key in
        elim (Bool-cases (str_eq key k)) [
          | inl t ↦
              let same : contains attributes k ≡ contains attributes key =
                ap (contains attributes) (sym ((eq_iff key k).0 t)) in
              ground (arith, t, same, highlight_value-strings v)
          | inr t ↦ ground (arith, t, rest)
        ]

  -- Where the pieces that the tokenizer gives of every text make up that text, and no word matches,
  -- highlighting returns the value that it is given, at any depth.
  pub highlight_value-unmatched :
      (matches : String → Bool) (value : Value)
      → ((s : String) → words (reconstruct s) ≡ s)
      → ((token : Token) → is_word token ≡ true → matches (text token) ≡ false)
      → highlight_value analyzer matches value ≡ value
  highlight_value-unmatched matches value faithful quiet = value-same matches faithful quiet value
