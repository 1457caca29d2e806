-- ===== src/Heed/Keys.antt =====
-- The two types of keys: numbers (`BEU64` in meilisearch-http/src/index_controller/update_store.rs,
-- whose big-endian bytes sort as the numbers do) and texts (`Str` in uuid_resolver.rs, whose UTF-8
-- bytes sort as their code points do), with a text as the list of its code points.
use transplant.Base.{
  ℕ, ◌≡◌, ◌↔◌, refl, Bool, true, false, List, [], ◌∷◌, if◌then◌else◌, arith, ltb, ◌==◌, ==_iff,
  ◌&&◌,
}
use transplant.Heed.{Key}

pub nat_before_irrefl : (a : ℕ) → ltb a a ≡ false
nat_before_irrefl a = ground arith

pub nat_before_trans : (a b c : ℕ) → ltb a b ≡ true → ltb b c ≡ true → ltb a c ≡ true
nat_before_trans a b c p q = ground arith

pub nat_before_total : (a b : ℕ) → (a == b) ≡ false → ltb a b ≡ false → ltb b a ≡ true
nat_before_total a b p q = ground arith

abbrev pub nat_same : ℕ → ℕ → Bool
nat_same a b = a == b

abbrev pub nat_key : Key ℕ
nat_key = record {
  same = nat_same;
  before = ltb;
  same_iff = ==_iff;
  before_irrefl = nat_before_irrefl;
  before_trans = nat_before_trans;
  before_total = nat_before_total;
}

abbrev pub Text : Type 0
Text = List ℕ

abbrev pub text_same : Text → Text → Bool
text_same [] [] = true
text_same [] (d ∷ t) = false
text_same (c ∷ s) [] = false
text_same (c ∷ s) (d ∷ t) = (c == d) && text_same s t

-- The order of the dictionary.
abbrev pub text_before : Text → Text → Bool
text_before [] [] = false
text_before [] (d ∷ t) = true
text_before (c ∷ s) [] = false
text_before (c ∷ s) (d ∷ t) =
    let rest = text_before s t in if ltb c d then true else if c == d then rest else false

text_same_refl : (s : Text) → text_same s s ≡ true
text_same_refl [] = refl
text_same_refl (c ∷ s) = ground (arith, text_same_refl s)

text_eq_of_same : (s t : Text) → text_same s t ≡ true → s ≡ t
text_eq_of_same [] [] h = refl
text_eq_of_same [] (d ∷ t) h = cc
text_eq_of_same (c ∷ s) [] h = cc
text_eq_of_same (c ∷ s) (d ∷ t) h = ground (arith, text_eq_of_same s t)

pub text_same_iff : (s t : Text) → (text_same s t ≡ true) ↔ (s ≡ t)
text_same_iff s t = (text_eq_of_same s t, λ e. rw e (text_same_refl t))

pub text_before_irrefl : (s : Text) → text_before s s ≡ false
text_before_irrefl [] = refl
text_before_irrefl (c ∷ s) = ground (arith, text_before_irrefl s)

pub text_before_trans :
    (s t u : Text) → text_before s t ≡ true → text_before t u ≡ true → text_before s u ≡ true
text_before_trans [] [] u p q = cc
text_before_trans [] (d ∷ t) [] p q = cc
text_before_trans [] (d ∷ t) (e ∷ u) p q = refl
text_before_trans (c ∷ s) [] u p q = cc
text_before_trans (c ∷ s) (d ∷ t) [] p q = cc
text_before_trans (c ∷ s) (d ∷ t) (e ∷ u) p q = ground (arith, text_before_trans s t u)

pub text_before_total :
    (s t : Text) → text_same s t ≡ false → text_before s t ≡ false → text_before t s ≡ true
text_before_total [] [] p q = cc
text_before_total [] (d ∷ t) p q = cc
text_before_total (c ∷ s) [] p q = refl
text_before_total (c ∷ s) (d ∷ t) p q = ground (arith, text_before_total s t)

abbrev pub text_key : Key Text
text_key = record {
  same = text_same;
  before = text_before;
  same_iff = text_same_iff;
  before_irrefl = text_before_irrefl;
  before_trans = text_before_trans;
  before_total = text_before_total;
}
