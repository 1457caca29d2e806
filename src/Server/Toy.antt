-- ===== src/Server/Toy.antt =====
-- A router that looks for the first service that takes a request, and a small host, for the tests of what
-- is built on Server. Models no file of the repository.
use transplant.Base.{
  ◌≡◌, refl, sym, subst, inl, inr, Bool, true, false, ◌&&◌, Option, none, some, List, [], ◌∷◌, In,
  arith, String, str_eq, eq_iff, if◌then◌else◌, Bool-cases,
}
use transplant.Server.Routing.{
  Method, get, post, put, delete, Segment, static, dynamic, Service, Router, Fits, Takes,
}

abbrev pub same : Method → Method → Bool
same get get = true
same post post = true
same put put = true
same delete delete = true
same _ _ = false

same_refl : (m : Method) → same m m ≡ true
same_refl get = refl
same_refl post = refl
same_refl put = refl
same_refl delete = refl

same-eq : (m n : Method) → same m n ≡ true → m ≡ n
same-eq get get h = refl
same-eq post post h = refl
same-eq put put h = refl
same-eq delete delete h = refl
same-eq get post h = absurd (ground (arith, h))
same-eq get put h = absurd (ground (arith, h))
same-eq get delete h = absurd (ground (arith, h))
same-eq post get h = absurd (ground (arith, h))
same-eq post put h = absurd (ground (arith, h))
same-eq post delete h = absurd (ground (arith, h))
same-eq put get h = absurd (ground (arith, h))
same-eq put post h = absurd (ground (arith, h))
same-eq put delete h = absurd (ground (arith, h))
same-eq delete get h = absurd (ground (arith, h))
same-eq delete post h = absurd (ground (arith, h))
same-eq delete put h = absurd (ground (arith, h))

abbrev pub fits : List Segment → List String → Bool
fits [] [] = true
fits (static t ∷ p) (x ∷ l) = let rest = fits p l in str_eq t x && rest
fits (dynamic name ∷ p) (x ∷ l) = fits p l
fits _ _ = false

fits-Fits : (p : List Segment) (l : List String) → fits p l ≡ true → Fits p l
fits-Fits [] [] h = tt
fits-Fits [] (x ∷ l) h = absurd (ground (arith, h))
fits-Fits (static t ∷ p) [] h = absurd (ground (arith, h))
fits-Fits (dynamic t ∷ p) [] h = absurd (ground (arith, h))
fits-Fits (static t ∷ p) (x ∷ l) h =
    ((eq_iff t x).0 (ground (arith, h)), fits-Fits p l (ground (arith, h)))
fits-Fits (dynamic name ∷ p) (x ∷ l) h = fits-Fits p l h

Fits-fits : (p : List Segment) (l : List String) → Fits p l → fits p l ≡ true
Fits-fits [] [] h = refl
Fits-fits [] (x ∷ l) h = absurd h
Fits-fits (static t ∷ p) [] h = absurd h
Fits-fits (dynamic t ∷ p) [] h = absurd h
Fits-fits (static t ∷ p) (x ∷ l) h = ground (arith, (eq_iff t x).1 h.0, Fits-fits p l h.1)
Fits-fits (dynamic name ∷ p) (x ∷ l) h = Fits-fits p l h

abbrev pub takes : Service → Method → List String → Bool
takes s m path = same s.method m && fits s.pattern path

abbrev pub first : List Service → Method → List String → Option Service
first [] m path = none
first (s ∷ l) m path = let rest = first l m path in if takes s m path then some s else rest

takes-Takes :
    (s : Service) (m : Method) (path : List String) → takes s m path ≡ true → Takes s m path
takes-Takes s m path h =
    (same-eq s.method m (ground (arith, h)), fits-Fits s.pattern path (ground (arith, h)))

pub first-Takes :
    (l : List Service) (m : Method) (path : List String) (s : Service)
    → first l m path ≡ some s
    → In s l × Takes s m path
first-Takes [] m path s h = absurd (ground (arith, h))
first-Takes (t ∷ l) m path s h = elim (Bool-cases (takes t m path)) [
  | inl y ↦
      let e : t ≡ s = ground (arith, h, y) in
      (inl (sym e), subst (λ v. Takes v m path) e (takes-Takes t m path y))
  | inr z ↦ let rest = first-Takes l m path s (ground (arith, h, z)) in (inr rest.0, rest.1)
]

pub first-none :
    (l : List Service) (m : Method) (path : List String) (s : Service)
    → first l m path ≡ none
    → In s l
    → Takes s m path
    → ⊥
first-none [] m path s h i p = absurd i
first-none (t ∷ l) m path s h (inl e) p =
    let p' : Takes t m path = subst (λ v. Takes v m path) e p in
    let y : same t.method m ≡ true =
      subst (λ x. same t.method x ≡ true) p'.0 (same_refl t.method) in
    ground (arith, h, y, Fits-fits t.pattern path p'.1)
first-none (t ∷ l) m path s h (inr i) p = first-none l m path s (ground (arith, h)) i p

abbrev pub router : Router
router = record { find = first; find-takes = first-Takes; find-none = first-none }
