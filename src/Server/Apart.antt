-- ===== src/Server/Apart.antt =====
-- That no service of the application hides another, meilisearch-http/src/lib.rs.
use transplant.Base.{
  ◌≡◌, ◌↔◌, inl, inr, refl, sym, subst, ap, ◌∙◌, Bool, true, false, ◌&&◌, not, some, List, [], ◌∷◌,
  In, arith, String, str_eq, eq_iff, Option-cases,
}
use transplant.Server.Routing.{
  Method, get, post, put, delete, Segment, static, dynamic, Service, Router, Fits, Takes,
  create_app, document_services, index_services, search_services, settings_services,
  attribute_services, route_of, stop_words_services, synonym_services, health_services,
  stats_services, key_services,
}

-- Whether some path could fit both patterns.
abbrev meet : List Segment → List Segment → Bool
meet [] [] = true
meet (static t ∷ p) (static u ∷ q) = let rest = meet p q in str_eq t u && rest
meet (s ∷ p) (t ∷ q) = meet p q
meet _ _ = false

abbrev same : Method → Method → Bool
same get get = true
same post post = true
same put put = true
same delete delete = true
same _ _ = false

meet-Fits : (p q : List Segment) (path : List String) → Fits p path → Fits q path → meet p q ≡ true
meet-Fits [] [] [] a b = refl
meet-Fits [] [] (x ∷ path) a b = absurd a
meet-Fits [] (t ∷ q) (x ∷ path) a b = absurd a
meet-Fits [] (static t ∷ q) [] a b = absurd b
meet-Fits [] (dynamic t ∷ q) [] a b = absurd b
meet-Fits (s ∷ p) [] (x ∷ path) a b = absurd b
meet-Fits (static s ∷ p) q [] a b = absurd a
meet-Fits (dynamic s ∷ p) q [] a b = absurd a
meet-Fits (static t ∷ p) (static u ∷ q) (x ∷ path) a b =
    let e : str_eq t u ≡ true = (eq_iff t u).1 (a.0 ∙ sym b.0) in
    rw (e, meet-Fits p q path a.1 b.1) refl
meet-Fits (static t ∷ p) (dynamic n ∷ q) (x ∷ path) a b = meet-Fits p q path a.1 b
meet-Fits (dynamic n ∷ p) (static t ∷ q) (x ∷ path) a b = meet-Fits p q path a b.1
meet-Fits (dynamic n ∷ p) (dynamic m ∷ q) (x ∷ path) a b = meet-Fits p q path a b

same_refl : (m : Method) → same m m ≡ true
same_refl get = refl
same_refl post = refl
same_refl put = refl
same_refl delete = refl

-- No service of the list has the method of this one and a pattern that some path of its own fits.
abbrev alone : Service → List Service → Bool
alone s [] = true
alone s (t ∷ l) =
    let rest = alone s l in not (same s.method t.method && meet s.pattern t.pattern) && rest

abbrev apart : List Service → Bool
apart [] = true
apart (s ∷ l) = let rest = apart l in alone s l && rest

abbrev collide : Service → Service → Bool
collide s t = same s.method t.method && meet s.pattern t.pattern

Takes-collide :
    (s t : Service) (m : Method) (path : List String)
    → Takes s m path
    → Takes t m path
    → collide s t ≡ true
Takes-collide s t m path p q =
    rw (p.0, q.0, same_refl m, meet-Fits s.pattern t.pattern path p.1 q.1) refl

alone-In :
    (s t : Service) (l : List Service) (m : Method) (path : List String)
    → alone s l ≡ true
    → In t l
    → Takes s m path
    → Takes t m path
    → ⊥
alone-In s t [] m path a i p q = i
alone-In s t (u ∷ l) m path a (inl e) p q =
    ground (arith, a, Takes-collide s u m path p (subst (λ v. Takes v m path) e q))
alone-In s t (u ∷ l) m path a (inr i) p q = alone-In s t l m path (ground (arith, a)) i p q

apart-In :
    (l : List Service) (s t : Service) (m : Method) (path : List String)
    → apart l ≡ true
    → In s l
    → In t l
    → Takes s m path
    → Takes t m path
    → s ≡ t
apart-In [] s t m path a i j p q = absurd i
apart-In (u ∷ l) s t m path a (inl e) (inl f) p q = e ∙ sym f
apart-In (u ∷ l) s t m path a (inl e) (inr j) p q =
    absurd (alone-In u t l m path (ground (arith, a)) j (subst (λ v. Takes v m path) e p) q)
apart-In (u ∷ l) s t m path a (inr i) (inl f) p q =
    absurd (alone-In u s l m path (ground (arith, a)) i (subst (λ v. Takes v m path) f q) p)
apart-In (u ∷ l) s t m path a (inr i) (inr j) p q =
    apart-In l s t m path (ground (arith, a)) i j p q

create_app-apart : (frontend : Bool) → apart (create_app frontend) ≡ true
unfolding create_app document_services index_services search_services settings_services
    attribute_services route_of stop_words_services synonym_services health_services stats_services
    key_services
create_app-apart true = refl
create_app-apart false = refl

module _ (router : Router) (frontend : Bool) where
  -- Each request has at most one service of the application that takes it, and that is the one
  -- the router finds, in whatever order it looks for it: no service hides another.
  pub find-Takes :
      (m : Method) (path : List String) (s : Service)
      → (router.find (create_app frontend) m path ≡ some s)
        ↔ (In s (create_app frontend) × Takes s m path)
  find-Takes m path s = (
    router.find-takes (create_app frontend) m path s,
    λ h. elim (Option-cases (router.find (create_app frontend) m path)) [
      | inl e ↦ absurd (router.find-none (create_app frontend) m path s e h.0 h.1)
      | inr (t, e) ↦
          let found = router.find-takes (create_app frontend) m path t e in
          let one : t ≡ s =
            apart-In (create_app frontend) t s m path (create_app-apart frontend) found.0 h.0
              found.1 h.1 in
          e ∙ ap some one
    ],
  )
