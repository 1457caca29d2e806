-- ===== src/Heed/Listing.antt =====
-- Listings in ascending order of their keys, as a store of the `heed` crate returns them: their
-- heads, their last entries, and the listing without one key.
use transplant.Base.{
  suc, ◌≡◌, refl, sym, ap, ◌∙◌, subst, ◌⊎◌, inl, inr, true, false, Bool-cases, none, some, List, [],
  ◌∷◌, head?, last?, if◌then◌else◌, arith, length, In,
}
use transplant.Heed.{Key, lookup, Above, Ascending}

module _ {K : Type 0} (key : Key K) where
  pub same_refl : (a : K) → key.same a a ≡ true
  same_refl a = (key.same_iff a a).1 refl

  -- A key is not before itself, under any of its names.
  pub before-ne : (a b : K) → key.before a b ≡ true → key.same a b ≡ false
  before-ne a b h = elim (Bool-cases (key.same a b)) [
    | inl e ↦ cc (h, key.before_irrefl a, (key.same_iff a b).0 e)
    | inr n ↦ n
  ]

  pub before-ne_sym : (a b : K) → key.before a b ≡ true → key.same b a ≡ false
  before-ne_sym a b h = elim (Bool-cases (key.same b a)) [
    | inl e ↦ cc (h, key.before_irrefl a, (key.same_iff b a).0 e)
    | inr n ↦ n
  ]

  module _ {V : Type 0} where
    pub lookup-Above : (k : K) (l : List (K × V)) → Above key k l → lookup key k l ≡ none
    lookup-Above k [] h = refl
    lookup-Above k ((j, v) ∷ l) h = rw (before-ne_sym k j h.0) (lookup-Above k l h.1)

    pub Above-before :
        (k j : K) (l : List (K × V)) → key.before k j ≡ true → Above key j l → Above key k l
    Above-before k j [] b h = tt
    Above-before k j ((i, v) ∷ l) b h = (key.before_trans k j i b h.0, Above-before k j l b h.1)

    -- A key that is found is above every key that the listing is above.
    pub lookup-Above' :
        (k j : K) (l : List (K × V)) {v : V}
        → Above key k l
        → lookup key j l ≡ some v
        → key.before k j ≡ true
    lookup-Above' k j [] h e = cc
    lookup-Above' k j ((i, w) ∷ l) h e = elim (Bool-cases (key.same i j)) [
      | inl s ↦ rw ((key.same_iff i j).0 s) at h.0
      | inr s ↦ lookup-Above' k j l h.1 (rw s at e)
    ]

    -- The head of an ascending listing is its least key.
    pub head-least :
        (k j : K) (v : V) (l : List (K × V)) {w : V}
        → Ascending key ((k, v) ∷ l)
        → lookup key j ((k, v) ∷ l) ≡ some w
        → (k ≡ j) ⊎ (key.before k j ≡ true)
    head-least k j v l h e = elim (Bool-cases (key.same k j)) [
      | inl s ↦ inl ((key.same_iff k j).0 s)
      | inr s ↦ inr (lookup-Above' k j l h.0 (rw s at e))
    ]

    -- An ascending listing that starts at `k` ends at `k` or after it.
    last-cons :
        (k : K) (v : V) (l : List (K × V))
        → Ascending key ((k, v) ∷ l)
        → (e : K × V) × (last? ((k, v) ∷ l) ≡ some e) × ((k ≡ e.0) ⊎ (key.before k e.0 ≡ true))
    last-cons k v [] h = ((k, v), refl, inl refl)
    last-cons k v ((i, u) ∷ l) h =
        let (e, is_last, order) = last-cons i u l h.1 in
        (
          e,
          is_last,
          inr (elim order [ inl p ↦ rw p at (h.0.0) | inr b ↦ key.before_trans k i e.0 h.0.0 b ]),
        )

    -- The last entry of an ascending listing has its greatest key.
    pub last-greatest :
        (j : K) (l : List (K × V)) {w : V}
        → Ascending key l
        → lookup key j l ≡ some w
        → (e : K × V) × (last? l ≡ some e) × ((j ≡ e.0) ⊎ (key.before j e.0 ≡ true))
    last-greatest j [] h e = cc
    last-greatest j ((k, v) ∷ []) h e = elim (Bool-cases (key.same k j)) [
      | inl s ↦ ((k, v), refl, inl (sym ((key.same_iff k j).0 s)))
      | inr s ↦ cc (rw s at e)
    ]
    last-greatest j ((k, v) ∷ (i, u) ∷ l) h e = elim (Bool-cases (key.same k j)) [
      | inl s ↦ rw (← (key.same_iff k j).0 s) (last-cons k v ((i, u) ∷ l) h)
      | inr s ↦ last-greatest j ((i, u) ∷ l) h.1 (rw s at e)
    ]

    head-eq :
        (k j : K) (v w : V) (l m : List (K × V))
        → Ascending key ((k, v) ∷ l)
        → Ascending key ((j, w) ∷ m)
        → lookup key k ((j, w) ∷ m) ≡ some v
        → lookup key j ((k, v) ∷ l) ≡ some w
        → k ≡ j
    head-eq k j v w l m hl hm p q = elim (head-least j k w m hm p) [
      | inl e ↦ sym e
      | inr b ↦ elim (head-least k j v l hl q) [
        | inl e ↦ e
        | inr c ↦ absurd (cc (key.before_trans k j k c b, key.before_irrefl k))
      ]
    ]

    tail-same :
        (k : K) (v w : V) (l m : List (K × V))
        → Above key k l
        → Above key k m
        → ((i : K) → lookup key i ((k, v) ∷ l) ≡ lookup key i ((k, w) ∷ m))
        → (i : K) → lookup key i l ≡ lookup key i m
    tail-same k v w l m hl hm same i = elim (Bool-cases (key.same k i)) [
      | inl e ↦
          let e' : k ≡ i = (key.same_iff k i).0 e in
          rw (← e') (lookup-Above k l hl ∙ sym (lookup-Above k m hm))
      | inr n ↦ rw n at (same i)
    ]

    -- Two ascending listings with the same lookups are the same listing.
    pub Ascending-ext :
        (l m : List (K × V))
        → Ascending key l
        → Ascending key m
        → ((k : K) → lookup key k l ≡ lookup key k m)
        → l ≡ m
    Ascending-ext [] [] hl hm same = refl
    Ascending-ext [] ((k, v) ∷ m) hl hm same = cc (rw (same_refl k) at (same k))
    Ascending-ext ((k, v) ∷ l) [] hl hm same = cc (rw (same_refl k) at (same k))
    Ascending-ext ((k, v) ∷ l) ((j, w) ∷ m) hl hm same =
        let e : k ≡ j =
          head-eq k j v w l m hl hm (sym (same k) ∙ rw (same_refl k)) (same j ∙ rw (same_refl j)) in
        let same' : (i : K) → lookup key i ((k, v) ∷ l) ≡ lookup key i ((k, w) ∷ m) =
          λ i. rw e (rw e at (same i)) in
        let found : some v ≡ some w = rw (same_refl k) at (same' k) in
        let vw : v ≡ w = cc found in
        let above : Above key k m = rw e hm.0 in
        cc (e, vw, Ascending-ext l m hl.1 hm.1 (tail-same k v w l m hl.0 above same'))

module _ {K : Type 0} (key : Key K) {V : Type 0} where
  -- The listing with one key taken out.
  abbrev pub without : K → List (K × V) → List (K × V)
  without k [] = []
  without k ((j, v) ∷ l) = if key.same j k then l else (j, v) ∷ without k l

  Above-without : (i k : K) (l : List (K × V)) → Above key i l → Above key i (without k l)
  Above-without i k [] h = tt
  Above-without i k ((j, v) ∷ l) h = elim (Bool-cases (key.same j k)) [
    | inl e ↦ rw e (h.1)
    | inr n ↦ rw n (h.0, Above-without i k l h.1)
  ]

  pub Ascending-without : (k : K) (l : List (K × V)) → Ascending key l → Ascending key (without k l)
  Ascending-without k [] h = tt
  Ascending-without k ((j, v) ∷ l) h = elim (Bool-cases (key.same j k)) [
    | inl e ↦ rw e (h.1)
    | inr n ↦ rw n (Above-without j k l h.0, Ascending-without k l h.1)
  ]

  pub lookup-without :
      (k i : K) (l : List (K × V))
      → Ascending key l
      → lookup key i (without k l) ≡ (if key.same k i then none else lookup key i l)
  lookup-without k i [] h = ground arith
  lookup-without k i ((j, v) ∷ l) h = ground (
    arith,
    key.same_iff j k,
    key.same_iff k i,
    key.same_iff j i,
    lookup-without k i l h.1,
    lookup-Above key j l h.0,
  )

  pub length-without :
      (k : K) (l : List (K × V)) {v : V}
      → lookup key k l ≡ some v
      → suc (length (without k l)) ≡ length l
  length-without k [] e = cc
  length-without k ((j, w) ∷ l) e = elim (Bool-cases (key.same j k)) [
    | inl s ↦ rw s
    | inr s ↦ rw s (ap suc (length-without k l (rw s at e)))
  ]

module _ {K : Type 0} (key : Key K) {V : Type 0} where
  pub head-none : (l : List (K × V)) → head? l ≡ none → l ≡ []
  head-none [] h = refl
  head-none (e ∷ l) h = cc

  pub lookup-head : (l : List (K × V)) {e : K × V} → head? l ≡ some e → lookup key e.0 l ≡ some e.1
  lookup-head [] h = cc
  lookup-head ((k, v) ∷ l) {e} h =
      let p : ◌≡◌ {A = K × V} (k, v) e = cc h in
      subst (λ (x : K × V). lookup key x.0 ((k, v) ∷ l) ≡ some x.1) p (rw (same_refl key k))

  pub least-of-head :
      (j : K) (l : List (K × V)) {e : K × V} {w : V}
      → Ascending key l
      → head? l ≡ some e
      → lookup key j l ≡ some w
      → (e.0 ≡ j) ⊎ (key.before e.0 j ≡ true)
  least-of-head j [] h p q = cc
  least-of-head j ((k, v) ∷ l) {e} h p q =
      let r : ◌≡◌ {A = K × V} (k, v) e = cc p in
      subst (λ (x : K × V). (x.0 ≡ j) ⊎ (key.before x.0 j ≡ true)) r (head-least key k j v l h q)

  -- An entry that is listed is found, and an entry that is found is listed.
  pub lookup-In :
      (k : K) (v : V) (l : List (K × V))
      → Ascending key l
      → In {A = K × V} (k, v) l
      → lookup key k l ≡ some v
  lookup-In k v [] h m = absurd m
  lookup-In k v ((j, w) ∷ l) h (inl e) =
      let kj : k ≡ j = ap (λ (x : K × V). x.0) e in
      let vw : v ≡ w = ap (λ (x : K × V). x.1) e in rw (kj, same_refl key j, vw)
  lookup-In k v ((j, w) ∷ l) h (inr m) =
      let found = lookup-In k v l h.1 m in
      rw (before-ne key j k (lookup-Above' key j k l h.0 found)) found

  pub In-lookup :
      (k : K) (v : V) (l : List (K × V)) → lookup key k l ≡ some v → In {A = K × V} (k, v) l
  In-lookup k v [] e = cc
  In-lookup k v ((j, w) ∷ l) e = elim (Bool-cases (key.same j k)) [
    | inl s ↦ let found : some w ≡ some v = rw s at e in inl (cc ((key.same_iff j k).0 s, found))
    | inr s ↦ inr (In-lookup k v l (rw s at e))
  ]

  pub last-In : (l : List (K × V)) {e : K × V} → last? l ≡ some e → In e l
  last-In [] h = cc
  last-In (x ∷ []) h = inl (cc h)
  last-In (x ∷ y ∷ l) h = inr (last-In (y ∷ l) h)
