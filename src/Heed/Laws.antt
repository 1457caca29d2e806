-- ===== src/Heed/Laws.antt =====
-- What follows from the laws of the store interface: the first key is the least and the last the
-- greatest, a listing is fixed by its lookups, and a deletion shortens it.
use transplant.Base.{
  suc, ◌≡◌, sym, ap, ◌∙◌, ◌⊎◌, true, false, none, some, Option-cases, Bool-cases, inl, inr, [], In,
  length,
}
use transplant.Heed.{Key, Heed, lookup}
use transplant.Heed.Listing.{
  same_refl, before-ne_sym, lookup-head, head-none, least-of-head, last-greatest, without,
  Ascending-without, lookup-without, length-without, Ascending-ext, lookup-In, In-lookup, last-In,
}

antisymmetric :
    {K : Type 0} (key : Key K) {a b : K}
    → (a ≡ b) ⊎ (key.before a b ≡ true)
    → (b ≡ a) ⊎ (key.before b a ≡ true)
    → a ≡ b
antisymmetric key (inl e) q = e
antisymmetric key (inr p) (inl e) = sym e
antisymmetric key {a} {b} (inr p) (inr q) =
    absurd (cc (key.before_trans a b a p q, key.before_irrefl a))

module _ {K : Type 0} (key : Key K) (heed : Heed key) where
  open heed use {Database, get, put, delete, iter, first, last}

  module _ {V : Type 0} (d : Database V) where
    pub get_put_self : (k : K) (v : V) → get (put d k v) k ≡ some v
    get_put_self k v = rw (heed.get-put d k k v) (rw (same_refl key k))

    pub get_delete_self : (k : K) → get (delete d k) k ≡ none
    get_delete_self k = rw (heed.get-delete d k k) (rw (same_refl key k))

    pub first-get : {e : K × V} → first d ≡ some e → get d e.0 ≡ some e.1
    first-get {e} h =
        rw (heed.get-iter d e.0) (lookup-head key (iter d) (sym (heed.first-iter d) ∙ h))

    -- `first` finds nothing only in an empty store.
    pub first-none : first d ≡ none → iter d ≡ []
    first-none h = head-none key (iter d) (sym (heed.first-iter d) ∙ h)

    pub first-least :
        (k : K) {e : K × V} {v : V}
        → first d ≡ some e
        → get d k ≡ some v
        → (e.0 ≡ k) ⊎ (key.before e.0 k ≡ true)
    first-least k {e} h g =
        least-of-head key k (iter d) (heed.iter-Ascending d) (sym (heed.first-iter d) ∙ h)
          (sym (heed.get-iter d k) ∙ g)

    -- Every key of the store is the last one, or comes before it.
    pub get-le-last :
        (k : K) {v : V}
        → get d k ≡ some v
        → (e : K × V) × (last d ≡ some e) × ((k ≡ e.0) ⊎ (key.before k e.0 ≡ true))
    get-le-last k h =
        rw (heed.last-iter d)
          (last-greatest key k (iter d) (heed.iter-Ascending d) (rw (heed.get-iter d k) at h))

    -- A deletion takes one entry out of the listing.
    pub iter-delete : (k : K) → iter (delete d k) ≡ without key k (iter d)
    iter-delete k =
        Ascending-ext key (iter (delete d k)) (without key k (iter d))
          (heed.iter-Ascending (delete d k))
          (Ascending-without key k (iter d) (heed.iter-Ascending d))
          (λ i.
            sym (heed.get-iter (delete d k) i)
            ∙ heed.get-delete d k i
            ∙ rw (heed.get-iter d i)
                (sym (lookup-without key k i (iter d) (heed.iter-Ascending d))))

    pub length-delete :
        (k : K) {v : V} → get d k ≡ some v → suc (length (iter (delete d k))) ≡ length (iter d)
    length-delete k h =
        rw (iter-delete k) (length-without key k (iter d) (sym (heed.get-iter d k) ∙ h))

    pub In-iter : (k : K) (v : V) → get d k ≡ some v → In {A = K × V} (k, v) (iter d)
    In-iter k v h = In-lookup key k v (iter d) (sym (heed.get-iter d k) ∙ h)

    pub get-of-In : (k : K) (v : V) → In {A = K × V} (k, v) (iter d) → get d k ≡ some v
    get-of-In k v h = heed.get-iter d k ∙ lookup-In key k v (iter d) (heed.iter-Ascending d) h

    pub last-get : {e : K × V} → last d ≡ some e → get d e.0 ≡ some e.1
    last-get {e} h = get-of-In e.0 e.1 (last-In key (iter d) (sym (heed.last-iter d) ∙ h))

  module _ {V : Type 0} where
    -- The first entry is the one whose key no other key comes before.
    pub first_unique :
        (d : Database V) (k : K) (v : V)
        → get d k ≡ some v
        → ((j : K) (w : V) → get d j ≡ some w → (k ≡ j) ⊎ (key.before k j ≡ true))
        → first d ≡ some (k, v)
    first_unique d k v g least = elim (Option-cases (first d)) [
      | inl e ↦ absurd (cc (g, heed.get-iter d k, ap (lookup key k) (first-none d e)))
      | inr f ↦
          let e = f.0 in
          let found = first-get d f.1 in
          let same : e.0 ≡ k = antisymmetric key (first-least d k f.1 g) (least e.0 e.1 found) in
          let value : some (e.1) ≡ some v = sym found ∙ ap (get d) same ∙ g in cc (f.1, same, value)
    ]

  module _ {V : Type 0} (d : Database V) where
    -- A later key does not become the first one.
    pub first-put_later :
        (k j : K) (v w : V)
        → first d ≡ some (k, v)
        → key.before k j ≡ true
        → first (put d j w) ≡ some (k, v)
    first-put_later k j v w f later =
        first_unique (put d j w) k v
          (heed.get-put d j k w ∙ rw (before-ne_sym key k j later) (first-get d f))
          (λ i x h. elim (Bool-cases (key.same j i)) [
            | inl e ↦ inr (rw (← (key.same_iff j i).0 e) later)
            | inr n ↦ first-least d i f (rw n at (sym (heed.get-put d j i w) ∙ h))
          ])

    -- Another key's deletion leaves the first entry where it is.
    pub first-delete_ne :
        (k j : K) (v : V)
        → first d ≡ some (k, v)
        → key.same j k ≡ false
        → first (delete d j) ≡ some (k, v)
    first-delete_ne k j v f ne =
        first_unique (delete d j) k v (heed.get-delete d j k ∙ rw ne (first-get d f)) (λ i x h.
          elim (Bool-cases (key.same j i)) [
            | inl e ↦ cc (rw e at (sym (heed.get-delete d j i) ∙ h))
            | inr n ↦ first-least d i f (rw n at (sym (heed.get-delete d j i) ∙ h))
          ])
