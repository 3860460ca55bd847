-- ===== src/Dpp/Composer/Latest.antt =====
-- Which verifications a view shows.
use zk_dpp_royalty_protocol.Common.{
  ℕ, ◌≤◌, String, ◌≡◌, ◌≢◌, refl, ap, ◌∙◌, ◌⊎◌, inl, inr, Bool, true, false, Option, none, some,
  List, [], ◌∷◌, arith, eq_iff, ltb, ◌==◌, All, In, here, there, if◌then◌else◌, Bool-cases,
}
use zk_dpp_royalty_protocol.Common.JsMap
use zk_dpp_royalty_protocol.Predicates.{Registry}
use zk_dpp_royalty_protocol.Dpp.Types.{VerifiedPredicate, VerifiedPredicateInfo}
use zk_dpp_royalty_protocol.Dpp.Composer.{
  is_newer, info_of, take_result, predicate_results, verified_infos,
}

-- The entry of a predicate in a view.
abbrev pub find_info : String → List VerifiedPredicateInfo → Option VerifiedPredicateInfo
find_info k [] = none
find_info k (i ∷ is) = if i.predicate_id == k then some i else find_info k is

-- No predicate has two entries.
abbrev pub NoRepeat : List VerifiedPredicateInfo → Type 0
NoRepeat [] = Unit
NoRepeat (i ∷ is) = (find_info i.predicate_id is ≡ none) × NoRepeat is

-- Every entry of the map is under its own predicate.
abbrev Keyed : List (String × VerifiedPredicateInfo) → Type 0
Keyed [] = Unit
Keyed ((k, i) ∷ m) = (i.predicate_id ≡ k) × Keyed m

set-Keyed :
    (k : String) (i : VerifiedPredicateInfo) (m : List (String × VerifiedPredicateInfo))
    → i.predicate_id ≡ k
    → Keyed m
    → Keyed (JsMap.set k i m)
unfolding JsMap.set
set-Keyed k i [] e h = (e, tt)
set-Keyed k i ((j, v) ∷ m) e (d, h) = ground (arith, eq_iff j k, set-Keyed k i m e h)

find_info-values :
    (k : String) (m : List (String × VerifiedPredicateInfo))
    → Keyed m
    → find_info k (JsMap.values m) ≡ JsMap.get k m
unfolding JsMap.get
find_info-values k [] h = refl
find_info-values k ((j, v) ∷ m) (d, h) = ground (arith, find_info-values k m h)

values-NoRepeat :
    (m : List (String × VerifiedPredicateInfo))
    → Keyed m
    → JsMap.IsMap m
    → NoRepeat (JsMap.values m)
values-NoRepeat [] h p = tt
values-NoRepeat ((j, v) ∷ m) (d, h) (absent, p) = (
  find_info-values v.predicate_id m h ∙ ap (λ x. JsMap.get x m) d ∙ absent,
  values-NoRepeat m h p,
)

module _ (registry : Registry) (shows : String → Bool) where
  take_result-keeps :
      (vp : VerifiedPredicate) (m : List (String × VerifiedPredicateInfo))
      → Keyed m × JsMap.IsMap m
      → Keyed (take_result registry shows vp m) × JsMap.IsMap (take_result registry shows vp m)
  unfolding take_result info_of
  take_result-keeps vp m (h, p) = ground (
    arith,
    set-Keyed vp.predicate_id (info_of registry vp) m refl h,
    JsMap.set-IsMap vp.predicate_id (info_of registry vp) m p,
  )

  predicate_results-keeps :
      (vps : List VerifiedPredicate) (m : List (String × VerifiedPredicateInfo))
      → Keyed m × JsMap.IsMap m
      → Keyed (predicate_results registry shows vps m)
        × JsMap.IsMap (predicate_results registry shows vps m)
  unfolding predicate_results
  predicate_results-keeps [] m h = h
  predicate_results-keeps (vp ∷ vps) m h =
      predicate_results-keeps vps (take_result registry shows vp m) (take_result-keeps vp m h)

  module _ (k : String) where
    -- What the loop makes of one predicate's entry.
    abbrev best :
        List VerifiedPredicate → Option VerifiedPredicateInfo → Option VerifiedPredicateInfo
    best [] o = o
    best (vp ∷ vps) o = best vps (
        if vp.predicate_id == k
        then if is_newer vp o then if shows k then some (info_of registry vp) else o else o
        else o)

    get-take_result :
        (vp : VerifiedPredicate) (m : List (String × VerifiedPredicateInfo))
        → JsMap.get k (take_result registry shows vp m) ≡ (
            if vp.predicate_id == k
            then if is_newer vp (JsMap.get k m)
              then if shows k then some (info_of registry vp) else JsMap.get k m
              else JsMap.get k m
            else JsMap.get k m)
    unfolding take_result
    get-take_result vp m = elim (Bool-cases (vp.predicate_id == k)) [
      | inl y ↦
          let e = (eq_iff vp.predicate_id k).0 y in
          ground (
            arith,
            y,
            e,
            ap shows e,
            ap (λ x. JsMap.get x m) e,
            JsMap.get-set vp.predicate_id k (info_of registry vp) m,
          )
      | inr n ↦ ground (arith, n, JsMap.get-set vp.predicate_id k (info_of registry vp) m)
    ]

    get-predicate_results :
        (vps : List VerifiedPredicate) (m : List (String × VerifiedPredicateInfo))
        → JsMap.get k (predicate_results registry shows vps m) ≡ best vps (JsMap.get k m)
    unfolding predicate_results
    get-predicate_results [] m = refl
    get-predicate_results (vp ∷ vps) m =
        get-predicate_results vps (take_result registry shows vp m)
        ∙ ap (best vps) (get-take_result vp m)

    -- No verification of the predicate is later.
    abbrev pub NoneLater : ℕ → List VerifiedPredicate → Type 0
    NoneLater t vps = All (λ vp. vp.predicate_id ≡ k → vp.verified_at ≤ t) vps

    abbrev pub IsFrom : List VerifiedPredicate → VerifiedPredicateInfo → Type 0
    IsFrom vps i =
        (vp : VerifiedPredicate) × In vp vps × (vp.predicate_id ≡ k) × (i ≡ info_of registry vp)

    IsFrom-tail :
        (vp : VerifiedPredicate) (vps : List VerifiedPredicate) (i i' : VerifiedPredicateInfo)
        → (i' ≡ i) ⊎ IsFrom vps i'
        → (i' ≡ i) ⊎ IsFrom (vp ∷ vps) i'
    IsFrom-tail vp vps i i' (inl e) = inl e
    IsFrom-tail vp vps i i' (inr (q, m, h, e)) = inr (q, there m, h, e)

    IsFrom-head :
        (vp : VerifiedPredicate) (vps : List VerifiedPredicate)
        → vp.predicate_id ≡ k
        → (i' : VerifiedPredicateInfo) → (i' ≡ info_of registry vp) ⊎ IsFrom vps i'
        → IsFrom (vp ∷ vps) i'
    IsFrom-head vp vps same i' (inl e) = (vp, here refl, same, e)
    IsFrom-head vp vps same i' (inr (q, m, h, e)) = (q, there m, h, e)

    best-some :
        (vps : List VerifiedPredicate) (i : VerifiedPredicateInfo)
        → shows k ≡ true
        → (i' : VerifiedPredicateInfo) × (best vps (some i) ≡ some i')
          × (i.verified_at ≤ i'.verified_at)
          × NoneLater i'.verified_at vps
          × ((i' ≡ i) ⊎ IsFrom vps i')
    unfolding info_of
    best-some [] i s = (i, refl, omega arith, tt, inl refl)
    best-some (vp ∷ vps) i s = elim (Bool-cases (vp.predicate_id == k)) [
      | inr n ↦
          let (i', e, le, later, from) = best-some vps i s in
          rw n (
            i',
            e,
            le,
            (λ same. absurd (ground (arith, n, same, eq_iff vp.predicate_id k)), later),
            IsFrom-tail vp vps i i' from,
          )
      | inl y ↦
          let same = (eq_iff vp.predicate_id k).0 y in
          elim (Bool-cases (ltb i.verified_at vp.verified_at)) [
            | inr o ↦
                let (i', e, le, later, from) = best-some vps i s in
                rw (y, o) (i', e, le, (λ h. ground (arith, o), later), IsFrom-tail vp vps i i' from)
            | inl o ↦
                let (i', e, le, later, from) = best-some vps (info_of registry vp) s in
                rw (y, o, s)
                  (
                    i',
                    e,
                    ground (arith, o),
                    (λ h. le, later),
                    inr (IsFrom-head vp vps same i' from),
                  )
          ]
    ]

    best-none :
        (vps : List VerifiedPredicate)
        → shows k ≡ false
        → (o : Option VerifiedPredicateInfo) → best vps o ≡ o
    best-none [] s o = refl
    best-none (vp ∷ vps) s o = ground (arith, s, best-none vps s o)

    -- What a view may say of the predicate.
    abbrev pub Shown : List VerifiedPredicate → Option VerifiedPredicateInfo → Type 0
    Shown vps none = shows k ≡ true → All (λ vp. ◌≢◌ {A = String} vp.predicate_id k) vps
    Shown vps (some i) = (shows k ≡ true) × IsFrom vps i × NoneLater i.verified_at vps

    Shown-skip :
        (vp : VerifiedPredicate) (vps : List VerifiedPredicate) (o : Option VerifiedPredicateInfo)
        → ◌≢◌ {A = String} vp.predicate_id k
        → Shown vps o
        → Shown (vp ∷ vps) o
    Shown-skip vp vps none n h = λ s. (n, h s)
    Shown-skip vp vps (some i) n (s, (q, m, e, same), later) =
        (s, (q, there m, e, same), (λ h. absurd (n h), later))

    best-Shown : (vps : List VerifiedPredicate) → shows k ≡ true → Shown vps (best vps none)
    unfolding info_of
    best-Shown [] s = λ h. tt
    best-Shown (vp ∷ vps) s = elim (Bool-cases (vp.predicate_id == k)) [
      | inr n ↦ rw n (
          Shown-skip vp vps (best vps none)
            (λ e. absurd (ground (arith, n, e, eq_iff vp.predicate_id k))) (best-Shown vps s))
      | inl y ↦
          let same = (eq_iff vp.predicate_id k).0 y in
          let (i, e, le, later, from) = best-some vps (info_of registry vp) s in
          rw (y, s, e) (s, IsFrom-head vp vps same i from, (λ h. le, later))
    ]

    predicate_results-Shown :
        (vps : List VerifiedPredicate)
        → Shown vps (JsMap.get k (predicate_results registry shows vps []))
    unfolding JsMap.get
    predicate_results-Shown vps = rw (get-predicate_results vps []) (elim (Bool-cases (shows k)) [
      | inl s ↦ best-Shown vps s
      | inr n ↦ rw (best-none vps n none) (λ s. absurd (ground (arith, n, s)))
    ])

  -- A view has at most one entry for a predicate. If it has one, the view shows that predicate and
  -- the entry is that of a verification than which no other of the predicate is later; if it has
  -- none, the predicate is not shown or has no verification.
  pub verified_infos-Shown :
      (vps : List VerifiedPredicate)
      → let infos = verified_infos registry shows vps in
        NoRepeat infos × ((k : String) → Shown k vps (find_info k infos))
  unfolding verified_infos
  verified_infos-Shown vps =
      let (keyed, map) = predicate_results-keeps vps [] (tt, tt) in
      let m = predicate_results registry shows vps [] in
      (
        values-NoRepeat m keyed map,
        λ k. rw (find_info-values k m keyed) (predicate_results-Shown k vps),
      )
