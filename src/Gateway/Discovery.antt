-- ===== src/Gateway/Discovery.antt =====
-- services/verify-gateway/src/routes/predicates.ts: the listing of predicates and the look-up of
-- one. (`getAllPredicates` and `getPredicateById` are in packages/predicate-lib/src/index.ts.)
use zk_dpp_royalty_protocol.Common.{
  ℕ, String, ◌≡◌, refl, sym, subst, ap, ◌↔◌, inl, inr, Option, none, some, List, [], ◌∷◌, map, ◌==◌,
  In, here, there, In-nil, arith, eq_iff, eq_refl, ◌≢◌, ◌∙◌, Bool-cases, Option-cases,
  if◌then◌else◌,
}
use zk_dpp_royalty_protocol.Common.JsMap
use zk_dpp_royalty_protocol.Common.JsMap.{IsMap}
use zk_dpp_royalty_protocol.Predicates.{
  Registry, PredicateDefinition, AccessGroup, PredicatePricing, ◌⧺◌, text, get_predicate,
}

pub record PredicateInfo : Type 0 where
  pub id : String
  pub name : String
  pub version : String
  pub description : String
  pub access_groups : List AccessGroup
  pub pricing : PredicatePricing

-- The fields of a definition that both routes answer with.
abbrev pub info_of : (id : String) → PredicateDefinition → PredicateInfo
info_of id p = record {
  id = id;
  name = p.name;
  version = p.version;
  description = p.description;
  access_groups = p.access_groups;
  pricing = record { per_verification = p.pricing.per_verification; currency = p.pricing.currency };
}

-- What the handler of one predicate returns, with the status.
pub data InfoReply : Type 0 where
  found : PredicateInfo → InfoReply
  missing : (code : ℕ) (error : String) → InfoReply

-- `Object.entries(registry).map(…)`
abbrev pub get_all_predicates : Registry → List (String × PredicateDefinition)
get_all_predicates registry = registry

abbrev entry_info : String × PredicateDefinition → PredicateInfo
entry_info (id, p) = info_of id p

-- GET /predicates
abbrev pub get_predicates : Registry → List PredicateInfo
get_predicates registry = map entry_info (get_all_predicates registry)

abbrev pub reply_of : (id : String) → Option PredicateDefinition → InfoReply
reply_of id none = missing 404 ("Predicate not found: " ⧺ id)
reply_of id (some p) = found (info_of id p)

-- The handler of GET /predicates/:id
unfoldable pub find_predicate_info : Registry → (id : String) → InfoReply
find_predicate_info registry id = reply_of id (get_predicate registry (text id))

-- What the client gets: the status, and the properties of the body or the error.
pub data InfoResponse : Type 0 where
  body : (code : ℕ) (properties : List (String × String)) → InfoResponse
  refused : (code : ℕ) (error : String) → InfoResponse

-- How Fastify writes an object, by the names of the properties in the schema of the response.
abbrev pub Serializer : Type 0
Serializer = (names : List String) → PredicateInfo → List (String × String)

abbrev serialized : Serializer → InfoReply → InfoResponse
serialized write (found info) = body 200 (write [] info)
serialized write (missing code error) = refused code error

-- GET /predicates/:id, whose schema for the status 200 is an object without properties
unfoldable pub get_predicate_info : Serializer → Registry → (id : String) → InfoResponse
get_predicate_info write registry id = serialized write (find_predicate_info registry id)

listed_sound :
    (registry : Registry) (info : PredicateInfo)
    → IsMap registry
    → In info (map entry_info registry)
    → (p : PredicateDefinition) × (JsMap.get info.id registry ≡ some p) × (info ≡ info_of info.id p)
unfolding JsMap.get
listed_sound [] info h i = absurd (In-nil i)
listed_sound ((id, p) ∷ registry) info (absent, h) (here e) =
    let same : id ≡ info.id = sym (ap (λ x. x.id) e) in
    (
      p,
      subst (λ j. (if id == j then some p else JsMap.get j registry) ≡ some p) same
          (rw (eq_refl id) refl),
      subst (λ j. info ≡ info_of j p) same e,
    )
listed_sound ((id, p) ∷ registry) info (absent, h) (there i) =
    let (p', got, is) = listed_sound registry info h i in
    (p', ground (arith, eq_iff id info.id, absent, got), is)

listed_complete :
    (registry : Registry) (id : String) (p : PredicateDefinition)
    → JsMap.get id registry ≡ some p
    → In (info_of id p) (map entry_info registry)
unfolding JsMap.get
listed_complete [] id p h = absurd (cc h)
listed_complete ((j, q) ∷ registry) id p h = elim (Bool-cases (j == id)) [
  | inl e ↦ here (ground (arith, eq_iff j id, h))
  | inr e ↦ there (listed_complete registry id p (ground (arith, h)))
]

reply_of-found :
    (o : Option PredicateDefinition) (id : String) (info : PredicateInfo)
    → reply_of id o ≡ found info
    → (p : PredicateDefinition) × (o ≡ some p) × (info ≡ info_of id p)
reply_of-found none id info h = absurd (cc h)
reply_of-found (some p) id info h = (p, refl, cc h)

-- A predicate is in the listing exactly when the handler of its identifier returns it.
get_predicates_iff :
    (registry : Registry) (info : PredicateInfo)
    → IsMap registry
    → In info (get_predicates registry) ↔ (find_predicate_info registry info.id ≡ found info)
unfolding find_predicate_info get_predicate
get_predicates_iff registry info h = (
  λ i.
      let (p, got, is) = listed_sound registry info h i in
      subst (λ o. reply_of info.id o ≡ found info) (sym got) (ap found (sym is)),
  λ e.
      let (p, got, is) = reply_of-found (JsMap.get info.id registry) info.id info e in
      subst (λ x. In x (map entry_info registry)) (sym is) (listed_complete registry info.id p got),
)

-- If Fastify writes only the properties that a schema names, and no identifier is in the registry
-- twice, then the route of an identifier answers 200 for each predicate of the listing, but with an
-- empty object, and 404 for every identifier that is not in the listing.
pub get_predicate_info-empty :
    (write : Serializer) (registry : Registry)
    → ((names : List String) (info : PredicateInfo) (k v : String)
        → In (k, v) (write names info)
        → In k names)
    → IsMap registry
    → ((info : PredicateInfo)
        → In info (get_predicates registry)
        → get_predicate_info write registry info.id ≡ body 200 [])
      × ((id : String)
          → ((info : PredicateInfo)
              → In info (get_predicates registry)
              → ◌≢◌ {A = String} info.id id)
          → get_predicate_info write registry id ≡ refused 404 ("Predicate not found: " ⧺ id))
unfolding get_predicate_info find_predicate_info get_predicate
get_predicate_info-empty write registry named h = (
  λ info i.
      ap (serialized write) ((get_predicates_iff registry info h).0 i)
      ∙ ap (body 200) (no_names (write [] info) (λ k v m. named [] info k v m)),
  λ id absent. elim (Option-cases (JsMap.get id registry)) [
    | inl e ↦ ap (λ o. serialized write (reply_of id o)) e
    | inr (p, e) ↦ absurd (absent (info_of id p) (listed_complete registry id p e) refl)
  ],
)
  where
    no_names :
        (ps : List (String × String))
        → ((k v : String) → In (k, v) ps → In {A = String} k [])
        → ps ≡ []
    no_names [] n = refl
    no_names ((k, v) ∷ ps) n = absurd (In-nil (n k v (here refl)))
