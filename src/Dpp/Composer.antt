-- ===== src/Dpp/Composer.antt =====
-- services/dpp-builder/src/services/view-composer.ts: the views of a product for the three levels of
-- access.
pub mod Latest
pub mod Audit
use zk_dpp_royalty_protocol.Common.{
  ℕ, String, Bool, true, false, Option, none, some, List, [], ◌∷◌, ◌++◌, ltb, length, map, or_text,
  if◌then◌else◌,
}
use zk_dpp_royalty_protocol.Common.JsMap
use zk_dpp_royalty_protocol.Predicates.{
  Registry, PredicateDefinition, AccessGroup, get_predicate, text,
}
use zk_dpp_royalty_protocol.Dpp.Types.{
  Product, ProductSupplierLink, VerifiedPredicate, AccessLevel, public, legit_interest, authority,
  ProductBasicInfo, VerifiedPredicateInfo, SupplierInfo, predicate_verified, supplier_linked,
  AuditEntry, DppView, view_public, view_legit_interest, view_authority,
}
use zk_dpp_royalty_protocol.Dpp.Database.{
  Tables, Postgres, get_product, get_verified_predicates, get_supplier_links,
}

abbrev pub has_legit_interest : List AccessGroup → Bool
has_legit_interest [] = false
has_legit_interest (AccessGroup.legit_interest ∷ gs) = true
has_legit_interest (g ∷ gs) = has_legit_interest gs

-- `predicate?.accessGroups.includes('LEGIT_INTEREST')`
abbrev pub lists_legit_interest : Option PredicateDefinition → Bool
lists_legit_interest none = false
lists_legit_interest (some p) = has_legit_interest p.access_groups

abbrev name_of : Option PredicateDefinition → String → String
name_of none id = id
name_of (some p) id = or_text (some p.name) id

-- `!existing || vp.verified_at > existing.verifiedAt`
abbrev pub is_newer : VerifiedPredicate → Option VerifiedPredicateInfo → Bool
is_newer vp none = true
is_newer vp (some existing) = ltb existing.verified_at vp.verified_at

module _ (registry : Registry) where
  unfoldable pub info_of : VerifiedPredicate → VerifiedPredicateInfo
  info_of vp = record {
    predicate_id = vp.predicate_id;
    predicate_name = name_of (get_predicate registry (text vp.predicate_id)) vp.predicate_id;
    result = vp.result;
    verified_at = vp.verified_at;
  }

  -- The test before `continue` in the view for a legitimate interest; the view for an authority has
  -- none.
  abbrev pub shows_legit : String → Bool
  shows_legit id = lists_legit_interest (get_predicate registry (text id))

  abbrev pub shows_all : String → Bool
  shows_all id = true

  -- One round of the loop of either view.
  unfoldable pub take_result :
      (shows : String → Bool)
      → VerifiedPredicate
      → List (String × VerifiedPredicateInfo)
      → List (String × VerifiedPredicateInfo)
  take_result shows vp m =
      if is_newer vp (JsMap.get vp.predicate_id m)
      then if shows vp.predicate_id then JsMap.set vp.predicate_id (info_of vp) m else m
      else m

  unfoldable pub predicate_results :
      (shows : String → Bool)
      → List VerifiedPredicate
      → List (String × VerifiedPredicateInfo)
      → List (String × VerifiedPredicateInfo)
  predicate_results shows [] m = m
  predicate_results shows (vp ∷ vps) m = predicate_results shows vps (take_result shows vp m)

  unfoldable pub verified_infos :
      (shows : String → Bool) → List VerifiedPredicate → List VerifiedPredicateInfo
  verified_infos shows vps = JsMap.values (predicate_results shows vps [])

abbrev basic_info : Product → ProductBasicInfo
basic_info p = record { id = p.id; sku = p.sku; name = p.name; category = p.category }

abbrev supplier_info : ProductSupplierLink → SupplierInfo
supplier_info l = record {
  id = l.supplier_id;
  commitment_root = l.commitment_root;
  public_key = l.supplier_public_key;
  linked_at = l.linked_at;
}

abbrev pub verified_entry : VerifiedPredicate → AuditEntry
verified_entry vp = record {
  timestamp = vp.verified_at;
  details = predicate_verified vp.predicate_id vp.receipt_id vp.supplier_id vp.result;
}

abbrev pub linked_entry : ProductSupplierLink → AuditEntry
linked_entry l = record {
  timestamp = l.linked_at;
  details = supplier_linked l.supplier_id l.commitment_root;
}

-- `sort` by descending time, which is stable.
abbrev pub insert_entry : AuditEntry → List AuditEntry → List AuditEntry
insert_entry e [] = e ∷ []
insert_entry e (f ∷ es) = if ltb e.timestamp f.timestamp then f ∷ insert_entry e es else e ∷ f ∷ es

unfoldable pub sort_entries : List AuditEntry → List AuditEntry
sort_entries [] = []
sort_entries (e ∷ es) = insert_entry e (sort_entries es)

unfoldable pub audit_trail : List VerifiedPredicate → List ProductSupplierLink → List AuditEntry
audit_trail vps links = sort_entries (map verified_entry vps ++ map linked_entry links)

unfoldable pub compose_public_view : Product → DppView
compose_public_view product = view_public (basic_info product)

module _ (registry : Registry) (pg : Postgres) (now : ℕ) (db : Tables) where
  unfoldable pub compose_legit_interest_view : Product → DppView
  compose_legit_interest_view product =
      view_legit_interest (basic_info product)
        (verified_infos registry (shows_legit registry)
          (get_verified_predicates pg now product.id db))
        (length (get_supplier_links pg product.id db))

  unfoldable pub compose_authority_view : Product → DppView
  compose_authority_view product =
      let vps = get_verified_predicates pg now product.id db in
      let links = get_supplier_links pg product.id db in
      view_authority (basic_info product) (verified_infos registry (shows_all registry) vps)
        (length links) (map supplier_info links) (audit_trail vps links)

  unfoldable pub compose_view : AccessLevel → Product → DppView
  compose_view public product = compose_public_view product
  compose_view legit_interest product = compose_legit_interest_view product
  compose_view authority product = compose_authority_view product

  unfoldable pub compose_dpp_view : String → AccessLevel → Option DppView
  compose_dpp_view product_id level = elim (get_product product_id db) [
    | none ↦ none
    | some product ↦ some (compose_view level product)
  ]

abbrev access_of : AccessLevel → PredicateDefinition → Bool
access_of public p = false
access_of authority p = true
access_of legit_interest p = has_legit_interest p.access_groups

-- `canAccessPredicate` of the composer
unfoldable pub can_access_predicate : Registry → AccessLevel → String → Bool
can_access_predicate registry level id = elim (get_predicate registry (text id)) [
  | none ↦ false
  | some p ↦ access_of level p
]
