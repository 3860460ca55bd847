-- ===== src/Dpp/Composer/Audit.antt =====
-- The audit trail of the view for an authority.
use mathlib.Core.List.Perm
use mathlib.Core.List.{Perm}
use zk_dpp_royalty_protocol.Common.{
  ℕ, ◌≤◌, String, ◌≡◌, ◌&&◌, ◌==◌, Option, some, filter, List, [], ◌∷◌, ◌++◌, arith, ltb, map, All,
  Bool-cases, inl, inr,
}
use zk_dpp_royalty_protocol.Predicates.{Registry}
use zk_dpp_royalty_protocol.Dpp.Types.{
  Product, ProductSupplierLink, VerifiedPredicate, AuditEntry, DppView, view_authority, authority,
}
use zk_dpp_royalty_protocol.Dpp.Database.{
  Tables, Postgres, get_product, is_current, get_verified_predicates, get_supplier_links,
}
use zk_dpp_royalty_protocol.Dpp.Composer.{
  verified_entry, linked_entry, insert_entry, sort_entries, audit_trail, compose_authority_view,
  compose_view, compose_dpp_view,
}

abbrev NoneAfter : ℕ → List AuditEntry → Type 0
NoneAfter t es = All (λ e. e.timestamp ≤ t) es

-- Every entry is at least as late as those after it.
abbrev pub IsLatestFirst : List AuditEntry → Type 0
IsLatestFirst [] = Unit
IsLatestFirst (e ∷ es) = All (λ f. f.timestamp ≤ e.timestamp) es × IsLatestFirst es

NoneAfter-mono : (s t : ℕ) (es : List AuditEntry) → s ≤ t → NoneAfter s es → NoneAfter t es
NoneAfter-mono s t [] le h = tt
NoneAfter-mono s t (e ∷ es) le (p, h) = (omega arith, NoneAfter-mono s t es le h)

insert_entry-NoneAfter :
    (t : ℕ) (e : AuditEntry) (es : List AuditEntry)
    → e.timestamp ≤ t
    → NoneAfter t es
    → NoneAfter t (insert_entry e es)
insert_entry-NoneAfter t e [] p h = (p, tt)
insert_entry-NoneAfter t e (f ∷ es) p (q, h) = elim (Bool-cases (ltb e.timestamp f.timestamp)) [
  | inl y ↦ rw y (q, insert_entry-NoneAfter t e es p h)
  | inr n ↦ rw n (p, (q, h))
]

insert_entry-IsLatestFirst :
    (e : AuditEntry) (es : List AuditEntry) → IsLatestFirst es → IsLatestFirst (insert_entry e es)
insert_entry-IsLatestFirst e [] h = (tt, tt)
insert_entry-IsLatestFirst e (f ∷ es) (after, h) = elim (Bool-cases (ltb e.timestamp f.timestamp)) [
  | inl y ↦ rw y (
    insert_entry-NoneAfter f.timestamp e es (ground (arith, y)) after,
    insert_entry-IsLatestFirst e es h,
  )
  | inr n ↦
      let le : f.timestamp ≤ e.timestamp = ground (arith, n) in
      rw n ((le, NoneAfter-mono f.timestamp e.timestamp es le after), (after, h))
]

insert_entry-perm : (e : AuditEntry) (es : List AuditEntry) → Perm (insert_entry e es) (e ∷ es)
insert_entry-perm e [] = Perm.refl (e ∷ [])
insert_entry-perm e (f ∷ es) = elim (Bool-cases (ltb e.timestamp f.timestamp)) [
  | inl y ↦ rw y (Perm.trans (Perm.cons f (insert_entry-perm e es)) (Perm.swap e f es))
  | inr n ↦ rw n (Perm.refl (e ∷ f ∷ es))
]

sort_entries-perm : (es : List AuditEntry) → Perm (sort_entries es) es
unfolding sort_entries
sort_entries-perm [] = Perm.refl []
sort_entries-perm (e ∷ es) =
    Perm.trans (insert_entry-perm e (sort_entries es)) (Perm.cons e (sort_entries-perm es))

sort_entries-IsLatestFirst : (es : List AuditEntry) → IsLatestFirst (sort_entries es)
unfolding sort_entries
sort_entries-IsLatestFirst [] = tt
sort_entries-IsLatestFirst (e ∷ es) =
    insert_entry-IsLatestFirst e (sort_entries es) (sort_entries-IsLatestFirst es)

-- The audit trail has one entry for each of the verifications and links it is made of, and no other,
-- the latest first.
audit_trail-perm :
    (vps : List VerifiedPredicate) (links : List ProductSupplierLink)
    → Perm (audit_trail vps links) (map verified_entry vps ++ map linked_entry links)
      × IsLatestFirst (audit_trail vps links)
unfolding audit_trail
audit_trail-perm vps links =
    let es = map verified_entry vps ++ map linked_entry links in
    (sort_entries-perm es, sort_entries-IsLatestFirst es)

-- The trail in a view, empty in the views that have none.
abbrev pub trail_of : Option DppView → List AuditEntry
trail_of (some (view_authority product infos count suppliers trail)) = trail
trail_of _ = []

-- If the ORDER BYs only reorder rows, the view for an authority has in its audit trail one entry
-- for each verification of the product that has not expired and for each of its links that is
-- active, the latest first, and no other: an expired verification or a link that was deactivated is
-- not in it.
pub audit_trail_current :
    (registry : Registry) (pg : Postgres) (now : ℕ) (db : Tables) (id : String) (product : Product)
    → ((vps : List VerifiedPredicate) → Perm (pg.by_verified_at vps) vps)
    → ((links : List ProductSupplierLink) → Perm (pg.by_linked_at links) links)
    → get_product id db ≡ some product
    → let trail = trail_of (compose_dpp_view registry pg now db id authority) in
      Perm trail (
        map verified_entry
          (filter (λ vp. vp.product_id == product.id && is_current now vp.expires_at) db.verified)
        ++ map linked_entry (filter (λ l. l.product_id == product.id && l.active) db.links))
      × IsLatestFirst trail
unfolding compose_dpp_view compose_view compose_authority_view get_verified_predicates
    get_supplier_links
audit_trail_current registry pg now db id product verified linked found =
    let vps = get_verified_predicates pg now product.id db in
    let links = get_supplier_links pg product.id db in
    let (same, latest) = audit_trail-perm vps links in
    rw (found, compose_dpp_view)
      (
        Perm.trans same
            (Perm.append (Perm.map verified_entry (verified _)) (Perm.map linked_entry (linked _))),
        latest,
      )
