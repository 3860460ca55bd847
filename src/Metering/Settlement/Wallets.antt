-- ===== src/Metering/Settlement/Wallets.antt =====
-- The wallets of suppliers.
use zk_dpp_royalty_protocol.Common.{
  ℕ, String, ◌≡◌, refl, Option, none, some, inl, inr, ◌==◌, if◌then◌else◌, Option-cases,
}
use zk_dpp_royalty_protocol.Common.JsMap
use zk_dpp_royalty_protocol.Metering.Types.{SupplierWallet}
use zk_dpp_royalty_protocol.Metering.Settlement.{
  Wallets, register_supplier_wallet, get_supplier_wallet,
}

abbrev pub first_seen : (now : ℕ) → Option SupplierWallet → ℕ
first_seen now none = now
first_seen now (some w) = w.created_at

-- After a registration the supplier's wallet is the row that was answered: it has the address in
-- lower case, and the instant of the supplier's first registration. The wallets of other suppliers
-- are as before.
pub register_supplier_wallet_lem :
    (lower : String → String) (supplier_id address other : String) (now : ℕ) (ws : Wallets)
    → let (w, ws') = register_supplier_wallet lower supplier_id address now ws in
      (get_supplier_wallet other ws'
        ≡ (if supplier_id == other then some w else get_supplier_wallet other ws))
      × (w.wallet_address ≡ lower address)
      × (w.created_at ≡ first_seen now (get_supplier_wallet supplier_id ws))
unfolding register_supplier_wallet
register_supplier_wallet_lem lower supplier_id address other now ws =
    let w = (register_supplier_wallet lower supplier_id address now ws).0 in
    let found = JsMap.get-set supplier_id other w ws in
    elim (Option-cases (JsMap.get supplier_id ws)) [
      | inl h ↦ (found, rw h refl, rw h refl)
      | inr (old, h) ↦ (found, rw h refl, rw h refl)
    ]
