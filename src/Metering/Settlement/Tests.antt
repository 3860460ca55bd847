-- ===== src/Metering/Settlement/Tests.antt =====
-- A wallet that is registered a second time, and an instance of the theorem on registrations.
use zk_dpp_royalty_protocol.Common.{String, ◌≡◌, some, [], ◌∷◌, ◌==◌, if◌then◌else◌}
use zk_dpp_royalty_protocol.Metering.Settlement.{
  Wallets, register_supplier_wallet, get_supplier_wallet,
}
use zk_dpp_royalty_protocol.Metering.Settlement.Wallets.{first_seen, register_supplier_wallet_lem}

abbrev wallets : Wallets
wallets = ("s-1", record { supplier_id = "s-1"; wallet_address = "0xaa"; created_at = 100 }) ∷ []

abbrev lower : String → String
lower address = address

register_supplier_wallet_lem_example :
    let (w, ws') = register_supplier_wallet lower "s-1" "0xbb" 200 wallets in
    (get_supplier_wallet "s-1" ws'
      ≡ (if "s-1" == "s-1" then some w else get_supplier_wallet "s-1" wallets))
    × (w.wallet_address ≡ lower "0xbb")
    × (w.created_at ≡ first_seen 200 (get_supplier_wallet "s-1" wallets))
register_supplier_wallet_lem_example =
    register_supplier_wallet_lem lower "s-1" "0xbb" "s-1" 200 wallets
