-- ===== src/Server/Rest/Guard.antt =====
-- Who may change an auction over REST, apps/lumen/internal/server/api.go.
use live_auction_system.Prelude.{
  ℕ, Bool, true, false, Option, none, some, ◌==◌, ◌≡◌, refl, ap, ◌∙◌, ltb,
}
use live_auction_system.Prelude.Int.{ℤ}
use live_auction_system.Server.Rest.{
  Auction, Lot, Answer, Owned, refused, owns_auction, owned_by, not_found, forbidden,
  internal_server_error,
}
use live_auction_system.Server.Rest.Freeze.{
  FreezeFaults, FreezeBody, malformed_body, freeze_body, handle_freeze, freeze_owned, StartFaults,
  handle_start, start_owned, start_refused,
}
use live_auction_system.Server.Rest.Cancel.{CancelFaults, handle_cancel, cancel_owned}
use live_auction_system.Server.Rest.Edit.{PatchFaults, PatchBody, handle_patch_auction, patch_owned}

-- A request of a seller, with what its calls meet and what others do meanwhile.
pub data SellerRequest : Type 0 where
  freezes : FreezeFaults → FreezeBody → (Lot → Lot) → SellerRequest
  starts : StartFaults → Option ℤ → ℕ → (Lot → Lot) → SellerRequest
  patches : PatchFaults → PatchBody → SellerRequest
  cancels : CancelFaults → ℕ → (Lot → Lot) → (Lot → Lot) → SellerRequest

-- The handler of the request, for the user that the token names.
unfoldable pub handle_request : SellerRequest → Option ℕ → Lot → Answer × Lot
unfolding handle_freeze handle_start handle_patch_auction handle_cancel
handle_request (freezes f body between) user lot = handle_freeze f body between user lot
handle_request (starts f body now between) user lot = handle_start f body now between user lot
handle_request (patches f body) user lot = handle_patch_auction f body user lot
handle_request (cancels f now between meanwhile) user lot =
    handle_cancel f now between meanwhile user lot

-- The token names the seller of the auction's row.
unfoldable pub is_seller : Option ℕ → Option Auction → Bool
is_seller none row = false
is_seller (some user) none = false
is_seller (some user) (some a) = a.seller_id == user

-- The row of another seller is refused.
refused_row :
    (user : ℕ) (row : Option Auction)
    → is_seller (some user) row ≡ false
    → (a : Answer) × ((owned_by user row ≡ refused a) × (ltb 399 a.http ≡ true))
unfolding owned_by is_seller
refused_row user none h = (not_found, (refl, refl))
refused_row user (some a) h = (forbidden, (simp (h), refl))

not_owned :
    (fails : Bool) (user : ℕ) (lot : Lot)
    → is_seller (some user) lot.auction ≡ false
    → (a : Answer) × ((owns_auction fails user lot ≡ refused a) × (ltb 399 a.http ≡ true))
unfolding owns_auction
not_owned true user lot h = (internal_server_error, (refl, refl))
not_owned false user lot h = refused_row user lot.auction h

-- An error that leaves the lot.
Rejects : Answer × Lot → Lot → Type 0
Rejects r lot = (r.1 ≡ lot) × (ltb 399 r.0.http ≡ true)

-- A handler that passes the refusal on.
passes_on :
    (fails : Bool) (user : ℕ) (lot : Lot) (next : Owned → Answer × Lot)
    → is_seller (some user) lot.auction ≡ false
    → ((a : Answer) → next (refused a) ≡ (a, lot))
    → Rejects (next (owns_auction fails user lot)) lot
unfolding Rejects
passes_on fails user lot next h e =
    let g = not_owned fails user lot h in
    let r = ap next g.1.0 ∙ e g.0 in (ap (λ x. x.1) r, ap (λ x. ltb 399 x.0.http) r ∙ g.1.1)

-- A request whose token does not name the seller of the auction, or names nobody, changes nothing in
-- MySQL or Redis and is answered with an error, whatever the calls meet and whatever others do.
pub handle_request-Refuses :
    (q : SellerRequest) (user : Option ℕ) (lot : Lot)
    → is_seller user lot.auction ≡ false
    → ((handle_request q user lot).1 ≡ lot) × (ltb 399 (handle_request q user lot).0.http ≡ true)
unfolding handle_request Rejects freeze_owned start_owned patch_owned cancel_owned
handle_request-Refuses (freezes f body between) none lot h = (refl, refl)
handle_request-Refuses (starts f body now between) none lot h = (refl, refl)
handle_request-Refuses (patches f body) none lot h = (refl, refl)
handle_request-Refuses (cancels f now between meanwhile) none lot h = (refl, refl)
handle_request-Refuses (freezes f malformed_body between) (some user) lot h = (refl, refl)
handle_request-Refuses (freezes f (freeze_body c) between) (some user) lot h =
    passes_on f.owner_fails user lot (λ o. freeze_owned f c user between o lot) h (λ a. refl)
handle_request-Refuses (starts f none now between) (some user) lot h =
    passes_on f.owner_fails user lot (λ o. start_refused o lot) h (λ a. refl)
handle_request-Refuses (starts f (some ms) now between) (some user) lot h =
    passes_on f.owner_fails user lot (λ o. start_owned f ms now between o lot) h (λ a. refl)
handle_request-Refuses (patches f body) (some user) lot h =
    passes_on f.owner_fails user lot (λ o. patch_owned f body o lot) h (λ a. refl)
handle_request-Refuses (cancels f now between meanwhile) (some user) lot h =
    passes_on f.owner_fails user lot (λ o. cancel_owned f user now between meanwhile o lot) h
      (λ a. refl)
