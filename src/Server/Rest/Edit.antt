-- ===== src/Server/Rest/Edit.antt =====
-- `handleCreateAuction` and `handlePatchAuction` of apps/lumen/internal/server/api.go, with
-- `CreateAuction` and `UpdateRules` of apps/lumen/internal/store/storedb.go.
use live_auction_system.Prelude.{
  ℕ, Bool, true, false, ◌&&◌, ◌||◌, not, Option, none, some, if◌then◌else◌, ◌==◌,
}
use live_auction_system.Prelude.Int.{ℤ, eqb_ℤ}
use live_auction_system.Model.Status.{Status, draft, scheduled}
use live_auction_system.Model.Mode.{
  Mode, normalize_mode, default_mode, english, sudden_death, sealed_first, vickrey, hybrid_reveal,
  all_pay, prequalify, unknown_mode,
}
use live_auction_system.Model.Rules.{Rules, validate, RuleError}
use live_auction_system.Store.Orders.{Write}
use live_auction_system.Server.Mode.{AuctionMode, mode_for, normalize_rules}
use live_auction_system.Server.Rest.{
  Auction, Lot, code_ok_rules_updated, err_not_editable, Answer, conflict, forbidden, unauthorized,
  not_found, bad_request, ok, Owned, refused, owned, owns_auction, store_write, plain, answer_write,
}

mode_number : Mode → ℕ
mode_number default_mode = 0
mode_number english = 1
mode_number sudden_death = 2
mode_number sealed_first = 3
mode_number vickrey = 4
mode_number hybrid_reveal = 5
mode_number all_pay = 6
mode_number prequalify = 7
mode_number unknown_mode = 8

-- Two rows of `auction_rules` with the same values.
unfoldable pub eqb_rules : Rules → Rules → Bool
unfolding mode_number
eqb_rules r s =
    mode_number r.mode == mode_number s.mode
    && (eqb_ℤ r.start_price_cents s.start_price_cents
        && (eqb_ℤ r.increment_cents s.increment_cents
            && (eqb_ℤ r.cap_price_cents s.cap_price_cents
                && (eqb_ℤ r.duration_sec s.duration_sec
                    && (eqb_ℤ r.extend_window_sec s.extend_window_sec
                        && (eqb_ℤ r.extend_sec s.extend_sec
                            && (eqb_ℤ r.max_extensions s.max_extensions
                                && (r.live_play_url == s.live_play_url
                                    && r.live_stream_key == s.live_stream_key))))))))

-- The fields of the body's `rules`, `none` where the JSON does not name them.
pub record RulesPatch : Type 0 where
  pub mode : Option Mode
  pub start_price_cents : Option ℤ
  pub increment_cents : Option ℤ
  pub cap_price_cents : Option ℤ
  pub duration_sec : Option ℤ
  pub extend_window_sec : Option ℤ
  pub extend_sec : Option ℤ
  pub max_extensions : Option ℤ
  pub live_play_url : Option ℕ
  pub live_stream_key : Option ℕ

pub data PatchBody : Type 0 where
  malformed_body malformed_rules no_rules : PatchBody
  patch_body : RulesPatch → PatchBody

abbrev or_old {ℓ} : {A : Type ℓ} → Option A → A → A
or_old none old = old
or_old (some new) old = new

-- The JSON decoded over the current rules.
unfoldable pub overlay : RulesPatch → Rules → Rules
overlay p r = record {
  mode = or_old p.mode r.mode;
  start_price_cents = or_old p.start_price_cents r.start_price_cents;
  increment_cents = or_old p.increment_cents r.increment_cents;
  cap_price_cents = or_old p.cap_price_cents r.cap_price_cents;
  duration_sec = or_old p.duration_sec r.duration_sec;
  extend_window_sec = or_old p.extend_window_sec r.extend_window_sec;
  extend_sec = or_old p.extend_sec r.extend_sec;
  max_extensions = or_old p.max_extensions r.max_extensions;
  live_play_url = or_old p.live_play_url r.live_play_url;
  live_stream_key = or_old p.live_stream_key r.live_stream_key;
}

-- `status IN ('DRAFT','SCHEDULED')`
unfoldable pub is_editable : Status → Bool
is_editable draft = true
is_editable scheduled = true
is_editable _ = false

-- The price that the list of auctions shows.
unfoldable pub with_price : ℤ → Option Auction → Option Auction
unfolding is_editable
with_price price none = none
with_price price (some a) =
    if is_editable a.status then some (record a { current_price_cents = price }) else some a

-- The columns that the UPDATE writes.
unfoldable pub stored_rules : Rules → Rules
unfolding normalize_mode
stored_rules r = record r { mode = normalize_mode r.mode }

-- The rows that the UPDATE changes: MySQL does not count a row that has the new values already.
unfoldable pub changes_row : Rules → Option Rules → Bool
unfolding eqb_rules
changes_row r none = false
changes_row r (some old) = not (eqb_rules old r)

pub data UpdateResult : Type 0 where
  rules_updated rules_not_found rules_error : UpdateResult

-- The two statements of `UpdateRules`.
unfoldable pub write_rules : Write → Rules → Lot → Bool × Lot
unfolding store_write changes_row
write_rules w r lot =
    store_write w lot (record lot { rules = if changes_row r lot.rules then some r else lot.rules })

unfoldable pub write_price : Write → ℤ → Lot → Lot
unfolding store_write with_price
write_price w price lot =
    (store_write w lot (record lot { auction = with_price price lot.auction })).1

-- `UpdateRules` of rules with the errors of `Validate`; the second statement's error is passed over.
unfoldable pub update_validated :
    Option RuleError → Write → Write → Rules → Lot → UpdateResult × Lot
unfolding stored_rules changes_row write_rules write_price
update_validated (some e) first second r lot = (rules_error, lot)
update_validated none first second r lot =
    let changed = write_rules first (stored_rules r) lot in
    if not changed.0
    then (rules_error, changed.1)
    else if changes_row (stored_rules r) lot.rules
    then (rules_updated, write_price second r.start_price_cents changed.1)
    else (rules_not_found, changed.1)

-- `UpdateRules`
unfoldable pub update_rules : Write → Write → Rules → Lot → UpdateResult × Lot
unfolding validate update_validated
update_rules first second r lot = update_validated (validate r) first second r lot

-- The answer to `UpdateRules`.
unfoldable pub answer_update : UpdateResult × Lot → Answer × Lot
answer_update (rules_updated, lot) = (ok code_ok_rules_updated, lot)
answer_update (rules_not_found, lot) = (not_found, lot)
answer_update (rules_error, lot) = (bad_request, lot)

-- The outcome of each call of `handlePatchAuction`.
pub record PatchFaults : Type 0 where
  pub owner_fails : Bool
  pub rules_fail : Bool
  pub first : Write
  pub second : Write

-- The merge and the update, on the rules that were read.
unfoldable pub patch_rules : PatchFaults → PatchBody → Rules → Lot → Answer × Lot
unfolding update_rules overlay answer_update
patch_rules f malformed_body rules lot = (bad_request, lot)
patch_rules f malformed_rules rules lot = (bad_request, lot)
patch_rules f no_rules rules lot = answer_update (update_rules f.first f.second rules lot)
patch_rules f (patch_body p) rules lot =
    answer_update (update_rules f.first f.second (overlay p rules) lot)

unfoldable pub patch_read : PatchFaults → PatchBody → Option Rules → Lot → Answer × Lot
unfolding patch_rules
patch_read f body none lot = (not_found, lot)
patch_read f body (some rules) lot =
    if f.rules_fail then (not_found, lot) else patch_rules f body rules lot

unfoldable pub patch_owned : PatchFaults → PatchBody → Owned → Lot → Answer × Lot
unfolding is_editable patch_read
patch_owned f body (refused a) lot = (a, lot)
patch_owned f body (owned a) lot =
    if is_editable a.status
    then patch_read f body lot.rules lot
    else (conflict err_not_editable, lot)

-- `handlePatchAuction`
unfoldable pub handle_patch_auction : PatchFaults → PatchBody → Option ℕ → Lot → Answer × Lot
unfolding owns_auction patch_owned
handle_patch_auction f body none lot = (unauthorized, lot)
handle_patch_auction f body (some user) lot =
    patch_owned f body (owns_auction f.owner_fails user lot) lot

-- `requireSeller`: a seller key is configured, and the user is in the seller namespace.
unfoldable pub require_seller : Bool → Bool → Bool
require_seller has_key is_seller = not has_key || is_seller

-- The body of the creation.
pub record CreateBody : Type 0 where
  pub product_id : ℕ
  pub rules : Rules
  pub facts_confirmed : Bool

-- `CreateAuction` for the seller of the product, `none` where there is no such product: one
-- transaction.
unfoldable pub create_auction : Write → Option ℕ → CreateBody → Rules → ℕ → Lot → Answer × Lot
unfolding store_write stored_rules answer_write
create_auction w none body rules seller lot = (not_found, lot)
create_auction w (some product_seller) body rules seller lot =
    if product_seller == seller
    then answer_write (ok plain) (
        store_write w lot (record lot {
          auction = some (record {
            product_id = body.product_id;
            seller_id = seller;
            status = draft;
            facts_confirmed = body.facts_confirmed;
            current_price_cents = rules.start_price_cents;
          });
          rules = some (stored_rules rules);
        }))
    else (forbidden, lot)

-- The rules of the body, normalized by the mode, where they are valid.
unfoldable pub create_rules : Option AuctionMode → Rules → Option Rules
unfolding normalize_rules validate
create_rules none r = none
create_rules (some m) r = elim (validate (normalize_rules m r)) [
  | some e ↦ none
  | none ↦ some (normalize_rules m r)
]

unfoldable pub create_checked :
    Write → Option ℕ → CreateBody → Option Rules → ℕ → Lot → Answer × Lot
unfolding create_auction
create_checked w product_seller body none seller lot = (bad_request, lot)
create_checked w product_seller body (some rules) seller lot =
    create_auction w product_seller body rules seller lot

-- `handleCreateAuction`, for a new id: `lot` has no row yet. The body is `none` where it is no JSON;
-- `product_seller` is the seller of the body's product.
unfoldable pub handle_create_auction :
    Bool → Bool → Write → Option ℕ → Option CreateBody → Option ℕ → Lot → Answer × Lot
unfolding require_seller create_checked create_rules mode_for
handle_create_auction has_key is_seller w product_seller body none lot = (unauthorized, lot)
handle_create_auction has_key is_seller w product_seller none (some user) lot =
    if require_seller has_key is_seller then (bad_request, lot) else (forbidden, lot)
handle_create_auction has_key is_seller w product_seller (some body) (some user) lot =
    if not (require_seller has_key is_seller)
    then (forbidden, lot)
    else if body.product_id == 0
    then (bad_request, lot)
    else create_checked w product_seller body (create_rules (mode_for body.rules.mode) body.rules)
        user lot
