-- ===== src/Server/Rest/Patched.antt =====
-- What PATCH /api/auctions/{id} does, `handlePatchAuction` of apps/lumen/internal/server/api.go.
use live_auction_system.Prelude.{
  ℕ, Bool, true, false, Option, none, some, ◌==◌, ◌≡◌, refl, sym, ap, ◌∙◌, inl, inr, arith,
  Bool-cases, ltb, not,
}
use mathlib.Core.Path.{subst}
use live_auction_system.Prelude.Int.{ℤ}
use live_auction_system.Model.Mode.{normalize_mode}
use live_auction_system.Model.Rules.{Rules, RuleError, validate}
use live_auction_system.Store.Orders.{Write, write_ok}
use live_auction_system.Server.Rest.{
  Auction, Lot, code_ok_rules_updated, ok, not_found, store_write, Owned, refused, owned,
  owns_auction, owned_by,
}
use live_auction_system.Server.Rest.Edit.{
  PatchFaults, PatchBody, malformed_body, malformed_rules, no_rules, patch_body,
  handle_patch_auction, patch_owned, patch_read, patch_rules, update_rules, update_validated,
  overlay, stored_rules, changes_row, eqb_rules, write_rules, write_price, answer_update,
  UpdateResult, rules_updated, rules_not_found, rules_error, is_editable,
}

-- The rules that the request asks for.
unfoldable pub merged : PatchBody → Rules → Rules
unfolding overlay
merged (patch_body p) r = overlay p r
merged _ r = r

price_leaves :
    (w : Write) (price : ℤ) (lot : Lot)
    → ((write_price w price lot).rules ≡ lot.rules) × ((write_price w price lot).room ≡ lot.room)
unfolding write_price store_write
price_leaves w price lot = ground arith

rules_written :
    (w : Write) (r : Rules) (lot : Lot)
    → changes_row r lot.rules ≡ true
    → (write_rules w r lot).0 ≡ true
    → ((write_rules w r lot).1.rules ≡ some r) × ((write_rules w r lot).1.room ≡ lot.room)
unfolding write_rules store_write
rules_written w r lot c h = ground (arith, c, h)

-- The update that succeeds.
update_done :
    (e : Option RuleError) (first second : Write) (r : Rules) (lot : Lot)
    → (update_validated e first second r lot).0 ≡ rules_updated
    → (e ≡ none)
      × ((changes_row (stored_rules r) lot.rules ≡ true)
          × (((update_validated e first second r lot).1.rules ≡ some (stored_rules r))
              × ((update_validated e first second r lot).1.room ≡ lot.room)))
unfolding update_validated
update_done (some e) first second r lot h = absurd (ground (arith, h))
update_done none first second r lot h =
    let changed = write_rules first (stored_rules r) lot in
    elim (Bool-cases changed.0) [
      | inl a ↦ elim (Bool-cases (changes_row (stored_rules r) lot.rules)) [
        | inl c ↦ ground (
          arith,
          a,
          c,
          rules_written first (stored_rules r) lot c a,
          price_leaves second r.start_price_cents changed.1,
        )
        | inr c ↦ absurd (ground (arith, h, a, c))
      ]
      | inr a ↦ absurd (ground (arith, h, a))
    ]

answer_done :
    (x : UpdateResult × Lot)
    → (answer_update x).0 ≡ ok code_ok_rules_updated
    → (x.0 ≡ rules_updated) × ((answer_update x).1 ≡ x.1)
unfolding answer_update
answer_done (rules_updated, lot) h = (refl, refl)
answer_done (rules_not_found, lot) h = absurd (ground (arith, h))
answer_done (rules_error, lot) h = absurd (ground (arith, h))

-- What an accepted request has done to the lot.
unfoldable pub Patch-of : PatchBody → Rules → Lot → Lot → Type 0
unfolding merged
Patch-of body old lot new =
    (validate (merged body old) ≡ none)
    × ((changes_row (stored_rules (merged body old)) lot.rules ≡ true)
        × ((new.rules ≡ some (stored_rules (merged body old))) × (new.room ≡ lot.room)))

rules_accepted :
    (f : PatchFaults) (r : Rules) (lot : Lot)
    → (answer_update (update_rules f.first f.second r lot)).0 ≡ ok code_ok_rules_updated
    → (validate r ≡ none)
      × ((changes_row (stored_rules r) lot.rules ≡ true)
          × (((answer_update (update_rules f.first f.second r lot)).1.rules ≡ some (stored_rules r))
              × ((answer_update (update_rules f.first f.second r lot)).1.room ≡ lot.room)))
unfolding update_rules
rules_accepted f r lot h =
    let a = answer_done (update_rules f.first f.second r lot) h in
    let u = update_done (validate r) f.first f.second r lot a.0 in
    (u.0, (u.1.0, (ap (λ l. l.rules) a.1 ∙ u.1.1.0, ap (λ l. l.room) a.1 ∙ u.1.1.1)))

body_accepted :
    (f : PatchFaults) (body : PatchBody) (old : Rules) (lot : Lot)
    → (patch_rules f body old lot).0 ≡ ok code_ok_rules_updated
    → Patch-of body old lot (patch_rules f body old lot).1
unfolding patch_rules Patch-of
body_accepted f malformed_body old lot h = absurd (ground (arith, h))
body_accepted f malformed_rules old lot h = absurd (ground (arith, h))
body_accepted f no_rules old lot h = rules_accepted f old lot h
body_accepted f (patch_body p) old lot h = rules_accepted f (overlay p old) lot h

read_accepted :
    (f : PatchFaults) (body : PatchBody) (row : Option Rules) (lot : Lot)
    → (patch_read f body row lot).0 ≡ ok code_ok_rules_updated
    → (old : Rules) × ((row ≡ some old) × Patch-of body old lot (patch_read f body row lot).1)
unfolding patch_read
read_accepted f body none lot h = absurd (ground (arith, h))
read_accepted f body (some old) lot h = elim (Bool-cases f.rules_fail) [
  | inl e ↦ absurd (ground (arith, h, e))
  | inr e ↦
      let q : patch_read f body (some old) lot ≡ patch_rules f body old lot = simp (e) in
      (
        old,
        (
          refl,
          subst (λ x. Patch-of body old lot x.1) (sym q)
              (body_accepted f body old lot (ap (λ x. x.0) (sym q) ∙ h)),
        ),
      )
]

-- A refusal is an error.
unfoldable pub refusal_http : Owned → Bool
refusal_http (refused a) = ltb 399 a.http
refusal_http (owned a) = true

owned_by_http : (user : ℕ) (row : Option Auction) → refusal_http (owned_by user row) ≡ true
unfolding owned_by refusal_http
owned_by_http user none = refl
owned_by_http user (some a) = ground arith

pub owns_http :
    (fails : Bool) (user : ℕ) (lot : Lot) → refusal_http (owns_auction fails user lot) ≡ true
unfolding owns_auction refusal_http
owns_http true user lot = refl
owns_http false user lot = owned_by_http user lot.auction

owned_accepted :
    (f : PatchFaults) (body : PatchBody) (o : Owned) (lot : Lot)
    → refusal_http o ≡ true
    → (patch_owned f body o lot).0 ≡ ok code_ok_rules_updated
    → (a : Auction) × ((o ≡ owned a)
        × ((is_editable a.status ≡ true)
            × ((old : Rules) × ((lot.rules ≡ some old)
                  × Patch-of body old lot (patch_owned f body o lot).1))))
unfolding patch_owned refusal_http
owned_accepted f body (refused x) lot g h = absurd (ground (arith, ap (λ a. ltb 399 a.http) h, g))
owned_accepted f body (owned a) lot g h = elim (Bool-cases (is_editable a.status)) [
  | inr e ↦ absurd (ground (arith, h, e))
  | inl e ↦
      let q : patch_owned f body (owned a) lot ≡ patch_read f body lot.rules lot = simp (e) in
      let k = read_accepted f body lot.rules lot (ap (λ x. x.0) (sym q) ∙ h) in
      (a, (refl, (e, (k.0, (k.1.0, subst (λ x. Patch-of body k.0 lot x.1) (sym q) k.1.1)))))
]

owner_row :
    (user : ℕ) (row : Option Auction) (a : Auction)
    → owned_by user row ≡ owned a
    → (row ≡ some a) × ((a.seller_id == user) ≡ true)
unfolding owned_by
owner_row user none a h = absurd (ground (arith, h))
owner_row user (some b) a h = ground (arith, h)

owner_read :
    (fails : Bool) (user : ℕ) (lot : Lot) (a : Auction)
    → owns_auction fails user lot ≡ owned a
    → (lot.auction ≡ some a) × ((a.seller_id == user) ≡ true)
unfolding owns_auction
owner_read true user lot a h = absurd (ground (arith, h))
owner_read false user lot a h = owner_row user lot.auction a h

-- A PATCH that is answered with OK_RULES_UPDATED came from the seller of a DRAFT or SCHEDULED auction
-- and asked for valid rules that differ from the stored ones, the URL and key of the live stream
-- included; the rules in MySQL are now the old ones with the fields of the request, with the empty
-- mode made ENGLISH and no other adjustment, and what Redis holds, the rules of a frozen auction
-- included, is as it was.
pub handle_patch_auction-Patch-of :
    (f : PatchFaults) (body : PatchBody) (user : ℕ) (lot : Lot)
    → (handle_patch_auction f body (some user) lot).0 ≡ ok code_ok_rules_updated
    → (a : Auction) × ((lot.auction ≡ some a)
        × (((a.seller_id == user) ≡ true)
            × ((is_editable a.status ≡ true)
                × ((old : Rules) × ((lot.rules ≡ some old)
                      × Patch-of body old lot (handle_patch_auction f body (some user) lot).1)))))
unfolding handle_patch_auction
handle_patch_auction-Patch-of f body user lot h =
    let g =
      owned_accepted f body (owns_auction f.owner_fails user lot) lot
        (owns_http f.owner_fails user lot) h in
    let o = owner_read f.owner_fails user lot g.0 g.1.0 in (g.0, (o.0, (o.1, g.1.1)))

eqb_self : (r : Rules) → eqb_rules r r ≡ true
unfolding eqb_rules
eqb_self r = ground arith

unchanged_row :
    (old : Rules)
    → normalize_mode old.mode ≡ old.mode
    → changes_row (stored_rules old) (some old) ≡ false
unfolding changes_row stored_rules
unchanged_row old m =
    ap (λ k. not (eqb_rules old (record old { mode = k }))) m ∙ ap (λ b. not b) (eqb_self old)

same_rules :
    (f : PatchFaults) (old : Rules) (lot : Lot)
    → f.first ≡ write_ok
    → validate old ≡ none
    → changes_row (stored_rules old) lot.rules ≡ false
    → answer_update (update_rules f.first f.second old lot) ≡ (not_found, lot)
unfolding update_rules update_validated answer_update write_rules store_write
same_rules f old lot w v c =
    ap (λ e. answer_update (update_validated e f.first f.second old lot)) v ∙ simp (w, c)

-- The body is JSON, and so are its rules.
unfoldable pub is_decoded : PatchBody → Bool
is_decoded malformed_body = false
is_decoded malformed_rules = false
is_decoded _ = true

same_body :
    (f : PatchFaults) (body : PatchBody) (old : Rules) (lot : Lot)
    → f.first ≡ write_ok
    → validate old ≡ none
    → merged body old ≡ old
    → changes_row (stored_rules old) lot.rules ≡ false
    → is_decoded body ≡ true
    → patch_rules f body old lot ≡ (not_found, lot)
unfolding patch_rules merged is_decoded
same_body f malformed_body old lot w v m c b = absurd (ground (arith, b))
same_body f malformed_rules old lot w v m c b = absurd (ground (arith, b))
same_body f no_rules old lot w v m c b = same_rules f old lot w v c
same_body f (patch_body p) old lot w v m c b =
    ap (λ r. answer_update (update_rules f.first f.second r lot)) m ∙ same_rules f old lot w v c

own_read :
    (f : PatchFaults) (user : ℕ) (lot : Lot) (a : Auction)
    → f.owner_fails ≡ false
    → lot.auction ≡ some a
    → (a.seller_id == user) ≡ true
    → owns_auction f.owner_fails user lot ≡ owned a
unfolding owns_auction owned_by
own_read f user lot a o ha hs =
    ap (λ b. owns_auction b user lot) o ∙ ap (λ x. owned_by user x) ha ∙ simp (hs)

-- MySQL counts no row that keeps its values. So a PATCH of a DRAFT or SCHEDULED auction by its seller,
-- whose body is in order and asks for the rules that are stored, valid ones with a mode, is answered with
-- 404 where no call fails, although the auction and its rules are there, and changes nothing.
pub patch_same-not_found :
    (f : PatchFaults) (body : PatchBody) (user : ℕ) (lot : Lot) (a : Auction) (old : Rules)
    → f.owner_fails ≡ false
    → f.rules_fail ≡ false
    → f.first ≡ write_ok
    → lot.auction ≡ some a
    → (a.seller_id == user) ≡ true
    → is_editable a.status ≡ true
    → lot.rules ≡ some old
    → validate old ≡ none
    → normalize_mode old.mode ≡ old.mode
    → is_decoded body ≡ true
    → merged body old ≡ old
    → handle_patch_auction f body (some user) lot ≡ (not_found, lot)
unfolding handle_patch_auction patch_owned patch_read
patch_same-not_found f body user lot a old o rf w ha hs he hr v n b m =
    ap (λ x. patch_owned f body x lot) (own_read f user lot a o ha hs)
    ∙ (simp (he))
    ∙ ap (λ x. patch_read f body x lot) hr
    ∙ (simp (rf))
    ∙ same_body f body old lot w v m
        (ap (λ x. changes_row (stored_rules old) x) hr ∙ unchanged_row old n) b
