-- ===== src/Store/Evidence/Tests.antt =====
-- Runs of the chain with a MAC that adds up its input.
use live_auction_system.Prelude.{
  ℕ, suc, ◌+◌, ◌*◌, ◌≡◌, ◌↔◌, ◌⊎◌, refl, List, [], ◌∷◌, Option, some, arith, length,
}
use live_auction_system.Store.Evidence.{
  MacInput, EventRow, project, insert_ok, verify_full, chain_ok,
}
use live_auction_system.Store.Evidence.Chain.{Chained, head_of, verify_full_iff}
use live_auction_system.Store.Evidence.Tamper.{SameEvents, Collision, same_head-SameEvents}
use live_auction_system.Store.Evidence.Keys.{StaticEvidenceKeySource}
use live_auction_system.Prelude.Int.{pos}
use live_auction_system.Store.Evidence.Project.{events_of, project-verifies}

abbrev toy_mac : MacInput → ℕ
toy_mac x = suc (x.key + x.prev * 3 + x.seq * 5 + x.event_type * 7 + x.payload * 11)

abbrev keys : ℕ → Option ℕ
keys _ = some 4

abbrev events : List (ℕ × ℕ)
events = (1, 20) ∷ (1, 30) ∷ (3, 30) ∷ []

abbrev table : List EventRow
table = (project toy_mac keys 4 1 1 events []).1

project-verifies_example :
    ((project toy_mac keys 4 1 1 events []).0 ≡ insert_ok)
    × (events_of table ≡ events)
    × (verify_full toy_mac keys table ≡ chain_ok (length events) (head_of toy_mac keys 0 table))
project-verifies_example = project-verifies toy_mac keys 4 1 (λ x. ground arith) refl events

verify_full_iff_example :
    (verify_full toy_mac keys table ≡ chain_ok 3 9)
    ↔ (Chained toy_mac keys 1 0 table × (3 ≡ length table) × (9 ≡ head_of toy_mac keys 0 table))
verify_full_iff_example = verify_full_iff toy_mac keys table 3 9

same_head-SameEvents_example : SameEvents table table ⊎ Collision toy_mac
unfolding project verify_full
same_head-SameEvents_example =
    same_head-SameEvents toy_mac keys table table 3 (head_of toy_mac keys 0 table) refl refl

-- Version 0 stands for version 1.
abbrev static_source : StaticEvidenceKeySource
static_source = record { version = pos 0; key = some 4 }
