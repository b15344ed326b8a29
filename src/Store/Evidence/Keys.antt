-- ===== src/Store/Evidence/Keys.antt =====
-- apps/lumen/internal/store/evidence_key.go: the key source in use.
use live_auction_system.Prelude.{
  ℕ, ◌≡◌, ◌≢◌, Option, none, some, if◌then◌else◌, ◌==◌, List, [], length, arith,
}
use live_auction_system.Prelude.Int.{ℤ, pos, ltb_ℤ, pos_part}
use live_auction_system.Store.Evidence.{MacInput, project, verify_full, insert_ok, chain_ok}
use live_auction_system.Store.Evidence.Chain.{head_of}
use live_auction_system.Store.Evidence.Project.{events_of, project-verifies}

-- `StaticEvidenceKeySource`; `none` is the empty key.
pub record StaticEvidenceKeySource : Type 0 where
  pub version : ℤ
  pub key : Option ℕ

-- `defaultEvidenceKeyVersion`
abbrev pub default_evidence_key_version : ℕ
default_evidence_key_version = 1

or_default : ℕ → ℕ
or_default version = if version == 0 then default_evidence_key_version else version

-- `CurrentEvidenceKey`: the version and the key.
unfoldable pub current_evidence_key : StaticEvidenceKeySource → Option (ℕ × ℕ)
unfolding or_default
current_evidence_key s =
    if ltb_ℤ s.version (pos 0)
    then none
    else elim s.key [ none ↦ none | some key ↦ some (or_default (pos_part s.version), key) ]

-- `EvidenceKey`
unfoldable pub evidence_key : StaticEvidenceKeySource → ℕ → Option ℕ
unfolding current_evidence_key or_default
evidence_key s version = elim (current_evidence_key s) [
  | none ↦ none
  | some (current, key) ↦ if or_default version == current then some key else none
]

knows_current :
    (s : StaticEvidenceKeySource) (version key : ℕ)
    → current_evidence_key s ≡ some (version, key)
    → evidence_key s version ≡ some key
unfolding evidence_key current_evidence_key or_default
knows_current s version key h = ground arith

-- With the static key source, any events, numbered from 1, that a store projects into an empty table
-- under the source's current version and key are verified by a store with the same source, if no MAC
-- is the empty string.
pub static_source-verifies :
    (mac : MacInput → ℕ) (s : StaticEvidenceKeySource) (version key : ℕ)
    → ((x : MacInput) → mac x ≢ 0)
    → current_evidence_key s ≡ some (version, key)
    → (events : List (ℕ × ℕ))
    → let out = project mac (evidence_key s) key version 1 events [] in
      (out.0 ≡ insert_ok)
      × (events_of out.1 ≡ events)
      × (verify_full mac (evidence_key s) out.1
          ≡ chain_ok (length events) (head_of mac (evidence_key s) 0 out.1))
static_source-verifies mac s version key full current events =
    project-verifies mac (evidence_key s) key version full (knows_current s version key current)
      events
