-- ===== src/Chain/Cache.antt =====
-- crates/zbacs-chain/src/cache.rs: the last answers of the chain, and their age. Each operation runs
-- under one lock; an `Instant` and a `Duration` are in nanoseconds.
pub mod Revocations
use z_bacs.Prelude.{
  ℕ, ◌-◌, ◌≤◌, Bool, true, false, not, ◌&&◌, ◌≡◌, inl, inr, refl, Option, none, some, List, [], ◌∷◌,
  All, leb, arith, if◌then◌else◌,
}
use z_bacs.Prelude.Bytes.{Bytes, bytes_beq, bytes_beq_iff, bytes_eq}
use z_bacs.Prelude.Maps.{Map, empty, put}

pub data Freshness : Type 0 where
  fresh stale : Freshness

pub record VersionRecord : Type 0 where
  pub header_hash : Bytes
  pub version : ℕ
  pub retired : Bool

pub record Cached (T : Type 0) : Type 0 where
  pub value : T
  pub freshness : Freshness
  pub age : ℕ

unfoldable pub if_fresh : {T : Type 0} → Cached T → Option T
if_fresh c = elim c.freshness [ fresh ↦ some c.value | stale ↦ none ]

pub record Entry (T : Type 0) : Type 0 where
  pub value : T
  pub at : ℕ

pub record Cache : Type 0 where
  pub grants : Map Bytes (Entry Bool)
  pub versions : Map Bytes (Entry VersionRecord)

unfoldable pub new : Cache
new = record { grants = empty; versions = empty }

-- The guard of the `match`: an entry that is dead, and an answer that would revive it.
abbrev pub revives : Option (Entry Bool) → Bool → Bool
revives none valid = false
revives (some e) valid = not e.value && valid

unfoldable pub put_grant : Bytes → Bool → ℕ → Cache → Cache
put_grant id valid now c =
    if revives (c.grants id) valid
    then c
    else record c { grants = put c.grants id (record { value = valid; at = now }) }

unfoldable pub put_version : Bytes → VersionRecord → ℕ → Cache → Cache
put_version file_id v now c = record c {
  versions = put c.versions file_id (record { value = v; at = now });
}

-- The closure of the two look-ups.
unfoldable pub cached : {T : Type 0} → ℕ → ℕ → Entry T → Cached T
cached tolerance now e =
    let age = now - e.at in
    record { value = e.value; freshness = if leb age tolerance then fresh else stale; age = age }

unfoldable pub grant : Bytes → ℕ → ℕ → Cache → Option (Cached Bool)
unfolding cached
grant id tolerance now c = elim (c.grants id) [
  | none ↦ none
  | some e ↦ some (cached tolerance now e)
]

unfoldable pub version : Bytes → ℕ → ℕ → Cache → Option (Cached VersionRecord)
unfolding cached
version file_id tolerance now c = elim (c.versions file_id) [
  | none ↦ none
  | some e ↦ some (cached tolerance now e)
]

unfoldable pub clear : Cache → Cache
clear c = record { grants = empty; versions = empty }

-- One answer that is remembered.
pub data Put : Type 0 where
  grants_put : Bytes → Bool → ℕ → Put
  versions_put : Bytes → VersionRecord → ℕ → Put

unfoldable pub puts : List Put → Cache → Cache
unfolding put_grant put_version
puts [] c = c
puts (grants_put id valid now ∷ ps) c = puts ps (put_grant id valid now c)
puts (versions_put file_id v now ∷ ps) c = puts ps (put_version file_id v now c)
