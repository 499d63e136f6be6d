-- ===== src/Agent/Ledger/Tests.antt =====
-- The ledger over runs of calls, some of which the file system fails.
use z_bacs.Prelude.{
  ℕ, ◌+◌, ◌<◌, ◌≤◌, true, false, ◌≡◌, ◌≢◌, refl, some, none, [], ◌∷◌, List, ok, err, length, All,
  arith, inl, inr,
}
use z_bacs.Prelude.Bytes.{Bytes}
use z_bacs.Agent.Dict.{get}
use z_bacs.Agent.Ledger.{
  File, Entry, Grant, Io, Json, ReadsBack, default_file, is_active, record_entry, advance_version,
  advanced, next_grant_nonce, record_grant, load, store, replacement,
}
use z_bacs.Agent.Ledger.Calls.{
  Call, advances, revokes, defers, takes_nonce, change, call, run, held,
}
use z_bacs.Agent.Ledger.Nonces.{handed_out, Ascending, handed_out-Ascending}
use z_bacs.Agent.Ledger.Advances.{Continues, Descends, run-Descends}
use z_bacs.Agent.Ledger.Revocations.{KeepsGrant, run-revoked}

abbrev json : Json File
json = record { to_vec_pretty = λ f. ok f; from_slice = λ d. some d }

json-ReadsBack : ReadsBack json
json-ReadsBack = record { read-written = λ f d h. ground arith }

abbrev works : Io
works = record { read = true; create_dir = true; write = true; rename = true }

abbrev fails : Io
fails = record { read = true; create_dir = true; write = true; rename = false }

abbrev report : Entry
report = record {
  fid = 1 ∷ [];
  header_hash = 10 ∷ [];
  name = 2 ∷ [];
  path = 3 ∷ [];
  permission = 4 ∷ [];
  ttl = 600;
  max_opens = 0;
  sealed_at = 100;
  ver = 1;
  owner_envelope = none;
  registered_tx = none;
}

abbrev approval : Grant
approval = record {
  grant_id = 7 ∷ [];
  fid = 1 ∷ [];
  file_name = 2 ∷ [];
  permission = 4 ∷ [];
  expiry = 5000;
  granted_at = 200;
  revoked_at = some 300;
  tx_hash = none;
  revoke_tx = none;
}

abbrev held_file : File
held_file = record {
  grant_nonce = 5;
  files = ((1 ∷ [], report) ∷ []);
  grants = ((7 ∷ [], approval) ∷ []);
  chain_cursor = none;
  deferred_bumps = [];
}

-- The third call finds that its document cannot take the old one's place.
abbrev nonces : List (Call × Io)
nonces =
    (takes_nonce, works)
    ∷ (defers (1 ∷ []) (10 ∷ []), works)
    ∷ (takes_nonce, fails)
    ∷ (takes_nonce, works)
    ∷ []

nonces_out : handed_out (run json nonces (some held_file)).1 ≡ 5 ∷ 6 ∷ []
unfolding run call change load store replacement handed_out next_grant_nonce
    z_bacs.Agent.Ledger.defer_bump
nonces_out = refl

handed_out-Ascending_example : Ascending 5 (handed_out (run json nonces (some held_file)).1)
unfolding held
handed_out-Ascending_example =
    handed_out-Ascending json json-ReadsBack nonces (some held_file) held_file refl (omega arith)

-- A notice, the same notice again, and one that does not follow.
abbrev notices : List (Call × Io)
notices =
    (advances (1 ∷ []) (10 ∷ []) (11 ∷ []) 2 (9 ∷ []), works)
    ∷ (advances (1 ∷ []) (10 ∷ []) (11 ∷ []) 2 (9 ∷ []), works)
    ∷ (advances (1 ∷ []) (10 ∷ []) (12 ∷ []) 3 (9 ∷ []), works)
    ∷ []

run-Descends_example :
    (g : File) × (e : Entry) × (held json (run json notices (some held_file)).0 ≡ some g)
    × (get g.files (1 ∷ []) ≡ some e)
    × Descends report e
unfolding held get Continues z_bacs.Prelude.Bytes.bytes_beq
run-Descends_example =
    run-Descends json json-ReadsBack notices (some held_file) held_file (1 ∷ []) report refl refl
      (omega arith) (omega arith, (omega arith, (omega arith, tt)))

abbrev revocations : List (Call × Io)
revocations = (revokes (7 ∷ []) 400 none, works) ∷ (takes_nonce, fails) ∷ []

run-revoked_example :
    (g : File) × (new : Grant) × (held json (run json revocations (some held_file)).0 ≡ some g)
    × (get g.grants (7 ∷ []) ≡ some new)
    × (new.revoked_at ≡ some 300)
    × ((now : ℕ) → is_active new now ≡ false)
unfolding held get KeepsGrant z_bacs.Prelude.Bytes.bytes_beq
run-revoked_example =
    run-revoked json json-ReadsBack revocations (some held_file) held_file (7 ∷ []) approval 300
      refl refl refl (tt, (tt, tt))
