-- ===== src/Agent/Open/Saving.antt =====
-- `save` of apps/agent/src-tauri/src/open.rs: the edited file becomes the next version of the
-- container, and the owner is told. What the file system, the relay and the clock answer is an
-- argument.
use z_bacs.Prelude.{
  ℕ, Bool, true, false, not, Option, none, some, List, [], ◌∷◌, ◌++◌, String, Result, ok, err,
  ok_or, map_err,
}
use z_bacs.Prelude.Steps.{Steps, done, lift, fail_if, set, ◌>>=◌, ◌>>◌}
use z_bacs.Prelude.Bytes.{Bytes, bytes_beq}
use z_bacs.Session.{State, resealing, Event, apply}
use z_bacs.Proto.Messages.{VersionMsg}
use z_bacs.Proto.Grant.{AccessGrantTerms, struct_hash}
use z_bacs.Core.External.{Suite}
use z_bacs.Core.Header as Headers
use z_bacs.Core.Header.{Header, Envelope, Error, no_owner_key}
use z_bacs.Core.Container.{Draws, read_header}
use z_bacs.Core.Resealing.{Files, reseal_as_recipient_to_path}
use z_bacs.Agent.Forms.{Forms}
use z_bacs.Agent.Request.Asking.{Held}
use z_bacs.Agent.Open.{held_key}

-- The held grant, the container file, and the notices that the relay took.
pub record Desk : Type 0 where
  pub held : Held
  pub sealed : Option Bytes
  pub sent : List VersionMsg

-- What this machine and the others answer in the course of one call: the device's secrets, the file
-- system's part of the resealing and its draws, whether the container opens again behind it, whether
-- the relay takes the notice, and the clock.
pub record Saving : Type 0 where
  pub secret : Bytes
  pub signer : Bytes
  pub files : Files
  pub draws : Draws
  pub reopens : Bool
  pub sends : Bool
  pub now : ℕ

pub record Saved : Type 0 where
  pub ver : ℕ
  pub header_hash : Bytes
  pub notice : VersionMsg

abbrev pub is_resealing : State → Bool
is_resealing resealing = true
is_resealing _ = false

abbrev pub reseal_problem : Error → String
reseal_problem no_owner_key = "no_owner_key"
reseal_problem _ = "failed"

-- `env[0]`, which panics where there is none.
abbrev pub first_envelope : List Envelope → Result String Envelope
first_envelope [] = err "panic"
first_envelope (e ∷ es) = ok e

module _ (c : Suite) (f : Headers.Forms) (k : Forms) (w : Saving) where
  -- `inspect` of the container file.
  unfoldable pub inspected : Desk → Result String (Header × Bytes)
  unfolding read_header
  inspected d = elim d.sealed [
    | none ↦ err "missing"
    | some bytes ↦ elim (read_header c f bytes) [
      | err e ↦ err "damaged"
      | ok (h, hash, rest) ↦ ok (h, hash)
    ]
  ]

  unfoldable pub reseal_step : Bytes → Header → Steps Desk String Header
  unfolding reseal_as_recipient_to_path
  reseal_step dek prev d =
      let (new, r) =
        reseal_as_recipient_to_path c f w.files dek w.signer prev.body.pol w.draws d.sealed in
      (record d { sealed = new }, map_err reseal_problem r)

  unfoldable pub notice_of : Header → Bytes → Bytes → Bytes → Bytes → VersionMsg
  notice_of h prev_hash new_hash grant_id owner_envelope = record {
    fid = h.body.fid;
    owner = h.body.own;
    prev_header_hash = prev_hash;
    header_hash = new_hash;
    ver = h.body.ver;
    grant_id = grant_id;
    owner_envelope = owner_envelope;
    ed25519_pub = c.primitives.ed25519_public w.signer;
    ts = w.now;
  }

  -- The steps behind the resealing.
  unfoldable pub announce_version : AccessGrantTerms → Bytes → Header → Steps Desk String Saved
  unfolding inspected notice_of apply struct_hash
  announce_version terms prev_hash header d = go d
    where
      go : Steps Desk String Saved
      go = do
        fail_if (not w.reopens) "missing"
        (again, new_hash) ← lift (inspected d)
        e ← lift (first_envelope header.body.env)
        owner_envelope ← lift (map_err (λ x. "failed") (k.envelope.into_writer e))
        let notice =
            notice_of header prev_hash new_hash (struct_hash c.primitives terms) owner_envelope
        fail_if (not w.sends) "relay_unreachable"
        set (λ s. record s { sent = s.sent ++ (notice ∷ []) })
        set (λ s. record s {
          held = record s.held {
            session = (apply s.held.session (Event.resealed header.body.ver) w.now).0;
          };
        })
        done (record { ver = header.body.ver; header_hash = new_hash; notice = notice })

  unfoldable pub save : Steps Desk String Saved
  unfolding held_key inspected reseal_step announce_version
  save d = go d
    where
      go : Steps Desk String Saved
      go = do
        fail_if (not (is_resealing d.held.session.state)) "not_saving"
        terms ← lift (ok_or d.held.terms "not_granted")
        dek ← lift (held_key c k w.secret terms d.held.envelope)
        (prev, prev_hash) ← lift (inspected d)
        fail_if (not (bytes_beq prev_hash terms.header_hash)) "version"
        header ← reseal_step dek prev
        announce_version terms prev_hash header
