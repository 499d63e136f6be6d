-- ===== src/Agent/Open/Materialising.antt =====
-- `materialise` and `close` of apps/agent/src-tauri/src/open.rs over the session and the workspace.
use z_bacs.Prelude.{
  ℕ, Bool, true, false, not, if◌then◌else◌, List, any, String, Result, ok, err, map_err,
}
use z_bacs.Prelude.Steps.{Steps, done, lift, fail_if, set, ◌>>=◌, ◌>>◌}
use z_bacs.Prelude.Bytes.{Bytes}
use z_bacs.Session.{Event, Effect, apply}
use z_bacs.Session.Requested.{is_wipe}
use z_bacs.Core.External.{Suite}
use z_bacs.Core.Header as Headers
use z_bacs.Core.Header.{Header, Error}
use z_bacs.Core.Container.{Opened, open_with_dek}
use z_bacs.Agent.Forms.{Forms}
use z_bacs.Agent.Open.{
  Workspace, bare, partial, written, holds, Desk, Disk, Materialised, well_named, is_mark, prepare,
}

-- `apply` on the session behind the grant, with the error that the code makes of a refusal.
unfoldable pub offer : Event → ℕ → String → Steps Desk String (List Effect)
unfolding apply
offer e now problem d = (
  record d { held = record d.held { session = (apply d.held.session e now).0 } },
  map_err (λ x. problem) (apply d.held.session e now).1,
)

-- `rename`, from the first name to the file's own.
abbrev pub renamed : Bytes → Workspace → Workspace
renamed name (written plain) = holds name plain false
renamed name w = w

abbrev pub marked : Workspace → Workspace
marked (holds name plain ro) = holds name plain true
marked w = w

abbrev pub at : (Workspace → Workspace) → Desk → Desk
at g d = record d { workspace = g d.workspace }

-- `mark_read_only`, when the session asks for it.
unfoldable pub mark : Disk → Bool → Steps Desk String (Unit {0})
mark disk true = do fail_if (not disk.marks) "workspace"; set (at marked)
mark disk false = done tt

-- What becomes of the workspace with the decryption: the plaintext, or the wipe of what is there.
unfoldable pub kept_or_wiped : Disk → Result Error (Opened × Bytes) → Steps Desk String Opened
kept_or_wiped disk (err e) d = (at (λ w. if disk.wipes then bare else partial) d, err "damaged")
kept_or_wiped disk (ok (opened, plain)) d = (at (λ w. written plain) d, ok opened)

-- `open_with_dek` into the file in the workspace, and the wipe if it fails.
unfoldable pub write_plain :
    Suite → Disk → Header → Bytes → Bytes → Bytes → Steps Desk String Opened
unfolding open_with_dek kept_or_wiped
write_plain c disk header header_hash rest dek =
    kept_or_wiped disk (open_with_dek c header header_hash rest dek)

-- The steps behind the decryption.
unfoldable pub finish : Disk → List Effect → Opened → Steps Desk String Materialised
unfolding mark well_named
finish disk effects opened = do
  fail_if (not (well_named opened.file_name)) "workspace"
  fail_if (not disk.renames) "workspace"
  set (at (renamed opened.file_name))
  mark disk (any is_mark effects)
  done (record { name = opened.file_name; effects = effects })

module _ (c : Suite) (f : Headers.Forms) (k : Forms) where
  unfoldable pub materialise : Disk → ℕ → Bytes → Steps Desk String Materialised
  unfolding prepare offer write_plain finish
  materialise disk now secret desk = go desk
    where
      go : Steps Desk String Materialised
      go = do
        (dek, header, header_hash, rest) ← lift (prepare c f k disk secret desk.held)
        effects ← offer Event.opened now "not_granted"
        fail_if (any is_wipe effects) "opens_exhausted"
        fail_if (not disk.creates) "workspace"
        fail_if (not disk.creates_file) "workspace"
        opened ← write_plain c disk header header_hash rest dek
        finish disk effects opened

-- What `wipe` leaves at most of the workspace.
abbrev pub wiped : Disk → Workspace → Workspace
wiped disk w = if disk.wipes then bare else w

-- `close`; `exists` is whether the directory is there.
unfoldable pub close : Disk → Bool → ℕ → Event → Steps Desk String (List Effect)
unfolding offer
close disk exists now e = do
  effects ← offer e now "session"
  set (at (if exists then wiped disk else λ w. w))
  fail_if (if exists then not disk.wipes else false) "wipe"
  done effects
