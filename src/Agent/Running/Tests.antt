-- ===== src/Agent/Running/Tests.antt =====
-- A session at concrete inputs: the person saves twice.
use z_bacs.Prelude.{Bool, true, false, ◌≡◌, refl, none, some, [], ◌∷◌, List}
use z_bacs.Session.{State, edit, new}
use z_bacs.Core.Toy.{suite}
use z_bacs.Core.Tests.{sk, container}
use z_bacs.Agent.Open.{Disk, bare}
use z_bacs.Agent.Exchange.Edits.{two, second, encodings, device, held, saving}
use z_bacs.Agent.Running.{Machine, Round, Room, saved, failed, run_session}
use z_bacs.Agent.Running.Locking.{Finishes, run_session-Finishes}

abbrev disk : Disk
disk = record {
  sealed = none;
  creates = true;
  creates_file = true;
  renames = true;
  marks = true;
  wipes = true;
}

abbrev machine : Machine
machine = record {
  secret = device;
  signer = sk;
  disk = disk;
  opened_at = 900;
  launches = true;
  audits = true;
  exists = true;
  ended_at = 1100;
}

abbrev room : Room
room = record {
  held = record held { session = record new { state = State.granted; permission = some edit } };
  sealed = some container;
  workspace = bare;
  sent = [];
  updates = [];
  noted = [];
}

abbrev save_round : Round
save_round = record {
  cancelled = false;
  outside = none;
  now = 1000;
  running = some true;
  event = some saved;
  saved_at = 1000;
  saving = saving;
  failed_at = 1001;
}

abbrev rounds : List Round
rounds = save_round ∷ save_round ∷ []

run_session-Finishes_example :
    Finishes suite
      (two second)
      encodings
      machine
      room
      (run_session suite (two second) encodings machine rounds room)
run_session-Finishes_example = run_session-Finishes suite (two second) encodings machine room rounds

-- The second save ends the session.
ends_on_version :
    (run_session suite (two second) encodings machine rounds room).1 ≡ some (failed "version")
unfolding run_session z_bacs.Prelude.Bytes.bytes_beq z_bacs.Core.Container.make_header
    z_bacs.Core.Container.encrypt_name z_bacs.Core.Container.wrap_all z_bacs.Core.Header.wrap
    z_bacs.Core.Container.successor z_bacs.Core.Header.sign_header z_bacs.Core.Header.encode_header
    z_bacs.Core.Container.seal_chunks z_bacs.Core.Container.chunk_count
    z_bacs.Prelude.Bytes.to_le_bytes z_bacs.Toy.toy_hash z_bacs.Prelude.Bytes.to_be_bytes
    z_bacs.Prelude.Bytes.from_le_bytes new z_bacs.Core.Container.open_chunks
ends_on_version = refl
