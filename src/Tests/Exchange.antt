-- ===== src/Tests/Exchange.antt =====
-- The theorems of the messages at concrete messages.
use stmanager.Prelude.{ℕ, suc, true, codes, text_eq, some, [], ◌≡◌, refl}
use stmanager.Prelude.Int.{pos}
use stmanager.Status.{ok}
use stmanager.Server.Replies.{response_json}
use stmanager.Json.{JsonLibrary}
use stmanager.TrustedDevices.Store.{JsonStore, TrustStore, json_trusted_device_store}
use stmanager.Client.Pair.{DeviceInfo, PairingOptions, Transport, LocalSetup, pair_device}
use stmanager.Client.Grants.{PairOutcome, pair_device-PairOutcome}
use stmanager.Tests.Memory.{memory_json, memory_files}
use stmanager.Tests.Printers.{print_reply}

reply_printed : print_reply (response_json (codes "auth_response") true []) ≡ some []
unfolding print_reply response_json text_eq codes
reply_printed = refl

-- A transport that counts its messages, to a device that accepts.
abbrev counting : Transport
counting = record {
  Link = ℕ;
  connect = λ info l. (ok tt, l);
  disconnect = λ l. 0;
  send_message = λ message l. (ok tt, suc l);
  receive_message = λ l. (ok [], suc l);
  send_stream = λ archive l. (ok tt, suc l);
  receive_stream = λ l. (ok (codes "tar"), suc l);
}

abbrev accepting_json : JsonLibrary
accepting_json = record memory_json {
  parse = λ t. some (response_json (codes "pair_response") true []);
  dump = λ j. some [];
}

abbrev devices : TrustStore
devices = json_trusted_device_store accepting_json memory_files

abbrev client : LocalSetup
client = record {
  local_device_id = codes "a";
  local_device_name = codes "b";
  has_transport = true;
  has_discovery = true;
  has_trusted_store = true;
}

abbrev server : DeviceInfo
server = record { device_id = codes "s"; device_name = []; host = codes "h"; port = pos 80 }

abbrev remembering : PairingOptions
remembering = record { pairing_code = codes "7"; remember_device = true }

abbrev no_devices : JsonStore memory_files
no_devices = record { path = []; ids = []; disk = [] }

pair_device-PairOutcome_example :
    PairOutcome accepting_json counting devices client server remembering 0 no_devices
      (pair_device accepting_json counting devices client server remembering (0, no_devices)).0
      (pair_device accepting_json counting devices client server remembering (0, no_devices)).1.1
pair_device-PairOutcome_example =
    pair_device-PairOutcome accepting_json counting devices client server remembering 0 no_devices
