-- ===== src/Tests/Storing.antt =====
-- `set` and `get` of the command line, over an agent with a KeePass file in memory.
use go_flexconf.Tests.Memory.{Files, value_of, index_of, memory, memory-Documented}
use go_flexconf.Keepass
use go_flexconf.Keepass.{
  Driver, KeepassConfig, Group, Database, get_secret, set_secret, plain_value, protected_value,
}
use go_flexconf.Keepass.Storage
use go_flexconf.Keepass.Storage.{keepass}
use go_flexconf.Keepass.Storage.Remembering.{keepass-Remembers}
use go_flexconf.Manager
use go_flexconf.Manager.{Manager}
use go_flexconf.Command.{Environment, Flags, Options, Shell, select_vault, dial}
use go_flexconf.Command.Actions.{set_cmd}
use go_flexconf.Command.Actions.RoundTrip.{ReadsBack, set_cmd-get_cmd}
use go_flexconf.Agent.Server.{
  Server, reset_idle, serve_request, handle_op, handle_set, handle_get, ok_response,
}
use go_flexconf.Agent.Client.{client_set, round_trip}
use go_flexconf.Agent.Wire.{
  Bytes, write_frame, read_frame, Codec, Request, Response, get_request, set_request,
}
use go_flexconf.Prompt.{Answers, PromptRequest}
use go_flexconf.Secret.{Operator}
use go_flexconf.Vaults
use go_flexconf.Vaults.{VaultConf, Yaml, string_value, parsed, vault_id_of}
use go_flexconf.Address.{parse_address}
use go_flexconf.Dict.{lookup}
use go_flexconf.Text.{text, text_eq}
use go_flexconf.Errors.{Result, err, ok, plain}
use go_flexconf.Base.Int.{pos}
use go_flexconf.Base.{
  List, [], arith, false, if◌then◌else◌, is_empty, none, refl, some, true, ℕ, ◌++◌, ◌∷◌, ◌≡◌, ◌+◌,
}

abbrev settings : KeepassConfig
settings = record { file = text "/vault.kdbx"; key_file = []; read_only = false }

abbrev stored : Database
stored = record {
  root = some (
      record {
        name = text "a";
        entries =
            (plain_value (text "Title") (text "b")
              ∷ protected_value (text "Password") (text "old")
              ∷ [])
            ∷ [];
      }
      ∷ []);
}

abbrev opened : Driver Files
opened = record { cfg = settings; configured = true; db = some stored; world = λ p. none }

abbrev agent : Server (Driver Files)
agent = record {
  vault_id = text "ops-0";
  manager = record { driver = opened; retries = 1; configured = true; unlocked = true };
  replay = [];
  idle = some 1000;
  deadline = 1000;
  armed = true;
  stopped = false;
}

abbrev sets : Request
sets = set_request (text "a/b") (text "new")

abbrev gets : Request
gets = get_request (text "a/b")

abbrev read_request : Bytes → Result Request
read_request [] = err plain
read_request (b ∷ []) = ok gets
read_request (b ∷ (c ∷ more)) = ok sets

abbrev requests : Codec Request
requests = record {
  marshal = λ req. ok (if is_empty req.value then 1 ∷ [] else 1 ∷ 2 ∷ []);
  unmarshal = read_request;
}

abbrev read_response : Bytes → Result Response
read_response [] = err plain
read_response (b ∷ []) = ok ok_response
read_response (b ∷ (c ∷ more)) = ok (record ok_response { value = text "new" })

abbrev responses : Codec Response
responses = record {
  marshal = λ resp. ok (if is_empty resp.value then 1 ∷ [] else 1 ∷ 2 ∷ []);
  unmarshal = read_response;
}

abbrev asked : List PromptRequest → ℕ → Result Answers × ℕ
asked reqs n = (ok [], n + 1)

abbrev files : Operator (Result KeepassConfig) (Driver Files) ℕ
files = record {
  paths = record {
    home = some (text "/home/u");
    join = λ a b. a ++ text "/" ++ b;
    dir = λ p. text "/etc";
    is_abs = λ p. true;
  };
  contents = λ w p. parsed (record {
    default_vault = text "ops";
    vaults = (text "ops", (text "driver", string_value (text "keepass")) ∷ []) ∷ [];
  });
  env = some (text "vaults.yaml" ∷ []);
  well_known = [];
  drivers = (text "keepass", opened) ∷ [];
  decode = λ config. ok settings;
  proxy_for = λ name conf d. d;
}

abbrev conf : VaultConf
conf = record { driver = text "keepass"; config = []; source = text "vaults.yaml"; overrode = [] }

abbrev around : Environment (Driver Files)
around = record {
  vault = [];
  digest = λ config. text "0";
  is_terminal = false;
  scan = λ s. (s, []);
  spawn = λ id name. err plain;
  now = 5;
}

abbrev options : Options
options = record { default_vault = []; vault_id = []; idle_timeout = pos 0 }

abbrev flags : Flags
flags = record { vault = []; no_unlock = false; force_unlock = false }

abbrev typed : Shell (Driver Files) ℕ
typed = record {
  input = text "new";
  later = [];
  broken_input = false;
  output = [];
  messages = [];
  agents = (text "ops-0", agent) ∷ [];
  world = 0;
}

vault_selected :
    select_vault (keepass memory) requests responses asked files around options [] 0
    ≡ ok (text "ops", (conf, text "ops-0"))
unfolding select_vault Vaults.load Vaults.resolve vault_id_of
vault_selected = refl

agent_runs : dial (text "ops-0") typed.agents ≡ some agent
unfolding dial lookup
agent_runs = refl

address : parse_address (text "a/b") ≡ ok (text "a", text "b")
unfolding parse_address
address = refl

set_answered : (serve_request (keepass memory) 5 sets agent).0 ≡ ok_response
unfolding serve_request handle_op handle_set Manager.set Storage.set Storage.save set_secret
    value_of index_of reset_idle parse_address text_eq
set_answered = refl

get_answered :
    (serve_request
      (keepass memory)
      5
      gets
      (client_set (keepass memory) requests responses 5 (text "a/b") (text "new") agent).1).0
    ≡ record ok_response { value = text "new" }
unfolding serve_request handle_op handle_set handle_get client_set Manager.set Manager.get
    Storage.set Storage.save Keepass.get get_secret set_secret value_of index_of reset_idle
    parse_address text_eq round_trip write_frame read_frame
get_answered = refl

set_succeeds :
    (set_cmd
      (keepass memory)
      requests
      responses
      asked
      files
      around
      options
      flags
      (text "a/b")
      typed).0
    ≡ ok tt
unfolding set_cmd client_set serve_request handle_op handle_set Manager.set Storage.set Storage.save
    set_secret value_of index_of reset_idle parse_address text_eq round_trip write_frame read_frame
set_succeeds = refl

set_cmd-get_cmd_example :
    ReadsBack
      (keepass memory)
      requests
      responses
      asked
      files
      around
      options
      flags
      (text "a/b")
      typed
      (set_cmd
        (keepass memory)
        requests
        responses
        asked
        files
        around
        options
        flags
        (text "a/b")
        typed)
set_cmd-get_cmd_example =
    set_cmd-get_cmd (keepass memory) requests responses asked files around options flags typed
      (text "ops") conf (text "ops-0") agent (text "a/b")
      (keepass-Remembers memory memory-Documented) vault_selected agent_runs address
      (record { payload = 1 ∷ 2 ∷ []; marshals = refl; unmarshals = refl; fits = omega arith })
      (rw set_answered
        (record { payload = 1 ∷ []; marshals = refl; unmarshals = refl; fits = omega arith }))
      (record { payload = 1 ∷ []; marshals = refl; unmarshals = refl; fits = omega arith })
      (rw get_answered
        (record { payload = 1 ∷ 2 ∷ []; marshals = refl; unmarshals = refl; fits = omega arith }))
      set_succeeds
