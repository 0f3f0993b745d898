-- ===== src/Lib.antt =====
-- go-flexconf: layered configuration with templated values, and the secret vaults behind them.
--
-- The program's parts and the files that model them:
--
-- - flexconf/template.go: the scanner of `$(scheme:path)` tokens. Template.antt has `scan_tokens` for
--   scanTokens; Template/Scan, RoundTrip and Sound hold the proofs.
-- - flexvault/address.go: the address `namespace/key` of a secret. Address.antt.
-- - flexprompt/: what a vault asks for and the prompters that answer it without a terminal, and the
--   replay prompter of internal/agent/prompter.go. Prompt.antt.
-- - flexvault/driver.go and flexvault/manager.go: a Manager drives one driver through Configure,
--   Unlock, Get, Set, List and Lock. Driver.antt is the interface, a record of operations on the
--   driver's own state with what it asks of them (`Honours`); Manager.antt is the Manager over any
--   such driver and any prompter. Manager/Lifecycle has its calls as a step relation.
-- - flexvault/driver/keepass/keepass.go: the KeePass driver. Keepass.antt has the database as a list
--   of groups of entries and the accesses to it; Keepass/Storage has what touches the file, and the
--   driver as an instance of the interface (`keepass`).
-- - internal/agent/: the agent holds a Manager in a process of its own and serves it over a socket.
--   Agent/Wire is the protocol, Agent/Server the handler and the idle timer, Agent/Client the requests.
--   The server unlocks its Manager by a replay prompter, which is given the answers of the request.
-- - internal/variant/variant.go: a family of variants and its configured instances, found by
--   selectors. Variant.antt; Variant/Resolving and Variant/Instances.
-- - internal/vaultreg/registry.go: the operator's vault definitions, merged from a list of files.
--   Vaults.antt; Vaults/Static has the rule that no token stands in a definition, Vaults/Merging how
--   a later file replaces a name, Vaults/Loading what every load keeps, Vaults/References the parser
--   of `[vault:]namespace/key`, Vaults/Names the sorted names, Vaults/WellKnown the
--   path of the file that needs no setting, and Vaults/Ordering the order of Go's maps.
-- - flexconf/node.go and flexconf/merge.go: the value tree of a configuration file and the merge of
--   the layers. Node.antt; Node/Merging has what a merge leaves at each path, Node/Parsing the keys
--   of its maps, Node/Finite the nodes whose aliases do not loop.
-- - flexconf/template.go, resolveTree, and flexconf/resolvers.go: the resolution of the tokens of a
--   merged tree through the resolvers of a Loader. Resolve.antt; Resolve/Splicing, and Resolve/Options for
--   the options and the registration of resolvers.
-- - flexvault/registry.go: the names of the drivers. Driver/Registered.antt.
-- - flexconf/include.go: the expansion of `$(config:path)` in the tree of one layer. Include.antt, over
--   Fuel.antt; Include/Ending has when it ends, Include/Containment what it can read.
-- - flexconf/schema.go: the keys and the shape that a destination's type asks for. Tag.antt
--   has the tags of fields, Schema.antt the rest; Schema/Keys, Schema/Merged.
-- - flexconf/bind.go and flexconf/variants.go: the binding of a resolved tree to a Go value, and the
--   instances of variants that it registers. Coerce.antt has values and scalars, Store.antt the memory
--   that a binding changes, Bind.antt structs, maps and slices, Binder.antt variants and the binding of
--   every node, Bind/Messages the text of the errors of scalars; Bind/Strict, Coerce/Bounds, and in
--   Binder/ what a failed binding does to the registries.
-- - flexconf/loader.go: `Load`, which puts the parts of flexconf/ together: the layers are read and
--   their includes expanded, checked, merged, resolved and bound, and the result swapped in. Load.antt;
--   Load/AllOrNothing, Load/Total, Load/Shaped.
-- - flexconf/secret.go: `secret:` references, over vaults that a Loader opens once. Secret.antt;
--   Secret/Cache.
-- - internal/agent/proxy.go: the driver that forwards to an agent. Agent/Proxy.antt; with
--   Agent/Proxy/Transparent, a Manager here over a Manager there.
-- - flexprompt/prompters.go, the prompter on a terminal: Prompt/Terminal.antt; Prompt/Terminal/Answering,
--   Prompt/Terminal/Piped.
-- - internal/agent/server.go, the process of an agent as steps on its state: Agent/Process.antt;
--   Agent/Process/Requests and Stopping for its end, Agent/Process/Owner for its peers.
-- - internal/agent/paths.go and spawn.go: Agent/Starting.antt.
-- - flexvault/decoder.go: the settings of a driver. Settings.antt; Settings/Assigned.
-- - flexcli/app.go and flexcli/secret.go: the commands, over the registry of vaults, a Manager over the
--   proxy and the clients of the agents. Command.antt chooses the vault and reaches its agent,
--   Command/Actions.antt has the commands and Command/Listing.antt the listing of the registry;
--   Command/App.antt has an App as the agent that its own process may be; Command/Consent,
--   Command/Overriding, Command/Actions/Serving, Command/Listing/Sound, and Command/Actions/RoundTrip
--   over Manager/Remembering and Keepass/Storage/Remembering.
-- - flexconf/variants.go, the process-wide registries: Variant/Families.antt.
--
-- Shared: Base.antt passes the library's names on, Text.antt has Go strings as lists of code points,
-- Dict.antt Go maps as association lists, Errors.antt the sentinel errors and results, Action.antt
-- code with a state that may fail. Tests/ has runs of the definitions and the theorems at concrete
-- inputs, over a file system in memory.
--
-- Fuel: `scan` has the length of its string as fuel; each round drops a character at least, so that
-- it is enough. `expand` has the cap on the depth of includes, 16: a layer's file is open first and
-- each level below opens one more, so that no load runs out of it (Include/Ending, Load/Total). `none`,
-- which stands for code that does not end, is also what `from_yaml` gives where an alias stands for a
-- node around it; Node/Finite has the trees without one.
-- `unlock_loop` counts the attempts of the source's own loop, and `await_socket` its looks at the
-- socket. All else is structural.
--
-- Parameters: what gokeepasslib and the operating system do with a database file (`Library`), what
-- encoding/json does with a message (`Codec`), the home directory and the joining of paths (`Paths`),
-- the environment, the files and the resolvers that a Loader has, the contents of the registry files
-- once parsed, package filepath and the files of the layers (`Files`, `Setup`), the methods of the
-- destination's types, the parsers of floats, times and durations, `fmt.Sprint` and the order in which
-- Go ranges over the fields of a struct (`Host`), the prompter that a Manager uses, what package
-- reflect makes of a setting (`Reflect`), the texts that package fmt prints (`Format`), the terminal and
-- the start of a process (`Environment`), what package time makes of a duration and of its text, and
-- the world that these change.
--
-- Not modelled: the text of error messages but for a scalar that is not converted, contexts but for
-- their error, mutexes (a method or a request is one step), sockets and files but for the outcome of a
-- call on them, agents that end by themselves while a command runs, cobra and main, the wrappers of
-- flexconf/variants.go over package variant, Go types that contain themselves, pointers into the middle
-- of a value, and hooks that change the value they validate.
pub mod Base
pub mod Text
pub mod Dict
pub mod Errors
pub mod Template
pub mod Action
pub mod Address
pub mod Prompt
pub mod Driver
pub mod Manager
pub mod Keepass
pub mod Agent
pub mod Variant
pub mod Vaults
pub mod Node
pub mod Resolve
pub mod Fuel
pub mod Include
pub mod Tag
pub mod Schema
pub mod Coerce
pub mod Store
pub mod Bind
pub mod Binder
pub mod Load
pub mod Secret
pub mod Command
pub mod Settings
pub mod Tests
