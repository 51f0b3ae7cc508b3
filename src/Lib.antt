-- ===== src/Lib.antt =====
-- TerminalSim: a network of container terminals, their congestion and the shortest paths between
-- them.
--
-- The program has these parts. `src/graph` holds a directed multigraph of weighted edges with a
-- transportation mode, and path searches on it. `src/terminal/terminal.cpp` is one terminal: a
-- store of containers, a system-dynamics model of its congestion that gives each time step a
-- service capacity, and containers that are dequeued or reserved, committed and released within
-- it. `src/terminal/terminal_graph.cpp` builds the network of terminals on the graph, and
-- `src/server` receives commands over a message queue and calls it.
--
-- The modules:
--   Prelude, with its children: tests, lists, keys, integers, maps and sets. `std::unordered_map`,
--     `QHash` and `QMap` are association lists, sets are lists without repetition.
--   Reply: a value or one of the two exceptions that the code throws.
--   Common: the enumerations of src/common/common.h and their texts, of src/common/common.cpp.
--     `tryParseTransportationMode` is `try_parse_mode`, `tryParseTerminalInterface` is
--     `try_parse_side`; the text functions of Qt are the record `Qt`.
--   Weight and Real: what the graph asks of its weight type and the terminal of `double`. Laws of
--     a weight are named hypotheses (`IsOrdered`); rounding is not modelled.
--   Graph: src/graph/Edge.h and src/graph/Graph.h. `addVertex` is `add_vertex`, `removeVertex` is
--     `remove_vertex`, `addEdge` is `add_edge`, `hasEdge` is `has_edge`, `removeEdge` is
--     `remove_edge`, `deepCopy` is `deep_copy`. An operation returns the new graph and the answer.
--   Paths and Dijkstra: src/graph/Algorithms.h. `dijkstraShortestPath` is `dijkstra`; the loop
--     takes one unit of fuel for each pair that the queue can come to hold and one more, and the
--     reconstruction one for each visited vertex and one more: a round takes one pair out, and each
--     pair but the first stands for an edge of a vertex that is visited once.
--   Yen: `kShortestPaths` and `createModifiedGraph` of src/graph/Algorithms.h, over `Dijkstra`, and
--     in Yen/Diverse `kShortestPathsModified` and `createDiverseModifiedGraph`.
--   Terminal: src/terminal/terminal.h and src/terminal/terminal.cpp. Each public method holds the
--     mutex of the terminal throughout and is a function from a terminal to a terminal and an
--     answer, which is a value or an exception; after an exception the state that the code leaves
--     is returned. Terminal/Dynamics has `calculateCongestion`, `calculateServiceCapacity`,
--     `calculateDelayMultiplier`, `calculateArrivalPenalty`, `refreshServiceCapacityBudgetLocked`,
--     `updateSystemDynamics`, `runtimeTerminalSnapshotLocked` and `resetRuntimeStateLocked`;
--     Terminal/Batches the handling records; Terminal/Pickup the choice and the removal of
--     containers and `dequeueContainers`; Terminal/Reservations `reserveContainers`,
--     `commitContainerReservation` and `releaseContainerReservation`, with the steps and runs of
--     these operations in Terminal/Reservations/Steps; Terminal/Capacity the capacity checks and
--     costs; Terminal/Arrivals `handleContainerArrivalLocked`, `addContainer` and `addContainers`;
--     Terminal/Creation the constructor; Terminal/Results `terminalExecutionResultsLocked` and
--     `clearTerminalExecutionResults`.
--   Network: src/terminal/terminal_graph.h and src/terminal/terminal_graph.cpp, the terminals, their
--     names and their routes. `QVariant` and the terminals are the interfaces `Variant` and `Host`.
--     Network/Attributes has the validation of attributes and of cost parameters; Network/Costs
--     `computeCost` and `buildPathSegment`; Network/Parsing the modes, interfaces and names in
--     variants; Network/Terminals `addTerminal`, `addTerminals`, `addAliasToTerminal`,
--     `removeTerminal`, `clear` and the queries; Network/Status `resetRuntimeState` and
--     `getTerminalStatus`; Network/Routes `addRoute`, `addRoutes` and `updateGraph`; Network/Paths
--     `convertEdgePathToTerminalPath`; Network/Search `findShortestPath` and
--     `findTopNShortestPaths`; Network/Runs the calls as steps. Network/Invariant, Network/Graphs,
--     Network/Answers, Network/Segments and Network/Batches have the proofs on them. `Terminal` is
--     a model of one terminal of its own: `Host` names what the network asks of it.
--   Server: src/server. The terminals' methods are the interface `Yard`, the container library and
--     JSON the records `Containers` and `Json`. Server/Params reads the parameters of a command;
--     Server/Terminals has the commands on one terminal, Server/Graphs those on the network and
--     Server/Queries those on a list of terminals; Server/Commands has `registerCommands`,
--     `processCommand`, `deserializeParams` and `determineEventName`; Server/Messages
--     `processJsonCommand`, `onMessageReceived` and `processHealthCommand`; Server/Broker the loops
--     of `connect` and `sendResponse` and the worker of src/server/rabbit_mq_handler.cpp. The fuel of
--     `deserializeParams` is one more than the nesting of the parameters. Server/Messages/Terminals
--     lifts what the methods of a terminal keep to the terminals of the network; Server/Yards joins
--     the model of a terminal to the commands, with `addContainersFromJson` and the queries by time,
--     and Server/Yards/Created joins its constructor.
--   Examples: the theorems at concrete inputs, and tests.
--
-- The container library, the text functions of Qt and the numbers that an arrival draws at random
-- are parameters (`Env`, `Qt`, `Draws`), so are the hash and the encoding in the identifier of a
-- path (`Encoding`). Not modelled: JSON output, logging, the broker's client and its reconnection,
-- start-up and shutdown of the server, and of a terminal its aliases by mode, its estimates and its
-- projections. Counters of the terminal are natural numbers: the 32-bit limits of `int` matter only
-- where the code names them (`int_max`), and a terminal holds fewer containers than that. The
-- capacity is an integer, since the configuration may give a negative one.
pub mod Prelude
pub mod Reply
pub mod Common
pub mod Weight
pub mod Graph
pub mod Paths
pub mod Dijkstra
pub mod Yen
pub mod Real
pub mod Network
pub mod Terminal
pub mod Server
mod Examples
