-- ===== src/Lib.antt =====
-- Verification of AmalgamEngine, a C++ engine for multiplayer games: the rules of its simulation that
-- both sides of a connection must agree on.
--
-- The engine has a library for the server and the client (Source/SharedLib), the server
-- (Source/ServerLib), the client (Source/ClientLib) and an account server. A client sends requests
-- that name a tick; the server sorts them by tick (EventSorter), processes each tick's events in the
-- simulation, and sends the results back, which a client replays on its own copy of the components.
-- The development follows this path: IDs for entities (IdPool), the queue of events (EventSorter),
-- the item database (ItemData) and the inventories that hold its items (Inventory), the server's
-- interface to them (InventoryHelper), cooldowns, the checks of a cast and the casts under way
-- (CastCooldown, CastHelper, CastSystem), the entities that a client is told of (ClientAoi), the
-- layers of a tile (Tile), the map of chunks of tiles (TileMap, Morton), and the extents of tiles
-- and chunks (DiscreteExtent), and the grid of cells that says which entities are where
-- (EntityLocator). Beneath lies the network (Network): the messages and batches on the wire, and
-- the adjustment by which a client keeps its ticks ahead of the server's.
--
--   IdPool           SharedLib/Utility/Private/IDPool.cpp. `reserve_id`, `mark_id_as_reserved`,
--                    `free_id`, `free_all_ids` are reserveID, markIDAsReserved, freeID, freeAllIDs.
--                    `Loops` has the two searches for a free ID, `Invariant` the well-formed pools,
--                    `Fresh`, `Updates` and `Free` the operations, `History` the reachable pools.
--   StringTools      SharedLib/Utility/Private/StringTools.cpp: deriveStringID and pathStartsWith.
--   ItemData         SharedLib/Simulation/Private/ItemData/Item.cpp and ItemDataBase.cpp with
--                    ServerLib/Simulation/Private/ItemData/ItemData.cpp. `Lookup` has the invariant that
--                    the two indices agree; `Create`, `Update` (over `Rename`) and `Reload` have
--                    createItem, updateItem and loadItem.
--   Inventory        SharedLib/Simulation/Private/Components/Inventory.cpp. `Stacks` has the invariant
--                    and the two loops of addItem, `Adding` addItem, `Removing` removeItem, `Swap`
--                    moveItem and getFilledSlotCount, `Combine` both overloads of combineItems.
--   InventoryHelper  ServerLib/Simulation/Private/InventoryHelper.cpp. `Removal` has the removal of an
--                    item across slots, over `Slots` and the loop in `Rounds`.
--   EventSorter      ServerLib/Simulation/Public/EventSorter.h. `Agenda` has its abstract view, a map
--                    from ticks to the events that wait for them.
--   CastCooldown     SharedLib/Simulation/Private/Components/CastCooldown.cpp, with `Elapsed`.
--   CastHelper       ServerLib/Simulation/Private/CastHelper.cpp. `Checks` has the shared checks, `Casts`
--                    the three cast functions, `Effects` what they change.
--   CastSystem       ServerLib/Simulation/Private/CastSystem.cpp. `Lifecycle` has the invariant of the
--                    casts under way, `Frame` and `Busy` what an update and a request leave alone,
--                    `Updates` updateCasts, `Requests` the order in which processCastRequests processes
--                    the requests, `Cooldowns` finishCast, `Completion` and `Ticks` casts over one
--                    and over many ticks.
--   ClientAoi        ServerLib/Simulation/Private/ClientAOISystem.cpp. `Differences` has the sorted lists,
--                    `Tracking` the lists of an entity's components, `Replication` the messages.
--   Tile             SharedLib/Simulation/Private/TileMap/Tile.cpp. `Sorted` has the invariant and
--                    addLayer, `Removal` removeLayers and clearLayers, `Search` getLayers and findLayer.
--   Morton           SharedLib/Utility/Private/Morton.cpp, the tables of codes; `Codes` has their laws.
--   TileMap          SharedLib/Simulation/Private/TileMap/TileMapBase.cpp, with Chunk.cpp. `Positions` is
--                    the place of a tile, with `Addresses`; `Counts` has the invariant of the layer
--                    counts, `Places` the map as layers at positions, `Edits` the addition of layers,
--                    `Removal` and `Clearing` their removal.
--   DiscreteExtent   SharedLib/Simulation/Public/DiscreteExtent.h. `Sets` has extents as sets of positions.
--   Network          ServerLib/Network/Private/Client.cpp (`ServerClient`, `ServerBatch`,
--                    `Receiving`), ClientLib/Network/Private/Network.cpp and MessageProcessor.cpp
--                    (`ClientNetwork`, `ClientSend`, `Batches`, `MessageProcessor`) and
--                    SharedLib/Network/Private/Peer.cpp (`Peer`). `Adjustment`, `Window` and
--                    `Freshness` have what the server calculates, `Protocol`, `Agreement` and
--                    `Reachable` both sides in every interleaving, `RoundTrip`, `Confirmation`,
--                    `Ticks` and `Sending` a batch from the server to the client, `Stream` with
--                    `Next` and `Sequence` the messages from the client to the server.
--   EntityLocator    SharedLib/Simulation/Private/EntityLocator.cpp. `Cells` has the places of cells in
--                    the grid, `Held` the invariant, `Tracking` updateEntity and removeEntity, `Sizing`
--                    setGridSize, `Axes` and `Queries` getEntities, `History` the locator against a map.
--   Prelude          Boolean tests on numbers, lists over the native numbers, integers, association
--                    lists.
--
-- (All paths are under Source/.) A class or struct is a record with the source's fields; a method
-- that changes it returns the new record. Machine integers are natural numbers with the wrap-around
-- of their type written out; the signed coordinates of extents are integers without bound, since
-- their overflow is undefined. An unordered map is an association list with at most one entry per
-- key; a pointer into a map is the key that it points to. A loop over a vector is structural
-- recursion on the list, or on the number of its rounds, which the caller computes from the
-- vector's size or from the number of bytes that are awaited: no function here can run out of fuel;
-- CastSystem's `run_ticks` counts the ticks of the simulation. Undefined behaviour and LOG_FATAL,
-- where a caller can reach them, are results of their own (IdPool.Outcome, Inventory.Combined,
-- `none` in CastSystem, TileMap and the batches of Network). The project's limits, like
-- MAX_BATCH_SIZE, are those of EngineSupplementExamples/Shared/Config/Public/SharedConfig.h.
--
-- The registry, sockets, serialization, compression, the collision locator, the map's extent, the
-- project's validation and floating-point numbers are not code of these files: CastHelper takes
-- what it asks of them as a record of parameters, CastSystem one for each tick with the callbacks
-- recorded, and InventoryHelper takes an entity's components and returns the list of messages that
-- it sends. The signals of the item database are lists of the published IDs. EntityLocator takes
-- the cells of a position and of a shape. The network takes SDL_net's sockets, bitsery, lz4 and the
-- circular buffer as records of functions with the laws that they document; each function of its
-- threads is one step of a relation.
--
-- Not modelled: logging, the rest of the simulation's systems, the map's walls, its loading and
-- collision, graphics, serialization, timeouts, the rest of the client and the tools. A data race
-- within a function of the network is not modelled.
pub mod Prelude
pub mod IdPool
pub mod StringTools
pub mod ItemData
pub mod Inventory
pub mod EventSorter
pub mod CastCooldown
pub mod Tile
pub mod InventoryHelper
pub mod CastHelper
pub mod DiscreteExtent
pub mod CastSystem
pub mod Morton
pub mod TileMap
pub mod ClientAoi
pub mod Network
pub mod EntityLocator
