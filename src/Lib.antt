-- ===== src/Lib.antt =====
-- The logic of the LocalThings integration (custom_components/localthings), which talks to Samsung
-- appliances over the local network. The integration keeps a cache of the resources of a device.
-- Polls, pushed notifications and its own writes reach the cache through one gate; from the cached
-- resources it finds out which appliance and which subdevices there are, and which entities they
-- have.
--
-- Base: Python's values, texts, dicts and sets. A dict is a list of entries with text keys, and a
--   decoded CBOR or JSON body is a Value. Numbers are natural, and integers of a body are ℤ; a float
--   in a body has no Value (Encode's Object has one).
-- Observe (observe.py, ObserveManager): the state is one record that every method takes and
--   returns. Settle is the write-settle guard, Apply the gate into the cache, Taps and Notify what
--   a push does, Mode the subscription handshake and the two modes, Sweep the search for missed
--   pushes. Tracking has the calls of a manager, the phases of an attempt to subscribe and the
--   recordings included, as a step relation. smartthings_local's state cache
--   and cbor2 are the parameter Library, the clocks are arguments in milliseconds, and a wait on
--   the condition variable is the list of the pushes that arrive before its timeout.
-- Coordinator (coordinator.py): Put is _async_put and _took_effect, over the parameter Transport,
--   which is the session, the clock and asyncio.sleep; Write is async_send_command from the call of
--   write_fn on, which opens and undoes the windows of Observe's Settle; Cooking is
--   async_start_cooking, which sends a plan of Registry's Cook. Sweep is the end of
--   _async_update_data, which compares a sweep with the cache and then puts it there. Presence compares what a read shows
--   with what was written.
-- Learned (learned.py, LearnedModes) and CloudCourse (cloudcourse.py, CloudCourses): the two stores
--   of what a device teaches.
-- Credentials (credentials.py): certificate and pre-shared-key entries, and the device binding.
-- Registry (registry/): Batch (batch.py), UsageDb (usagedb.py), Common (capabilities/common.py,
--   the option tokens and the rows of an items array), Cook (capabilities/cook.py), Redact
--   (redact.py), Encode (encode.py), Flat (flat.py), Subdevices and Partition (subdevices.py),
--   Capability, Discovery, Adapter and Tables (capability.py, discovery.py, adapter.py, registry.py,
--   by_type/_base.py), Identity (identity.py). Subdevices finds the candidates, Discovery binds the
--   entities of a view, Adapter flattens them, and Partition keeps the candidates whose entities
--   are alive. Flat reads a device that has no collection, one href at a time.
--   Cook reads what a board declares of its modes (Specs), shares it between cavities (Sharing),
--   reads the state of a cavity (Views), checks a start (Start) and keeps the choices that are made
--   while the oven is idle (Held, which is HeldCook).
-- Examples: concrete runs.
--
-- No definition has fuel: each loop of the source runs over a list that is there before it starts,
-- or reads its input byte by byte. The search for subdevices is bounded by its deadline, for which
-- the clock is a function of how often it was read.
--
-- Energy is in tenths of a kWh or in Wh, and running time in tenths of an hour, where the source
-- divides by ten or by a thousand as a float. Parameters stand for `str.strip`, `str.lower`,
-- `str.upper` and `str.title` where they reach beyond ASCII, for `uuid.UUID`, for the transport,
-- for JSON, base64 and sha256, for floats, and for the type resolver that picks a device's table.
-- Cook times are whole seconds and their digits are ASCII.
--
-- Not modelled: the rest of the coordinator's polling loop and its debug services, the config flow,
-- the platforms, services and diagnostics, which are glue to the host framework; the transports and
-- legacy HTTP, which are network I/O; floats in the bodies of resources, their tests and texts; the other capability declarations, which are data; locks, threads and logging.
pub mod Base
pub mod CloudCourse
pub mod Coordinator
pub mod Credentials
pub mod Examples
pub mod Learned
pub mod Observe
pub mod Registry
