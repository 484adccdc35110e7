-- ===== src/Lib.antt =====
-- ShareHound: the core of the Go implementation (the tree Go/).
--
-- ShareHound connects to file servers, reads the access rights of their shares, directories and files,
-- and writes a graph of hosts, shares, directories, files and rights. The parts that decide what the
-- graph says are modelled here:
--
--   Kinds, Kinds/Descriptions    Go/pkg/kinds/kinds.go: the names of the kinds of nodes and edges.
--   Smb/Bytes                    the slices and integers of Go that the parsers of Go/internal/smb use.
--   Smb/Sid                      Go/internal/smb/sid.go: `ParseSID`, `String` and the tests on identifiers.
--   Smb/Descriptor               Go/internal/smb/security_descriptor.go: `ParseSecurityDescriptor`,
--                                `ParseACL` and `ParseACE`.
--   Smb/Flags, Smb/AccessMask    Go/internal/smb/access_mask.go: the kinds of a mask and
--                                `ComputeEffectiveRights`.
--   Collector/Rights             Go/internal/collector/share_rights.go and ntfs_rights.go.
--   Collector/Counts, Collector/Contents
--                                Go/internal/collector/contents.go: the counters, and the walk over the
--                                directories of a share (Traverse).
--   Graph/Element                Go/internal/graph/node.go and edge.go.
--   Graph/Json, Graph/Marshal    Go/internal/graph/node.go and edge.go: JSON values, `MarshalJSON` and
--                                `UnmarshalJSON`.
--   Graph/OpenGraph              Go/internal/graph/opengraph.go: the store of nodes and edges.
--   Graph/Context                Go/internal/graph/context.go: the state of the context of a share.
--   Graph/Emission               Go/internal/graph/context.go: `AddPathToGraph` and the two functions that
--                                add rights.
--   Rules/Value, Rules/Condition Go/internal/rules/rule.go and objects.go: values, comparisons, conditions.
--   Rules/Evaluator              Go/internal/rules/evaluator.go: `CanExplore`, `CanProcess`, `evaluate`.
--   Rules/Scan, Rules/Comparison,
--   Rules/Parser                 Go/internal/rules/parser.go.
--   Worker/Pool                  Go/internal/worker/pool.go: the pool of sessions that the workers share.
--   Worker/Tasks                 Go/internal/worker/worker.go: `processShare`, and `ProcessTarget` (Target).
--   Targets                      Go/internal/targets/loader.go: the targets.
--   Utils/Network                Go/internal/utils/network.go: the addresses of a network.
--   Checkpoint                   Go/internal/checkpoint/checkpoint.go: the targets that are done, saving and
--                                restoring.
--
-- The bytes of a descriptor go through Smb/Descriptor to the collector, which makes the rights of each
-- identifier of them (Collector/Rights with Smb/AccessMask); these rights stand in the context of a share,
-- and `AddPathToGraph` writes them as edges to the store. The rules say which objects are explored and
-- which are written. Child modules are named for what they prove; the modules called Tests run the
-- definitions on small inputs. Prelude holds what all parts share: Boolean tests of the native numbers,
-- lists measured by them, Go strings as lists of bytes, and `Outcome` for a value, an error or a panic.
--
-- How the code is rendered. A function that returns a value and an error, or that can panic by an index
-- or a slice out of range, returns an `Outcome`. An upper bound of a slice is held against the length,
-- where Go holds it against the capacity; so what does not panic here does not panic in Go. `int` has 64
-- bits. A method that changes its receiver takes it and returns the changed one. A map is a list of pairs
-- with different keys; where the code iterates over a map, the order is an argument or that of the list.
-- Text is ASCII where case is folded or blanks are trimmed. The temporary files of the store are lists of
-- the objects written to them; they can be written and opened, and what is read from a line is decoded from
-- its JSON, which `Encoding` reads: a parameter for the strings that are no valid UTF-8 and for the numbers
-- that become a float64. The file of a checkpoint is its JSON too. The store's mutex makes its
-- operations one after the other; the pool's mutex makes its sections steps of a relation, which any
-- number of workers interleave. Floats and regular expressions are parameters of the rules (`Runtime`).
--
-- The walk over the directories and the processing of a target take what the host answers as a parameter
-- (`Session`, `Network`), and the flag of the timeout as a function of the number of the read, so the
-- timeout may come at any time. The goroutines of the shares of one target run one after the other; one that
-- is not given the semaphore waits until the flag is set.
--
-- Fuel. The walk over the directories has no bound where there is neither a limit on the depth nor a
-- timeout; its fuel is the number of levels it may go down, and is enough when it is more than the limit
-- on the depth or than the number of reads of the flag before the timeout. A goroutine that waits for the
-- semaphore has as many reads of the flag. `decimal` is given the number
-- itself as fuel, which has at least as many units as digits. `parse_condition` and `parse_value` are given
-- one more than the length of their text, and each call inside is on shorter text. The loop over the
-- addresses of a network is given one more than their number. What the package `net` parses and prints is a
-- parameter (`Net`).
--
-- Not modelled: the SMB protocol, sessions, Kerberos and the directory service (requests over the network
-- by libraries, whose results are arguments), the goroutine that saves checkpoints, the loading of targets,
-- logging and the command line, the export of the graph to a file, the library under Go/third_party, and the Python
-- implementation.
pub mod Prelude
pub mod Kinds
pub mod Smb
pub mod Collector
pub mod Graph
pub mod Rules
pub mod Worker
pub mod Checkpoint
pub mod Targets
pub mod Utils
