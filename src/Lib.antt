-- ===== src/Lib.antt =====
-- cpak decides what software a host runs: an administrator writes a trust policy, a package
-- carries a signed identity, a reputation provider may be asked about the publisher, and the
-- outcome travels as one result with an exit code. A privileged authority keeps a ledger of what was
-- enrolled, and a launch is recognised by it. This library models the packages that make those
-- decisions.
--
-- - Base and Go: shared helpers, and what the program uses of Go's standard library. A Go string
--   is its list of bytes (`Text`), a `(T, error)` pair is `Outcome`, a signed integer that is
--   only compared is `ℤ`, a uint64 that is only compared is ℕ. Go.Strings has split, join and
--   prefixes, Go.Regexp matches by derivatives, Go.Utf8 has validity and `strings.ToValidUTF8`,
--   Go.Time reads RFC 3339, Go.Sort sorts by insertion, Go.Search is `sort.Search`.
--   An instant is its nanoseconds since two days before year 0, so that a zone offset never goes below 0.
-- - TrustPolicy (pkg/trustpolicy): Origin is `canonicalOrigin`, `foldASCII` and `sameOrigin` of
--   origin.go; Policy holds the records and `Empty` of policy.go; Decide has the five decisions
--   of decide.go, each with `settled` first; Reputation is the stage of reputation.go. What a
--   decision prints is a constructor of `Reason` for each format string, with its arguments. The
--   loops are recursions on their lists. Validate is `Policy.Validate` with `validateV2` and
--   `validateReputationException`; `url.Parse` and `strings.TrimSpace` are its parameters, since
--   the rest of net/url and the tables of Unicode spaces play no part in a decision.
-- - Reputation (pkg/reputation/reputation.go): statuses, publisher IDs, results, and in
--   Snapshot the checks of a signed document and `Lookup`. The bisection runs on fuel, the number
--   of entries, which each round at least lowers by one; Go.Search shows that this is enough. The
--   JSON decoding and the Ed25519 check of snapshot.go are not modelled.
-- - ApplicationTrust (pkg/applicationtrust/decision.go): Model has the types, Fields and Validate the
--   checks of `Result.Validate` in their order, Resolve `ResolvePolicyAction`, `NewFinal` and
--   `finalFor`, SafeText `safeText` and `SanitizeText`. A Go string type is a data type of its
--   constants, with `other` for any other text. A limit of `SanitizeText` below 1 is 0.
-- - Types (pkg/types): Dbus is dbus.go, HostActions is host_action.go without its JSON decoding,
--   Override is override.go as far as it needs no reflection over other structs: the fields that `Additions` walks by reflection are written out in their
--   order. `sort.Slice` leaves the order of equal keys open; the keys of a validated policy differ.
--   Filesystem is filesystem.go up to where a permission resolves to, with `filepath.Clean` as a
--   parameter, and Filesystem.Migrated is `WithMigratedFilesystem` of override.go.
-- - Integrity (pkg/integrity): the anchor of store.go, the roots of root.go, and in Policy the hash of a
--   permission set and `Restricts` of policy.go. SHA-256, as its hexadecimal digits, and `json.Marshal`
--   are parameters. The comparisons that a loop makes over a Go map are made over the list of its keys.
-- - Signature (pkg/signature): State is state.go with its canonical lines and its parser, over
--   Go.Decimal; Evidence is the envelope of evidence.go and what a verifier answers. The verifiers
--   themselves are a parameter. Printing a number runs on the number plus one as fuel, and each step
--   divides by ten.
-- - SystemAuthority (pkg/systemauthority): Checks validates enrolments and tombstones (anchor.go, and
--   `validateOrigin` of session.go), Orders is `ordersAfter`, `ordersAfterRemoval`, `raisedBy` and
--   `authorizationAgainst`, Confirmations is reputation_confirmation.go
--   (Confirmations.Sequences: sequences of its operations), Admission is `admitSignature`
--   and `admitTrust` with its stages (trust.go), Ledger has the files and how they are read, Ledger.Record
--   is `record` and `authorizationFor`, Ledger.Forget is `Forget`, `entomb` and `ClearForgotten`. The
--   disk is a state that each operation takes and returns: for each account, whether the directories
--   are there and trusted, and the files by name, each trusted or not. A file's content is of a type of documents that
--   only its size and a decoder read, so `encoding/json` is a parameter. What it encodes is the
--   enrolment with its signed state turned into the evidence (`as_stored`), as `SignedState.MarshalJSON`
--   does, so a state of the older shape comes back tagged; encoding may fail. Where a theorem needs what
--   was written to be read back, that is the hypothesis `Lossless`. An operation of the machine
--   (create, write, remove) may fail at any time. What the host says (its two policies, the verifier, the
--   reputation store, the clock, the random token) is a record `World` that each operation takes.
--   Ledger.Steps is the relation of one operation, and its closure. Calls of the authority that run at
--   one time are not modelled: an operation is one step.
-- - RuntimeProto (pkg/runtimeproto/protocol.go): frames and exit codes, over a stream that is its
--   list of bytes.
-- - DesktopBus (pkg/desktopbus): Auth is `readAuthLine` and `authenticateClient` of wire.go, over the
--   list of the client's lines and with `strings.Fields` as a parameter; the peer's user, the first byte
--   and the random identity of the server are arguments, each of which may be missing, and a reply is
--   always written. The 4096 bytes of a line are the fuel of its loop. Auth.History tells from the
--   client's words alone whether an identity is accepted. Layout is `messageLayout`.
-- - Examples: tests, and the theorems at work on concrete values.
--
-- Not modelled: the packages that act on the host (containers, mounts, sockets, downloads), the
-- Sigstore and X.509 checks, the transports of the authority and its session registry, the filters of
-- the session bus proxy and its sockets, the desktop
-- interface and the commands.
pub mod ApplicationTrust
pub mod Base
pub mod DesktopBus
pub mod Examples
pub mod Go
pub mod Integrity
pub mod Reputation
pub mod RuntimeProto
pub mod Signature
pub mod SystemAuthority
pub mod TrustPolicy
pub mod Types
