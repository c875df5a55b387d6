-- ===== src/Lib.antt =====
-- mHost edits the hosts file of a machine from profiles of rules, and answers DNS queries from
-- profiles and block lists. This library models the Rust side, below src-tauri.
--
-- The way of a change to the hosts file. A command (src-tauri/src/commands/apply.rs) lists the
-- hosts profiles that the storage holds, merges their enabled rules into a plan, builds the new
-- content of the hosts file around the unmanaged text, writes it behind a backup, verifies what
-- it wrote and restores the backup when that fails. Enabling a profile first disables the others.
--
--   Core            crates/mhost-core: models.rs and error.rs. Core/Ip is the interface of the
--                   standard library's IpAddr: its text form, its equality and its order.
--   Hosts           crates/mhost-hosts: validator.rs, formatter.rs and parser.rs. A line is
--                   parsed to a rule; the managed block is found by lines and by bytes, and
--                   Hosts/ManagedBlock/Agreement relates the two.
--   Apply           crates/mhost-apply: merge.rs, conflict.rs, diff.rs, lib.rs (Plan),
--                   writer/content.rs (Content), writer/verification.rs (Verification), and
--                   writer/mod.rs with writer/backup.rs (Writer).
--   Dns             crates/mhost-dns: trie.rs (Labels, Trie), resolver.rs (Resolver), adblock.rs
--                   (AdBlock) and server.rs (Server, Server/Tasks, Server/Lifecycle). A request goes to the
--                   cache, the ad-block engine, the rules and the upstream, in this order.
--   Storage         crates/mhost-storage/src/storage.rs: the profile files and their loads, saves
--                   and deletions.
--   Sources         the ad-block sources: crates/mhost-storage/src/adblock.rs (Store) and
--                   src-tauri/src/commands/adblock.rs: the entries of the whitelist (Whitelist), the
--                   parsers of a list (Blocklist), one refresh (Fetch) and the commands (Settings).
--                   A refresh writes the list as hosts lines to a cache file; the commands write
--                   the state to adblock.json.
--                   Sources/Reload takes the cached lists to the rules of the server, and its gate
--                   skips a reload whose input has not changed. Sources/Overlap reports the
--                   domains that several sources block.
--   Platform        crates/mhost-dns/src/platform.rs: what networksetup and route print and the choice
--                   of the upstream (Resolvers), and the quoting for the shell (Shell). Core/OriginalDns
--                   has the servers that are written back to the system.
--   Commands        src-tauri/src: the logic of commands/apply.rs (Apply, Decision),
--                   validate_profile and disable_other_profiles of commands/profile.rs
--                   (Validation, Apply), tray_logic.rs (Tray), the imports, exports and
--                   duplicates of commands/profile_io.rs (ProfileIo), and the snapshots of
--                   commands/snapshot.rs with their index and the markers of a crash (Snapshot).
--   Common          texts, lists, results and sorting, with the lemmas that the parts share.
--   Tests           runs at concrete inputs, with three addresses that meet Core/Ip.
--
-- Conventions. A text is the list of its characters, and a byte offset is counted in the UTF-8
-- lengths of the characters; a slice off a character boundary is a panic, written none. State is
-- passed explicitly: an operation returns its result with the new files, system or engine. What
-- the disk, the platform and the clock answer is an argument. A HashMap is a list of its entries
-- with distinct keys, and no result depends on their order. A UUID is a number, and the drawn
-- ones are arguments. The JSON of serde is the interface Storage.Profiles.Json, whose law says
-- that what was printed reads back but for HostRule.line_number, which serde skips (saved_form).
--
-- The LRU cache, the codec of DNS messages and the upstream resolver are parameters of the server
-- (Lru, Wire, Upstream); the HTTP agent, UTF-8 decoding and str::to_lowercase are those of the
-- sources (Net, Lowercase), Hasher is DefaultHasher, and Messages stands for the wording of what is shown.
--
-- Fuel. The search for a free backup name has fuel for 1025 rounds and gives up by its own counter
-- after 1024. The walks over the labels of a domain take one more than its characters as fuel, and each
-- round drops a character at least; the walk of a rule lookup takes the same. The search for a
-- free profile name has fuel for 100 rounds and ends by its own counter after 99. All other loops
-- are recursions on lists.
--
-- A failed elevated move may have changed the hosts file: Platform.left is what it leaves. In Dns, a
-- request of the server is a task (Server/Tasks): it looks its answer up in one step and stores it
-- in a later one, and the steps of other tasks, reloads and a shutdown may come in between. The
-- look-up itself and a reload are single steps.
--
-- Not modelled: the locks, since each other operation is one step; the upstream proxy and the refresh of the upstream;
-- the scripts of the platform layer that run with privileges; reloads that wait for each other;
-- the manifest and its migration; the Tauri set-up, and the front
-- end.
pub mod Apply
pub mod Commands
pub mod Common
pub mod Core
pub mod Dns
pub mod Hosts
pub mod Platform
pub mod Sources
pub mod Storage
pub mod Tests
