-- ===== src/Lib.antt =====
-- bouheki restricts file opens, mounts and connections by three eBPF programs on hooks of the
-- Linux security modules. A command in Go fills their maps from a YAML file, attaches them and logs
-- the events that they send. This library models the three programs, how user space fills their maps
-- from the settings, by files, addresses and domain names, and how it reads their events.
--
-- The parts, and the files that model them:
--
-- - pkg/bpf/c/common_structs.h, helpers of all programs: Common.antt has its constants and the loops
--   of `strcmp` and `strlen`; Common/Container.antt has `_is_host_mntns` (is_host_mntns),
--   `is_container`, and the reads of the current task that every program repeats. Common/Strings.antt
--   and Common/Lengths.antt hold the lemmas.
-- - pkg/bpf/c/restricted-file.bpf.c: File.antt has the callback `cb_check_path`, the code behind the
--   label `out` and the program `restricted_file_open`. File/Policy.antt says what it answers,
--   File/Event.antt what it sends, File/Lists.antt how this depends on the lists.
-- - pkg/bpf/c/restricted-mount.bpf.c: Mount.antt, with `cb_check_path`, `out` and
--   `restricted_mount`; Mount/Policy.antt and Mount/Event.antt.
-- - pkg/bpf/c/restricted_network_structs.h and restricted-network.bpf.c: Network/Structs.antt has the
--   structs and `src_addr4`, `src_addr6`; Network/Report.antt has `report_ipv4_event`,
--   `report_ipv6_event` and the tests for port 0; Network/Connect.antt has `socket_connect`, whose
--   body is cut into the key of the searches (trie_key), the tests against the lists (can_access)
--   and the end (respond). Network/Policy.antt states the policy without reference to the order of
--   the tests; Network/Key.antt, Decision.antt, Event.antt, Packet.antt and Lists.antt relate the
--   program to it.
-- - pkg/audit, in Go: Audit/FileAccess.antt and Audit/Mount.antt have `parseEvent` and `newAuditLog`
--   of fileaccess/audit.go and mount/audit.go, Audit/Network.antt has `parseEvent` of
--   network/audit.go, Audit/Helpers.antt has helpers/helpers.go. Audit/Binary.antt says what
--   `binary.Read` of Go's library does with a struct. The modules Logged, Ipv4, Ipv6 and Delivered follow an
--   event from the program that sends it to the values that user space gets.
--   Audit/Network/Log.antt has `newAuditLog` and the printing of addresses of network/helper.go,
--   Audit/Network/Printed.antt is about it.
-- - pkg/audit/network/manager.go: Audit/Network/Manager.antt has the bytes that are written into the
--   maps (`setConfigMap`, `ipv4ToKey`, `ipv6ToKey`, `byteToKey`, `uintToKey`), with the settings that
--   it takes from config/config.go; Audit/Network/Setters.antt has the setters of the lists of
--   commands, users and groups, Audit/Network/Cidr.antt those of ranges and of addresses.
--   Audit/Dns/Update.antt has `initDomainList` and `SetConfigToMap`. Written.antt, Groups.antt,
--   Entries.antt, Ranges.antt, Covered.antt and Writes.antt are about what is written and what a
--   lookup finds of it. Ip.antt has what the code uses of Go's package net, Masks.antt and Trie.antt
--   what it and the kernel's tries say of prefixes.
-- - pkg/audit/network/fqdn.go and dnsproxy.go: Audit/Dns.antt has `toFqdn`, `exchange` and `Resolve`,
--   Audit/Dns/Update.antt the updates of the lists by an answer, Audit/Dns/Async.antt the rounds of
--   `AsyncResolve`, Audit/Dns/Proxy.antt the handler `ServeDNS` and its cache. Answers.antt,
--   Names.antt, Wire.antt, Addresses.antt, Served.antt and Allowed.antt are about them.
-- - pkg/audit/fileaccess/manager.go and mount/manager.go: Audit/Paths.antt has what the two have in
--   common, Audit/FileAccess/Manager.antt and Audit/Mount/Manager.antt have `SetConfigToMap`;
--   Audit/Paths/Entered.antt is about the entries that are written.
-- - The composition of user space and kernel: Audit/Deployed.antt with its children, and
--   Audit/FileAccess/Deployed.antt and Audit/Mount/Deployed.antt, run the programs with the maps as
--   the managers leave them.
-- - pkg/bpf/c/vmlinux.h: Kernel/Types.antt and its children have the types that the programs read and
--   all that these hold by value, 143 in number. CType.antt gives sizes, alignments, bit-fields and
--   offsets of members after the x86-64 ABI, for which the file was made. Layout/Bounds.antt is about
--   the offsets.
-- - The helpers of bpf/bpf_helpers.h and bpf/bpf_core_read.h are not in the repository. Kernel.antt
--   takes them as a record of parameters (Kernel), with what their documentation says of them as
--   laws (IsKernel, IsForEach): each fills the buffer that it is given, bpf_for_each_map_elem
--   visits all elements while the callback returns 0. Relocation of members (CO-RE) is left out:
--   the kernel that runs has the layouts of vmlinux.h.
--
-- Prelude.antt passes library names on and adds Boolean tests, list functions and integers over the
-- native numbers. Buffer.antt has objects in memory as lists of bytes: an event is the list of the
-- assignments to its members in the order of the source, made on a zeroed object. Tests.antt runs
-- the model on a concrete kernel.
--
-- State and effects: a run of a program reads the kernel and its maps and changes neither; it returns
-- a value and sends events, so it is a function into Outcome. The maps are parameters of a run:
-- a hash map of paths is the list of its entries in the order of the kernel's visit, a set of keys or
-- a trie is the function that tells whether a lookup finds an entry. What a helper answers during a
-- run is fixed, and the file, mount or address that the hook is called with is an address in kernel
-- memory. Pointers to events handed to a callback are the bytes they point to, which do not change
-- meanwhile. A full ring or perf buffer, in which the kernel drops an event, is not modelled, nor is
-- bpf_printk.
--
-- In user space the maps are the list of the keys written so far (Store), or of the written keys and
-- values (Entries), passed on from setter to setter; libbpfgo (Libbpf, MapLib) is a parameter that
-- says of each call whether it succeeds, and net.ParseCIDR (ParseCidr) and the exchange with a DNS
-- server (Client, over a state W of the world) are parameters as well. What lies behind a variable in
-- memory, where an update reads beyond it, is a parameter (behind, Behind). A panic is a value of the
-- outcome (Result). The lookup in a trie of the kernel is a parameter whose law (IsTrie) is that of the
-- kernel's documentation: a key is found exactly if an entry is a prefix of it. The goroutines that
-- resolve domains are steps of one state in any order (Step, Steps), one step for one round; two
-- rounds do not overlap.
--
-- Bounds: the loops of `strcmp` and `strlen` are recursions on the number of rounds left, so no fuel
-- is chosen anywhere. Integers in events are bytes, little-endian, modulo 2 ^ (8 * size); a negative
-- result is stored in two's complement. In Network/Connect.antt the value that an uninitialised
-- pointer has for an IPv6 address is a parameter.
--
-- Not modelled: in pkg/audit the loading and attaching of the programs through libbpfgo, the goroutines
-- that wait for events, `cidrListDeleteKey`, which has no caller, and the timers and sockets of the
-- resolver and the proxy; in pkg/config the reading of YAML by a library and the defaults; pkg/log,
-- pkg/utils and cmd, which print, look at the system and start the parts.
pub mod Prelude
pub mod CType
pub mod Buffer
pub mod Common
pub mod Kernel
pub mod Layout
pub mod File
pub mod Mount
pub mod Network
pub mod Audit
pub mod Tests
